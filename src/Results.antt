-- ===== src/Results.antt =====
-- src/bitstream/bitstream.c: `tp_result_str`. `none` is `TP_OK`.
use Prim.Native.String.{String}
use text.Mathlib.Text.{◌==◌}
use mathlib.Core.Option.{some-injective}
use triepack.Base.{◌≡◌, refl, ap, sym, ◌∙◌, if◌then◌else◌, Option, none, some, List, [], ◌∷◌}
use triepack.Outcome.{
  Error, eof, alloc, invalid_param, invalid_position, not_aligned, overflow, invalid_utf8,
  bad_magic, version, corrupt, not_found, truncated, alphabet, unsupported, json_syntax, json_depth,
  json_type,
}

unfoldable pub result_str : Option Error → String
result_str none = "OK"
result_str (some eof) = "read past end of stream"
result_str (some alloc) = "memory allocation failed"
result_str (some invalid_param) = "invalid parameter"
result_str (some invalid_position) = "seek beyond bounds"
result_str (some not_aligned) = "not byte-aligned"
result_str (some overflow) = "varint overflow"
result_str (some invalid_utf8) = "invalid UTF-8"
result_str (some bad_magic) = "bad magic bytes"
result_str (some version) = "unsupported version"
result_str (some corrupt) = "data corrupt"
result_str (some not_found) = "key not found"
result_str (some truncated) = "data truncated"
result_str (some alphabet) = "keys use too many distinct byte values"
result_str (some unsupported) = "operation not implemented"
result_str (some json_syntax) = "JSON syntax error"
result_str (some json_depth) = "JSON nesting too deep"
result_str (some json_type) = "JSON type mismatch"

abbrev all_results : List (Option Error)
all_results =
    none
    ∷ some eof
    ∷ some alloc
    ∷ some invalid_param
    ∷ some invalid_position
    ∷ some not_aligned
    ∷ some overflow
    ∷ some invalid_utf8
    ∷ some bad_magic
    ∷ some version
    ∷ some corrupt
    ∷ some not_found
    ∷ some truncated
    ∷ some alphabet
    ∷ some unsupported
    ∷ some json_syntax
    ∷ some json_depth
    ∷ some json_type
    ∷ []

-- The first result with the given text.
named : String → List (Option Error) → Option (Option Error)
unfolding result_str
named s [] = none
named s (r ∷ rs) = let rest = named s rs in if result_str r == s then some r else rest

named-result_str : (r : Option Error) → named (result_str r) all_results ≡ some r
unfolding named result_str
named-result_str none = refl
named-result_str (some eof) = refl
named-result_str (some alloc) = refl
named-result_str (some invalid_param) = refl
named-result_str (some invalid_position) = refl
named-result_str (some not_aligned) = refl
named-result_str (some overflow) = refl
named-result_str (some invalid_utf8) = refl
named-result_str (some bad_magic) = refl
named-result_str (some version) = refl
named-result_str (some corrupt) = refl
named-result_str (some not_found) = refl
named-result_str (some truncated) = refl
named-result_str (some alphabet) = refl
named-result_str (some unsupported) = refl
named-result_str (some json_syntax) = refl
named-result_str (some json_depth) = refl
named-result_str (some json_type) = refl

-- No two results have the same text.
pub result_str_injective : (a b : Option Error) → result_str a ≡ result_str b → a ≡ b
result_str_injective a b e =
    some-injective a b
      (sym (named-result_str a) ∙ ap (λ s. named s all_results) e ∙ named-result_str b)
