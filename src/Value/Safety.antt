-- ===== src/Value/Safety.antt =====
-- `tp_value_decode` on any stream.
use triepack.Base.{ℕ, ◌*◌, Bool, u64, ◌==◌}
use triepack.Outcome.{invalid_param}
use triepack.Reader.{Reader, read_bits}
use triepack.Reader.Safety.{IsValid, Safe, IsSafe, IsSafe-bind, IsSafe-pure, IsSafe-throw}
use triepack.Reader.Robust.{
  IsSafe-if, read_bits-IsSafe, read_bit-IsSafe, read_u32-IsSafe, read_u64-IsSafe,
  align_to_byte-IsSafe, direct_ptr-IsSafe, advance-IsSafe,
}
use triepack.Varint.Safety.{read_varint_u-IsSafe, read_varint_s-IsSafe}
use triepack.Value.{read_payload, decode_data, decode}

read_payload-IsSafe : (b : Bool) → IsSafe (read_payload b)
unfolding read_payload
read_payload-IsSafe b = IsSafe-bind _ _ read_varint_u-IsSafe (λ len.
    IsSafe-bind _ _ align_to_byte-IsSafe (λ _.
      IsSafe-if b (IsSafe-bind _ _ (direct_ptr-IsSafe len) (λ _. IsSafe-pure _))
        (IsSafe-bind _ _ (advance-IsSafe (u64 (len * 8))) (λ _. IsSafe-pure _))))

decode_data-IsSafe : (b : Bool) (t : ℕ) → IsSafe (decode_data b t)
unfolding decode_data
decode_data-IsSafe b t = IsSafe-if (t == 0) (IsSafe-pure _) (
    IsSafe-if (t == 1) (IsSafe-bind _ _ read_bit-IsSafe (λ _. IsSafe-pure _)) (
      IsSafe-if (t == 2) (IsSafe-bind _ _ read_varint_s-IsSafe (λ _. IsSafe-pure _)) (
        IsSafe-if (t == 3) (IsSafe-bind _ _ read_varint_u-IsSafe (λ _. IsSafe-pure _)) (
          IsSafe-if (t == 4) (IsSafe-bind _ _ read_u32-IsSafe (λ _. IsSafe-pure _)) (
            IsSafe-if (t == 5) (IsSafe-bind _ _ read_u64-IsSafe (λ _. IsSafe-pure _)) (
              IsSafe-if (t == 6) (IsSafe-bind _ _ (read_payload-IsSafe b) (λ _. IsSafe-pure _)) (
                IsSafe-if (t == 7) (IsSafe-bind _ _ (read_payload-IsSafe b) (λ _. IsSafe-pure _)) (
                  IsSafe-if (t == 8) (IsSafe-throw invalid_param)
                    (IsSafe-if (t == 9) (IsSafe-throw invalid_param) (IsSafe-pure _))))))))))

-- On any valid reader `tp_value_decode`, with or without a base buffer, ends with a value or an error
-- code, and leaves a valid reader of the same stream.
pub decode-IsSafe : (with_base : Bool) (r : Reader) → IsValid r → Safe r (decode with_base r)
unfolding decode
decode-IsSafe b = IsSafe-bind (read_bits 4) _ (read_bits-IsSafe 4) (decode_data-IsSafe b)
