-- ===== src/Copy.antt =====
-- src/bitstream/bitstream_write.c, `tp_bs_copy_bits`: from a reader to a writer. The two handles are
-- distinct objects, and the writer's buffer is not the reader's.
pub mod Laws
use triepack.Base.{
  ℕ, zero, suc, ◌+◌, ◌*◌, ◌%◌, ◌^◌, ltb, if◌then◌else◌, Bool, Option, none, some, u64,
}
use triepack.Outcome.{Out, ok, err, fault, hang, eof, M, and_then}
use triepack.Buffer.{read_bit_msb}
use triepack.Reader.{Reader}
use triepack.Writer.{Writer, set_bit, ensure_capacity}

-- The outcome of a step of the writer, with the reader beside it.
abbrev pub beside : {A : Type 0} → Reader → Out Writer A → Out (Reader × Writer) A
beside r (ok a w) = ok a (r, w)
beside r (err e w) = err e (r, w)
beside r fault = fault
beside r hang = hang

-- The rounds of the loop that are left.
unfoldable pub copy_loop : ℕ → M (Reader × Writer) (Unit {0})
copy_loop zero s = ok tt s
copy_loop (suc left) (r, w) = elim (read_bit_msb r.buf r.pos) [
  | none ↦ fault
  | some bit ↦
      and_then (beside (record r { pos = u64 (r.pos + 1) }) (set_bit bit w)) (λ _. copy_loop left)
]

unfoldable pub copy_bits : (ℕ → Bool) → ℕ → M (Reader × Writer) (Unit {0})
copy_bits grants n_bits (r, w) =
    if ltb r.bit_len (u64 (r.pos + n_bits))
    then err eof (r, w)
    else and_then (beside r (ensure_capacity grants n_bits w)) (λ _. copy_loop n_bits)
