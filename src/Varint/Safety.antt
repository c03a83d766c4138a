-- ===== src/Varint/Safety.antt =====
-- The varint readers on any stream.
use triepack.Base.{ℕ, zero, suc, ◌+◌, refl, ltb, u64, bit_and, ◌==◌, Bool-cases, inl, inr}
use triepack.Reader.{Reader}
use triepack.Rom.{add_group}
use triepack.Reader.Safety.{IsValid, IsSafe, err_safe, Safe-bind, IsSafe-bind, IsSafe-pure}
use triepack.Reader.Robust.{IsSafe-if, Safe-if, read_bits-IsSafe}
use triepack.Reader.Onward.{Onward, err_onward, Onward-bind, Onward-pure, read_bits-Onward}
use triepack.Varint.{read_groups, read_varint_u, read_varint_s, unzigzag}

-- Whatever the bytes are, the loop ends with a value or an error code.
read_groups-IsSafe : (groups val shift : ℕ) → IsSafe (read_groups groups val shift)
unfolding read_groups
read_groups-IsSafe zero val shift r v = err_safe v refl refl
read_groups-IsSafe (suc groups) val shift r v =
    Safe-if (ltb r.bit_len (u64 (r.pos + 8))) (λ _. err_safe v refl refl)
      (λ _. Safe-bind _ (read_bits-IsSafe 8 r v) (λ byte_val.
        IsSafe-if (bit_and byte_val 0x80 == 0) (IsSafe-pure _)
          (read_groups-IsSafe groups (add_group val byte_val shift) (shift + 7))))

pub read_varint_u-IsSafe : IsSafe read_varint_u
unfolding read_varint_u
read_varint_u-IsSafe = read_groups-IsSafe 10 0 0

pub read_varint_s-IsSafe : IsSafe read_varint_s
unfolding read_varint_s
read_varint_s-IsSafe =
    IsSafe-bind read_varint_u _ read_varint_u-IsSafe (λ raw. IsSafe-pure (unzigzag raw))

-- Nor does it move back.
read_groups-Onward :
    (groups val shift : ℕ) (r : Reader) → IsValid r → Onward r (read_groups groups val shift r)
unfolding read_groups
read_groups-Onward zero val shift r v = err_onward v refl refl
read_groups-Onward (suc groups) val shift r v =
    elim (Bool-cases (ltb r.bit_len (u64 (r.pos + 8)))) [
      | inl e ↦ rw e (err_onward v refl refl)
      | inr e ↦ rw e (
          Onward-bind _ (read_bits-Onward 8 r v) (λ byte_val s w.
            elim (Bool-cases (bit_and byte_val 0x80 == 0)) [
              | inl t ↦ rw t (Onward-pure _ s w)
              | inr t ↦
                  rw t (read_groups-Onward groups (add_group val byte_val shift) (shift + 7) s w)
            ]))
    ]

pub read_varint_u-Onward : (r : Reader) → IsValid r → Onward r (read_varint_u r)
unfolding read_varint_u
read_varint_u-Onward = read_groups-Onward 10 0 0
