-- ===== src/Reader/Wrap.antt =====
-- The bound check of `tp_bs_reader_direct_ptr` and of `tp_bs_reader_advance`, where it wraps around.
use triepack.Base.{
  ◌+◌, ◌*◌, ◌/◌, ◌%◌, ◌^◌, ◌≤◌, ◌<◌, ◌≡◌, arith, length, length-drop, drop, ◌-◌, u64,
}
use triepack.Outcome.{ok}
use triepack.Reader.{Reader, direct_ptr, advance}
use triepack.Reader.Safety.{IsValid}

-- On a valid reader over fewer than 2 ^ 61 bytes, on a byte boundary from bit 8 on,
-- `tp_bs_reader_direct_ptr` grants 2 ^ 61 bytes, more than its pointer has, and does not move; and
-- `tp_bs_reader_advance` by 2 ^ 64 - 8 bits succeeds and steps 8 bits back.
pub direct_ptr-wraps :
    (r : Reader)
    → IsValid r
    → r.pos % 8 ≡ 0
    → length r.buf < 2 ^ 61
    → 8 ≤ r.pos
    → (direct_ptr (2 ^ 61) r ≡ ok (drop (r.pos / 8) r.buf) r)
      × (length (drop (r.pos / 8) r.buf) < 2 ^ 61)
      × (advance (2 ^ 64 - 8) r ≡ ok tt (record r { pos = r.pos - 8 }))
unfolding direct_ptr advance
direct_ptr-wraps r v aligned short far =
    let same : u64 (r.pos + u64 (2 ^ 61 * 8)) ≡ r.pos = omega (arith, v.cursor, v.word) in
    let back : u64 (r.pos + (2 ^ 64 - 8)) ≡ r.pos - 8 = omega (arith, v.cursor, v.word) in
    (
      ground (arith, same, v.cursor),
      omega (arith, length-drop (r.pos / 8) r.buf),
      ground (arith, back, v.cursor),
    )
