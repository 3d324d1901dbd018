-- ===== src/Delta/Rabin/Match.antt =====
-- src/delta/encode/rabin/extend_match.rs: how far two buffers agree, a word at a time. A `usize`
-- has 64 bits, and the platform is little-endian (`cfg!(target_endian = "little")`).
pub mod Words
pub mod Reference
use git_internal.Base.{
  ℕ, zero, suc, ◌+◌, ◌-◌, ◌*◌, ◌/◌, ◌%◌, min, bit_xor, Bool, true, false, not, List, [], ◌∷◌, Bytes,
  leb, ltb, ◌==◌, if◌then◌else◌, length, take, drop, get_or,
}

abbrev pub word_size : ℕ
word_size = 8

-- `usize::trailing_zeros`, over the bits that are left; a word of zeros has as many as bits.
pub trailing_zeros : ℕ → ℕ → ℕ
trailing_zeros zero x = 0
trailing_zeros (suc bits) x = if x % 2 == 1 then 0 else suc (trailing_zeros bits (x / 2))

pub first_different_byte : ℕ → ℕ
first_different_byte diff = trailing_zeros 64 diff / 8

-- `usize::from_ne_bytes`.
pub from_ne_bytes : Bytes → ℕ
from_ne_bytes [] = 0
from_ne_bytes (b ∷ bs) = b + from_ne_bytes bs * 256

pub word_at : Bytes → ℕ → ℕ
word_at tail i = from_ne_bytes (take word_size (drop i tail))

-- The slow path: `fuel` is `max - i`.
pub byte_loop : ℕ → Bytes → Bytes → ℕ → ℕ
byte_loop zero src_tail tgt_tail i = i
byte_loop (suc fuel) src_tail tgt_tail i =
    let rest = byte_loop fuel src_tail tgt_tail (i + 1) in
    if not (get_or src_tail i 0 == get_or tgt_tail i 0) then i else rest

-- The fast path, and the slow one behind it. Each round moves `i` on, so `max` rounds are enough.
pub word_loop : ℕ → Bytes → Bytes → ℕ → ℕ → ℕ
word_loop zero src_tail tgt_tail max i = byte_loop (max - i) src_tail tgt_tail i
word_loop (suc fuel) src_tail tgt_tail max i =
    let diff = bit_xor (word_at src_tail i) (word_at tgt_tail i) in
    let rest = word_loop fuel src_tail tgt_tail max (i + word_size) in
    if leb (i + word_size) max
    then (if not (diff == 0) then i + first_different_byte diff else rest)
    else byte_loop (max - i) src_tail tgt_tail i

unfoldable pub extend_match : Bytes → Bytes → ℕ → ℕ → ℕ → ℕ
unfolding word_loop byte_loop word_at from_ne_bytes first_different_byte trailing_zeros
extend_match src_data target ref_start data_pos max_match =
    if ltb (length src_data) ref_start
    then 0
    else if ltb (length target) data_pos
    then 0
    else (let src_tail = drop ref_start src_data in
        let tgt_tail = drop data_pos target in
        let max = min (min max_match (length src_tail)) (length tgt_tail) in
        word_loop max src_tail tgt_tail max 0)
