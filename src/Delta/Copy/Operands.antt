-- ===== src/Delta/Copy/Operands.antt =====
-- Any copy instruction that the decoder of src/delta accepts: each of its seven operand bytes is there
-- or not.
use native.Mathlib.Nat.{mul-le-mul_right}
use git_internal.Base.{
  ℕ, suc, ◌+◌, ◌*◌, ◌/◌, ◌^◌, ◌≤◌, ◌<◌, List, [], ◌∷◌, ◌++◌, Bytes, All, Option, none, some, ok,
  ◌==◌, if◌then◌else◌, length, ◌≡◌, refl, arith, ◌∙◌, ap, subst, append_assoc,
}
use git_internal.Base.Bits.{mask_one, bit_or_disjoint, two_pow_suc, two_pow_add_eight}
use git_internal.Base.Tables.{byte_fits}
use git_internal.Delta.Copy.{copy_operands, read_partial_loop, take_operand_byte, read_partial_int}

-- An operand, its lowest byte first. What each byte adds to the flags, to the stream and to the value.
abbrev pub Operand : Type 0
Operand = List (Option ℕ)

abbrev pub flag : Option ℕ → ℕ
flag none = 0
flag (some b) = 1

abbrev pub byte_of : Option ℕ → Bytes
byte_of none = []
byte_of (some b) = b ∷ []

abbrev pub digit : Option ℕ → ℕ
digit none = 0
digit (some b) = b

abbrev pub flags : Operand → ℕ
flags [] = 0
flags (o ∷ os) = flag o + 2 * flags os

abbrev pub present : Operand → Bytes
present [] = []
present (o ∷ os) = byte_of o ++ present os

abbrev pub number : Operand → ℕ
number [] = 0
number (o ∷ os) = digit o + 256 * number os

-- An operand of at most so many bytes.
pub record IsOperand (n : ℕ) (os : Operand) : Type 0 where
  pub sized : length os ≡ n
  pub bytes : All (λ o. digit o < 256) os

-- Where no size byte is there, or all are 0, a copy is of 64 KiB.
abbrev pub copied : Operand → ℕ
copied os = if number os == 0 then 65536 else number os

pub flags-lt : (os : Operand) → flags os < 2 ^ length os
flags-lt [] = omega arith
flags-lt (none ∷ os) = omega (arith, flags-lt os, two_pow_suc (length os))
flags-lt (some b ∷ os) = omega (arith, flags-lt os, two_pow_suc (length os))

-- Where the lowest flag is that of the byte, the byte is read and put in its place.
take_operand_byte-flag :
    (idx fs value : ℕ) (o : Option ℕ) (rest : Bytes)
    → digit o < 256
    → idx < 8
    → value < 2 ^ (idx * 8)
    → take_operand_byte idx (flag o + 2 * fs) value (byte_of o ++ rest)
      ≡ ok (value + digit o * 2 ^ (idx * 8), rest)
unfolding take_operand_byte
take_operand_byte-flag idx fs value none rest hb hi hv = rw (mask_one (0 + 2 * fs)) (ground arith)
take_operand_byte-flag idx fs value (some b) rest hb hi hv =
    rw (mask_one (1 + 2 * fs)) (ground (arith, bit_or_disjoint (idx * 8) value b, byte_fits idx b))

flag-lt : (o : Option ℕ) → flag o < 2
flag-lt none = omega arith
flag-lt (some b) = omega arith

digit_below : (b place value : ℕ) → b < 256 → value < place → value + b * place < 256 * place
digit_below b place value hb hv = grind (arith, mul-le-mul_right {m = b} {n = 255} place)

read_partial_loop-flags :
    (os : Operand) (idx hi value : ℕ) (rest : Bytes)
    → idx + length os ≤ 8
    → value < 2 ^ (idx * 8)
    → All (λ o. digit o < 256) os
    → read_partial_loop (length os) idx (flags os + 2 ^ length os * hi) value (present os ++ rest)
      ≡ ok (value + number os * 2 ^ (idx * 8), hi, rest)
unfolding read_partial_loop
read_partial_loop-flags [] idx hi value rest hi' hv hb = ground arith
read_partial_loop-flags (o ∷ os) idx hi value rest hi' hv (here, later) =
    let fs : ℕ = flags os + 2 ^ length os * hi in
    let small = flag-lt o in
    let below = digit_below (digit o) (2 ^ (idx * 8)) value here hv in
    let shape : flag o + 2 * flags os + 2 ^ suc (length os) * hi ≡ flag o + 2 * fs =
      omega (arith, ap (λ (t : ℕ). t * hi) (two_pow_suc (length os))) in
    let first : take_operand_byte idx (flag o + 2 * fs) value ((byte_of o ++ present os) ++ rest)
        ≡ ok (value + digit o * 2 ^ (idx * 8), present os ++ rest) =
      rw append_assoc
        (take_operand_byte-flag idx fs value o (present os ++ rest) here (omega arith) hv) in
    let half : (flag o + 2 * fs) / 2 ≡ fs = omega (arith, small) in
    let place : 2 ^ ((idx + 1) * 8) ≡ 256 * 2 ^ (idx * 8) =
      ap (λ k. 2 ^ k) (omega arith) ∙ two_pow_add_eight (idx * 8) in
    rw (shape, first, half)
      (read_partial_loop-flags os (idx + 1) hi (value + digit o * 2 ^ (idx * 8)) rest (omega arith)
          (omega (arith, place, below)) later
        ∙ ap (λ k. ok (k, hi, rest)) (omega (arith, ap (λ (t : ℕ). number os * t) place)))

read_partial_loop-number :
    (n : ℕ) (os : Operand) (hi : ℕ) (rest : Bytes)
    → n ≤ 8
    → IsOperand n os
    → read_partial_loop n 0 (flags os + 2 ^ n * hi) 0 (present os ++ rest)
      ≡ ok (number os, hi, rest)
read_partial_loop-number n os hi rest h whole =
    subst
      (λ m.
        read_partial_loop m 0 (flags os + 2 ^ m * hi) 0 (present os ++ rest)
        ≡ ok (number os, hi, rest))
      whole.sized
      (read_partial_loop-flags os 0 hi 0 rest (omega (arith, whole.sized)) (omega arith) whole.bytes
        ∙ ap (λ k. ok (k, hi, rest)) (omega arith))

-- The instruction of an offset and a size, and the bytes behind it.
abbrev pub instruction_of : Operand → Operand → ℕ
instruction_of offset size = 128 + (flags offset + 16 * flags size)

pub instruction_of-top_bit :
    (offset size : Operand)
    → IsOperand 4 offset
    → IsOperand 3 size
    → (128 ≤ instruction_of offset size) × (instruction_of offset size < 256)
instruction_of-top_bit offset size ho hs =
    let four : 2 ^ length offset ≡ 16 = ap (λ n. 2 ^ n) ho.sized in
    let three : 2 ^ length size ≡ 8 = ap (λ n. 2 ^ n) hs.sized in
    omega (arith, flags-lt offset, flags-lt size, four, three)

-- Whatever operand bytes are there, the decoder reads the two numbers.
pub copy_operands-instruction_of :
    (offset size : Operand) (rest : Bytes)
    → IsOperand 4 offset
    → IsOperand 3 size
    → copy_operands (instruction_of offset size) (present offset ++ (present size ++ rest))
      ≡ ok (number offset, copied size, rest)
unfolding copy_operands read_partial_int
copy_operands-instruction_of offset size rest ho hs =
    let cmd : instruction_of offset size ≡ flags offset + 16 * (flags size + 8 * 1) = omega arith in
    rw
      (
        cmd,
        read_partial_loop-number 4 offset (flags size + 8 * 1) (present size ++ rest) (omega arith)
            ho,
        read_partial_loop-number 3 size 1 rest (omega arith) hs,
      )
      refl
