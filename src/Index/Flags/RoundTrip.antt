-- ===== src/Index/Flags/RoundTrip.antt =====
-- The flags of an index entry, src/internal/index.rs, written and read again.
use git_internal.Base.{
  ℕ, zero, suc, ◌+◌, ◌*◌, ◌/◌, ◌%◌, ◌^◌, ◌<◌, bit_and, bit_or, Bool, true, false, not, ◌==◌,
  if◌then◌else◌, some, ok, ◌≡◌, refl, ap, ap₂, ◌∙◌, arith, le→ltb,
}
use git_internal.Base.Bits.{
  bit_and_parts, bit_or_disjoint_left, bit_and-le, mask_twelve, bit_or_parts, bit_or-zero,
}
use git_internal.Index.Flags.{
  Flags, from_u16, high_flags, to_u16, from_extended_word, extended_bits, packed,
}

abbrev bit_value : Bool → ℕ
bit_value true = 1
bit_value false = 0

-- The upper four bits.
abbrev upper : Bool → Bool → ℕ → ℕ
upper assume_valid extended stage = bit_value assume_valid * 8 + bit_value extended * 4 + stage

upper-lt : (a e : Bool) (stage : ℕ) → stage < 4 → upper a e stage < 16
upper-lt true true stage h = omega arith
upper-lt true false stage h = omega arith
upper-lt false true stage h = omega arith
upper-lt false false stage h = omega arith

four_stages {ℓ} : (P : ℕ → Type ℓ) → P 0 → P 1 → P 2 → P 3 → (stage : ℕ) → stage < 4 → P stage
four_stages P p0 p1 p2 p3 zero h = p0
four_stages P p0 p1 p2 p3 (suc zero) h = p1
four_stages P p0 p1 p2 p3 (suc (suc zero)) h = p2
four_stages P p0 p1 p2 p3 (suc (suc (suc zero))) h = p3
four_stages P p0 p1 p2 p3 (suc (suc (suc (suc s)))) h = absurd (omega arith)

high_flags-upper :
    (a e : Bool) (stage : ℕ) → stage < 4 → high_flags a e stage ≡ upper a e stage * 2 ^ 12
high_flags-upper true true =
    four_stages (λ s. high_flags true true s ≡ upper true true s * 2 ^ 12) refl refl refl refl
high_flags-upper true false =
    four_stages (λ s. high_flags true false s ≡ upper true false s * 2 ^ 12) refl refl refl refl
high_flags-upper false true =
    four_stages (λ s. high_flags false true s ≡ upper false true s * 2 ^ 12) refl refl refl refl
high_flags-upper false false =
    four_stages (λ s. high_flags false false s ≡ upper false false s * 2 ^ 12) refl refl refl refl

-- What is read of a word, by its upper four and its lower twelve bits.
abbrev decoded : ℕ → ℕ → Flags
decoded u name_len = record {
  assume_valid = not (bit_and u 8 * 2 ^ 12 == 0);
  extended = not (bit_and u 4 * 2 ^ 12 == 0);
  stage = bit_and u 3 * 2 ^ 12 / 2 ^ 12 % 256;
  name_length = name_len;
  skip_worktree = false;
  intent_to_add = false;
}

high_mask :
    (u name_len mask word_mask : ℕ)
    → name_len < 2 ^ 12
    → mask * 2 ^ 12 ≡ word_mask
    → bit_and (name_len + u * 2 ^ 12) word_mask ≡ bit_and u mask * 2 ^ 12
high_mask u name_len mask word_mask h e =
    ap (bit_and (name_len + u * 2 ^ 12)) {x = word_mask} {y = 0 + mask * 2 ^ 12} (omega (arith, e))
    ∙ bit_and_parts 12 name_len 0 u mask h (omega arith)
    ∙ omega (arith, bit_and-le name_len 0)

low_mask : (u name_len : ℕ) → name_len < 2 ^ 12 → bit_and (name_len + u * 2 ^ 12) 0xfff ≡ name_len
low_mask u name_len h = omega (arith, mask_twelve (name_len + u * 2 ^ 12))

from_u16-decoded :
    (u name_len : ℕ) → name_len < 2 ^ 12 → from_u16 (name_len + u * 2 ^ 12) ≡ decoded u name_len
unfolding from_u16
from_u16-decoded u name_len h =
    rw
      (
        high_mask u name_len 8 0x8000 h refl,
        high_mask u name_len 4 0x4000 h refl,
        high_mask u name_len 3 0x3000 h refl,
        low_mask u name_len h,
      )
      refl

abbrev pub with_flags : Bool → Bool → ℕ → ℕ → Flags
with_flags a e stage name_len = record {
  assume_valid = a;
  extended = e;
  stage = stage;
  name_length = name_len;
  skip_worktree = false;
  intent_to_add = false;
}

decoded-upper :
    (a e : Bool) (stage name_len : ℕ)
    → stage < 4
    → decoded (upper a e stage) name_len ≡ with_flags a e stage name_len
decoded-upper true true stage n h =
    four_stages (λ s. decoded (upper true true s) n ≡ with_flags true true s n) refl refl refl refl
      stage h
decoded-upper true false stage n h =
    four_stages (λ s. decoded (upper true false s) n ≡ with_flags true false s n) refl refl refl
      refl stage h
decoded-upper false true stage n h =
    four_stages (λ s. decoded (upper false true s) n ≡ with_flags false true s n) refl refl refl
      refl stage h
decoded-upper false false stage n h =
    four_stages (λ s. decoded (upper false false s) n ≡ with_flags false false s n) refl refl refl
      refl stage h

extended_upper :
    (a e : Bool) (stage : ℕ) → stage < 4 → bit_or (upper a e stage) 4 ≡ upper a true stage
extended_upper true true =
    four_stages (λ s. bit_or (upper true true s) 4 ≡ upper true true s) refl refl refl refl
extended_upper true false =
    four_stages (λ s. bit_or (upper true false s) 4 ≡ upper true true s) refl refl refl refl
extended_upper false true =
    four_stages (λ s. bit_or (upper false true s) 4 ≡ upper false true s) refl refl refl refl
extended_upper false false =
    four_stages (λ s. bit_or (upper false false s) 4 ≡ upper false true s) refl refl refl refl

-- The bit for the extended word, set once more on a finished word.
set_extended :
    (a e : Bool) (stage name_len : ℕ)
    → stage < 4
    → name_len < 2 ^ 12
    → bit_or (name_len + upper a e stage * 2 ^ 12) 0x4000 ≡ name_len + upper a true stage * 2 ^ 12
set_extended a e stage name_len h fits =
    ap (bit_or (name_len + upper a e stage * 2 ^ 12)) {x = 0x4000} {y = 0 + 4 * 2 ^ 12} refl
    ∙ bit_or_parts 12 name_len 0 (upper a e stage) 4 fits (omega arith)
    ∙ ap₂ (λ (n u : ℕ). n + u * 2 ^ 12) (bit_or-zero name_len) (extended_upper a e stage h)

word-lt :
    (a e : Bool) (stage name_len : ℕ)
    → stage < 4
    → name_len < 2 ^ 12
    → name_len + upper a e stage * 2 ^ 12 < 2 ^ 16
word-lt a e stage name_len h fits = omega (arith, upper-lt a e stage h)

to_u16-upper :
    (flags : Flags)
    → flags.stage < 4
    → flags.name_length < 2 ^ 12
    → to_u16 flags
      ≡ some (flags.name_length + upper flags.assume_valid flags.extended flags.stage * 2 ^ 12)
unfolding to_u16
to_u16-upper flags small fits =
    let u = upper flags.assume_valid flags.extended flags.stage in
    rw (le→ltb 0xfff flags.name_length (omega arith)) (
      ap some (
        ap (λ (h : ℕ). bit_or h flags.name_length)
          (high_flags-upper flags.assume_valid flags.extended flags.stage small)
        ∙ bit_or_disjoint_left 12 flags.name_length u fits))

-- Flags whose stage is below four and whose length fits have a word of sixteen bits, which is read
-- back as those flags, without the two that stand in the extended word; where such a word follows,
-- the flag for it is set.
pub from_u16-to_u16 :
    (flags : Flags) (has_word : Bool)
    → flags.stage < 4
    → flags.name_length < 2 ^ 12
    → (word : ℕ) × (to_u16 flags ≡ some word)
      × (packed has_word word < 2 ^ 16)
      × (from_u16 (packed has_word word)
          ≡ with_flags flags.assume_valid
              (if has_word then true else flags.extended)
              flags.stage
              flags.name_length)
from_u16-to_u16 flags false small fits =
    let a = flags.assume_valid in
    let e = flags.extended in
    (
      flags.name_length + upper a e flags.stage * 2 ^ 12,
      to_u16-upper flags small fits,
      word-lt a e flags.stage flags.name_length small fits,
      from_u16-decoded (upper a e flags.stage) flags.name_length fits
          ∙ decoded-upper a e flags.stage flags.name_length small,
    )
from_u16-to_u16 flags true small fits =
    let a = flags.assume_valid in
    let word = set_extended a flags.extended flags.stage flags.name_length small fits in
    (
      flags.name_length + upper a flags.extended flags.stage * 2 ^ 12,
      to_u16-upper flags small fits,
      omega (arith, word, word-lt a true flags.stage flags.name_length small fits),
      ap from_u16 word
          ∙ from_u16-decoded (upper a true flags.stage) flags.name_length fits
          ∙ decoded-upper a true flags.stage flags.name_length small,
    )

-- The extended word is read back as its two flags, and fits sixteen bits.
pub from_extended_word-extended_bits :
    (skip_worktree intent_to_add : Bool)
    → (from_extended_word (extended_bits skip_worktree intent_to_add)
        ≡ ok (skip_worktree, intent_to_add))
      × (extended_bits skip_worktree intent_to_add < 2 ^ 16)
unfolding from_extended_word
from_extended_word-extended_bits true true = (refl, omega arith)
from_extended_word-extended_bits true false = (refl, omega arith)
from_extended_word-extended_bits false true = (refl, omega arith)
from_extended_word-extended_bits false false = (refl, omega arith)
