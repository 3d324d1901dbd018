-- ===== src/Hash/Digest/Loose.antt =====
-- The identifiers that src/internal/pack/utils.rs computes while a pack is decoded.
use mathlib.Core.Option
use native.Mathlib.Nat.{pow-suc}
use git_internal.Base.{
  ℕ, zero, suc, ◌+◌, ◌/◌, ◌%◌, ◌^◌, ◌<◌, Bool, false, [], ◌∷◌, ◌++◌, Bytes, ◌==◌, ltb,
  if◌then◌else◌, length, Result, ok, ◌>>=◌, Option, inl, inr, Bool-cases, Option-cases, ltb→lt,
  ltb→le, ◌≡◌, refl, sym, ap, ◌∙◌, append_assoc, append-nil, arith,
}
use git_internal.Base.Decimal.{decimal, decimal_loop}
use git_internal.Object.Types.{ObjectType}
use git_internal.Object.Names.{to_bytes}
use git_internal.Hash.{
  HashKind, ObjectHash, HashError, unsupported_object_type, in_calculate, in_from_type_and_data,
  size,
}
use git_internal.Hash.Parse.{ok_or}
use git_internal.Hash.Digest.{
  Digests, HashAlgorithm, hasher_for_kind, update, finalize_object_hash,
  from_type_and_data_for_kind,
}

-- The digits stand at the end of a buffer of twenty bytes, which is filled from its end.
abbrev pub digits_loop : ℕ → ℕ → Bytes → Bytes
digits_loop zero value buf = buf
digits_loop (suc rounds) value buf =
    let rest = digits_loop rounds (value / 10) ((48 + value % 10) ∷ buf) in
    if value == 0 then buf else rest

unfoldable pub decimal_usize_bytes : ℕ → Bytes
decimal_usize_bytes value = if value == 0 then 48 ∷ [] else digits_loop 20 value []

module _ (d : Digests) where
  unfoldable pub hash_loose_object : HashAlgorithm d → Bytes → Bytes → ObjectHash
  hash_loose_object hasher type_bytes bs =
      let hasher = update d hasher type_bytes in
      let hasher = update d hasher (32 ∷ []) in
      let hasher = update d hasher (decimal_usize_bytes (length bs)) in
      let hasher = update d hasher (0 ∷ []) in
      let hasher = update d hasher bs in finalize_object_hash d hasher

  unfoldable pub calculate_object_hash_for_kind :
      {X : Type 0} → HashKind → ObjectType → Bytes → Result (HashError X) ObjectHash
  calculate_object_hash_for_kind k obj_type bs = do
    type_bytes ←
        ok_or (to_bytes obj_type)
          (unsupported_object_type in_calculate k obj_type (size k) 0 (length bs))
    ok (hash_loose_object (hasher_for_kind d k) type_bytes bs)

  -- It panics where the type has no name; the kind is the thread's.
  unfoldable pub calculate_object_hash : HashKind → ObjectType → Bytes → Option ObjectHash
  calculate_object_hash k obj_type bs =
      Option.map (λ (type_bytes : Bytes). hash_loose_object (hasher_for_kind d k) type_bytes bs)
        (to_bytes obj_type)

digits_loop-zero : (rounds : ℕ) (buf : Bytes) → digits_loop rounds 0 buf ≡ buf
digits_loop-zero zero buf = refl
digits_loop-zero (suc rounds) buf = refl

digits_loop-one :
    (rounds value : ℕ) (buf : Bytes)
    → value < 10
    → digits_loop rounds (value / 10) ((48 + value % 10) ∷ buf) ≡ (48 + value) ∷ buf
digits_loop-one rounds value buf h =
    let none_left : value / 10 ≡ 0 = omega arith in
    let digit : value % 10 ≡ value = omega arith in
    rw (none_left, digit) (digits_loop-zero rounds ((48 + value) ∷ buf))

digits_loop-decimal_loop :
    (rounds value : ℕ) (buf : Bytes)
    → value < 10 ^ rounds
    → (value == 0) ≡ false
    → digits_loop rounds value buf ≡ decimal_loop rounds value ++ buf
digits_loop-decimal_loop zero value buf h nz = refl
digits_loop-decimal_loop (suc rounds) value buf h nz = elim (Bool-cases (ltb value 10)) [
  | inl one ↦ rw (nz, one) (digits_loop-one rounds value buf (ltb→lt value 10 one))
  | inr more ↦
      let power = pow-suc 10 rounds in
      let digits =
        digits_loop-decimal_loop rounds (value / 10) ((48 + value % 10) ∷ buf)
          (omega (arith, h, power)) (ground (arith, ltb→le value 10 more)) in
      rw (nz, more)
        (digits
          ∙ sym (append_assoc (decimal_loop rounds (value / 10)) ((48 + value % 10) ∷ []) buf))
]

pub decimal_usize_bytes-decimal :
    (value : ℕ) → value < 10 ^ 20 → decimal_usize_bytes value ≡ decimal value
unfolding decimal_usize_bytes
decimal_usize_bytes-decimal zero h = refl
decimal_usize_bytes-decimal (suc value) h =
    let some_digit : (suc value == 0) ≡ false = ground arith in
    ap (λ (b : Bool). if b then 48 ∷ [] else digits_loop 20 (suc value) []) some_digit
    ∙ digits_loop-decimal_loop 20 (suc value) [] h some_digit
    ∙ append-nil (decimal (suc value))

module _ (d : Digests) where
  -- For a payload that a usize can measure, the pack decoder's hash is the identifier that
  -- `ObjectHash::from_type_and_data_for_kind` gives, and on a thread of the kind its legacy form
  -- gives the same; for the delta types one is an error and the other panics.
  pub calculate_object_hash-from_type_and_data_for_kind :
      {X : Type 0} (k : HashKind) (obj_type : ObjectType) (bs : Bytes)
      → length bs < 2 ^ 64
      → (ok_or
            (calculate_object_hash d k obj_type bs)
            (unsupported_object_type in_calculate k obj_type (size k) 0 (length bs))
          ≡ calculate_object_hash_for_kind d {X = X} k obj_type bs)
        × (ok_or
              (calculate_object_hash d k obj_type bs)
              (unsupported_object_type in_from_type_and_data k obj_type (size k) 0 (length bs))
            ≡ from_type_and_data_for_kind d {X = X} k obj_type bs)
  unfolding calculate_object_hash calculate_object_hash_for_kind hash_loose_object
      from_type_and_data_for_kind
  calculate_object_hash-from_type_and_data_for_kind k obj_type bs h =
      let digits = decimal_usize_bytes-decimal (length bs) (omega (arith, h)) in
      elim (Option-cases (to_bytes obj_type)) [
        | inl unnamed ↦ rw unnamed (refl, refl)
        | inr (name, named) ↦ rw (named, digits) (refl, refl)
      ]
