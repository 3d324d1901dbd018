-- ===== src/Base/Elements.antt =====
-- What changes an element of a list, and what holds of each.
use Prim.Native.Nat.{ℕ, zero, suc}
use mathlib.Core.Path.{◌≡◌, refl, ap, subst}
use mathlib.Core.Logic.{◌⊎◌, inl, inr}
use mathlib.Core.List.{List, [], ◌∷◌, ◌++◌, map}
use mathlib.Core.Option.{some}
use git_internal.Base.Lists.{length, get_or, set, replicate, last?, set_last, All, last?-split}

module _ {ℓ} {A : Type ℓ} where
  pub length-replicate : (n : ℕ) (a : A) → length (replicate n a) ≡ n
  length-replicate zero a = refl
  length-replicate (suc n) a = ap suc (length-replicate n a)

  pub get_or-replicate : (n i : ℕ) (a : A) → get_or (replicate n a) i a ≡ a
  get_or-replicate zero i a = refl
  get_or-replicate (suc n) zero a = refl
  get_or-replicate (suc n) (suc i) a = get_or-replicate n i a

  pub All-replicate {κ} : (P : A → Type κ) (n : ℕ) (a : A) → P a → All P (replicate n a)
  All-replicate P zero a h = tt
  All-replicate P (suc n) a h = (h, All-replicate P n a h)

  pub All-map {κ ι} :
      {P : A → Type κ} {Q : A → Type ι} (f : (a : A) → P a → Q a) (xs : List A)
      → All P xs
      → All Q xs
  All-map f [] h = tt
  All-map f (x ∷ xs) (h, hs) = (f x h, All-map f xs hs)

  pub length-map {κ} : {B : Type κ} (f : A → B) (xs : List A) → length (map f xs) ≡ length xs
  length-map f [] = refl
  length-map f (x ∷ xs) = ap suc (length-map f xs)

  pub length-set : (xs : List A) (i : ℕ) (v : A) → length (set xs i v) ≡ length xs
  length-set [] i v = refl
  length-set (x ∷ xs) zero v = refl
  length-set (x ∷ xs) (suc i) v = ap suc (length-set xs i v)

  pub last?-append : (xs : List A) (v : A) → last? (xs ++ v ∷ []) ≡ some v
  last?-append [] v = refl
  last?-append (x ∷ []) v = refl
  last?-append (x ∷ y ∷ xs) v = last?-append (y ∷ xs) v

  pub last?-set_last :
      (xs : List A) {t : A} (v : A) → last? xs ≡ some t → last? (set_last xs v) ≡ some v
  last?-set_last xs v e =
      let (front, split, keep) = last?-split xs e in rw keep (last?-append front v)

  -- A read of what was written, or of a place out of range.
  pub get_or-set_cases :
      (xs : List A) (i : ℕ) (v d : A)
      → (get_or (set xs i v) i d ≡ v) ⊎ (get_or (set xs i v) i d ≡ d)
  get_or-set_cases [] i v d = inr refl
  get_or-set_cases (x ∷ xs) zero v d = inl refl
  get_or-set_cases (x ∷ xs) (suc i) v d = get_or-set_cases xs i v d

  pub All-set {κ} :
      (P : A → Type κ) (i : ℕ) (v : A) (xs : List A) → All P xs → P v → All P (set xs i v)
  All-set P i v [] h hv = tt
  All-set P zero v (x ∷ xs) (h, hs) hv = (hv, hs)
  All-set P (suc i) v (x ∷ xs) (h, hs) hv = (h, All-set P i v xs hs hv)

  pub All-get_or {κ} :
      (P : A → Type κ) (i : ℕ) (d : A) (xs : List A) → P d → All P xs → P (get_or xs i d)
  All-get_or P i d [] hd h = hd
  All-get_or P zero d (x ∷ xs) hd (h, hs) = h
  All-get_or P (suc i) d (x ∷ xs) hd (h, hs) = All-get_or P i d xs hd hs

  pub All-last? {κ} : (P : A → Type κ) (xs : List A) {t : A} → All P xs → last? xs ≡ some t → P t
  All-last? P [] h e = cc
  All-last? P (x ∷ []) (h, hs) e = let same : x ≡ _ = cc in subst P same h
  All-last? P (x ∷ y ∷ xs) (h, hs) e = All-last? P (y ∷ xs) hs e

  pub All-set_last {κ} :
      (P : A → Type κ) (v : A) (xs : List A) → All P xs → P v → All P (set_last xs v)
  All-set_last P v [] h hv = tt
  All-set_last P v (x ∷ []) h hv = (hv, tt)
  All-set_last P v (x ∷ y ∷ xs) (h, hs) hv = (h, All-set_last P v (y ∷ xs) hs hv)
