-- ===== src/Base/Lists.antt =====
-- Lists measured and cut by native numbers: a Rust slice or Vec is such a list.
use Prim.Native.Nat.{ℕ, zero, suc, ◌+◌, ◌-◌, ◌≤◌, ◌<◌, min}
use mathlib.Core.Path.{◌≡◌, refl, ap, ap₂, ◌∙◌}
use mathlib.Core.List.{List, [], ◌∷◌, ◌++◌}
use mathlib.Core.Bool.{Bool, true, false, ◌&&◌}
use git_internal.Base.Tests.{◌==◌}
use mathlib.Core.Option.{Option, none, some}
use native.Mathlib.Omega.{arith}

-- A byte string; what makes each member a byte is the predicate `All IsByte`.
abbrev pub Bytes : Type 0
Bytes = List ℕ

abbrev pub IsByte : ℕ → Type 0
IsByte b = b < 256

module _ {ℓ} {A : Type ℓ} where
  abbrev pub length : List A → ℕ
  length [] = 0
  length (x ∷ xs) = suc (length xs)

  abbrev pub get_elem? : List A → ℕ → Option A
  get_elem? [] i = none
  get_elem? (x ∷ xs) zero = some x
  get_elem? (x ∷ xs) (suc i) = get_elem? xs i

  abbrev pub get_or : List A → ℕ → A → A
  get_or [] i d = d
  get_or (x ∷ xs) zero d = x
  get_or (x ∷ xs) (suc i) d = get_or xs i d

  -- A write out of bounds changes nothing.
  abbrev pub set : List A → ℕ → A → List A
  set [] i v = []
  set (x ∷ xs) zero v = v ∷ xs
  set (x ∷ xs) (suc i) v = x ∷ set xs i v

  abbrev pub take : ℕ → List A → List A
  take zero xs = []
  take (suc n) [] = []
  take (suc n) (x ∷ xs) = x ∷ take n xs

  abbrev pub drop : ℕ → List A → List A
  drop zero xs = xs
  drop (suc n) [] = []
  drop (suc n) (x ∷ xs) = drop n xs

  abbrev pub replicate : ℕ → A → List A
  replicate zero a = []
  replicate (suc n) a = a ∷ replicate n a

  -- Rust's `last`.
  abbrev pub last? : List A → Option A
  last? [] = none
  last? (x ∷ []) = some x
  last? (x ∷ y ∷ xs) = last? (y ∷ xs)

  -- A write through Rust's `last_mut`.
  abbrev pub set_last : List A → A → List A
  set_last [] v = []
  set_last (x ∷ []) v = v ∷ []
  set_last (x ∷ y ∷ xs) v = x ∷ set_last (y ∷ xs) v

  abbrev pub All {κ} : (A → Type κ) → List A → Type κ
  All P [] = Unit {κ}
  All P (x ∷ xs) = P x × All P xs

module _ {ℓ} {A : Type ℓ} where
  pub length-append : (xs ys : List A) → length (xs ++ ys) ≡ length xs + length ys
  length-append [] ys = omega arith
  length-append (x ∷ xs) ys = omega (arith, length-append xs ys)

  pub take-append-drop : (n : ℕ) (xs : List A) → take n xs ++ drop n xs ≡ xs
  take-append-drop zero xs = refl
  take-append-drop (suc n) [] = refl
  take-append-drop (suc n) (x ∷ xs) = ap (◌∷◌ x) (take-append-drop n xs)

  pub length-take : (n : ℕ) (xs : List A) → length (take n xs) ≡ min n (length xs)
  length-take zero xs = omega arith
  length-take (suc n) [] = omega arith
  length-take (suc n) (x ∷ xs) = omega (arith, length-take n xs)

  pub length-drop : (n : ℕ) (xs : List A) → length (drop n xs) ≡ length xs - n
  length-drop zero xs = omega arith
  length-drop (suc n) [] = omega arith
  length-drop (suc n) (x ∷ xs) = omega (arith, length-drop n xs)

  pub take-append : (xs ys : List A) → take (length xs) (xs ++ ys) ≡ xs
  take-append [] ys = refl
  take-append (x ∷ xs) ys = ap (◌∷◌ x) (take-append xs ys)

  -- What is left of a list gives what stands before it.
  pub take_front : (xs ys : List A) → take (length (xs ++ ys) - length ys) (xs ++ ys) ≡ xs
  take_front xs ys =
      ap (λ n. take n (xs ++ ys)) {x = length (xs ++ ys) - length ys} {y = length xs}
        (omega (arith, length-append xs ys))
      ∙ take-append xs ys

  pub drop-append : (xs ys : List A) → drop (length xs) (xs ++ ys) ≡ ys
  drop-append [] ys = refl
  drop-append (x ∷ xs) ys = drop-append xs ys

  -- A prefix of `m + n` elements is one of `m`, and then `n` of what is left.
  pub take-add : (m n k : ℕ) (xs : List A) → k ≡ m + n → take k xs ≡ take m xs ++ take n (drop m xs)
  take-add zero n k xs e = ap (λ j. take j xs) (omega arith)
  take-add (suc m) n zero xs e = absurd (omega arith)
  take-add (suc m) zero (suc k) [] e = refl
  take-add (suc m) (suc n) (suc k) [] e = refl
  take-add (suc m) n (suc k) (x ∷ xs) e = ap (◌∷◌ x) (take-add m n k xs (omega arith))

  pub drop-add : (m n k : ℕ) (xs : List A) → k ≡ m + n → drop k xs ≡ drop n (drop m xs)
  drop-add zero n k xs e = ap (λ j. drop j xs) (omega arith)
  drop-add (suc m) n zero xs e = absurd (omega arith)
  drop-add (suc m) zero (suc k) [] e = refl
  drop-add (suc m) (suc n) (suc k) [] e = refl
  drop-add (suc m) n (suc k) (x ∷ xs) e = drop-add m n k xs (omega arith)

  pub take_all : (n : ℕ) (xs : List A) → length xs ≤ n → take n xs ≡ xs
  take_all zero [] h = refl
  take_all zero (x ∷ xs) h = absurd (omega arith)
  take_all (suc n) [] h = refl
  take_all (suc n) (x ∷ xs) h = ap (◌∷◌ x) (take_all n xs (omega arith))

  pub All-append {κ} : (P : A → Type κ) (xs ys : List A) → All P xs → All P ys → All P (xs ++ ys)
  All-append P [] ys h k = k
  All-append P (x ∷ xs) ys (h, hs) k = (h, All-append P xs ys hs k)

  pub All-left {κ} : (P : A → Type κ) (xs ys : List A) → All P (xs ++ ys) → All P xs
  All-left P [] ys h = tt
  All-left P (x ∷ xs) ys (h, hs) = (h, All-left P xs ys hs)

  pub All-right {κ} : (P : A → Type κ) (xs ys : List A) → All P (xs ++ ys) → All P ys
  All-right P [] ys h = h
  All-right P (x ∷ xs) ys (h, hs) = All-right P xs ys hs

  -- A list with a last element is its front and that element; `set_last` keeps the front.
  pub last?-split :
      (xs : List A) {t : A}
      → last? xs ≡ some t
      → (front : List A) × (xs ≡ front ++ t ∷ []) × ((v : A) → set_last xs v ≡ front ++ v ∷ [])
  last?-split [] e = cc
  last?-split (x ∷ []) e = ([], cc, λ v. refl)
  last?-split (x ∷ y ∷ xs) e =
      let (front, split, keep) = last?-split (y ∷ xs) e in
      (x ∷ front, ap (◌∷◌ x) split, λ v. ap (◌∷◌ x) (keep v))

  pub All-take {κ} : (P : A → Type κ) (n : ℕ) (xs : List A) → All P xs → All P (take n xs)
  All-take P zero xs h = tt
  All-take P (suc n) [] h = tt
  All-take P (suc n) (x ∷ xs) (h, hs) = (h, All-take P n xs hs)

  pub All-drop {κ} : (P : A → Type κ) (n : ℕ) (xs : List A) → All P xs → All P (drop n xs)
  All-drop P zero xs h = h
  All-drop P (suc n) [] h = tt
  All-drop P (suc n) (x ∷ xs) (h, hs) = All-drop P n xs hs

  -- Behind an index in range stands its element.
  pub drop-get_or :
      (i j : ℕ) (d : A) (xs : List A)
      → j ≡ i + 1
      → i < length xs
      → drop i xs ≡ get_or xs i d ∷ drop j xs
  drop-get_or i j d [] e h = absurd (omega arith)
  drop-get_or i zero d (x ∷ xs) e h = absurd (omega arith)
  drop-get_or zero (suc j) d (x ∷ xs) e h = ap (λ k. x ∷ drop k xs) {x = 0} {y = j} (omega arith)
  drop-get_or (suc i) (suc j) d (x ∷ xs) e h = drop-get_or i j d xs (omega arith) (omega arith)

  pub get_or-drop : (n k : ℕ) (d : A) (xs : List A) → get_or (drop n xs) k d ≡ get_or xs (n + k) d
  get_or-drop zero k d xs = ap (λ j. get_or xs j d) {x = k} {y = 0 + k} (omega arith)
  get_or-drop (suc n) k d [] = refl
  get_or-drop (suc n) k d (x ∷ xs) =
      get_or-drop n k d xs
      ∙ ap (λ j. get_or (x ∷ xs) j d) {x = suc (n + k)} {y = suc n + k} (omega arith)

  pub drop_all : (n : ℕ) (xs : List A) → length xs ≤ n → drop n xs ≡ []
  drop_all zero [] h = refl
  drop_all zero (x ∷ xs) h = absurd (omega arith)
  drop_all (suc n) [] h = refl
  drop_all (suc n) (x ∷ xs) h = drop_all n xs (omega arith)

  pub get_or-take : (n k : ℕ) (d : A) (xs : List A) → k < n → get_or (take n xs) k d ≡ get_or xs k d
  get_or-take zero k d xs h = absurd (omega arith)
  get_or-take (suc n) k d [] h = refl
  get_or-take (suc n) zero d (x ∷ xs) h = refl
  get_or-take (suc n) (suc k) d (x ∷ xs) h = get_or-take n k d xs (omega arith)

  -- Lists that agree at their first `n` indices have the same prefix.
  pub take-eq :
      (n : ℕ) (d : A) (xs ys : List A)
      → n ≤ length xs
      → n ≤ length ys
      → ((k : ℕ) → k < n → get_or xs k d ≡ get_or ys k d)
      → take n xs ≡ take n ys
  take-eq zero d xs ys hx hy h = refl
  take-eq (suc n) d [] ys hx hy h = absurd (omega arith)
  take-eq (suc n) d (x ∷ xs) [] hx hy h = absurd (omega arith)
  take-eq (suc n) d (x ∷ xs) (y ∷ ys) hx hy h =
      ap₂ ◌∷◌ (h 0 (omega arith))
        (take-eq n d xs ys (omega arith) (omega arith) (λ k hk. h (suc k) (omega arith)))

  pub set-append : (xs ys : List A) (y v : A) → set (xs ++ y ∷ ys) (length xs) v ≡ xs ++ v ∷ ys
  set-append [] ys y v = refl
  set-append (x ∷ xs) ys y v = ap (◌∷◌ x) (set-append xs ys y v)

  pub take-append_add :
      (xs ys : List A) (n k : ℕ) → k ≡ length xs + n → take k (xs ++ ys) ≡ xs ++ take n ys
  take-append_add [] ys n k e = ap (λ j. take j ys) {x = k} {y = n} (omega arith)
  take-append_add (x ∷ xs) ys n zero e = absurd (omega arith)
  take-append_add (x ∷ xs) ys n (suc k) e = ap (◌∷◌ x) (take-append_add xs ys n k (omega arith))

  pub take-take : (m n : ℕ) (xs : List A) → m ≤ n → take m (take n xs) ≡ take m xs
  take-take zero n xs h = refl
  take-take (suc m) zero xs h = absurd (omega arith)
  take-take (suc m) (suc n) [] h = refl
  take-take (suc m) (suc n) (x ∷ xs) h = ap (◌∷◌ x) (take-take m n xs (omega arith))

  pub take-add-one :
      (n : ℕ) (d : A) (xs : List A)
      → n < length xs
      → take (n + 1) xs ≡ take n xs ++ get_or xs n d ∷ []
  take-add-one n d xs h =
      take-add n 1 (n + 1) xs refl
      ∙ ap (λ ys. take n xs ++ take 1 ys) (drop-get_or n (n + 1) d xs refl h)

pub take-nil {ℓ} : (A : Type ℓ) (n : ℕ) → take {A = A} n [] ≡ []
take-nil A n = take_all n [] (omega arith)

-- The comparison of two byte strings.
abbrev pub same_bytes : Bytes → Bytes → Bool
same_bytes [] [] = true
same_bytes [] (y ∷ ys) = false
same_bytes (x ∷ xs) [] = false
same_bytes (x ∷ xs) (y ∷ ys) = x == y && same_bytes xs ys
