-- ===== src/Base/SortedMap/Laws.antt =====
-- Insertion, removal and lookup in a sorted map.
use Prim.Native.Nat.{Ordering}
use mathlib.Core.Path.{◌≡◌, refl, sym, ◌∙◌, ap, subst}
use mathlib.Core.Logic.{◌⊎◌, inl, inr}
use mathlib.Core.Option.{Option, none, some}
use mathlib.Core.List.{List, [], ◌∷◌, ◌++◌}
use git_internal.Base.Lists.{All}
use git_internal.Base.Elements.{All-map}
use git_internal.Base.SortedMap.{insert, get, remove, Increasing, IsOrder}

pub Ordering-cases : (o : Ordering) → (o ≡ Ordering.lt) ⊎ ((o ≡ Ordering.eq) ⊎ (o ≡ Ordering.gt))
Ordering-cases Ordering.lt = inl refl
Ordering-cases Ordering.eq = inr (inl refl)
Ordering-cases Ordering.gt = inr (inr refl)

-- A value under a key, over the lookup in what the key was put into or taken from.
abbrev pub override {ℓ} : {A : Type ℓ} → Ordering → A → A → A
override Ordering.eq a b = a
override _ a b = b

module _ {ℓ κ} {K : Type ℓ} {V : Type κ} (cmp : K → K → Ordering) where
  -- A key beyond all others is appended.
  pub insert-last :
      (k : K) (v : V) (m : List (K × V))
      → All (λ (q : K × V). cmp k q.0 ≡ Ordering.gt) m
      → insert cmp k v m ≡ m ++ (k, v) ∷ []
  insert-last k v [] h = refl
  insert-last k v (p ∷ m) (h, hs) = rw h (ap (p ∷◌) (insert-last k v m hs))

pub less_flip {ℓ} :
    {K : Type ℓ} {cmp : K → K → Ordering} (ord : IsOrder cmp) (a b : K)
    → cmp a b ≡ Ordering.lt
    → cmp b a ≡ Ordering.gt
less_flip {cmp = cmp} ord a b t = elim (Ordering-cases (cmp b a)) [
  | inl u ↦ let clash = ord.less_trans a b a t u in let eq = ord.same a in cc
  | inr (inl u) ↦ let there = ord.eq_of_same b a u in let eq = ord.same a in cc
  | inr (inr u) ↦ u
]

module _ {ℓ κ} {K : Type ℓ} {V : Type κ} {cmp : K → K → Ordering} (ord : IsOrder cmp) where
  All-insert {ι} :
      (P : K × V → Type ι) (k : K) (v : V) (m : List (K × V))
      → P (k, v)
      → All P m
      → All P (insert cmp k v m)
  All-insert P k v [] h hs = (h, tt)
  All-insert P k v (p ∷ m) h (hp, hs) = elim (Ordering-cases (cmp k p.0)) [
    | inl t ↦ rw t (h, (hp, hs))
    | inr (inl t) ↦ rw t (h, hs)
    | inr (inr t) ↦ rw t (hp, All-insert P k v m h hs)
  ]

  pub insert-Increasing :
      (k : K) (v : V) (m : List (K × V)) → Increasing cmp m → Increasing cmp (insert cmp k v m)
  insert-Increasing k v [] h = (tt, tt)
  insert-Increasing k v (p ∷ m) (h, hs) = elim (Ordering-cases (cmp k p.0)) [
    | inl t ↦ rw t ((t, All-map (λ q l. ord.less_trans k p.0 q.0 t l) m h), (h, hs))
    | inr (inl t) ↦ rw t (
      subst (λ j. All (λ (q : K × V). cmp j q.0 ≡ Ordering.lt) m) (sym (ord.eq_of_same k p.0 t)) h,
      hs,
    )
    | inr (inr t) ↦ rw t (
      All-insert (λ (q : K × V). cmp p.0 q.0 ≡ Ordering.lt) k v m (ord.greater k p.0 t) h,
      insert-Increasing k v m hs,
    )
  ]

  All-remove {ι} :
      (P : K × V → Type ι) (k : K) (m : List (K × V)) → All P m → All P (remove cmp k m)
  All-remove P k [] h = tt
  All-remove P k (p ∷ m) (hp, hs) = elim (Ordering-cases (cmp k p.0)) [
    | inl t ↦ rw t (hp, hs)
    | inr (inl t) ↦ rw t hs
    | inr (inr t) ↦ rw t (hp, All-remove P k m hs)
  ]

  pub remove-Increasing :
      (k : K) (m : List (K × V)) → Increasing cmp m → Increasing cmp (remove cmp k m)
  remove-Increasing k [] h = tt
  remove-Increasing k (p ∷ m) (h, hs) = elim (Ordering-cases (cmp k p.0)) [
    | inl t ↦ rw t (h, hs)
    | inr (inl t) ↦ rw t hs
    | inr (inr t) ↦
        rw t (All-remove (λ (q : K × V). cmp p.0 q.0 ≡ Ordering.lt) k m h, remove-Increasing k m hs)
  ]

  -- A key below all others is not found.
  get-below :
      (k : K) (m : List (K × V))
      → All (λ (q : K × V). cmp k q.0 ≡ Ordering.lt) m
      → get cmp k m ≡ none
  get-below k [] h = refl
  get-below k (p ∷ m) (h, hs) = rw h refl

  -- A lookup after an insertion: the value under the key itself, and what was there under any other.
  pub get-insert :
      (k : K) (v : V) (j : K) (m : List (K × V))
      → get cmp j (insert cmp k v m) ≡ override (cmp j k) (some v) (get cmp j m)
  get-insert k v j [] = elim (Ordering-cases (cmp j k)) [
    | inl t ↦ rw t refl
    | inr (inl t) ↦ rw t refl
    | inr (inr t) ↦ rw t refl
  ]
  get-insert k v j (p ∷ m) = elim (Ordering-cases (cmp k p.0)) [
    | inl before ↦ elim (Ordering-cases (cmp j k)) [
      | inl t ↦ rw (before, t, ord.less_trans j k p.0 t before) refl
      | inr (inl t) ↦ rw (before, t) refl
      | inr (inr t) ↦ rw (before, t) refl
    ]
    | inr (inl here) ↦
        let same : cmp j p.0 ≡ cmp j k = ap (cmp j) (sym (ord.eq_of_same k p.0 here)) in
        elim (Ordering-cases (cmp j k)) [
          | inl t ↦ rw (here, same, t) refl
          | inr (inl t) ↦ rw (here, same, t) refl
          | inr (inr t) ↦ rw (here, same, t) refl
        ]
    | inr (inr behind) ↦
        let after : cmp p.0 k ≡ Ordering.lt = ord.greater k p.0 behind in
        elim (Ordering-cases (cmp j p.0)) [
          | inl t ↦ rw (behind, t, ord.less_trans j p.0 k t after) refl
          | inr (inl t) ↦ rw (behind, t, ap (λ i. cmp i k) (ord.eq_of_same j p.0 t) ∙ after) refl
          | inr (inr t) ↦ rw (behind, t) (get-insert k v j m)
        ]
  ]

  override-none : (o : Ordering) → override {A = Option V} o none none ≡ none
  override-none Ordering.lt = refl
  override-none Ordering.eq = refl
  override-none Ordering.gt = refl

  -- A lookup after a removal: nothing under the key itself, and what was there under any other.
  pub get-remove :
      (k j : K) (m : List (K × V))
      → Increasing cmp m
      → get cmp j (remove cmp k m) ≡ override (cmp j k) none (get cmp j m)
  get-remove k j [] h = sym (override-none (cmp j k))
  get-remove k j (p ∷ m) (h, hs) = elim (Ordering-cases (cmp k p.0)) [
    | inl before ↦ elim (Ordering-cases (cmp j k)) [
      | inl t ↦ rw (before, t) refl
      | inr (inl t) ↦ rw (before, t, ap (λ i. cmp i p.0) (ord.eq_of_same j k t) ∙ before) refl
      | inr (inr t) ↦ rw (before, t) refl
    ]
    | inr (inl here) ↦
        let there = ord.eq_of_same k p.0 here in
        let same : cmp j p.0 ≡ cmp j k = ap (cmp j) (sym there) in
        elim (Ordering-cases (cmp j k)) [
          | inl t ↦
              rw (here, same, t)
                (get-below j m (All-map (λ q l. ord.less_trans j p.0 q.0 (same ∙ t) l) m h))
          | inr (inl t) ↦
              rw (here, same, t)
                (get-below j m
                  (All-map (λ q l. ap (λ i. cmp i q.0) (ord.eq_of_same j k t ∙ there) ∙ l) m h))
          | inr (inr t) ↦ rw (here, same, t) refl
        ]
    | inr (inr behind) ↦
        let after : cmp p.0 k ≡ Ordering.lt = ord.greater k p.0 behind in
        elim (Ordering-cases (cmp j p.0)) [
          | inl t ↦ rw (behind, t) (sym (override-none (cmp j k)))
          | inr (inl t) ↦ rw (behind, t, ap (λ i. cmp i k) (ord.eq_of_same j p.0 t) ∙ after) refl
          | inr (inr t) ↦ rw (behind, t) (get-remove k j m hs)
        ]
  ]
