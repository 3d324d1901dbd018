-- ===== src/Pack/Resolve/Lookup.antt =====
-- What a lookup in the cache finds, src/internal/pack/cache.rs.
use git_internal.Base.{
  ℕ, Bool, true, false, ◌==◌, List, [], ◌∷◌, Option, none, some, ◌≡◌, refl, sym, ap, subst, arith,
  Bool-cases, if_elim, ==→eq, inl, inr, Option-cases, All,
}
use git_internal.Hash.{ObjectHash, same_hash}
use git_internal.Hash.Kinds.{same_hash_refl, same_hash→eq}
use git_internal.Pack.Resolve.{
  CacheObject, Base, by_offset, by_hash, is_base_for, base_object_hash, same_option, get_by_hash,
  get_hash, lookup,
}

abbrev pub same_base : Base → Base → Bool
same_base (by_offset a) (by_offset b) = a == b
same_base (by_hash a) (by_hash b) = same_hash a b
same_base _ _ = false

pub same_base_refl : (b : Base) → same_base b b ≡ true
same_base_refl (by_offset o) = ground arith
same_base_refl (by_hash h) = same_hash_refl h

pub same_base→eq : (a b : Base) → same_base a b ≡ true → a ≡ b
same_base→eq (by_offset a) (by_offset b) e = ap by_offset (==→eq a b e)
same_base→eq (by_hash a) (by_hash b) e = ap by_hash (same_hash→eq a b e)
same_base→eq (by_offset a) (by_hash b) e = cc
same_base→eq (by_hash a) (by_offset b) e = cc

-- No two cached objects have the same hash.
abbrev Renames : CacheObject → CacheObject → Type 0
Renames obj other =
    (h : ObjectHash)
    → base_object_hash other ≡ some h
    → same_option (base_object_hash obj) h ≡ false

abbrev pub HasDistinctNames : List CacheObject → Type 0
HasDistinctNames [] = Unit
HasDistinctNames (obj ∷ caches) = All (Renames obj) caches × HasDistinctNames caches

same_option→eq : (o : Option ObjectHash) (h : ObjectHash) → same_option o h ≡ true → o ≡ some h
same_option→eq none h e = cc
same_option→eq (some g) h e = ap some (same_hash→eq g h e)

get_by_hash-name :
    (h : ObjectHash) (caches : List CacheObject) (obj : CacheObject)
    → get_by_hash h caches ≡ some obj
    → same_option (base_object_hash obj) h ≡ true
get_by_hash-name h [] obj e = cc
get_by_hash-name h (o ∷ caches) obj found =
    if_elim (λ r. r ≡ some obj → same_option (base_object_hash obj) h ≡ true)
      (same_option (base_object_hash o) h)
      (λ hit e.
        let same : o ≡ obj = cc in subst (λ x. same_option (base_object_hash x) h ≡ true) same hit)
      (λ miss e. get_by_hash-name h caches obj e) found

-- What an offset leads to: an object at that offset, if names are distinct.
get_hash-get_by_hash :
    (offset : ℕ) (caches : List CacheObject) (h : ObjectHash)
    → get_hash offset caches ≡ some h
    → (obj : CacheObject) × (get_by_hash h caches ≡ some obj)
get_hash-get_by_hash offset [] h e = cc
get_hash-get_by_hash offset (o ∷ caches) h found =
    elim (Bool-cases (same_option (base_object_hash o) h)) [
      | inl hit ↦ (o, rw hit refl)
      | inr miss ↦
          if_elim (λ r. r ≡ some h → (obj : CacheObject) × (get_by_hash h (o ∷ caches) ≡ some obj))
            (o.offset == offset)
            (λ here e.
              let same : same_option (base_object_hash o) h ≡ true =
                subst (λ n. same_option n h ≡ true) (sym e) (same_hash_refl h) in
              cc)
            (λ there e. rw miss (get_hash-get_by_hash offset caches h e)) found
    ]

get_hash-All :
    (obj : CacheObject) (offset : ℕ) (caches : List CacheObject) (h : ObjectHash)
    → All (Renames obj) caches
    → get_hash offset caches ≡ some h
    → same_option (base_object_hash obj) h ≡ false
get_hash-All obj offset [] h all e = cc
get_hash-All obj offset (o ∷ caches) h (renames, all) found =
    if_elim (λ r. r ≡ some h → same_option (base_object_hash obj) h ≡ false) (o.offset == offset)
      (λ here e. renames h e) (λ there e. get_hash-All obj offset caches h all e) found

get_hash-offset :
    (offset : ℕ) (caches : List CacheObject) (h : ObjectHash) (obj : CacheObject)
    → HasDistinctNames caches
    → get_hash offset caches ≡ some h
    → get_by_hash h caches ≡ some obj
    → (obj.offset == offset) ≡ true
get_hash-offset offset [] h obj distinct e found = cc
get_hash-offset offset (o ∷ caches) h obj (renames, distinct) e found =
    elim (Bool-cases (o.offset == offset)) [
      | inl here ↦
          let name : base_object_hash o ≡ some h = rw here at e in
          let same : same_option (base_object_hash o) h ≡ true =
            subst (λ n. same_option n h ≡ true) (sym name) (same_hash_refl h) in
          let it : some o ≡ some obj = rw same at found in
          let object : o ≡ obj = cc in subst (λ x. (x.offset == offset) ≡ true) object here
      | inr there ↦
          let older : get_hash offset caches ≡ some h = rw there at e in
          let other = get_hash-All o offset caches h renames older in
          get_hash-offset offset caches h obj distinct older (rw other at found)
    ]

pub lookup-is_base_for :
    (b : Base) (caches : List CacheObject) (obj : CacheObject)
    → HasDistinctNames caches
    → lookup b caches ≡ some obj
    → is_base_for b obj ≡ true
lookup-is_base_for (by_hash h) caches obj distinct found = get_by_hash-name h caches obj found
lookup-is_base_for (by_offset offset) caches obj distinct found =
    elim (Option-cases (get_hash offset caches)) [
      | inl missing ↦ let clash : none ≡ some obj = rw missing at found in cc
      | inr (h, e) ↦ get_hash-offset offset caches h obj distinct e (rw e at found)
    ]

-- An object that is no base of a delta does not show up when its base is looked up.
pub lookup-other :
    (b : Base) (obj : CacheObject) (caches : List CacheObject)
    → is_base_for b obj ≡ false
    → lookup b caches ≡ none
    → lookup b (obj ∷ caches) ≡ none
lookup-other (by_hash h) obj caches other missing = rw other missing
lookup-other (by_offset offset) obj caches other missing =
    elim (Option-cases (get_hash offset caches)) [
      | inl no_hash ↦ rw (other, no_hash) refl
      | inr (h, e) ↦
          let (found, it) = get_hash-get_by_hash offset caches h e in
          let gone : get_by_hash h caches ≡ none = rw e at missing in cc
    ]
