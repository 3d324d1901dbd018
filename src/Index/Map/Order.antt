-- ===== src/Index/Map/Order.antt =====
-- The order of the keys in src/internal/index.rs, and the entries as a map.
use Prim.Native.Nat.{compare, Ordering}
use git_internal.Base.{
  ℕ, [], ◌∷◌, Bytes, none, some, ◌≡◌, refl, sym, ap, ap₂, ◌∙◌, arith, inl, inr, ◌⊎◌,
}
use git_internal.Base.SortedMap.{IsOrder, Increasing}
use git_internal.Base.SortedMap.Laws.{
  override, insert-Increasing, remove-Increasing, get-insert, get-remove,
}
use git_internal.Index.Entry.{IndexEntry}
use git_internal.Index.Map.{
  then_compare, compare_bytes, Key, compare_keys, Index, add, remove_entry, get_entry,
}

pub compare-IsOrder : IsOrder compare
compare-IsOrder = record {
  same = λ a. ground arith;
  eq_of_same = λ a b e. ground arith;
  greater = λ a b e. ground arith;
  less_trans = λ a b c e f. ground arith;
}

pub then-eq :
    (o next : Ordering)
    → then_compare o next ≡ Ordering.eq
    → (o ≡ Ordering.eq) × (next ≡ Ordering.eq)
then-eq Ordering.lt next e = cc
then-eq Ordering.eq next e = (refl, e)
then-eq Ordering.gt next e = cc

pub then-lt :
    (o next : Ordering)
    → then_compare o next ≡ Ordering.lt
    → (o ≡ Ordering.lt) ⊎ ((o ≡ Ordering.eq) × (next ≡ Ordering.lt))
then-lt Ordering.lt next e = inl refl
then-lt Ordering.eq next e = inr (refl, e)
then-lt Ordering.gt next e = cc

then-gt :
    (o next : Ordering)
    → then_compare o next ≡ Ordering.gt
    → (o ≡ Ordering.gt) ⊎ ((o ≡ Ordering.eq) × (next ≡ Ordering.gt))
then-gt Ordering.lt next e = cc
then-gt Ordering.eq next e = inr (refl, e)
then-gt Ordering.gt next e = inl refl

-- One comparison and, where it finds no difference, the next.
module _ {ℓ} {A : Type ℓ} {cmp : A → A → Ordering} (ord : IsOrder cmp) where
  pub then-greater :
      (a b : A) {next back : Ordering}
      → (next ≡ Ordering.gt → back ≡ Ordering.lt)
      → then_compare (cmp a b) next ≡ Ordering.gt
      → then_compare (cmp b a) back ≡ Ordering.lt
  then-greater a b {next} flip e = elim (then-gt (cmp a b) next e) [
    | inl t ↦ rw (ord.greater a b t) refl
    | inr (t, later) ↦
        rw (ap₂ cmp (sym (ord.eq_of_same a b t)) (ord.eq_of_same a b t) ∙ t, flip later) refl
  ]

  pub then-less_trans :
      (a b c : A) {first second both : Ordering}
      → (first ≡ Ordering.lt → second ≡ Ordering.lt → both ≡ Ordering.lt)
      → then_compare (cmp a b) first ≡ Ordering.lt
      → then_compare (cmp b c) second ≡ Ordering.lt
      → then_compare (cmp a c) both ≡ Ordering.lt
  then-less_trans a b c {first} {second} chain e f = elim (then-lt (cmp a b) first e) [
    | inl t ↦ elim (then-lt (cmp b c) second f) [
      | inl u ↦ rw (ord.less_trans a b c t u) refl
      | inr (u, later) ↦ rw (ap (cmp a) (sym (ord.eq_of_same b c u)) ∙ t) refl
    ]
    | inr (t, now) ↦ elim (then-lt (cmp b c) second f) [
      | inl u ↦ rw (ap (λ x. cmp x c) (ord.eq_of_same a b t) ∙ u) refl
      | inr (u, later) ↦ rw (ap (λ x. cmp x c) (ord.eq_of_same a b t) ∙ u, chain now later) refl
    ]
  ]

same_bytes_order : (a : Bytes) → compare_bytes a a ≡ Ordering.eq
same_bytes_order [] = refl
same_bytes_order (a ∷ xs) = rw (compare-IsOrder.same a) (same_bytes_order xs)

compare_bytes-eq : (a b : Bytes) → compare_bytes a b ≡ Ordering.eq → a ≡ b
compare_bytes-eq [] [] e = refl
compare_bytes-eq [] (b ∷ bs) e = cc
compare_bytes-eq (a ∷ xs) [] e = cc
compare_bytes-eq (a ∷ xs) (b ∷ bs) e =
    let (here, later) = then-eq (compare a b) (compare_bytes xs bs) e in
    ap₂ ◌∷◌ (compare-IsOrder.eq_of_same a b here) (compare_bytes-eq xs bs later)

compare_bytes-greater :
    (a b : Bytes) → compare_bytes a b ≡ Ordering.gt → compare_bytes b a ≡ Ordering.lt
compare_bytes-greater [] [] e = cc
compare_bytes-greater [] (b ∷ bs) e = cc
compare_bytes-greater (a ∷ xs) [] e = refl
compare_bytes-greater (a ∷ xs) (b ∷ bs) e =
    then-greater compare-IsOrder a b (compare_bytes-greater xs bs) e

compare_bytes-less_trans :
    (a b c : Bytes)
    → compare_bytes a b ≡ Ordering.lt
    → compare_bytes b c ≡ Ordering.lt
    → compare_bytes a c ≡ Ordering.lt
compare_bytes-less_trans [] [] c e f = f
compare_bytes-less_trans [] (b ∷ bs) [] e f = cc
compare_bytes-less_trans [] (b ∷ bs) (c ∷ cs) e f = refl
compare_bytes-less_trans (a ∷ xs) [] c e f = cc
compare_bytes-less_trans (a ∷ xs) (b ∷ bs) [] e f = cc
compare_bytes-less_trans (a ∷ xs) (b ∷ bs) (c ∷ cs) e f =
    then-less_trans compare-IsOrder a b c (compare_bytes-less_trans xs bs cs) e f

pub compare_bytes-IsOrder : IsOrder compare_bytes
compare_bytes-IsOrder = record {
  same = same_bytes_order;
  eq_of_same = compare_bytes-eq;
  greater = compare_bytes-greater;
  less_trans = compare_bytes-less_trans;
}

keys_same : (a : Key) → compare_keys a a ≡ Ordering.eq
keys_same a = rw (same_bytes_order a.0) (compare-IsOrder.same a.1)

keys_eq : (a b : Key) → compare_keys a b ≡ Ordering.eq → a ≡ b
keys_eq a b e =
    let (names, stages) = then-eq (compare_bytes a.0 b.0) (compare a.1 b.1) e in
    ap₂ (λ (x : Bytes) (y : ℕ). (x, y)) (compare_bytes-eq a.0 b.0 names)
      (compare-IsOrder.eq_of_same a.1 b.1 stages)

pub compare_keys-IsOrder : IsOrder compare_keys
compare_keys-IsOrder = record {
  same = keys_same;
  eq_of_same = keys_eq;
  greater = λ a b. then-greater compare_bytes-IsOrder a.0 b.0 (compare-IsOrder.greater a.1 b.1);
  less_trans = λ a b c.
      then-less_trans compare_bytes-IsOrder a.0 b.0 c.0 (compare-IsOrder.less_trans a.1 b.1 c.1);
}

-- What the index holds after an insertion and a removal: under the key itself the new entry or
-- nothing, and under every other key what was there; its keys stay in order.
pub record Edits (index : Index) (entry : IndexEntry) (name : Bytes) (stage : ℕ) : Type 0 where
  pub added :
      get_entry (add index entry) name stage
      ≡ override
          (compare_keys (name, stage) (entry.name, entry.flags.stage))
          (some entry)
          (get_entry index name stage)
  pub removed :
      get_entry (remove_entry index entry.name entry.flags.stage).1 name stage
      ≡ override
          (compare_keys (name, stage) (entry.name, entry.flags.stage))
          none
          (get_entry index name stage)
  pub given :
      (remove_entry index entry.name entry.flags.stage).0
      ≡ get_entry index entry.name entry.flags.stage
  pub add_ordered : Increasing compare_keys (add index entry)
  pub remove_ordered : Increasing compare_keys (remove_entry index entry.name entry.flags.stage).1

-- In an index whose keys are in order, an added entry is found under its name and stage and a removed
-- one is not, every other key keeps its entry, a removal gives the entry that was found, and the keys
-- stay in order, without repetition.
pub Index-Edits :
    (index : Index) (entry : IndexEntry) (name : Bytes) (stage : ℕ)
    → Increasing compare_keys index
    → Edits index entry name stage
unfolding add remove_entry get_entry
Index-Edits index entry name stage h =
    let key : Key = (entry.name, entry.flags.stage) in
    record {
      added = get-insert compare_keys-IsOrder key entry (name, stage) index;
      removed = get-remove compare_keys-IsOrder key (name, stage) index h;
      given = refl;
      add_ordered = insert-Increasing compare_keys-IsOrder key entry index h;
      remove_ordered = remove-Increasing compare_keys-IsOrder key index h;
    }
