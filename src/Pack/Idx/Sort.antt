-- ===== src/Pack/Idx/Sort.antt =====
-- The sort of the entries in src/internal/pack/pack_index.rs.
use Prim.Native.Nat.{compare, Ordering}
use git_internal.Base.{
  arith, suc, List, [], ◌∷◌, length, ◌≡◌, ◌≢◌, refl, sym, ap, ap₂, ◌∙◌, All, All-map, inl, inr,
}
use git_internal.Base.SortedMap.{IsOrder}
use git_internal.Base.SortedMap.Laws.{Ordering-cases}
use git_internal.Hash.{HashKind, ObjectHash, kind, as_ref, variant}
use git_internal.Hash.Kinds.{variant-kind}
use git_internal.Index.Map.{compare_bytes}
use git_internal.Index.Map.Order.{
  compare-IsOrder, compare_bytes-IsOrder, then-eq, then-greater, then-less_trans,
}
use git_internal.Pack.Idx.{IndexEntry, rank, compare_hashes, insert_entry, sort_by_hash}

rank_injective : (k l : HashKind) → rank k ≡ rank l → k ≡ l
rank_injective HashKind.sha1 HashKind.sha1 e = refl
rank_injective HashKind.sha1 HashKind.sha256 e = absurd (omega (arith, e))
rank_injective HashKind.sha1 HashKind.blake3 e = absurd (omega (arith, e))
rank_injective HashKind.sha256 HashKind.sha1 e = absurd (omega (arith, e))
rank_injective HashKind.sha256 HashKind.sha256 e = refl
rank_injective HashKind.sha256 HashKind.blake3 e = absurd (omega (arith, e))
rank_injective HashKind.blake3 HashKind.sha1 e = absurd (omega (arith, e))
rank_injective HashKind.blake3 HashKind.sha256 e = absurd (omega (arith, e))
rank_injective HashKind.blake3 HashKind.blake3 e = refl

hashes_eq : (a b : ObjectHash) → compare_hashes a b ≡ Ordering.eq → a ≡ b
hashes_eq a b e =
    let (ranks, bytes) =
      then-eq (compare (rank (kind a)) (rank (kind b))) (compare_bytes (as_ref a) (as_ref b)) e in
    let kinds = rank_injective (kind a) (kind b) (compare-IsOrder.eq_of_same _ _ ranks) in
    sym (variant-kind a)
    ∙ ap₂ variant kinds (compare_bytes-IsOrder.eq_of_same (as_ref a) (as_ref b) bytes)
    ∙ variant-kind b

hashes_same : (a : ObjectHash) → compare_hashes a a ≡ Ordering.eq
hashes_same a = rw (compare-IsOrder.same (rank (kind a))) (compare_bytes-IsOrder.same (as_ref a))

compare_hashes-IsOrder : IsOrder compare_hashes
compare_hashes-IsOrder = record {
  same = hashes_same;
  eq_of_same = hashes_eq;
  greater = λ a b.
      then-greater compare-IsOrder (rank (kind a)) (rank (kind b))
        (compare_bytes-IsOrder.greater (as_ref a) (as_ref b));
  less_trans = λ a b c.
      then-less_trans compare-IsOrder (rank (kind a)) (rank (kind b)) (rank (kind c))
        (compare_bytes-IsOrder.less_trans (as_ref a) (as_ref b) (as_ref c));
}

-- A relation of each entry with each later one.
abbrev pub Pairwise : (IndexEntry → IndexEntry → Type 0) → List IndexEntry → Type 0
Pairwise R [] = Unit
Pairwise R (e ∷ entries) = All (R e) entries × Pairwise R entries

abbrev pub Below : IndexEntry → IndexEntry → Type 0
Below a b = compare_hashes a.hash b.hash ≡ Ordering.lt

All-insert_entry :
    (P : IndexEntry → Type 0) (e : IndexEntry) (entries : List IndexEntry)
    → P e
    → All P entries
    → All P (insert_entry e entries)
All-insert_entry P e [] h hs = (h, tt)
All-insert_entry P e (x ∷ entries) h (hx, hs) =
    elim (Ordering-cases (compare_hashes e.hash x.hash)) [
      | inl t ↦ rw t (h, (hx, hs))
      | inr (inl t) ↦ rw t (h, (hx, hs))
      | inr (inr t) ↦ rw t (hx, All-insert_entry P e entries h hs)
    ]

pub All-sort_by_hash :
    (P : IndexEntry → Type 0) (entries : List IndexEntry)
    → All P entries
    → All P (sort_by_hash entries)
All-sort_by_hash P [] h = tt
All-sort_by_hash P (e ∷ entries) (h, hs) =
    All-insert_entry P e (sort_by_hash entries) h (All-sort_by_hash P entries hs)

length-insert_entry :
    (e : IndexEntry) (entries : List IndexEntry)
    → length (insert_entry e entries) ≡ suc (length entries)
length-insert_entry e [] = refl
length-insert_entry e (x ∷ entries) = elim (Ordering-cases (compare_hashes e.hash x.hash)) [
  | inl t ↦ rw t refl
  | inr (inl t) ↦ rw t refl
  | inr (inr t) ↦ rw t (ap suc (length-insert_entry e entries))
]

pub length-sort_by_hash :
    (entries : List IndexEntry) → length (sort_by_hash entries) ≡ length entries
length-sort_by_hash [] = refl
length-sort_by_hash (e ∷ entries) =
    length-insert_entry e (sort_by_hash entries) ∙ ap suc (length-sort_by_hash entries)

module _ (R : IndexEntry → IndexEntry → Type 0)
    (symmetric : (a b : IndexEntry) → R a b → R b a) where
  Pairwise-insert_entry :
      (e : IndexEntry) (entries : List IndexEntry)
      → All (R e) entries
      → Pairwise R entries
      → Pairwise R (insert_entry e entries)
  Pairwise-insert_entry e [] h hs = (tt, tt)
  Pairwise-insert_entry e (x ∷ entries) (h, hs) (hx, later) =
      elim (Ordering-cases (compare_hashes e.hash x.hash)) [
        | inl t ↦ rw t ((h, hs), (hx, later))
        | inr (inl t) ↦ rw t ((h, hs), (hx, later))
        | inr (inr t) ↦ rw t (
          All-insert_entry (R x) e entries (symmetric e x h) hx,
          Pairwise-insert_entry e entries hs later,
        )
      ]

  -- A symmetric relation of all entries with each other outlives the sort.
  pub Pairwise-sort_by_hash :
      (entries : List IndexEntry) → Pairwise R entries → Pairwise R (sort_by_hash entries)
  Pairwise-sort_by_hash [] h = tt
  Pairwise-sort_by_hash (e ∷ entries) (h, hs) =
      Pairwise-insert_entry e (sort_by_hash entries) (All-sort_by_hash (R e) entries h)
        (Pairwise-sort_by_hash entries hs)

insert_entry-Below :
    (e : IndexEntry) (entries : List IndexEntry)
    → All (λ (q : IndexEntry). e.hash ≢ q.hash) entries
    → Pairwise Below entries
    → Pairwise Below (insert_entry e entries)
insert_entry-Below e [] h hs = (tt, tt)
insert_entry-Below e (x ∷ entries) (h, hs) (hx, later) =
    elim (Ordering-cases (compare_hashes e.hash x.hash)) [
      | inl t ↦ rw t (
        (t, All-map (λ q l. compare_hashes-IsOrder.less_trans e.hash x.hash q.hash t l) entries hx),
        (hx, later),
      )
      | inr (inl t) ↦ absurd (h (hashes_eq e.hash x.hash t))
      | inr (inr t) ↦ rw t (
        All-insert_entry (Below x) e entries (compare_hashes-IsOrder.greater e.hash x.hash t) hx,
        insert_entry-Below e entries hs later,
      )
    ]

-- Entries with distinct names are strictly ascending once they are sorted.
pub sort_by_hash-Below :
    (entries : List IndexEntry)
    → Pairwise (λ a b. a.hash ≢ b.hash) entries
    → Pairwise Below (sort_by_hash entries)
sort_by_hash-Below [] h = tt
sort_by_hash-Below (e ∷ entries) (h, hs) =
    insert_entry-Below e (sort_by_hash entries)
      (All-sort_by_hash (λ (q : IndexEntry). e.hash ≢ q.hash) entries h)
      (sort_by_hash-Below entries hs)

-- Names of one kind in order are in the order of their bytes.
pub Below-compare_bytes :
    (a b : IndexEntry)
    → kind a.hash ≡ kind b.hash
    → Below a b
    → compare_bytes (as_ref a.hash) (as_ref b.hash) ≡ Ordering.lt
Below-compare_bytes a b kinds less =
    let ranks : compare (rank (kind a.hash)) (rank (kind b.hash)) ≡ Ordering.eq =
      ap (λ k. compare (rank (kind a.hash)) (rank k)) (sym kinds)
      ∙ compare-IsOrder.same (rank (kind a.hash)) in
    rw ranks at less
