-- ===== src/Pack/Idx/Slots.antt =====
-- The offsets of a pack index, src/internal/pack/pack_index.rs: words, and slots of a second table.
use git_internal.Base.{
  ℕ, ◌+◌, false, List, [], ◌∷◌, ◌++◌, ◌==◌, leb, if◌then◌else◌, length, get_or, ok, Option, none,
  some, ◌≡◌, ◌≢◌, refl, sym, ap, ◌∙◌, arith, All, ◌⊎◌, inl, inr, Bool-cases, ==→eq, ==_iff, lt→ltb,
  le→ltb, length-append, append_assoc, map,
}
use git_internal.Pack.Idx.{
  IndexEntry, large_count, large_slots, place_large, seen, check_offsets, check_fanout,
  large_offsets_of, count_name, count_names, fanout_of, running_counts,
}
use git_internal.Pack.Idx.Sort.{Pairwise}

-- An entry whose numbers, and one whose offset, are not read yet.
abbrev pub named : IndexEntry → IndexEntry
named e = record { hash = e.hash; crc32 = 0; offset = 0 }

abbrev pub summed : IndexEntry → IndexEntry
summed e = record { hash = e.hash; crc32 = e.crc32; offset = 0 }

-- What the parser reads of the words of the offsets, from a slot on.
abbrev pub slots_of : ℕ → List IndexEntry → List (IndexEntry × Option ℕ)
slots_of large [] = []
slots_of large (e ∷ entries) =
    let small = (e, none) ∷ slots_of large entries in
    let marked = (summed e, some large) ∷ slots_of (1 + large) entries in
    if leb e.offset 0x7fffffff then small else marked

pub large_slots-slots_of :
    (large : ℕ) (entries : List IndexEntry)
    → large_slots (slots_of large entries) ≡ length (large_offsets_of entries)
large_slots-slots_of large [] = refl
large_slots-slots_of large (e ∷ entries) = elim (Bool-cases (leb e.offset 0x7fffffff)) [
  | inl small ↦ rw small (large_slots-slots_of large entries)
  | inr big ↦ rw big (omega (arith, large_slots-slots_of (1 + large) entries))
]

large_count-slots_of :
    (large : ℕ) (entries : List IndexEntry)
    → ((length (large_offsets_of entries) ≡ 0) × (large_count (slots_of large entries) ≡ 0))
      ⊎ (large_count (slots_of large entries) ≡ large + length (large_offsets_of entries))
large_count-slots_of large [] = inl (refl, refl)
large_count-slots_of large (e ∷ entries) = elim (Bool-cases (leb e.offset 0x7fffffff)) [
  | inl small ↦ rw small (large_count-slots_of large entries)
  | inr big ↦ elim (large_count-slots_of (1 + large) entries) [
    | inl (alone, zero_count) ↦
        let least =
          lt→ltb (large_count (slots_of (1 + large) entries)) (large + 1)
            (omega (arith, zero_count)) in
        inr (rw (big, least) (omega (arith, alone)))
    | inr count ↦
        let above =
          le→ltb (large_count (slots_of (1 + large) entries)) (large + 1) (omega (arith, count)) in
        inr (rw (big, above) (omega (arith, count)))
  ]
]

pub large_count_all :
    (entries : List IndexEntry)
    → large_count (slots_of 0 entries) ≡ length (large_offsets_of entries)
large_count_all entries = elim (large_count-slots_of 0 entries) [
  | inl (alone, zero_count) ↦ omega (arith, alone, zero_count)
  | inr count ↦ omega (arith, count)
]

get_or-append :
    (front : List ℕ) (n : ℕ) (back : List ℕ) → get_or (front ++ n ∷ back) (length front) 0 ≡ n
get_or-append [] n back = refl
get_or-append (m ∷ front) n back = get_or-append front n back

-- Each offset finds its place again.
place_large-slots_of :
    (front : List ℕ) (large : ℕ) (entries : List IndexEntry)
    → length front ≡ large
    → place_large (front ++ large_offsets_of entries) (slots_of large entries) ≡ entries
place_large-slots_of front large [] sized = refl
place_large-slots_of front large (e ∷ entries) sized = elim (Bool-cases (leb e.offset 0x7fffffff)) [
  | inl small ↦ rw small (ap (e ∷◌) (place_large-slots_of front large entries sized))
  | inr big ↦
      let later =
        place_large-slots_of (front ++ e.offset ∷ []) (1 + large) entries
          (omega (arith, sized, length-append front (e.offset ∷ []))) in
      let table = append_assoc front (e.offset ∷ []) (large_offsets_of entries) in
      let here : get_or (front ++ e.offset ∷ large_offsets_of entries) large 0 ≡ e.offset =
        ap (λ i. get_or (front ++ e.offset ∷ large_offsets_of entries) i 0) (sym sized)
        ∙ get_or-append front e.offset (large_offsets_of entries) in
      rw (big, here)
        (ap (e ∷◌)
          (ap (λ (t : List ℕ). place_large t (slots_of (1 + large) entries)) (sym table) ∙ later))
]

pub place_large_all :
    (entries : List IndexEntry)
    → place_large (large_offsets_of entries) (slots_of 0 entries) ≡ entries
place_large_all entries = place_large-slots_of [] 0 entries refl

not_same : (a b : ℕ) → a ≢ b → (a == b) ≡ false
not_same a b h = elim (Bool-cases (a == b)) [
  | inl same ↦ absurd (h (==→eq a b same))
  | inr other ↦ other
]

module _ {X : Type 0} where
  pub check_offsets-Pairwise :
      (offsets : List ℕ) (entries : List IndexEntry)
      → All (λ (e : IndexEntry). seen e.offset offsets ≡ false) entries
      → Pairwise (λ a b. a.offset ≢ b.offset) entries
      → check_offsets {X = X} offsets entries ≡ ok tt
  check_offsets-Pairwise offsets [] fresh h = refl
  check_offsets-Pairwise offsets (e ∷ entries) (new, fresh) (h, hs) =
      rw new (check_offsets-Pairwise (e.offset ∷ offsets) entries (still_fresh entries fresh h) hs)
    where
      still_fresh :
          (later : List IndexEntry)
          → All (λ (q : IndexEntry). seen q.offset offsets ≡ false) later
          → All (λ (q : IndexEntry). e.offset ≢ q.offset) later
          → All (λ (q : IndexEntry). seen q.offset (e.offset ∷ offsets) ≡ false) later
      still_fresh [] a b = tt
      still_fresh (q ∷ later) (a, as_) (b, bs) =
          (rw (not_same e.offset q.offset b) a, still_fresh later as_ bs)

  check_fanout-append :
      (front sums : List ℕ) → check_fanout {X = X} (length front) (front ++ sums) sums ≡ ok tt
  check_fanout-append front [] = refl
  check_fanout-append front (n ∷ sums) =
      let later = check_fanout-append (front ++ n ∷ []) sums in
      let table = append_assoc front (n ∷ []) sums in
      let next : length (front ++ n ∷ []) ≡ 1 + length front =
        omega (arith, length-append front (n ∷ [])) in
      let same =
        (==_iff (get_or (front ++ n ∷ sums) (length front) 0) n).1 (get_or-append front n sums) in
      rw same (
        ap (λ byte. check_fanout {X = X} byte (front ++ n ∷ sums) sums) (sym next)
        ∙ ap (λ (t : List ℕ). check_fanout {X = X} (length (front ++ n ∷ [])) t sums) (sym table)
        ∙ later)

  pub check_fanout_same : (sums : List ℕ) → check_fanout {X = X} 0 sums sums ≡ ok tt
  check_fanout_same sums = check_fanout-append [] sums

count_names-named :
    (counts : List ℕ) (entries : List IndexEntry)
    → count_names counts (map named entries) ≡ count_names counts entries
count_names-named counts [] = refl
count_names-named counts (e ∷ entries) = count_names-named (count_name counts e.hash) entries

pub fanout_of-named :
    (entries : List IndexEntry) → fanout_of (map named entries) ≡ fanout_of entries
fanout_of-named entries = ap (λ (c : List ℕ). running_counts 0 c) (count_names-named _ entries)
