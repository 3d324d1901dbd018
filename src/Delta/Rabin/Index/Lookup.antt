-- ===== src/Delta/Rabin/Index/Lookup.antt =====
-- The buckets of an index as `create_delta_inner` of src/delta/encode/rabin/mod.rs looks them up, and
-- as `create_delta_index_arc` packs them.
use git_internal.Base.{
  ℕ, zero, suc, ◌+◌, ◌-◌, ◌^◌, ◌≤◌, ◌<◌, ◌*◌, ◌/◌, ◌&&◌, ltb, ◌==◌, if◌then◌else◌, if_elim, last?,
  set_last, set, map, replicate, bit_and, List, [], ◌∷◌, ◌++◌, Bytes, Option, none, some, length,
  get_elem?, get_or, All, ◌≡◌, refl, arith, ap, ap₂, ◌∙◌, append_assoc, append-nil, length-append,
}
use git_internal.Delta.Rabin.Hash.{u32, fingerprint}
use git_internal.Delta.Rabin.Index.{
  IndexEntry, RabinDeltaIndex, Build, move_last, index_window, build_loop, cull_loop, cull_bucket,
  cull_overfull, pack_loop,
}

-- The place of a bucket among the entries: where it starts, where the next one starts, in range.
pub record IsBucket (index : RabinDeltaIndex) (bi : ℕ) : Type 0 where
  pub bucket_start : ℕ
  pub bucket_end : ℕ
  pub starts : get_elem? index.buckets bi ≡ some bucket_start
  pub ends : get_elem? index.buckets (bi + 1) ≡ some bucket_end
  pub ordered : bucket_start ≤ bucket_end
  pub inside : bucket_end ≤ length index.entries

-- What the encoder needs of an index: a bucket for every hash, and entries inside the source.
pub record IsSearchable (index : RabinDeltaIndex) : Type 0 where
  pub buckets : (val : ℕ) → IsBucket index (bit_and val index.hash_mask)
  pub entries : All (λ e. e.offset ≤ length index.source) index.entries

-- The number of entries in all buckets, the places where they start, and the end of the last.
abbrev pub total : List (List IndexEntry) → ℕ
total [] = 0
total (l ∷ ls) = length l + total ls

abbrev pub concatenated : List (List IndexEntry) → List IndexEntry
concatenated [] = []
concatenated (l ∷ ls) = l ++ concatenated ls

abbrev pub places : ℕ → List (List IndexEntry) → List ℕ
places n [] = n ∷ []
places n (l ∷ ls) = n ∷ places (n + length l) ls

length-concatenated : (ls : List (List IndexEntry)) → length (concatenated ls) ≡ total ls
length-concatenated [] = refl
length-concatenated (l ∷ ls) =
    omega (arith, length-append l (concatenated ls), length-concatenated ls)

pub pack_loop-places :
    (ls : List (List IndexEntry)) (entries : List IndexEntry) (buckets : List ℕ)
    → length entries + total ls < 2 ^ 32
    → pack_loop ls entries buckets
      ≡ (entries ++ concatenated ls, buckets ++ places (length entries) ls)
unfolding pack_loop
pack_loop-places [] entries buckets fits =
    let exact : u32 (length entries) ≡ length entries = omega (arith, fits) in
    rw (exact, append-nil entries) refl
pack_loop-places (l ∷ ls) entries buckets fits =
    let exact : u32 (length entries) ≡ length entries = omega (arith, fits) in
    let longer = length-append entries l in
    rw exact (
      pack_loop-places ls (entries ++ l) (buckets ++ length entries ∷ [])
        (omega (arith, fits, longer))
      ∙ ap₂ (λ (es : List IndexEntry) (bs : List ℕ). (es, bs))
          (append_assoc entries l (concatenated ls))
          (append_assoc buckets (length entries ∷ []) (places (length (entries ++ l)) ls)
            ∙ ap (λ (n : ℕ). buckets ++ length entries ∷ places n ls) longer))

-- Each place is followed by the next, and the last is the end.
places-lookup :
    (ls : List (List IndexEntry)) (n i : ℕ)
    → i < length ls
    → (a b : ℕ) × (get_elem? (places n ls) i ≡ some a)
      × (get_elem? (places n ls) (suc i) ≡ some b)
      × (a ≤ b)
      × (b ≤ n + total ls)
places-lookup [] n i h = absurd (omega (arith, h))
places-lookup (l ∷ []) n zero h = (n, n + length l, refl, refl, omega arith, omega arith)
places-lookup (l ∷ m ∷ ls) n zero h = (n, n + length l, refl, refl, omega arith, omega arith)
places-lookup (l ∷ ls) n (suc i) h =
    let (a, b, first, second, ordered, inside) =
      places-lookup ls (n + length l) i (omega (arith, h)) in
    (a, b, first, second, ordered, omega (arith, inside))

-- A bucket of the packed index.
pub packed-IsBucket :
    (source : Bytes) (hash_mask : ℕ) (ls : List (List IndexEntry)) (bi : ℕ)
    → total ls < 2 ^ 32
    → bi < length ls
    → IsBucket
        (record {
          source = source;
          entries = (pack_loop ls [] []).0;
          buckets = (pack_loop ls [] []).1;
          hash_mask = hash_mask;
        })
        bi
packed-IsBucket source hash_mask ls bi fits h =
    let packed = pack_loop-places ls [] [] (omega (arith, fits)) in
    let (a, b, first, second, ordered, inside) = places-lookup ls 0 bi h in
    let next : bi + 1 ≡ suc bi = omega arith in
    record {
      bucket_start = a;
      bucket_end = b;
      starts = ap (λ (p : List IndexEntry × List ℕ). get_elem? p.1 bi) packed ∙ first;
      ends =
          ap (λ (p : List IndexEntry × List ℕ). get_elem? p.1 (bi + 1)) packed
          ∙ ap (get_elem? (places 0 ls)) next
          ∙ second;
      ordered = ordered;
      inside = omega (
        arith,
        inside,
        length-concatenated ls,
        ap (λ (p : List IndexEntry × List ℕ). length p.0) packed,
      );
    }

-- Writing a bucket adds what it is longer by.
total-set :
    (ls : List (List IndexEntry)) (h : ℕ) (l : List IndexEntry)
    → total (set ls h l) + length (get_or ls h []) ≤ total ls + length l
total-set [] h l = omega arith
total-set (m ∷ ls) zero l = omega arith
total-set (m ∷ ls) (suc h) l = omega (arith, total-set ls h l)

length-set_last : (xs : List IndexEntry) (v : IndexEntry) → length (set_last xs v) ≡ length xs
length-set_last [] v = refl
length-set_last (x ∷ []) v = refl
length-set_last (x ∷ y ∷ xs) v = ap suc (length-set_last (y ∷ xs) v)

length-move_last :
    (t : Option IndexEntry) (bucket : List IndexEntry) (offset : ℕ)
    → length (move_last t bucket offset) ≡ length bucket
unfolding move_last
length-move_last none bucket offset = refl
length-move_last (some e) bucket offset = length-set_last bucket (record e { offset = offset })

module _ (source : Bytes) (hmask : ℕ) where
  total-index_window :
      (pos : ℕ) (b : Build)
      → total (index_window source hmask pos b).bucket_lists ≤ total b.bucket_lists + 1
  unfolding index_window
  total-index_window pos b =
      let val : ℕ = fingerprint source (pos + 1) in
      let h : ℕ = bit_and val hmask in
      let bucket : List IndexEntry = get_or b.bucket_lists h [] in
      let offset : ℕ = u32 (pos + 16) in
      let entry : IndexEntry = record { offset = offset; hash = val } in
      if_elim (λ (t : Build). total t.bucket_lists ≤ total b.bucket_lists + 1) (val == b.prev_val)
        (λ _. omega (
          arith,
          total-set b.bucket_lists h (move_last (last? bucket) bucket offset),
          length-move_last (last? bucket) bucket offset,
        ))
        (λ _. omega (
          arith,
          total-set b.bucket_lists h (bucket ++ entry ∷ []),
          length-append bucket (entry ∷ []),
        ))

  -- Each round of the walk adds one entry at most.
  pub total-build_loop :
      (fuel pos : ℕ) (b : Build)
      → total (build_loop source hmask fuel pos b).bucket_lists ≤ total b.bucket_lists + fuel
  unfolding build_loop
  total-build_loop zero pos b = omega arith
  total-build_loop (suc fuel) pos b =
      let next : Build =
        if ltb (length source) (pos + 1 + 16) then b else index_window source hmask pos b in
      let once : total next.bucket_lists ≤ total b.bucket_lists + 1 =
        if_elim (λ (t : Build). total t.bucket_lists ≤ total b.bucket_lists + 1)
          (ltb (length source) (pos + 1 + 16)) (λ _. omega arith) (λ _. total-index_window pos b) in
      if_elim (λ (t : Build). total t.bucket_lists ≤ total b.bucket_lists + suc fuel) (pos == 0)
        (λ _. omega (arith, once)) (λ _. omega (arith, once, total-build_loop fuel (pos - 16) next))

length-cull_loop :
    (whole idx : ℕ) (bucket kept : List IndexEntry)
    → length (cull_loop whole idx bucket kept) ≤ length bucket + length kept
unfolding cull_loop
length-cull_loop whole idx [] kept = omega arith
length-cull_loop whole idx (entry ∷ bucket) kept =
    if_elim
      (λ (l : List IndexEntry).
        length (cull_loop whole (idx + 1) bucket l) ≤ suc (length bucket) + length kept)
      (ltb (length kept) 64 && idx * 64 / whole == length kept)
      (λ _. omega (
        arith,
        length-cull_loop whole (idx + 1) bucket (kept ++ entry ∷ []),
        length-append kept (entry ∷ []),
      ))
      (λ _. omega (arith, length-cull_loop whole (idx + 1) bucket kept))

length-cull_overfull : (bucket : List IndexEntry) → length (cull_overfull bucket) ≤ length bucket
unfolding cull_overfull cull_bucket
length-cull_overfull bucket =
    if_elim (λ (l : List IndexEntry). length l ≤ length bucket) (ltb 64 (length bucket))
      (λ _. omega (arith, length-cull_loop (length bucket) 0 bucket [])) (λ _. omega arith)

-- Culling adds nothing, and the empty buckets hold nothing.
pub total-culled : (ls : List (List IndexEntry)) → total (map cull_overfull ls) ≤ total ls
total-culled [] = omega arith
total-culled (l ∷ ls) = omega (arith, length-cull_overfull l, total-culled ls)

pub total-empty : (n : ℕ) → total (replicate n []) ≡ 0
total-empty zero = refl
total-empty (suc n) = omega (arith, total-empty n)
