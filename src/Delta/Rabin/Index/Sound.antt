-- ===== src/Delta/Rabin/Index/Sound.antt =====
-- The entries of an index from `create_delta_index`, through culling and packing.
use git_internal.Base.{
  ℕ, zero, suc, ◌+◌, ◌-◌, ◌*◌, ◌/◌, ◌^◌, ◌≤◌, ◌<◌, bit_and, ◌&&◌, List, [], ◌∷◌, ◌++◌, Bytes, none,
  some, ltb, ◌==◌, length, get_or, last?, replicate, map, All, All-map, All-append, length-append,
  length-map, length-replicate, get_or-replicate, max, some-injective, ◌≡◌, refl, arith, ap, sym,
  ◌∙◌, Bool-cases, inl, inr, if_elim, ltb→lt, ltb→le, subst,
}
use git_internal.Base.Bits.{bit_and-le}
use git_internal.Delta.Rabin.Hash.{u32}
use git_internal.Delta.Rabin.Index.{
  IndexEntry, RabinDeltaIndex, Build, grow, build_loop, cull_loop, cull_bucket, cull_overfull,
  pack_loop, build_index, create_delta_index,
}
use git_internal.Delta.Rabin.Index.Lookup.{
  IsSearchable, packed-IsBucket, total, total-culled, total-build_loop, total-empty,
}
use git_internal.Delta.Rabin.Index.Filed.{
  Filed, IsFiled, Filed-map, Filed-replicate, build_loop-Filed, packed-IsFiled,
}
use git_internal.Delta.Rabin.Index.Windows.{
  IsWindow, IsBuild, length-build_loop, build_loop-IsBuild,
}

module _ (P : IndexEntry → Type 0) where
  cull_loop-All :
      (total idx : ℕ) (bucket kept : List IndexEntry)
      → All P bucket
      → All P kept
      → All P (cull_loop total idx bucket kept)
  unfolding cull_loop
  cull_loop-All total idx [] kept hb hk = hk
  cull_loop-All total idx (entry ∷ bucket) kept (h, hb) hk =
      cull_loop-All total (idx + 1) bucket _ hb (
        if_elim (All P) (ltb (length kept) 64 && idx * 64 / total == length kept)
          (λ _. All-append P kept (entry ∷ []) hk (h, tt)) (λ _. hk))

  cull_overfull-All : (bucket : List IndexEntry) → All P bucket → All P (cull_overfull bucket)
  unfolding cull_overfull cull_bucket
  cull_overfull-All bucket h =
      if_elim (All P) (ltb 64 (length bucket)) (λ _. cull_loop-All (length bucket) 0 bucket [] h tt)
        (λ _. h)

  map-cull_overfull-All :
      (lists : List (List IndexEntry)) → All (All P) lists → All (All P) (map cull_overfull lists)
  map-cull_overfull-All [] h = tt
  map-cull_overfull-All (l ∷ ls) (h, hs) = (cull_overfull-All l h, map-cull_overfull-All ls hs)

  pack_loop-All :
      (lists : List (List IndexEntry)) (entries : List IndexEntry) (buckets : List ℕ)
      → All (All P) lists
      → All P entries
      → All P (pack_loop lists entries buckets).0
  unfolding pack_loop
  pack_loop-All [] entries buckets h he = he
  pack_loop-All (l ∷ ls) entries buckets (h, hs) he =
      pack_loop-All ls (entries ++ l) _ hs (All-append P entries l he h)

  replicate-All : (n : ℕ) → All (All P) (replicate n [])
  replicate-All zero = tt
  replicate-All (suc n) = (tt, replicate-All n)

length-pack_loop :
    (lists : List (List IndexEntry)) (entries : List IndexEntry) (buckets : List ℕ)
    → length (pack_loop lists entries buckets).1 ≡ length buckets + length lists + 1
unfolding pack_loop
length-pack_loop [] entries buckets =
    omega (arith, length-append buckets (u32 (length entries) ∷ []))
length-pack_loop (l ∷ ls) entries buckets = omega (
  arith,
  length-pack_loop ls (entries ++ l) (buckets ++ u32 (length entries) ∷ []),
  length-append buckets (u32 (length entries) ∷ []),
)

grow_bounds :
    (fuel n h : ℕ)
    → 1 ≤ h
    → n ≤ h + fuel
    → (n ≤ grow fuel n h) × (h ≤ grow fuel n h) × (grow fuel n h ≤ max h (2 * n))
unfolding grow
grow_bounds zero n h lo enough = omega arith
grow_bounds (suc fuel) n h lo enough =
    if_elim (λ (r : ℕ). (n ≤ r) × (h ≤ r) × (r ≤ max h (2 * n))) (ltb h n)
      (λ small.
        let (a, b, c) =
          grow_bounds fuel n (h * 2) (omega arith) (omega (arith, ltb→lt h n small)) in
        omega (arith, ltb→lt h n small))
      (λ large. omega (arith, ltb→le h n large))

abbrev pub IsSound : Bytes → RabinDeltaIndex → Type 0
IsSound source index =
    (index.source ≡ source)
    × All (IsWindow source) index.entries
    × IsSearchable index
    × IsFiled index
    × (length index.buckets ≡ index.hash_mask + 2)
    × ((length source - 1) / 16 / 4 ≤ index.hash_mask + 1)

build_index-IsSound :
    (source : Bytes) (count hsize : ℕ)
    → length source < 2 ^ 32
    → count < 2 ^ 32
    → 1 ≤ hsize
    → hsize ≤ 2 ^ 32
    → (length source - 1) / 16 / 4 ≤ hsize
    → IsSound source (build_index source count hsize)
unfolding build_index
build_index-IsSound source count hsize hs few lo hi quarter =
    let empty : Build = record { prev_val = 2 ^ 32 - 1; bucket_lists = replicate hsize [] } in
    let nothing : (e : IndexEntry)
        → last? (get_or (replicate hsize []) (bit_and (2 ^ 32 - 1) (hsize - 1)) []) ≡ some e
        → e.hash ≡ 2 ^ 32 - 1 =
      λ e l.
        let none' : none ≡ some e =
          sym (ap last? (get_or-replicate hsize (bit_and (2 ^ 32 - 1) (hsize - 1)) [])) ∙ l in
        cc in
    let built : IsBuild source (hsize - 1)
        (build_loop source (hsize - 1) count (count * 16 - 16) empty) =
      build_loop-IsBuild source (hsize - 1) count (count * 16 - 16) empty hs
        (record { windows = replicate-All (IsWindow source) hsize; newest = nothing }) in
    let lists : List (List IndexEntry) =
      (build_loop source (hsize - 1) count (count * 16 - 16) empty).bucket_lists in
    let size : length lists ≡ hsize =
      length-build_loop source (hsize - 1) count (count * 16 - 16) empty
      ∙ length-replicate hsize [] in
    let culled : List (List IndexEntry) = map cull_overfull lists in
    let windows : All (IsWindow source) (pack_loop culled [] []).0 =
      pack_loop-All (IsWindow source) culled [] []
        (map-cull_overfull-All (IsWindow source) lists built.windows) tt in
    let all : length culled ≡ hsize = length-map cull_overfull lists ∙ size in
    let fits : total culled < 2 ^ 32 = omega (
      arith,
      total-culled lists,
      total-build_loop source (hsize - 1) count (count * 16 - 16) empty,
      total-empty hsize,
    ) in
    let mask : hsize - 1 ≡ u32 (hsize - 1) = omega (arith, hi) in
    let filed : Filed (hsize - 1) 0 culled =
      Filed-map (hsize - 1) cull_overfull (λ P l. cull_overfull-All P l) 0 lists
        (build_loop-Filed source (hsize - 1) count (count * 16 - 16) empty
          (Filed-replicate (hsize - 1) 0 hsize)) in
    (
      refl,
      windows,
      record {
        buckets = λ val.
            packed-IsBucket source (u32 (hsize - 1)) culled (bit_and val (u32 (hsize - 1))) fits
              (omega (arith, all, bit_and-le val (u32 (hsize - 1))));
        entries = All-map (λ e w. omega (arith, w.1)) (pack_loop culled [] []).0 windows;
      },
      packed-IsFiled source (u32 (hsize - 1)) culled fits
          (subst (λ m. Filed m 0 culled) mask filed),
      omega (arith, length-pack_loop culled [] [], all),
      omega arith,
    )

-- What `create_delta_index` returns holds its source, and every entry is the fingerprint of the 16
-- bytes that end at its offset, inside the source. For every hash, the places that the encoder reads
-- at `hash & hash_mask` and behind it are there, in order, and inside the entries, so that no lookup
-- is out of range; what stands between two places that follow one another are entries of that hash
-- only. There is one place more than there are buckets, and a quarter of the windows is at
-- most the number of buckets.
pub create_delta_index-IsSound :
    (source : Bytes) {index : RabinDeltaIndex}
    → length source < 2 ^ 32
    → create_delta_index source ≡ some index
    → IsSound source index
unfolding create_delta_index
create_delta_index-IsSound source {index} hs e = elim (Bool-cases (length source == 0)) [
  | inl empty ↦ let nothing : none ≡ some index = rw empty at e in cc
  | inr bytes ↦ elim (Bool-cases ((length source - 1) / 16 == 0)) [
    | inl short ↦ let nothing : none ≡ some index = rw (bytes, short) at e in cc
    | inr windows ↦
        let count : ℕ = (length source - 1) / 16 in
        let built : some (build_index source count (grow count (count / 4) 16)) ≡ some index =
          rw (bytes, windows) at e in
        let (enough, lo, hi) = grow_bounds count (count / 4) 16 (omega arith) (omega arith) in
        subst (IsSound source) (some-injective _ _ built) (
          build_index-IsSound source count (grow count (count / 4) 16) hs (omega arith)
            (omega arith) (omega arith) enough)
  ]
]
