-- ===== src/Delta/Rabin/Index/Filed.antt =====
-- Each entry stands in the bucket of its hash: the walk of `create_delta_index_arc` in
-- src/delta/encode/rabin/mod.rs files it there, and packing keeps the buckets apart.
use git_internal.Base.{
  ℕ, zero, suc, ◌+◌, ◌-◌, ◌^◌, ◌<◌, ltb, ◌==◌, if◌then◌else◌, if_elim, bit_and, List, [], ◌∷◌, ◌++◌,
  Bytes, Option, none, some, length, get_elem?, get_or, take, drop, last?, set, map, replicate, All,
  All-append, All-set_last, ◌≡◌, refl, arith, ap, sym, ◌∙◌, append_assoc, length-append,
  take-append, drop-append, subst, some-injective,
}
use git_internal.Delta.Rabin.Hash.{u32, fingerprint}
use git_internal.Delta.Rabin.Index.{
  IndexEntry, RabinDeltaIndex, Build, move_last, index_window, build_loop, pack_loop,
}
use git_internal.Delta.Rabin.Index.Lookup.{total, concatenated, places, pack_loop-places}

abbrev pub HasBucket : ℕ → ℕ → IndexEntry → Type 0
HasBucket mask bi e = bit_and e.hash mask ≡ bi

-- The buckets from a number on.
abbrev pub Filed : ℕ → ℕ → List (List IndexEntry) → Type 0
Filed mask bi [] = Unit
Filed mask bi (l ∷ ls) = All (HasBucket mask bi) l × Filed mask (suc bi) ls

module _ (mask : ℕ) where
  Filed-set :
      (bi h : ℕ) (ls : List (List IndexEntry)) (l : List IndexEntry)
      → Filed mask bi ls
      → All (HasBucket mask (bi + h)) l
      → Filed mask bi (set ls h l)
  Filed-set bi h [] l filed new = tt
  Filed-set bi zero (m ∷ ls) l (here, later) new =
      (subst (λ n. All (HasBucket mask n) l) (omega arith) new, later)
  Filed-set bi (suc h) (m ∷ ls) l (here, later) new = (
    here,
    Filed-set (suc bi) h ls l later (subst (λ n. All (HasBucket mask n) l) (omega arith) new),
  )

  pub Filed-get_or :
      (bi h : ℕ) (ls : List (List IndexEntry))
      → Filed mask bi ls
      → All (HasBucket mask (bi + h)) (get_or ls h [])
  Filed-get_or bi h [] filed = tt
  Filed-get_or bi zero (l ∷ ls) (here, later) =
      subst (λ n. All (HasBucket mask n) l) (omega arith) here
  Filed-get_or bi (suc h) (l ∷ ls) (here, later) =
      subst (λ n. All (HasBucket mask n) (get_or ls h [])) (omega arith)
        (Filed-get_or (suc bi) h ls later)

  pub Filed-map :
      (f : List IndexEntry → List IndexEntry)
      → ((P : IndexEntry → Type 0) (l : List IndexEntry) → All P l → All P (f l))
      → (bi : ℕ) (ls : List (List IndexEntry)) → Filed mask bi ls
      → Filed mask bi (map f ls)
  Filed-map f keeps bi [] filed = tt
  Filed-map f keeps bi (l ∷ ls) (here, later) =
      (keeps (HasBucket mask bi) l here, Filed-map f keeps (suc bi) ls later)

  pub Filed-replicate : (bi n : ℕ) → Filed mask bi (replicate n [])
  Filed-replicate bi zero = tt
  Filed-replicate bi (suc n) = (tt, Filed-replicate (suc bi) n)

  All-last :
      (bi : ℕ) (l : List IndexEntry) (e : IndexEntry)
      → last? l ≡ some e
      → All (HasBucket mask bi) l
      → HasBucket mask bi e
  All-last bi [] e q h = cc
  All-last bi (x ∷ []) e q (h, _) = subst (HasBucket mask bi) (some-injective _ _ q) h
  All-last bi (x ∷ y ∷ l) e q (_, h) = All-last bi (y ∷ l) e q h

  move_last-All :
      (bi offset : ℕ) (t : Option IndexEntry) (bucket : List IndexEntry)
      → last? bucket ≡ t
      → All (HasBucket mask bi) bucket
      → All (HasBucket mask bi) (move_last t bucket offset)
  unfolding move_last
  move_last-All bi offset none bucket q h = h
  move_last-All bi offset (some e) bucket q h =
      All-set_last (HasBucket mask bi) (record e { offset = offset }) bucket h
        (All-last bi bucket e q h)

module _ (source : Bytes) (mask : ℕ) where
  index_window-Filed :
      (pos : ℕ) (b : Build)
      → Filed mask 0 b.bucket_lists
      → Filed mask 0 (index_window source mask pos b).bucket_lists
  unfolding index_window
  index_window-Filed pos b filed =
      let val : ℕ = fingerprint source (pos + 1) in
      let h : ℕ = bit_and val mask in
      let bucket : List IndexEntry = get_or b.bucket_lists h [] in
      let offset : ℕ = u32 (pos + 16) in
      let entry : IndexEntry = record { offset = offset; hash = val } in
      let here = Filed-get_or mask 0 h b.bucket_lists filed in
      if_elim (λ (t : Build). Filed mask 0 t.bucket_lists) (val == b.prev_val)
        (λ _.
          Filed-set mask 0 h b.bucket_lists (move_last (last? bucket) bucket offset) filed
            (move_last-All mask (0 + h) offset (last? bucket) bucket refl here))
        (λ _.
          Filed-set mask 0 h b.bucket_lists (bucket ++ entry ∷ []) filed
            (All-append (HasBucket mask (0 + h)) bucket (entry ∷ []) here (omega arith, tt)))

  pub build_loop-Filed :
      (fuel pos : ℕ) (b : Build)
      → Filed mask 0 b.bucket_lists
      → Filed mask 0 (build_loop source mask fuel pos b).bucket_lists
  unfolding build_loop
  build_loop-Filed zero pos b filed = filed
  build_loop-Filed (suc fuel) pos b filed =
      let next : Build =
        if ltb (length source) (pos + 1 + 16) then b else index_window source mask pos b in
      let kept : Filed mask 0 next.bucket_lists =
        if_elim (λ (t : Build). Filed mask 0 t.bucket_lists) (ltb (length source) (pos + 1 + 16))
          (λ _. filed) (λ _. index_window-Filed pos b filed) in
      if_elim (λ (t : Build). Filed mask 0 t.bucket_lists) (pos == 0) (λ _. kept)
        (λ _. build_loop-Filed fuel (pos - 16) next kept)

first_place : (n : ℕ) (ls : List (List IndexEntry)) → get_elem? (places n ls) 0 ≡ some n
first_place n [] = refl
first_place n (l ∷ ls) = refl

-- What stands between two places is the bucket.
places-slice :
    (ls : List (List IndexEntry)) (front : List IndexEntry) (i a b : ℕ)
    → get_elem? (places (length front) ls) i ≡ some a
    → get_elem? (places (length front) ls) (suc i) ≡ some b
    → take (b - a) (drop a (front ++ concatenated ls)) ≡ get_or ls i []
places-slice [] front zero a b p q = cc
places-slice [] front (suc i) a b p q = cc
places-slice (l ∷ ls) front zero a b p q =
    let start : length front ≡ a = some-injective _ _ p in
    let end : length front + length l ≡ b =
      some-injective _ _ (sym (first_place (length front + length l) ls) ∙ q) in
    let size : b - a ≡ length l = omega (arith, start, end) in
    rw (size, sym start, drop-append front (l ++ concatenated ls)) (take-append l (concatenated ls))
places-slice (l ∷ ls) front (suc i) a b p q =
    let longer = length-append front l in
    let whole = append_assoc front l (concatenated ls) in
    ap (λ (es : List IndexEntry). take (b - a) (drop a es)) (sym whole)
    ∙ places-slice ls (front ++ l) i a b (ap (λ (n : ℕ). get_elem? (places n ls) i) longer ∙ p)
        (ap (λ (n : ℕ). get_elem? (places n ls) (suc i)) longer ∙ q)

-- Every bucket that can be looked up holds entries of its hash only.
abbrev pub IsFiled : RabinDeltaIndex → Type 0
IsFiled index =
    (bi bucket_start bucket_end : ℕ)
    → get_elem? index.buckets bi ≡ some bucket_start
    → get_elem? index.buckets (bi + 1) ≡ some bucket_end
    → All (HasBucket index.hash_mask bi)
        (take (bucket_end - bucket_start) (drop bucket_start index.entries))

pub packed-IsFiled :
    (source : Bytes) (mask : ℕ) (ls : List (List IndexEntry))
    → total ls < 2 ^ 32
    → Filed mask 0 ls
    → IsFiled (record {
      source = source;
      entries = (pack_loop ls [] []).0;
      buckets = (pack_loop ls [] []).1;
      hash_mask = mask;
    })
packed-IsFiled source mask ls fits filed bi a b p q =
    let packed = pack_loop-places ls [] [] (omega (arith, fits)) in
    let next : bi + 1 ≡ suc bi = omega arith in
    let slice =
      places-slice ls [] bi a b
        (sym (ap (λ (r : List IndexEntry × List ℕ). get_elem? r.1 bi) packed) ∙ p)
        (sym (
            ap (λ (r : List IndexEntry × List ℕ). get_elem? r.1 (bi + 1)) packed
            ∙ ap (get_elem? (places 0 ls)) next)
          ∙ q) in
    let same : take (b - a) (drop a (pack_loop ls [] []).0) ≡ get_or ls bi [] =
      ap (λ (r : List IndexEntry × List ℕ). take (b - a) (drop a r.0)) packed ∙ slice in
    subst (All (HasBucket mask bi)) (sym same) (
      subst (λ n. All (HasBucket mask n) (get_or ls bi [])) (omega arith)
        (Filed-get_or mask 0 bi ls filed))
