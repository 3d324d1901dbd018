-- ===== src/Delta/Rabin/Index/Windows.antt =====
-- The invariant of the walk over the source in `create_delta_index_arc`.
use git_internal.Base.{
  ℕ, zero, suc, ◌+◌, ◌-◌, ◌^◌, ◌≤◌, ◌<◌, bit_and, List, [], ◌∷◌, ◌++◌, Bytes, Option, none, some,
  ltb, ◌==◌, if◌then◌else◌, length, get_or, set, last?, set_last, All, All-append, All-set,
  All-get_or, All-set_last, get_or-set_cases, last?-append, length-set, ◌≡◌, refl, arith, ap, sym,
  ◌∙◌, inl, inr, if_elim, ltb→le, ==_iff, last?-set_last,
}
use git_internal.Delta.Rabin.Hash.{u32, fingerprint}
use git_internal.Delta.Rabin.Index.{IndexEntry, Build, move_last, index_window, build_loop}

hash_of_last :
    (bucket : List IndexEntry) (x e : IndexEntry)
    → last? bucket ≡ some x
    → last? bucket ≡ some e
    → e.hash ≡ x.hash
hash_of_last bucket x e p q = let same : some x ≡ some e = sym p ∙ q in ground arith

-- The entry's window lies in the source and ends at its offset.
abbrev pub IsWindow : Bytes → IndexEntry → Type 0
IsWindow source e =
    (16 ≤ e.offset) × (e.offset < length source) × (e.hash ≡ fingerprint source (e.offset + 1 - 16))

module _ (source : Bytes) (hmask : ℕ) where
  -- Every entry is a window, and the entry pushed last has the hash that was seen last.
  pub record IsBuild (b : Build) : Type 0 where
    pub windows : All (All (IsWindow source)) b.bucket_lists
    pub newest :
        (e : IndexEntry)
        → last? (get_or b.bucket_lists (bit_and b.prev_val hmask) []) ≡ some e
        → e.hash ≡ b.prev_val

  -- A bucket whose last entry has the hash `val`, moved to an offset where the same window ends.
  move_last-IsWindow :
      (t : Option IndexEntry) (bucket : List IndexEntry) (val offset : ℕ)
      → last? bucket ≡ t
      → ((e : IndexEntry) → last? bucket ≡ some e → e.hash ≡ val)
      → (16 ≤ offset) × (offset < length source) × (val ≡ fingerprint source (offset + 1 - 16))
      → All (IsWindow source) bucket
      → All (IsWindow source) (move_last t bucket offset)
        × ((e : IndexEntry) → last? (move_last t bucket offset) ≡ some e → e.hash ≡ val)
  unfolding move_last
  move_last-IsWindow none bucket val offset l newest here all = (all, newest)
  move_last-IsWindow (some last) bucket val offset l newest (lo, hi, at) all =
      let moved : IndexEntry = record last { offset = offset } in
      (
        All-set_last (IsWindow source) moved bucket all (lo, hi, newest last l ∙ at),
        λ e q.
            hash_of_last (set_last bucket moved) moved e (last?-set_last bucket moved l) q
            ∙ newest last l,
      )

  newest-set :
      (lists : List (List IndexEntry)) (h val : ℕ) (bucket : List IndexEntry)
      → ((e : IndexEntry) → last? bucket ≡ some e → e.hash ≡ val)
      → (e : IndexEntry) → last? (get_or (set lists h bucket) h []) ≡ some e
      → e.hash ≡ val
  newest-set lists h val bucket newest e l = elim (get_or-set_cases lists h bucket []) [
    | inl written ↦ newest e (sym (ap last? written) ∙ l)
    | inr outside ↦ let nothing : none ≡ some e = sym (ap last? outside) ∙ l in cc
  ]

  index_window-IsBuild :
      (pos : ℕ) (b : Build)
      → length source < 2 ^ 32
      → pos + 17 ≤ length source
      → IsBuild b
      → IsBuild (index_window source hmask pos b)
  unfolding index_window
  index_window-IsBuild pos b hs fits v =
      let val : ℕ = fingerprint source (pos + 1) in
      let h : ℕ = bit_and val hmask in
      let bucket : List IndexEntry = get_or b.bucket_lists h [] in
      let offset : ℕ = u32 (pos + 16) in
      let in_bucket : All (IsWindow source) bucket =
        All-get_or (All (IsWindow source)) h [] b.bucket_lists tt v.windows in
      let at : fingerprint source (pos + 1) ≡ fingerprint source (offset + 1 - 16) =
        ap (fingerprint source) (omega arith) in
      if_elim IsBuild (val == b.prev_val)
        (λ same.
          let eq : val ≡ b.prev_val = (==_iff val b.prev_val).0 same in
          let newest : (e : IndexEntry) → last? bucket ≡ some e → e.hash ≡ val = λ e l.
            v.newest e (sym (ap (λ p. last? (get_or b.bucket_lists (bit_and p hmask) [])) eq) ∙ l)
            ∙ sym eq in
          let (moved, newest') =
            move_last-IsWindow (last? bucket) bucket val offset refl newest
              (omega arith, omega arith, at) in_bucket in
          record {
            windows = All-set (All (IsWindow source)) h _ b.bucket_lists v.windows moved;
            newest = λ e l.
                newest-set b.bucket_lists h val _ newest' e (
                  ap
                    (λ p. last? (
                      get_or (set b.bucket_lists h (move_last (last? bucket) bucket offset))
                        (bit_and p hmask) []))
                    eq
                  ∙ l)
                ∙ eq;
          })
        (λ other. record {
          windows = All-set (All (IsWindow source)) h _ b.bucket_lists v.windows (
              All-append (IsWindow source) bucket _ in_bucket ((omega arith, omega arith, at), tt));
          newest = λ e l.
              newest-set b.bucket_lists h val _
                (λ x q.
                  hash_of_last (bucket ++ record { offset = offset; hash = val } ∷ [])
                    (record { offset = offset; hash = val }) x (last?-append bucket _) q)
                e l;
        })

  length-index_window :
      (pos : ℕ) (b : Build)
      → length (index_window source hmask pos b).bucket_lists ≡ length b.bucket_lists
  unfolding index_window
  length-index_window pos b =
      if_elim (λ (t : Build). length t.bucket_lists ≡ length b.bucket_lists)
        (fingerprint source (pos + 1) == b.prev_val) (λ _. length-set b.bucket_lists _ _)
        (λ _. length-set b.bucket_lists _ _)

  pub length-build_loop :
      (fuel pos : ℕ) (b : Build)
      → length (build_loop source hmask fuel pos b).bucket_lists ≡ length b.bucket_lists
  unfolding build_loop
  length-build_loop zero pos b = refl
  length-build_loop (suc fuel) pos b =
      let next : Build =
        if ltb (length source) (pos + 1 + 16) then b else index_window source hmask pos b in
      let same : length next.bucket_lists ≡ length b.bucket_lists =
        if_elim (λ (t : Build). length t.bucket_lists ≡ length b.bucket_lists)
          (ltb (length source) (pos + 1 + 16)) (λ _. refl) (λ _. length-index_window pos b) in
      if_elim (λ (t : Build). length t.bucket_lists ≡ length b.bucket_lists) (pos == 0) (λ _. same)
        (λ _. length-build_loop fuel (pos - 16) next ∙ same)

  pub build_loop-IsBuild :
      (fuel pos : ℕ) (b : Build)
      → length source < 2 ^ 32
      → IsBuild b
      → IsBuild (build_loop source hmask fuel pos b)
  unfolding build_loop
  build_loop-IsBuild zero pos b hs v = v
  build_loop-IsBuild (suc fuel) pos b hs v =
      let next : Build =
        if ltb (length source) (pos + 1 + 16) then b else index_window source hmask pos b in
      let kept : IsBuild next =
        if_elim IsBuild (ltb (length source) (pos + 1 + 16)) (λ _. v)
          (λ fits.
            index_window-IsBuild pos b hs
              (omega (arith, ltb→le (length source) (pos + 1 + 16) fits)) v) in
      if_elim IsBuild (pos == 0) (λ _. kept) (λ _. build_loop-IsBuild fuel (pos - 16) next hs kept)
