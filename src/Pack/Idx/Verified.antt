-- ===== src/Pack/Idx/Verified.antt =====
-- What the parser of src/internal/pack/pack_index.rs has checked of an index that it accepts.
use git_internal.Base.{
  ℕ, zero, suc, ◌+◌, ◌*◌, ◌/◌, ◌%◌, ◌^◌, Bool, true, false, not, List, [], ◌∷◌, Bytes, ◌==◌, ltb,
  if◌then◌else◌, length, get_or, map, Result, ok, err, map_err, >>=-eq-ok, map_err-eq-ok,
  ok-injective, Option, none, some, ◌≡◌, ◌≢◌, refl, sym, ap, ◌∙◌, subst, All, ==_iff, Bool-cases,
  inl, inr,
}
use git_internal.Delta.Decode.{read_exact}
use git_internal.Hash.{HashKind, ObjectHash, size, kind, as_ref, same_hash, from_bytes_for_kind}
use git_internal.Hash.Kinds.{from_bytes_for_kind-inv, kind-variant, as_ref-variant}
use git_internal.Hash.Digest.{Digests, finalize_object_hash, hasher_for_kind}
use git_internal.Pack.Idx.{
  IndexEntry, IdxV2, ascends, place_large, large_slots, large_count, seen, check_offsets,
  check_fanout, fanout_of, validate_idx_v2_header,
}
use git_internal.Pack.Idx.Read.{
  IdxHashingReader, read_exact_hashed, read_u32_hashed, read_fanout, read_names, read_crcs,
  read_offsets, read_large, read_entries, read_trailer, parse_idx_v2_from,
}
use git_internal.Pack.Idx.Sort.{Pairwise}

-- Names of a kind, each above the one before it.
abbrev pub Ascending : HashKind → Option Bytes → List ObjectHash → Type 0
Ascending k prev [] = Unit
Ascending k prev (hash ∷ hashes) =
    (kind hash ≡ k)
    × (length (as_ref hash) ≡ size k)
    × (ascends prev (as_ref hash) ≡ true)
    × Ascending k (some (as_ref hash)) hashes

abbrev pub hashes_of : List IndexEntry → List ObjectHash
hashes_of entries = map (λ (e : IndexEntry). e.hash) entries

abbrev slot_hashes : List (IndexEntry × Option ℕ) → List ObjectHash
slot_hashes slots = map (λ (s : IndexEntry × Option ℕ). s.0.hash) slots

-- Where one branch of a test is an error, a success comes from the other.
refused-inv {ℓ κ} :
    {E : Type ℓ} {A : Type κ} (b : Bool) (x : E) (r : Result E A) {a : A}
    → (if b then err x else r) ≡ ok a
    → (b ≡ false) × (r ≡ ok a)
refused-inv true x r e = cc
refused-inv false x r e = (refl, e)

refuted : (b : Bool) → not b ≡ false → b ≡ true
refuted true e = refl
refuted false e = cc

place_large-hashes :
    (large : List ℕ) (slots : List (IndexEntry × Option ℕ))
    → hashes_of (place_large large slots) ≡ slot_hashes slots
place_large-hashes large [] = refl
place_large-hashes large ((e, none) ∷ slots) = ap (e.hash ∷◌) (place_large-hashes large slots)
place_large-hashes large ((e, some slot) ∷ slots) = ap (e.hash ∷◌) (place_large-hashes large slots)

seen_later :
    (o : ℕ) (offsets : List ℕ) (entries : List IndexEntry)
    → All (λ (q : IndexEntry). seen q.offset (o ∷ offsets) ≡ false) entries
    → All (λ (q : IndexEntry). o ≢ q.offset) entries
      × All (λ (q : IndexEntry). seen q.offset offsets ≡ false) entries
seen_later o offsets [] h = (tt, tt)
seen_later o offsets (q ∷ entries) (h, hs) =
    let (others, olds) = seen_later o offsets entries hs in
    elim (Bool-cases (o == q.offset)) [
      | inl same ↦ let clash : true ≡ false = rw same at h in cc
      | inr other ↦ ((λ e. let same = (==_iff o q.offset).1 e in cc, others), (rw other at h, olds))
    ]

module _ {X : Type 0} where
  check_offsets-inv :
      (offsets : List ℕ) (entries : List IndexEntry)
      → check_offsets {X = X} offsets entries ≡ ok tt
      → All (λ (q : IndexEntry). seen q.offset offsets ≡ false) entries
        × Pairwise (λ a b. a.offset ≢ b.offset) entries
  check_offsets-inv offsets [] e = (tt, tt)
  check_offsets-inv offsets (q ∷ entries) e =
      let (new, e1) =
        refused-inv (seen q.offset offsets) _ (check_offsets {X = X} (q.offset ∷ offsets) entries)
          e in
      let (later, apart) = check_offsets-inv (q.offset ∷ offsets) entries e1 in
      let (others, olds) = seen_later q.offset offsets entries later in
      ((new, olds), (others, apart))

  name_read-inv :
      (k : HashKind) (name : Bytes) (hash : ObjectHash)
      → from_bytes_for_kind {X = X} k name ≡ ok hash
      → (kind hash ≡ k) × (length (as_ref hash) ≡ size k) × (as_ref hash ≡ name)
  name_read-inv k name hash e =
      let (sized, same) = from_bytes_for_kind-inv k name e in
      let bytes : as_ref hash ≡ name = ap as_ref (sym same) ∙ as_ref-variant k name in
      (
        ap kind (sym same) ∙ kind-variant k name,
        ap (λ (bs : Bytes). length bs) bytes ∙ sized,
        bytes,
      )

  module _ (d : Digests) where
    read_names-inv :
        (n i : ℕ) (k : HashKind) (prev : Option Bytes) (reader reader' : IdxHashingReader d)
        (entries : List IndexEntry)
        → read_names d {X = X} n i k prev reader ≡ ok (entries, reader')
        → Ascending k prev (hashes_of entries)
    unfolding read_names
    read_names-inv zero i k prev reader reader' entries e =
        let same : ([], reader) ≡ (entries, reader') = ok-injective refl e in
        subst (λ (p : List IndexEntry × IdxHashingReader d). Ascending k prev (hashes_of p.0)) same
          tt
    read_names-inv (suc n) i k prev reader reader' entries e =
        let ((name, reader1), r1, e1) =
          >>=-eq-ok (read_exact_hashed d {X = X} (size k) reader) _ e in
        let (hash, r2, e2) = >>=-eq-ok (map_err _ (from_bytes_for_kind k name)) _ e1 in
        let (up, e3) = refused-inv (not (ascends prev name)) _ _ e2 in
        let ((later, reader2), r3, e4) =
          >>=-eq-ok (read_names d {X = X} n (1 + i) k (some name) reader1) _ e3 in
        let (of_kind, sized, bytes) =
          name_read-inv k name hash (map_err-eq-ok _ (from_bytes_for_kind {X = X} k name) r2) in
        let rest = read_names-inv n (1 + i) k (some name) reader1 reader2 later r3 in
        subst (λ (p : List IndexEntry × IdxHashingReader d). Ascending k prev (hashes_of p.0))
          (ok-injective refl e4)
          (
            of_kind,
            sized,
            subst (λ b. ascends prev b ≡ true) (sym bytes) (refuted (ascends prev name) up),
            subst (λ b. Ascending k (some b) (hashes_of later)) (sym bytes) rest,
          )

    read_crcs-hashes :
        (entries entries' : List IndexEntry) (reader reader' : IdxHashingReader d)
        → read_crcs d {X = X} entries reader ≡ ok (entries', reader')
        → hashes_of entries' ≡ hashes_of entries
    unfolding read_crcs
    read_crcs-hashes [] entries' reader reader' e =
        ap (λ (p : List IndexEntry × IdxHashingReader d). hashes_of p.0) (sym (ok-injective refl e))
    read_crcs-hashes (x ∷ entries) entries' reader reader' e =
        let ((crc32, reader1), r1, e1) = >>=-eq-ok (read_u32_hashed d {X = X} reader) _ e in
        let ((later, reader2), r2, e2) = >>=-eq-ok (read_crcs d {X = X} entries reader1) _ e1 in
        ap (λ (p : List IndexEntry × IdxHashingReader d). hashes_of p.0)
          (sym (ok-injective refl e2))
        ∙ ap (x.hash ∷◌) (read_crcs-hashes entries later reader1 reader2 r2)

    read_offsets-hashes :
        (entries : List IndexEntry) (slots : List (IndexEntry × Option ℕ))
        (reader reader' : IdxHashingReader d)
        → read_offsets d {X = X} entries reader ≡ ok (slots, reader')
        → slot_hashes slots ≡ hashes_of entries
    unfolding read_offsets
    read_offsets-hashes [] slots reader reader' e =
        ap (λ (p : List (IndexEntry × Option ℕ) × IdxHashingReader d). slot_hashes p.0)
          (sym (ok-injective refl e))
    read_offsets-hashes (x ∷ entries) slots reader reader' e =
        let ((raw, reader1), r1, e1) = >>=-eq-ok (read_u32_hashed d {X = X} reader) _ e in
        let ((later, reader2), r2, e2) = >>=-eq-ok (read_offsets d {X = X} entries reader1) _ e1 in
        let rest = read_offsets-hashes entries later reader1 reader2 r2 in
        elim (Bool-cases (raw / 2 ^ 31 % 2 == 0)) [
          | inl small ↦
              let e3 = rw small at e2 in
              ap (λ (p : List (IndexEntry × Option ℕ) × IdxHashingReader d). slot_hashes p.0)
                (sym (ok-injective refl e3))
              ∙ ap (x.hash ∷◌) rest
          | inr big ↦
              let e3 = rw big at e2 in
              ap (λ (p : List (IndexEntry × Option ℕ) × IdxHashingReader d). slot_hashes p.0)
                (sym (ok-injective refl e3))
              ∙ ap (x.hash ∷◌) rest
        ]

    -- The names and the offsets of the entries that are read.
    read_entries-inv :
        (k : HashKind) (total_len declared : ℕ) (fanout : List ℕ)
        (reader reader' : IdxHashingReader d) (entries : List IndexEntry)
        → read_entries d {X = X} k total_len declared fanout reader ≡ ok (entries, reader')
        → Ascending k none (hashes_of entries) × Pairwise (λ a b. a.offset ≢ b.offset) entries
    unfolding read_entries
    read_entries-inv k total_len declared fanout reader reader' entries e =
        let ((names, reader1), r1, e1) =
          >>=-eq-ok (read_names d {X = X} (get_or fanout 255 0) 0 k none reader) _ e in
        let (u, r2, e2) = >>=-eq-ok (check_fanout {X = X} 0 fanout (fanout_of names)) _ e1 in
        let ((sums, reader2), r3, e3) = >>=-eq-ok (read_crcs d {X = X} names reader1) _ e2 in
        let ((slots, reader3), r4, e4) = >>=-eq-ok (read_offsets d {X = X} sums reader2) _ e3 in
        let (slots_ok, e5) = refused-inv (ltb (large_slots slots) (large_count slots)) _ _ e4 in
        let (room, e6) = refused-inv (ltb total_len (declared + large_count slots * 8)) _ _ e5 in
        let ((large, reader4), r5, e7) =
          >>=-eq-ok (read_large d {X = X} (large_count slots) reader3) _ e6 in
        let (w, r6, e8) = >>=-eq-ok (check_offsets {X = X} [] (place_large large slots)) _ e7 in
        let hashes : hashes_of (place_large large slots) ≡ hashes_of names =
          place_large-hashes large slots
          ∙ read_offsets-hashes sums slots reader2 reader3 r4
          ∙ read_crcs-hashes names sums reader1 reader2 r3 in
        let ascending = read_names-inv (get_or fanout 255 0) 0 k none reader reader1 names r1 in
        let (fresh, apart) = check_offsets-inv [] (place_large large slots) r6 in
        subst
          (λ (p : List IndexEntry × IdxHashingReader d).
            Ascending k none (hashes_of p.0) × Pairwise (λ a b. a.offset ≢ b.offset) p.0)
          (ok-injective refl e8) (subst (Ascending k none) (sym hashes) ascending, apart)

    read_trailer-inv :
        (k : HashKind) (entries : List IndexEntry) (reader : IdxHashingReader d) (idx : IdxV2)
        → read_trailer d {X = X} k entries reader ≡ ok idx
        → (idx.entries ≡ entries) × (kind idx.pack_hash ≡ k) × (kind idx.idx_hash ≡ k)
    unfolding read_trailer
    read_trailer-inv k entries reader idx e =
        let ((buf, reader1), r1, e1) =
          >>=-eq-ok (read_exact_hashed d {X = X} (size k) reader) _ e in
        let (pack_hash, r2, e2) = >>=-eq-ok (map_err _ (from_bytes_for_kind k buf)) _ e1 in
        let ((buf', inner), r3, e3) = >>=-eq-ok (map_err _ (read_exact (size k) reader1.0)) _ e2 in
        let (idx_hash, r4, e4) = >>=-eq-ok (map_err _ (from_bytes_for_kind k buf')) _ e3 in
        let (sums, e5) =
          refused-inv (not (same_hash (finalize_object_hash d reader1.1) idx_hash)) _ _ e4 in
        let (ends, e6) = refused-inv (not (length inner == 0)) _ _ e5 in
        let (pack_kind, a, b) =
          name_read-inv k buf pack_hash (map_err-eq-ok _ (from_bytes_for_kind {X = X} k buf) r2) in
        let (idx_kind, a', b') =
          name_read-inv k buf' idx_hash (map_err-eq-ok _ (from_bytes_for_kind {X = X} k buf') r4) in
        subst
          (λ (i : IdxV2). (i.entries ≡ entries) × (kind i.pack_hash ≡ k) × (kind i.idx_hash ≡ k))
          (ok-injective refl e6) (refl, pack_kind, idx_kind)

    -- What the parser accepts, from any file and with any length that is claimed for it: the names
    -- have the kind and its width, each is above the one before it, no two entries have the same
    -- offset, and both checksums have the kind.
    pub parse_idx_v2_from-Ascending :
        (file : Bytes) (k : HashKind) (total_len : ℕ) (idx : IdxV2)
        → parse_idx_v2_from d {X = X} file k total_len ≡ ok idx
        → Ascending k none (hashes_of idx.entries)
          × Pairwise (λ a b. a.offset ≢ b.offset) idx.entries
          × (kind idx.pack_hash ≡ k)
          × (kind idx.idx_hash ≡ k)
    unfolding parse_idx_v2_from
    parse_idx_v2_from-Ascending file k total_len idx e =
        let ((magic, reader1), r1, e1) =
          >>=-eq-ok (read_u32_hashed d {X = X} (file, hasher_for_kind d k)) _ e in
        let ((version, reader2), r2, e2) = >>=-eq-ok (read_u32_hashed d {X = X} reader1) _ e1 in
        let (u, r3, e3) = >>=-eq-ok (validate_idx_v2_header {X = X} magic version) _ e2 in
        let ((fanout, reader3), r4, e4) = >>=-eq-ok (read_fanout d {X = X} 256 0 0 reader2) _ e3 in
        let declared = 8 + 256 * 4 + 2 * size k + (size k + 4 + 4) * get_or fanout 255 0 in
        let (fits, e5) = refused-inv (ltb total_len declared) _ _ e4 in
        let ((entries, reader4), r5, e6) =
          >>=-eq-ok (read_entries d {X = X} k total_len declared fanout reader3) _ e5 in
        let (ascending, apart) =
          read_entries-inv k total_len declared fanout reader3 reader4 entries r5 in
        let (same, pack_kind, idx_kind) = read_trailer-inv k entries reader4 idx e6 in
        (
          subst (λ es. Ascending k none (hashes_of es)) (sym same) ascending,
          subst (Pairwise (λ a b. a.offset ≢ b.offset)) (sym same) apart,
          pack_kind,
          idx_kind,
        )
