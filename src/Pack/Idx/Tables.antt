-- ===== src/Pack/Idx/Tables.antt =====
-- The tables of a pack index, src/internal/pack/pack_index.rs, as they are written and read.
use git_internal.Base.{
  ℕ, zero, suc, ◌+◌, ◌/◌, ◌%◌, ◌^◌, ◌<◌, ◌≤◌, true, false, List, [], ◌∷◌, ◌++◌, Bytes, ◌==◌, leb,
  length, map, ok, Option, none, some, ◌≡◌, refl, sym, ap, ap₂, ◌∙◌, arith, All, inl, inr,
  Bool-cases, ==_iff, le→ltb, leb→le, append_assoc, append-nil,
}
use git_internal.Delta.Decode.{read_exact}
use git_internal.Delta.Decode.Stream.{read_exact-append}
use git_internal.Pack.Header.{to_be_bytes, be_value}
use git_internal.Hash.{HashKind, ObjectHash, size, as_ref, variant, from_bytes_for_kind}
use git_internal.Hash.Kinds.{OfKind, from_bytes_for_kind-sized, variant-kind}
use git_internal.Hash.Digest.{Digests, HashAlgorithm, update}
use git_internal.Hash.Digest.Objects.{update-append, update-nil}
use git_internal.Index.Entry.RoundTrip.{IsWord}
use git_internal.Pack.Idx.{IndexEntry, ascends, to_be_bytes_64, offset_words, large_offsets_of}
use git_internal.Pack.Idx.Read.{
  read_exact_hashed, read_u32_hashed, read_fanout, read_names, read_crcs, read_offsets, read_large,
}
use git_internal.Pack.Idx.Write.{send_each}
use git_internal.Pack.Idx.Fanout.{Rises}
use git_internal.Pack.Idx.Sort.{Pairwise, Below, Below-compare_bytes}
use git_internal.Pack.Idx.Slots.{named, summed, slots_of}

abbrev pub concat : List Bytes → Bytes
concat [] = []
concat (bytes ∷ later) = bytes ++ concat later

abbrev pub words : List ℕ → Bytes
words ns = concat (map to_be_bytes ns)

abbrev pub long_words : List ℕ → Bytes
long_words ns = concat (map to_be_bytes_64 ns)

abbrev pub names_of : List IndexEntry → Bytes
names_of entries = concat (map (λ (e : IndexEntry). as_ref e.hash) entries)

abbrev pub crcs_of : List IndexEntry → Bytes
crcs_of entries = concat (map (λ (e : IndexEntry). to_be_bytes e.crc32) entries)

pub named_hash : (k : HashKind) (h : ObjectHash) → OfKind k h → variant k (as_ref h) ≡ h
named_hash k h typed = ap (λ j. variant j (as_ref h)) (sym typed.of_kind) ∙ variant-kind h

-- The names that may follow a name of the kind.
ascends_later :
    (k : HashKind) (e : IndexEntry) (entries : List IndexEntry)
    → OfKind k e.hash
    → All (λ (q : IndexEntry). OfKind k q.hash) entries
    → All (Below e) entries
    → All (λ (q : IndexEntry). ascends (some (as_ref e.hash)) (as_ref q.hash) ≡ true) entries
ascends_later k e [] typed types below = tt
ascends_later k e (q ∷ entries) typed (t, types) (b, below) =
    let less = Below-compare_bytes e q (typed.of_kind ∙ sym t.of_kind) b in
    (rw less refl, ascends_later k e entries typed types below)

module _ (d : Digests) where
  pub send_each-concat :
      (chunks : List Bytes) (sent : Bytes) (hasher : HashAlgorithm d)
      → send_each d chunks (sent, hasher) ≡ (sent ++ concat chunks, update d hasher (concat chunks))
  send_each-concat [] sent hasher =
      ap₂ (λ (s : Bytes) (h : HashAlgorithm d). (s, h)) (sym (append-nil sent))
        (sym (update-nil d hasher))
  send_each-concat (bytes ∷ later) sent hasher =
      send_each-concat later (sent ++ bytes) (update d hasher bytes)
      ∙ ap₂ (λ (s : Bytes) (h : HashAlgorithm d). (s, h)) (append_assoc sent bytes (concat later))
          (update-append d hasher bytes (concat later))

  module _ {X : Type 0} where
    pub read_exact_hashed-append :
        {n : ℕ} (xs rest : Bytes) (h : HashAlgorithm d)
        → length xs ≡ n
        → read_exact_hashed d {X = X} n (xs ++ rest, h) ≡ ok (xs, (rest, update d h xs))
    unfolding read_exact_hashed
    read_exact_hashed-append {n} xs rest h sized =
        let read : read_exact n (xs ++ rest) ≡ ok (xs, rest) =
          ap (λ m. read_exact m (xs ++ rest)) (sym sized) ∙ read_exact-append xs rest in
        rw read refl

    pub read_u32_hashed-append :
        (n : ℕ) (rest : Bytes) (h : HashAlgorithm d)
        → IsWord n
        → read_u32_hashed d {X = X} (to_be_bytes n ++ rest, h)
          ≡ ok (n, (rest, update d h (to_be_bytes n)))
    unfolding read_u32_hashed
    read_u32_hashed-append n rest h word =
        rw (read_exact_hashed-append {n = 4} (to_be_bytes n) rest h refl)
          (ap (λ m. ok (m, (rest, update d h (to_be_bytes n)))) (omega (arith, word)))

    pub read_fanout-words :
        (n i prev : ℕ) (fanout : List ℕ) (rest : Bytes) (h : HashAlgorithm d)
        → length fanout ≡ n
        → All IsWord fanout
        → Rises prev fanout
        → read_fanout d {X = X} n i prev (words fanout ++ rest, h)
          ≡ ok (fanout, (rest, update d h (words fanout)))
    unfolding read_fanout
    read_fanout-words zero i prev [] rest h sized ws rises =
        ap (λ (g : HashAlgorithm d). ok ([], (rest, g))) (sym (update-nil d h))
    read_fanout-words zero i prev (w ∷ fanout) rest h sized ws rises = absurd (omega (arith, sized))
    read_fanout-words (suc n) i prev [] rest h sized ws rises = absurd (omega (arith, sized))
    read_fanout-words (suc n) i prev (w ∷ fanout) rest h sized (word, ws) (up, rises) =
        let assoc = append_assoc (to_be_bytes w) (words fanout) rest in
        let kept = le→ltb w prev up in
        let later =
          read_fanout-words n (1 + i) w fanout rest (update d h (to_be_bytes w))
            (omega (arith, sized)) ws rises in
        rw (assoc, read_u32_hashed-append w (words fanout ++ rest) h word, kept, later)
          (ap (λ (g : HashAlgorithm d). ok (w ∷ fanout, (rest, g)))
            (update-append d h (to_be_bytes w) (words fanout)))

    pub read_names-names_of :
        (i : ℕ) (k : HashKind) (prev : Option Bytes) (entries : List IndexEntry) (rest : Bytes)
        (h : HashAlgorithm d)
        → All (λ (e : IndexEntry). OfKind k e.hash) entries
        → All (λ (e : IndexEntry). ascends prev (as_ref e.hash) ≡ true) entries
        → Pairwise Below entries
        → read_names d {X = X} (length entries) i k prev (names_of entries ++ rest, h)
          ≡ ok (map named entries, (rest, update d h (names_of entries)))
    unfolding read_names
    read_names-names_of i k prev [] rest h types up below =
        ap (λ (g : HashAlgorithm d). ok ([], (rest, g))) (sym (update-nil d h))
    read_names-names_of i k prev (e ∷ entries) rest h (typed, types) (up, ups) (b, below) =
        let name = as_ref e.hash in
        let assoc = append_assoc name (names_of entries) rest in
        let long : length name ≡ size k = typed.well_formed.sized ∙ ap size typed.of_kind in
        let hash : from_bytes_for_kind {X = X} k name ≡ ok e.hash =
          from_bytes_for_kind-sized k name long ∙ ap ok (named_hash k e.hash typed) in
        let later =
          read_names-names_of (1 + i) k (some name) entries rest (update d h name) types
            (ascends_later k e entries typed types b) below in
        rw
          (
            assoc,
            read_exact_hashed-append {n = size k} name (names_of entries ++ rest) h long,
            hash,
            up,
            later,
          )
          (ap (λ (g : HashAlgorithm d). ok (named e ∷ map named entries, (rest, g)))
            (update-append d h name (names_of entries)))

    pub read_crcs-crcs_of :
        (entries : List IndexEntry) (rest : Bytes) (h : HashAlgorithm d)
        → All (λ (e : IndexEntry). IsWord e.crc32) entries
        → read_crcs d {X = X} (map named entries) (crcs_of entries ++ rest, h)
          ≡ ok (map summed entries, (rest, update d h (crcs_of entries)))
    unfolding read_crcs
    read_crcs-crcs_of [] rest h ws =
        ap (λ (g : HashAlgorithm d). ok ([], (rest, g))) (sym (update-nil d h))
    read_crcs-crcs_of (e ∷ entries) rest h (word, ws) =
        let crc = to_be_bytes e.crc32 in
        let assoc = append_assoc crc (crcs_of entries) rest in
        rw
          (
            assoc,
            read_u32_hashed-append e.crc32 (crcs_of entries ++ rest) h word,
            read_crcs-crcs_of entries rest (update d h crc) ws,
          )
          (ap (λ (g : HashAlgorithm d). ok (summed e ∷ map summed entries, (rest, g)))
            (update-append d h crc (crcs_of entries)))

    pub read_large-long_words :
        (n : ℕ) (offsets : List ℕ) (rest : Bytes) (h : HashAlgorithm d)
        → length offsets ≡ n
        → All (λ (o : ℕ). o < 2 ^ 64) offsets
        → read_large d {X = X} n (long_words offsets ++ rest, h)
          ≡ ok (offsets, (rest, update d h (long_words offsets)))
    unfolding read_large
    read_large-long_words zero [] rest h sized ls =
        ap (λ (g : HashAlgorithm d). ok ([], (rest, g))) (sym (update-nil d h))
    read_large-long_words zero (o ∷ offsets) rest h sized ls = absurd (omega (arith, sized))
    read_large-long_words (suc n) [] rest h sized ls = absurd (omega (arith, sized))
    read_large-long_words (suc n) (o ∷ offsets) rest h sized (l, ls) =
        let bytes = to_be_bytes_64 o in
        let assoc = append_assoc bytes (long_words offsets) rest in
        let value : be_value 0 bytes ≡ o = omega (arith, l) in
        rw
          (
            assoc,
            read_exact_hashed-append {n = 8} bytes (long_words offsets ++ rest) h refl,
            read_large-long_words n offsets rest (update d h bytes) (omega (arith, sized)) ls,
            value,
          )
          (ap (λ (g : HashAlgorithm d). ok (o ∷ offsets, (rest, g)))
            (update-append d h bytes (long_words offsets)))

    -- A small offset is its own word; a large one is marked, with its slot.
    pub read_offsets-offset_words :
        (large : ℕ) (entries : List IndexEntry) (rest : Bytes) (h : HashAlgorithm d)
        → large + length (large_offsets_of entries) ≤ 2 ^ 31
        → read_offsets d {X = X}
            (map summed entries)
            (words (offset_words large entries) ++ rest, h)
          ≡ ok (slots_of large entries, (rest, update d h (words (offset_words large entries))))
    unfolding read_offsets
    read_offsets-offset_words large [] rest h few =
        ap (λ (g : HashAlgorithm d). ok ([], (rest, g))) (sym (update-nil d h))
    read_offsets-offset_words large (e ∷ entries) rest h few =
        elim (Bool-cases (leb e.offset 0x7fffffff)) [
          | inl small ↦
              let bound = leb→le e.offset 0x7fffffff small in
              let few' : large + length (large_offsets_of entries) ≤ 2 ^ 31 = rw small at few in
              let word = to_be_bytes e.offset in
              let more = words (offset_words large entries) in
              let unmarked : (e.offset / 2 ^ 31 % 2 == 0) ≡ true =
                (==_iff (e.offset / 2 ^ 31 % 2) 0).1 (omega (arith, bound)) in
              rw
                (
                  small,
                  append_assoc word more rest,
                  read_u32_hashed-append e.offset (more ++ rest) h (omega (arith, bound)),
                  read_offsets-offset_words large entries rest (update d h word) few',
                  unmarked,
                )
                (ap (λ (g : HashAlgorithm d). ok ((e, none) ∷ slots_of large entries, (rest, g)))
                  (update-append d h word more))
          | inr big ↦
              let more_slots = length (large_offsets_of entries) in
              let few' : large + suc more_slots ≤ 2 ^ 31 = rw big at few in
              let number = 2 ^ 31 + large % 2 ^ 31 in
              let word = to_be_bytes number in
              let more = words (offset_words (1 + large) entries) in
              let marked : (number / 2 ^ 31 % 2 == 0) ≡ false = ground arith in
              let slot : number % 2 ^ 31 ≡ large = omega (arith, few') in
              rw
                (
                  big,
                  append_assoc word more rest,
                  read_u32_hashed-append number (more ++ rest) h (omega arith),
                  read_offsets-offset_words (1 + large) entries rest (update d h word)
                      (omega (arith, few')),
                  marked,
                  slot,
                )
                (ap
                  (λ (g : HashAlgorithm d).
                    ok ((summed e, some large) ∷ slots_of (1 + large) entries, (rest, g)))
                  (update-append d h word more))
        ]
