-- ===== src/Pack/Idx/Lengths.antt =====
-- The sizes of the tables of a pack index, src/internal/pack/pack_index.rs.
use git_internal.Base.{
  ℕ, suc, ◌+◌, ◌*◌, ◌^◌, ◌<◌, ◌≤◌, List, [], ◌∷◌, Bytes, leb, length, get_or, ◌≡◌, ◌≢◌, refl, ap,
  ◌∙◌, arith, All, inl, inr, Bool-cases, length-append, IsByte,
}
use git_internal.Hash.{HashKind, size, as_ref}
use git_internal.Hash.Kinds.{OfKind}
use git_internal.Index.Entry.RoundTrip.{IsWord}
use git_internal.Pack.Idx.{IndexEntry, offset_words, large_offsets_of}
use git_internal.Pack.Idx.Fanout.{HasCounter}
use git_internal.Pack.Idx.Sort.{Pairwise}
use git_internal.Pack.Idx.Tables.{words, long_words, names_of, crcs_of}

-- An entry that fits its columns.
pub record IsIndexEntry (k : HashKind) (e : IndexEntry) : Type 0 where
  pub hash : OfKind k e.hash
  pub crc32 : IsWord e.crc32
  pub offset : e.offset < 2 ^ 64

-- Entries that can be written: of one kind, no name and no offset twice, and no more of them than
-- there are slots for large offsets.
pub record IsIdx (k : HashKind) (entries : List IndexEntry) : Type 0 where
  pub each : All (IsIndexEntry k) entries
  pub names : Pairwise (λ a b. a.hash ≢ b.hash) entries
  pub offsets : Pairwise (λ a b. a.offset ≢ b.offset) entries
  pub few : length entries ≤ 2 ^ 31

first_byte : (bs : Bytes) → All IsByte bs → get_or bs 0 0 < 256
first_byte [] h = omega arith
first_byte (b ∷ bs) (h, hs) = h

pub IsIndexEntry-HasCounter : (k : HashKind) (e : IndexEntry) → IsIndexEntry k e → HasCounter 256 e
IsIndexEntry-HasCounter k e h = first_byte (as_ref e.hash) h.hash.well_formed.bytes

pub large_offsets_of-All :
    (k : HashKind) (entries : List IndexEntry)
    → All (IsIndexEntry k) entries
    → All (λ (o : ℕ). o < 2 ^ 64) (large_offsets_of entries)
large_offsets_of-All k [] h = tt
large_offsets_of-All k (e ∷ entries) (h, hs) = elim (Bool-cases (leb e.offset 0x7fffffff)) [
  | inl small ↦ rw small (large_offsets_of-All k entries hs)
  | inr big ↦ rw big (h.offset, large_offsets_of-All k entries hs)
]

pub length-large_offsets_of :
    (entries : List IndexEntry) → length (large_offsets_of entries) ≤ length entries
length-large_offsets_of [] = omega arith
length-large_offsets_of (e ∷ entries) = elim (Bool-cases (leb e.offset 0x7fffffff)) [
  | inl small ↦ rw small (omega (arith, length-large_offsets_of entries))
  | inr big ↦ rw big (omega (arith, length-large_offsets_of entries))
]

pub length-offset_words :
    (large : ℕ) (entries : List IndexEntry) → length (offset_words large entries) ≡ length entries
length-offset_words large [] = refl
length-offset_words large (e ∷ entries) = elim (Bool-cases (leb e.offset 0x7fffffff)) [
  | inl small ↦ rw small (ap suc (length-offset_words large entries))
  | inr big ↦ rw big (ap suc (length-offset_words (1 + large) entries))
]

pub length-words : (ns : List ℕ) → length (words ns) ≡ 4 * length ns
length-words [] = omega arith
length-words (n ∷ ns) = omega (arith, length-words ns)

pub length-long_words : (ns : List ℕ) → length (long_words ns) ≡ 8 * length ns
length-long_words [] = omega arith
length-long_words (n ∷ ns) = omega (arith, length-long_words ns)

pub length-crcs_of : (entries : List IndexEntry) → length (crcs_of entries) ≡ 4 * length entries
length-crcs_of [] = omega arith
length-crcs_of (e ∷ entries) = omega (arith, length-crcs_of entries)

pub length-names_of :
    (k : HashKind) (entries : List IndexEntry)
    → All (IsIndexEntry k) entries
    → length (names_of entries) ≡ size k * length entries
length-names_of k [] h = omega arith
length-names_of k (e ∷ entries) (h, hs) =
    let long : length (as_ref e.hash) ≡ size k =
      h.hash.well_formed.sized ∙ ap size h.hash.of_kind in
    omega
      (arith, length-append (as_ref e.hash) (names_of entries), length-names_of k entries hs, long)
