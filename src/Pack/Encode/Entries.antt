-- ===== src/Pack/Encode/Entries.antt =====
-- The entries of src/internal/pack/entry.rs that the encoder takes, their bytes and their index.
use git_internal.Base.{
  ℕ, ◌+◌, ◌<◌, ◌^◌, true, List, [], ◌∷◌, ◌++◌, Bytes, length, Result, ok, err, none, ◌≡◌, refl, sym,
  ap, ◌∙◌, arith, append_assoc, length-append,
}
use git_internal.Object.Types.{ObjectType, is_base}
use git_internal.Object.Types.Plain.{IsPlain}
use git_internal.Hash.{HashKind, kind}
use git_internal.Hash.Digest.{Digests}
use git_internal.Hash.Digest.Loose.{calculate_object_hash_for_kind}
use git_internal.Pack.Varint.{object_header}
use git_internal.Pack.Entry.{
  encode_one_object, type_number, base_reference, offset_data, checked_offset,
}
use git_internal.Pack.Idx.{IndexEntry}
use git_internal.Pack.Encode.{Entry}

-- An entry that a pack of the kind can hold: of a plain type, under the name of its content.
pub record IsEntry (X : Type 0) (d : Digests) (k : HashKind) (e : Entry) : Type 0 where
  pub base : is_base e.obj_type ≡ true
  pub named : calculate_object_hash_for_kind d {X = X} k e.obj_type e.content ≡ ok e.hash
  pub of_kind : kind e.hash ≡ k
  pub short : length e.content < 2 ^ 64

abbrev or_empty : {E : Type 0} → Result E Bytes → Bytes
or_empty (ok bytes) = bytes
or_empty (err e) = []

-- The bytes of an entry, and those of all entries, one behind another.
abbrev pub entry_bytes : (Bytes → Bytes) → Entry → Bytes
entry_bytes compress e = or_empty (encode_one_object compress e.obj_type e.content none)

abbrev pub body : (Bytes → Bytes) → List Entry → Bytes
body compress [] = []
body compress (e ∷ entries) = entry_bytes compress e ++ body compress entries

pub encode_one_object-IsPlain :
    (compress : Bytes → Bytes) (t : ObjectType) (content : Bytes) (p : IsPlain t)
    → encode_one_object compress t content none
      ≡ ok (object_header p.number (length content) ++ compress content)
unfolding encode_one_object type_number base_reference offset_data checked_offset
encode_one_object-IsPlain compress t content p = rw (p.bits, p.no_offset, p.no_hash) refl

pub entry_bytes-eq :
    (compress : Bytes → Bytes) (e : Entry) (p : IsPlain e.obj_type)
    → entry_bytes compress e ≡ object_header p.number (length e.content) ++ compress e.content
entry_bytes-eq compress e p = rw (encode_one_object-IsPlain compress e.obj_type e.content p) refl

pub body-append :
    (compress : Bytes → Bytes) (a b : List Entry)
    → body compress (a ++ b) ≡ body compress a ++ body compress b
body-append compress [] b = refl
body-append compress (e ∷ a) b =
    ap (entry_bytes compress e ++◌) (body-append compress a b)
    ∙ sym (append_assoc (entry_bytes compress e) (body compress a) (body compress b))

-- The index of entries that stand one behind another, from an offset on.
abbrev pub idx_from : (Bytes → Bytes) → (Bytes → ℕ) → ℕ → List Entry → List IndexEntry
idx_from compress crc32 offset [] = []
idx_from compress crc32 offset (e ∷ entries) =
    record { hash = e.hash; crc32 = crc32 (entry_bytes compress e); offset = offset }
    ∷ idx_from compress crc32 (offset + length (entry_bytes compress e)) entries

pub idx_from-append :
    (compress : Bytes → Bytes) (crc32 : Bytes → ℕ) (offset : ℕ) (a b : List Entry)
    → idx_from compress crc32 offset (a ++ b)
      ≡ idx_from compress crc32 offset a
        ++ idx_from compress crc32 (offset + length (body compress a)) b
idx_from-append compress crc32 offset [] b =
    ap (λ (o : ℕ). idx_from compress crc32 o b) (omega arith)
idx_from-append compress crc32 offset (e ∷ a) b =
    let bytes = entry_bytes compress e in
    ap
      (λ (later : List IndexEntry).
        record { hash = e.hash; crc32 = crc32 bytes; offset = offset } ∷ later)
      (idx_from-append compress crc32 (offset + length bytes) a b
        ∙ ap
            (λ (o : ℕ).
              idx_from compress crc32 (offset + length bytes) a ++ idx_from compress crc32 o b)
            (omega (arith, length-append bytes (body compress a))))
