-- ===== src/Pack/Decode/Objects.antt =====
-- The objects of a pack without deltas, as they are read back: src/internal/pack/decode.rs.
use git_internal.Base.{
  ℕ, ◌+◌, Bool, true, false, ◌++◌, Bytes, if◌then◌else◌, length, ok, Option, none, some, ◌≡◌, refl,
  sym, ap, ◌∙◌, arith, append_assoc, length-append, take_front, drop-append, ==_iff, le→ltb,
}
use git_internal.Object.Types.Plain.{is_base-IsPlain}
use git_internal.Hash.{HashKind, ObjectHash, same_hash}
use git_internal.Hash.Kinds.{same_hash_refl}
use git_internal.Hash.Digest.{Digests}
use git_internal.Pack.Varint.{object_header, read_type_and_varint_size}
use git_internal.Pack.Varint.Size.{read_type_and_varint_size-object_header}
use git_internal.Pack.Resolve.{CacheObject, CacheObjectInfo, verify_known_hash}
use git_internal.Pack.Object.{
  Inflated, Arguments, extra_read, verify_known_crc, decompress_data, decode_base, decode_by_type,
  decode_pack_object_with_crc,
}
use git_internal.Pack.Encode.{Entry}
use git_internal.Pack.Encode.Entries.{IsEntry, entry_bytes, entry_bytes-eq}

-- The documented behaviour of the zlib library: what was compressed is delivered whole, whatever
-- follows it, and no byte that follows is taken.
abbrev pub Inflates : {Z : Type 0} → (Bytes → Bytes) → (Bytes → Inflated Z) → Type 0
Inflates compress inflate =
    (content rest : Bytes)
    → inflate (compress content ++ rest)
      ≡ record { delivered = content; ending = ok (length (compress content)) }

-- What is supplied of a value is right.
abbrev pub Agrees {ℓ} : {A : Type ℓ} → Option A → A → Type ℓ
Agrees none v = Unit
Agrees (some w) v = w ≡ v

-- The object that an entry at an offset becomes.
abbrev pub object_of : (Bytes → Bytes) → (Bytes → ℕ) → Bool → ℕ → Entry → CacheObject
object_of compress crc32 track_crc offset e = record {
  info = CacheObjectInfo.base_object e.obj_type e.hash;
  offset = offset;
  crc32 = if track_crc then crc32 (entry_bytes compress e) else 0;
  data_decompressed = e.content;
  is_delta_in_pack = false;
  known_hash = none;
}

module _ {X Z : Type 0} where
  verify_known_crc-Agrees :
      (track_crc : Bool) (offset crc : ℕ) (known_crc : Option ℕ)
      → Agrees known_crc crc
      → verify_known_crc {X = X} {Z = Z} track_crc offset (if track_crc then crc else 0) known_crc
        ≡ ok tt
  unfolding verify_known_crc
  verify_known_crc-Agrees track_crc offset crc none h = refl
  verify_known_crc-Agrees true offset crc (some w) h =
      let same = (==_iff crc w).1 (sym h) in rw same refl
  verify_known_crc-Agrees false offset crc (some w) h = refl

module _ {X : Type 0} where
  verify_known_hash-Agrees :
      (offset : ℕ) (hash : ObjectHash) (known_hash : Option ObjectHash)
      → Agrees known_hash hash
      → verify_known_hash {X = X} offset hash known_hash ≡ ok tt
  verify_known_hash-Agrees offset hash none h = refl
  verify_known_hash-Agrees offset hash (some w) h =
      let same : same_hash w hash ≡ true = ap (λ v. same_hash v hash) h ∙ same_hash_refl hash in
      rw same refl

module _ {X Z : Type 0} (d : Digests) (compress : Bytes → Bytes) (inflate : Bytes → Inflated Z)
    (crc32 : Bytes → ℕ) (inflates : Inflates compress inflate) where
  decompress_data-compress :
      (content rest : Bytes)
      → decompress_data {X = X} d inflate crc32 (compress content ++ rest) (length content)
        ≡ ok (content, length (compress content))
  unfolding decompress_data extra_read
  decompress_data-compress content rest =
      let enough = le→ltb (length content) (length content) (omega arith) in
      rw (inflates content rest, enough) refl

  decode_base-object_of :
      (k : HashKind) (a : Arguments) (e : Entry) (offset offset' : ℕ) (rest : Bytes)
      → IsEntry X d k e
      → Agrees a.known_hash e.hash
      → Agrees a.known_crc (crc32 (entry_bytes compress e))
      → decode_base {X = X} d inflate crc32 k a e.obj_type (record {
        entry = entry_bytes compress e ++ rest;
        init_offset = offset;
        size = length e.content;
        offset = offset';
        stream = compress e.content ++ rest;
      })
        ≡ ok (
          some (object_of compress crc32 a.track_crc offset e),
          (offset' + length (compress e.content), rest),
        )
  unfolding decode_base
  decode_base-object_of k a e offset offset' rest ready hash_known crc_known =
      rw
        (
          decompress_data-compress e.content rest,
          drop-append (compress e.content) rest,
          take_front (entry_bytes compress e) rest,
          verify_known_crc-Agrees {X = X} {Z = Z} a.track_crc offset
              (crc32 (entry_bytes compress e)) a.known_crc crc_known,
          ready.named,
          verify_known_hash-Agrees {X = X} offset e.hash a.known_hash hash_known,
        )
        refl

  -- An entry is read back, whatever follows it.
  pub decode_pack_object-object_of :
      (k : HashKind) (a : Arguments) (e : Entry) (offset : ℕ) (rest : Bytes)
      → IsEntry X d k e
      → a.skip_unneeded_objects ≡ false
      → Agrees a.known_hash e.hash
      → Agrees a.known_crc (crc32 (entry_bytes compress e))
      → decode_pack_object_with_crc {X = X} d inflate crc32 k a
          (entry_bytes compress e ++ rest)
          offset
        ≡ ok (
          some (object_of compress crc32 a.track_crc offset e),
          (offset + length (entry_bytes compress e), rest),
        )
  unfolding decode_pack_object_with_crc decode_by_type
  decode_pack_object-object_of k a e offset rest ready decoded hash_known crc_known =
      let p = is_base-IsPlain e.obj_type ready.base in
      let header = object_header p.number (length e.content) in
      let bytes = entry_bytes-eq compress e p in
      let whole : entry_bytes compress e ++ rest ≡ header ++ (compress e.content ++ rest) =
        ap (◌++ rest) bytes ∙ append_assoc header (compress e.content) rest in
      let read : read_type_and_varint_size (entry_bytes compress e ++ rest) offset
          ≡ ok (p.number, (length e.content, offset + length header), compress e.content ++ rest) =
        ap (λ b. read_type_and_varint_size b offset) whole
        ∙ read_type_and_varint_size-object_header p.number (length e.content) offset
            (compress e.content ++ rest) p.small ready.short in
      rw
        (
          read,
          p.parsed,
          ready.base,
          decode_base-object_of k a e offset (offset + length header) rest ready hash_known
              crc_known,
          decoded,
        )
        (ap (λ (o : ℕ). ok (some (object_of compress crc32 a.track_crc offset e), (o, rest)))
          (omega
            (arith, length-append header (compress e.content), ap (λ (b : Bytes). length b) bytes)))
