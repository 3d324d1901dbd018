-- ===== src/Pack/Object.antt =====
-- One object of a pack as it is decoded, src/internal/pack/decode.rs. The pack's reader is what is left
-- of the pack. The zlib and CRC libraries are parameters: of a stream, what the decompressor delivers
-- up to its end or its first error, and how many bytes it has taken by its end or what the error is.
-- Payloads that are only hashed or skipped go through a buffer in the code, and at once here.
pub mod Skip
pub mod Tests
use git_internal.Base.{
  ℕ, ◌+◌, ◌-◌, ◌*◌, Bool, true, false, not, ◌&&◌, ◌||◌, List, [], ◌∷◌, ◌++◌, Bytes, ◌==◌, ltb, leb,
  if◌then◌else◌, length, take, drop, Result, ok, err, map_err, ◌>>=◌, Option, none, some,
}
use git_internal.Base.Decimal.{decimal}
use git_internal.Object.Types.{
  ObjectType, offset_delta, offset_zstdelta, hash_delta, from_pack_type_u8, is_base,
}
use git_internal.Object.Names.{to_bytes}
use git_internal.Hash.{HashKind, ObjectHash, HashError, size, same_hash}
use git_internal.Hash.Parse.{ok_or}
use git_internal.Hash.Stream.{chunk, from_stream_for_kind}
use git_internal.Hash.Digest.{Digests, hasher_for_kind, update, finalize_object_hash}
use git_internal.Hash.Digest.Loose.{calculate_object_hash_for_kind}
use git_internal.Delta.Size.{IoError}
use git_internal.Pack.Varint.{
  read_type_and_varint_size, read_offset_encoding, read_delta_object_size,
}
use git_internal.Pack.Resolve.{CacheObject, CacheObjectInfo, DecodeError, verify_known_hash}

pub data ObjectError (X Z : Type 0) : Type 0 where
  read_error offset_base_error delta_size_error : IoError → ObjectError X Z
  invalid_object_type : ℕ → ObjectError X Z
  decompression_error : Option Z → ObjectError X Z
  exceeds_size below_size : ℕ → ObjectError X Z
  no_loose_header ai_object : ObjectType → ObjectError X Z
  wrong_crc : ℕ → ℕ → ℕ → ObjectError X Z
  wrong_object : DecodeError X → ObjectError X Z
  invalid_hash_value hash_base_error : HashError X → ObjectError X Z
  missing_hash invalid_offset : ObjectError X Z

pub record Inflated (Z : Type 0) : Type 0 where
  pub delivered : Bytes
  pub ending : Result Z ℕ

-- `DecodeRetention`: how often each base is still needed, by offset and by hash.
pub record DecodeRetention : Type 0 where
  pub offset_remaining : List (ℕ × ℕ)
  pub hash_remaining : List (ObjectHash × ℕ)

abbrev contains_key {ℓ} : {K : Type ℓ} → (K → Bool) → List (K × ℕ) → Bool
contains_key is_key [] = false
contains_key is_key (p ∷ counts) = is_key p.0 || contains_key is_key counts

abbrev pub should_retain : DecodeRetention → ℕ → ObjectHash → Bool
should_retain retention offset hash =
    contains_key (λ o. o == offset) retention.offset_remaining
    || contains_key (λ h. same_hash h hash) retention.hash_remaining

-- The arguments of `decode_pack_object_with_crc` beside the reader and the offset.
pub record Arguments : Type 0 where
  pub track_crc : Bool
  pub skip_unneeded_objects : Bool
  pub emit_skipped_base_callback : Bool
  pub known_hash : Option ObjectHash
  pub known_crc : Option ℕ
  pub retention : Option DecodeRetention

abbrev pub skip_by : Option ObjectHash → Option DecodeRetention → ℕ → Bool
skip_by (some hash) (some retention) offset = not (should_retain retention offset hash)
skip_by _ _ offset = false

abbrev pub should_skip_no_callback_object : Arguments → ℕ → Bool
should_skip_no_callback_object a offset =
    if not a.skip_unneeded_objects then false else skip_by a.known_hash a.retention offset

module _ {X Z : Type 0} where
  -- Where the content ends before the size that was expected.
  abbrev pub read_exact_error : Result Z ℕ → ObjectError X Z
  read_exact_error (ok consumed) = decompression_error none
  read_exact_error (err z) = decompression_error (some z)

  abbrev pub read_error_of : ℕ → Result Z ℕ → ObjectError X Z
  read_error_of expected_size (ok consumed) = below_size expected_size
  read_error_of expected_size (err z) = decompression_error (some z)

  -- The read of one more byte: there is none, and the compressed bytes are counted.
  unfoldable pub extra_read : ℕ → Inflated Z → Result (ObjectError X Z) ℕ
  extra_read expected_size inflated =
      if ltb expected_size (length inflated.delivered)
      then err (exceeds_size expected_size)
      else map_err (λ z. decompression_error (some z)) inflated.ending

  unfoldable pub verify_known_crc : Bool → ℕ → ℕ → Option ℕ → Result (ObjectError X Z) (Unit {0})
  verify_known_crc track_crc offset computed none = ok tt
  verify_known_crc track_crc offset computed (some expected) =
      if track_crc && not (computed == expected)
      then err (wrong_crc offset computed expected)
      else ok tt

  abbrev pub size_error : Result IoError ((ℕ × ℕ) × Bytes) → Result (ObjectError X Z) ℕ
  size_error (ok ((base_size, final_size), stream)) = ok final_size
  size_error (err e) = err (delta_size_error e)

-- `CrcCountingReader::crc32`, over what was read of the entry.
abbrev pub crc_of : (Bytes → ℕ) → Bool → Bytes → Bytes → ℕ
crc_of crc32 track_crc entry rest =
    if track_crc then crc32 (take (length entry - length rest) entry) else 0

-- The part of an entry behind its header: what came before, the size, and the reader.
pub record Head : Type 0 where
  pub entry : Bytes
  pub init_offset : ℕ
  pub size : ℕ
  pub offset : ℕ
  pub stream : Bytes

abbrev pub Decoded : Type 0
Decoded = Option CacheObject × (ℕ × Bytes)

module _ {X Z : Type 0} (d : Digests) (inflate : Bytes → Inflated Z) (crc32 : Bytes → ℕ) where
  unfoldable pub decompress_data : Bytes → ℕ → Result (ObjectError X Z) (Bytes × ℕ)
  decompress_data pack expected_size =
      if ltb (length (inflate pack).delivered) expected_size
      then err (read_exact_error (inflate pack).ending)
      else (do
        consumed ← extra_read expected_size (inflate pack)
        ok ((inflate pack).delivered, consumed))

  unfoldable pub hash_compressed_object :
      HashKind → ObjectType → Bytes → ℕ → Result (ObjectError X Z) (ObjectHash × ℕ)
  hash_compressed_object k obj_type pack expected_size = do
    type_bytes ← ok_or (to_bytes obj_type) (no_loose_header obj_type)
    let hasher = update d (hasher_for_kind d k) type_bytes
    let hasher = update d hasher (32 ∷ [])
    let hasher = update d hasher (decimal expected_size)
    let hasher = update d hasher (0 ∷ [])
    if ltb (length (inflate pack).delivered) expected_size
        then err (read_error_of expected_size (inflate pack).ending)
        else (do
          consumed ← extra_read expected_size (inflate pack)
          let hasher = update d hasher (take expected_size (inflate pack).delivered)
          ok (finalize_object_hash d hasher, consumed))

  unfoldable pub skip_compressed_data : Bytes → ℕ → Result (ObjectError X Z) ℕ
  skip_compressed_data pack expected_size =
      if ltb (length (inflate pack).delivered) expected_size
      then err (read_error_of expected_size (inflate pack).ending)
      else extra_read expected_size (inflate pack)

  -- A name that the index supplies is verified over the streamed content.
  unfoldable pub skipped_size :
      HashKind → Option ObjectHash → ObjectType → Head → Result (ObjectError X Z) ℕ
  skipped_size k none t head = skip_compressed_data head.stream head.size
  skipped_size k (some expected) t head = do
    (computed, raw_size) ← hash_compressed_object k t head.stream head.size
    _ ← map_err wrong_object (verify_known_hash head.init_offset computed (some expected))
    ok raw_size

  unfoldable pub skip_base :
      HashKind → Arguments → ObjectType → Head → Result (ObjectError X Z) Decoded
  skip_base k a t head = do
    raw_size ← skipped_size k a.known_hash t head
    let rest = drop raw_size head.stream
    let crc = crc_of crc32 a.track_crc head.entry rest
    _ ← verify_known_crc a.track_crc head.init_offset crc a.known_crc
    if not a.emit_skipped_base_callback then ok (none, (head.offset + raw_size, rest)) else (do
      hash ← ok_or a.known_hash missing_hash
      ok (
        some (record {
          info = CacheObjectInfo.base_object t hash;
          offset = head.init_offset;
          crc32 = crc;
          data_decompressed = [];
          is_delta_in_pack = false;
          known_hash = none;
        }),
        (head.offset + raw_size, rest),
      ))

  unfoldable pub decode_base :
      HashKind → Arguments → ObjectType → Head → Result (ObjectError X Z) Decoded
  decode_base k a t head = do
    (content, raw_size) ← decompress_data head.stream head.size
    let rest = drop raw_size head.stream
    let crc = crc_of crc32 a.track_crc head.entry rest
    _ ← verify_known_crc a.track_crc head.init_offset crc a.known_crc
    hash ← map_err invalid_hash_value (calculate_object_hash_for_kind d k t content)
    _ ← map_err wrong_object (verify_known_hash head.init_offset hash a.known_hash)
    ok (
      some (record {
        info = CacheObjectInfo.base_object t hash;
        offset = head.init_offset;
        crc32 = crc;
        data_decompressed = content;
        is_delta_in_pack = false;
        known_hash = none;
      }),
      (head.offset + raw_size, rest),
    )

  -- A delta, once its base is known.
  unfoldable pub decode_delta :
      Arguments → (ℕ → CacheObjectInfo) → Head → Result (ObjectError X Z) Decoded
  decode_delta a info head = do
    (content, raw_size) ← decompress_data head.stream head.size
    final_size ← size_error (read_delta_object_size content)
    let rest = drop raw_size head.stream
    let crc = crc_of crc32 a.track_crc head.entry rest
    _ ← verify_known_crc a.track_crc head.init_offset crc a.known_crc
    ok (
      some (record {
        info = info final_size;
        offset = head.init_offset;
        crc32 = crc;
        data_decompressed = content;
        is_delta_in_pack = true;
        known_hash = a.known_hash;
      }),
      (head.offset + raw_size, rest),
    )

  unfoldable pub decode_offset_delta :
      Arguments → (ℕ → ℕ → CacheObjectInfo) → Head → Result (ObjectError X Z) Decoded
  decode_offset_delta a info head = do
    ((delta_offset, bytes), stream) ← map_err offset_base_error (read_offset_encoding head.stream)
    if ltb head.init_offset delta_offset
        then err invalid_offset
        else decode_delta a (info (head.init_offset - delta_offset))
            (record head { offset = head.offset + bytes; stream = stream })

  unfoldable pub decode_hash_delta : HashKind → Arguments → Head → Result (ObjectError X Z) Decoded
  decode_hash_delta k a head = do
    ref_sha ← map_err hash_base_error (from_stream_for_kind {X = X} k (chunk head.stream ∷ [])).0
    decode_delta a (CacheObjectInfo.hash_delta ref_sha)
        (record head { offset = head.offset + size k; stream = drop (size k) head.stream })

  unfoldable pub decode_by_type :
      HashKind → Arguments → ObjectType → Head → Result (ObjectError X Z) Decoded
  decode_by_type k a t head =
      if is_base t
      then (if should_skip_no_callback_object a head.init_offset
          then skip_base k a t head
          else decode_base k a t head)
      else elim t [
        | offset_delta ↦ decode_offset_delta a CacheObjectInfo.offset_delta head
        | offset_zstdelta ↦ decode_offset_delta a CacheObjectInfo.offset_zstdelta head
        | hash_delta ↦ decode_hash_delta k a head
        | other ↦ err (ai_object other)
      ]

  -- The object, the offset behind it, and what is left of the pack.
  unfoldable pub decode_pack_object_with_crc :
      HashKind → Arguments → Bytes → ℕ → Result (ObjectError X Z) Decoded
  decode_pack_object_with_crc k a pack offset = do
    (type_bits, (object_size, offset'), stream) ←
        map_err read_error (read_type_and_varint_size pack offset)
    t ← ok_or (from_pack_type_u8 type_bits) (invalid_object_type type_bits)
    decode_by_type k a t (record {
      entry = pack;
      init_offset = offset;
      size = object_size;
      offset = offset';
      stream = stream;
    })
