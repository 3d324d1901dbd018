-- ===== src/Pack/Decode.antt =====
-- The reading of a whole pack, `decode_inner` of src/internal/pack/decode.rs: its header, its objects in
-- their order, its trailer and its end, without the tasks that the objects are sent to. The options are
-- what the index of the pack supplies, or nothing.
pub mod Objects
pub mod RoundTrip
pub mod Tests
use git_internal.Base.{
  ℕ, zero, suc, ◌+◌, ◌-◌, Bool, true, false, not, ◌&&◌, ◌||◌, List, [], ◌∷◌, Bytes, ◌==◌,
  if◌then◌else◌, length, take, drop, get_elem?, Result, ok, err, map_err, ◌>>=◌, Option, none, some,
}
use git_internal.Hash.{HashKind, ObjectHash, HashError, size, same_hash}
use git_internal.Hash.Stream.{chunk, from_stream_for_kind}
use git_internal.Hash.Digest.{Digests, new_for_kind}
use git_internal.Pack.Header.{PackError, check_header}
use git_internal.Pack.Resolve.{CacheObject}
use git_internal.Pack.Object.{
  ObjectError, Inflated, DecodeRetention, Arguments, decode_pack_object_with_crc,
}

-- `callback` says whether there is one; when the callbacks run is left out.
pub record DecodeOptions : Type 0 where
  pub retention : Option DecodeRetention
  pub skip_unneeded_objects : Bool
  pub known_hashes : Option (List ObjectHash)
  pub known_crcs : Option (List ℕ)
  pub known_offsets : Option (List ℕ)
  pub expected_pack_hash : Option ObjectHash
  pub verify_pack_stream_hash : Bool
  pub callback : Bool

-- `DecodeOptions::streaming`, with a callback.
abbrev pub streaming : DecodeOptions
streaming = record {
  retention = none;
  skip_unneeded_objects = false;
  known_hashes = none;
  known_crcs = none;
  known_offsets = none;
  expected_pack_hash = none;
  verify_pack_stream_hash = true;
  callback = true;
}

pub data PackFileError (X Z : Type 0) : Type 0 where
  header_error : PackError → PackFileError X Z
  object_error : ObjectError X Z → PackFileError X Z
  wrong_offset : ℕ → ℕ → ℕ → PackFileError X Z
  trailer_error : HashError X → PackFileError X Z
  index_mismatch trailer_mismatch : ObjectHash → ObjectHash → PackFileError X Z
  not_at_end : PackFileError X Z

abbrev pub known {ℓ} : {A : Type ℓ} → Option (List A) → ℕ → Option A
known none i = none
known (some values) i = get_elem? values i

abbrev pub is_known {ℓ} : {A : Type ℓ} → Option A → Bool
is_known none = false
is_known (some a) = true

-- The arguments for the object of a number; entries for callbacks are not built in low memory.
abbrev pub arguments : DecodeOptions → ℕ → Arguments
arguments o i = record {
  track_crc = o.callback || is_known o.known_crcs;
  skip_unneeded_objects = o.skip_unneeded_objects;
  emit_skipped_base_callback = false;
  known_hash = known o.known_hashes i;
  known_crc = known o.known_crcs i;
  retention = o.retention;
}

abbrev pub with_object : Option CacheObject → List CacheObject → List CacheObject
with_object none objects = objects
with_object (some obj) objects = obj ∷ objects

module _ {X Z : Type 0} where
  abbrev pub check_offset : ℕ → ℕ → Option ℕ → Result (PackFileError X Z) (Unit {0})
  check_offset i offset none = ok tt
  check_offset i offset (some expected) =
      if not (expected == offset) then err (wrong_offset i offset expected) else ok tt

  abbrev pub check_signature :
      (ObjectHash → ObjectHash → PackFileError X Z)
      → Option ObjectHash
      → ObjectHash
      → Result (PackFileError X Z) (Unit {0})
  check_signature mismatch none signature = ok tt
  check_signature mismatch (some expected) signature =
      if not (same_hash expected signature) then err (mismatch expected signature) else ok tt

module _ {X Z : Type 0} (d : Digests) (inflate : Bytes → Inflated Z) (crc32 : Bytes → ℕ) where
  -- The loop over the objects, from a number and an offset on.
  unfoldable pub read_objects :
      HashKind
      → DecodeOptions
      → ℕ
      → ℕ
      → ℕ
      → Bytes
      → Result (PackFileError X Z) (List CacheObject × Bytes)
  read_objects k o zero i offset pack = ok ([], pack)
  read_objects k o (suc number) i offset pack = do
    _ ← check_offset i offset (known o.known_offsets i)
    (obj, (offset', rest)) ←
        map_err object_error
          (decode_pack_object_with_crc d inflate crc32 k (arguments o i) pack offset)
    (objects, left) ← read_objects k o number (1 + i) offset' rest
    ok (with_object obj objects, left)

  -- What follows the objects: the trailer's hash and the end of the file.
  unfoldable pub read_trailer :
      HashKind → DecodeOptions → Bytes → Bytes → Result (PackFileError X Z) ObjectHash
  read_trailer k o all left = do
    let hashed = new_for_kind d k (take (length all - length left) all)
    signature ← map_err trailer_error (from_stream_for_kind {X = X} k (chunk left ∷ [])).0
    _ ← check_signature index_mismatch o.expected_pack_hash signature
    _ ←
        check_signature trailer_mismatch (if o.verify_pack_stream_hash then some hashed else none)
          signature
    if not (length (drop (size k) left) == 0) then err not_at_end else ok signature

  unfoldable pub decode_inner :
      HashKind → DecodeOptions → Bytes → Result (PackFileError X Z) (List CacheObject × ObjectHash)
  decode_inner k o all = do
    ((number, head), pack) ← map_err header_error (check_header all)
    (objects, left) ← read_objects k o number 0 12 pack
    signature ← read_trailer k o all left
    ok (objects, signature)
