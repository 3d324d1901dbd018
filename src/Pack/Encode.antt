-- ===== src/Pack/Encode.antt =====
-- A whole pack without deltas, src/internal/pack/encode/mod.rs and parallel.rs: the encoder's state, its
-- batches, and the index that it sends. The receivers of its channels stay; a channel is the list of
-- the bytes that were sent. The entries are those that arrive before the sender is dropped, and the
-- compressor and the CRC are parameters.
pub mod Entries
pub mod Batches
pub mod Whole
use git_internal.Base.{
  ℕ, zero, suc, ◌+◌, Bool, true, false, not, List, [], ◌∷◌, ◌++◌, Bytes, ◌==◌, if◌then◌else◌,
  length, take, drop, map, Result, ok, err, map_err, ◌>>=◌, Option, none, some,
}
use git_internal.Object.Types.{ObjectType, is_ai_object}
use git_internal.Hash.{HashKind, ObjectHash, HashError, as_ref, ensure_kind}
use git_internal.Hash.Parse.{ok_or}
use git_internal.Hash.Digest.{Digests, HashAlgorithm, hasher_for_kind, update, finalize_object_hash}
use git_internal.Pack.Header.{encode_header}
use git_internal.Pack.Entry.{EncodeError, encode_one_object}
use git_internal.Pack.Idx.{IndexEntry, IdxError}
use git_internal.Pack.Idx.Write.{write_idx}

pub record Entry : Type 0 where
  pub obj_type : ObjectType
  pub content : Bytes
  pub hash : ObjectHash
  pub chain_len : ℕ

-- The errors, and the panics: of the header's assertions, and of a wrong number of entries.
pub data EncoderError (X : Type 0) : Type 0 where
  wrong_window in_progress header_panic no_pack no_idx_sender : EncoderError X
  ai_entry : ObjectType → EncoderError X
  wrong_kind : HashError X → EncoderError X
  entry_error : EncodeError → EncoderError X
  not_all_encoded : ℕ → ℕ → EncoderError X
  idx_error : IdxError X → EncoderError X

abbrev pub check_entry_kind : {X : Type 0} → HashKind → Entry → Result (EncoderError X) (Unit {0})
check_entry_kind k entry = map_err wrong_kind (ensure_kind entry.hash k)

-- What is checked of the entries of a batch as they arrive.
abbrev pub receive_batch : {X : Type 0} → HashKind → List Entry → Result (EncoderError X) (Unit {0})
receive_batch k [] = ok tt
receive_batch k (entry ∷ entries) =
    if is_ai_object entry.obj_type
    then err (ai_entry entry.obj_type)
    else (do _ ← check_entry_kind k entry; receive_batch k entries)

module _ (d : Digests) where
  pub record PackEncoder : Type 0 where
    pub object_number : ℕ
    pub process_index : ℕ
    pub window_size : ℕ
    pub pack_sender : Bool
    pub sent : Bytes
    pub idx_sender : Bool
    pub idx_entries : Option (List IndexEntry)
    pub inner_offset : ℕ
    pub hash_kind : HashKind
    pub inner_hash : HashAlgorithm d
    pub final_hash : Option ObjectHash
    pub start_encoding : Bool

  abbrev pub new_with_idx_and_hash_kind : HashKind → ℕ → ℕ → PackEncoder
  new_with_idx_and_hash_kind hash_kind object_number window_size = record {
    object_number = object_number;
    process_index = 0;
    window_size = window_size;
    pack_sender = true;
    sent = [];
    idx_sender = true;
    idx_entries = none;
    inner_offset = 12;
    hash_kind = hash_kind;
    inner_hash = hasher_for_kind d hash_kind;
    final_hash = none;
    start_encoding = false;
  }

  abbrev pub send_data : Bytes → PackEncoder → PackEncoder
  send_data bytes enc = record enc {
    sent = if enc.pack_sender then enc.sent ++ bytes else enc.sent;
  }

  abbrev pub drop_sender : PackEncoder → PackEncoder
  drop_sender enc = record enc { pack_sender = false }

  abbrev pub write_owned_and_update : Bytes → PackEncoder → PackEncoder
  write_owned_and_update bytes enc = send_data bytes (record enc {
    inner_hash = update d enc.inner_hash bytes;
    inner_offset = enc.inner_offset + length bytes;
  })

  module _ {X : Type 0} (compress : Bytes → Bytes) (crc32 : Bytes → ℕ) where
    -- What the workers make of the entries of a batch, in their order.
    abbrev pub encode_batch : List Entry → List (Result (EncoderError X) (Bytes × ObjectHash))
    encode_batch entries =
        map
          (λ (entry : Entry).
            map_err entry_error (encode_one_object compress entry.obj_type entry.content none)
            >>= λ encoded. ok (encoded, entry.hash))
          entries

    -- The index entries of what is written, and the encoder.
    unfoldable pub write_batch :
        List (Result (EncoderError X) (Bytes × ObjectHash))
        → PackEncoder
        → Result (EncoderError X) (List IndexEntry × PackEncoder)
    write_batch [] enc = ok ([], enc)
    write_batch (result ∷ results) enc = do
      (encoded, hash) ← result
      (later, enc') ← write_batch results (write_owned_and_update encoded enc)
      ok (record { hash = hash; crc32 = crc32 encoded; offset = enc.inner_offset } ∷ later, enc')

    -- A round takes a batch; an empty one ends the loop.
    unfoldable pub batch_loop :
        ℕ → ℕ → List Entry → PackEncoder → Result (EncoderError X) (List IndexEntry × PackEncoder)
    batch_loop zero batch_size entries enc = ok ([], enc)
    batch_loop (suc rounds) batch_size entries enc =
        let batch = take batch_size entries in
        let rest = drop batch_size entries in
        if length batch == 0 then ok ([], enc) else (do
          _ ← receive_batch enc.hash_kind batch
          (idx, enc) ←
              write_batch (encode_batch batch)
                (record enc { process_index = enc.process_index + length batch })
          (later, enc) ← batch_loop rounds batch_size rest enc
          ok (idx ++ later, enc))

    unfoldable pub parallel_encode :
        ℕ → List Entry → PackEncoder → Result (EncoderError X) PackEncoder
    parallel_encode batch_size entries enc =
        if not (enc.window_size == 0) then err wrong_window else (do
          head ← ok_or (encode_header enc.object_number) header_panic
          let enc = send_data head (record enc { inner_hash = update d enc.inner_hash head })
          if enc.start_encoding then err in_progress else (do
            (idx_entries, enc) ← batch_loop (length entries) batch_size entries enc
            if not (enc.process_index == enc.object_number)
                then err (not_all_encoded enc.process_index enc.object_number)
                else (let final_hash = finalize_object_hash d enc.inner_hash in
                    ok (
                      drop_sender (
                        send_data (as_ref final_hash) (record enc {
                          final_hash = some final_hash;
                          idx_entries = some idx_entries;
                        }))))))

  module _ {X : Type 0} where
    -- What is sent of the index, of which the sender is dropped.
    unfoldable pub encode_idx_file : PackEncoder → Result (EncoderError X) (Bytes × PackEncoder)
    encode_idx_file enc = if not enc.idx_sender then err no_idx_sender else (do
      final_hash ← ok_or enc.final_hash no_pack
      idx_entries ← ok_or enc.idx_entries no_pack
      file ← map_err idx_error (write_idx d {X = X} enc.object_number final_hash idx_entries)
      ok (file, record enc { idx_sender = false }))
