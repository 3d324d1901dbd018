-- ===== src/Index/Entry.antt =====
-- One entry of an index file, src/internal/index.rs, as it is read and written.
pub mod RoundTrip
use git_internal.Base.{
  ℕ, ◌+◌, ◌-◌, ◌*◌, ◌/◌, ◌%◌, ◌^◌, Bool, true, false, [], ◌∷◌, ◌++◌, Bytes, ◌==◌, if◌then◌else◌,
  length, drop, replicate, Result, ok, err, map_err, ◌>>=◌, Option, none, some,
}
use git_internal.Base.Utf8.{is_utf8}
use git_internal.Delta.Size.{IoError}
use git_internal.Delta.Decode.{read_exact}
use git_internal.Pack.Header.{to_be_bytes, be_value}
use git_internal.Hash.{HashKind, ObjectHash, HashError, size, as_ref}
use git_internal.Hash.Parse.{ok_or}
use git_internal.Hash.Stream.{chunk, from_stream_for_kind}
use git_internal.Index.Flags.{
  Flags, from_u16, to_u16, from_extended_word, extended_word, new, packed,
}

pub record Time : Type 0 where
  pub seconds : ℕ
  pub nanos : ℕ

pub record IndexEntry : Type 0 where
  pub ctime : Time
  pub mtime : Time
  pub dev : ℕ
  pub ino : ℕ
  pub mode : ℕ
  pub uid : ℕ
  pub gid : ℕ
  pub file_size : ℕ
  pub hash : ObjectHash
  pub flags : Flags
  pub name : Bytes

-- `GitError`, as far as it arises here; a message is told by what it reports, and the last one is
-- the assertion on the number of entries, which panics.
pub data IndexError (X : Type 0) : Type 0 where
  io : IoError → IndexError X
  invalid_hash_value : HashError X → IndexError X
  unknown_extended_flags : ℕ → IndexError X
  not_utf8 : Bytes → IndexError X
  name_too_long : IndexError X
  invalid_header : Bytes → IndexError X
  invalid_version : ℕ → IndexError X
  unsupported_extension check_sum_failed : IndexError X
  assertion_failed : IndexError X

abbrev pub new_from_blob : Bytes → ObjectHash → ℕ → IndexEntry
new_from_blob name hash file_size = record {
  ctime = record { seconds = 0; nanos = 0 };
  mtime = record { seconds = 0; nanos = 0 };
  dev = 0;
  ino = 0;
  mode = 0o100644;
  uid = 0;
  gid = 0;
  file_size = file_size;
  hash = hash;
  flags = new (length name % 2 ^ 16);
  name = name;
}

abbrev pub to_be_bytes_16 : ℕ → Bytes
to_be_bytes_16 n = (n / 2 ^ 8 % 256) ∷ (n % 256) ∷ []

-- What pads an entry to a multiple of eight bytes and ends its name, by the bytes before it.
abbrev pub padding_of : HashKind → Bool → ℕ → ℕ
padding_of k has_word name_len =
    let entry_len = size k + 2 + (if has_word then 2 else 0) + name_len in
    1 + (8 - (entry_len + 1) % 8) % 8

-- The word that follows the flags on disk; an explicit `extended` with no known bit has a zero word.
abbrev pub written_word : Flags → Option ℕ
written_word flags = elim (extended_word flags) [
  | some word ↦ some word
  | none ↦ if flags.extended then some 0 else none
]

abbrev pub word_bytes : Option ℕ → Bytes
word_bytes none = []
word_bytes (some word) = to_be_bytes_16 word

abbrev pub has_word : Option ℕ → Bool
has_word none = false
has_word (some word) = true

module _ {X : Type 0} where
  pub read_bytes : ℕ → Bytes → Result (IndexError X) (Bytes × Bytes)
  read_bytes len file = map_err io (read_exact len file)

  unfoldable pub read_u32 : Bytes → Result (IndexError X) (ℕ × Bytes)
  read_u32 file = do (bytes, rest) ← read_bytes 4 file; ok (be_value 0 bytes, rest)

  unfoldable pub read_u16 : Bytes → Result (IndexError X) (ℕ × Bytes)
  read_u16 file = do (bytes, rest) ← read_bytes 2 file; ok (be_value 0 bytes, rest)

  -- `Time::from_stream`.
  unfoldable pub from_stream : Bytes → Result (IndexError X) (Time × Bytes)
  from_stream file = do
    (seconds, file) ← read_u32 file
    (nanos, file) ← read_u32 file
    ok (record { seconds = seconds; nanos = nanos }, file)

  -- `utils::read_sha_for_kind`, where the file is read as one chunk.
  unfoldable pub read_sha_for_kind : HashKind → Bytes → Result (IndexError X) (ObjectHash × Bytes)
  read_sha_for_kind k file = do
    hash ← map_err invalid_hash_value (from_stream_for_kind {X = X} k (chunk file ∷ [])).0
    ok (hash, drop (size k) file)

  -- The second word of the flags, where the first announces it.
  unfoldable pub read_extended : Flags → Bytes → Result (IndexError X) (Flags × Bytes)
  read_extended flags file =
      if flags.extended
      then (do
        (word, file) ← read_u16 file
        (skip_worktree, intent_to_add) ← map_err unknown_extended_flags (from_extended_word word)
        ok (
          record {
            assume_valid = flags.assume_valid;
            extended = flags.extended;
            stage = flags.stage;
            name_length = flags.name_length;
            skip_worktree = skip_worktree;
            intent_to_add = intent_to_add;
          },
          file,
        ))
      else ok (flags, file)

  -- The fields of variable length, and the padding.
  unfoldable pub read_tail :
      HashKind → Bytes → Result (IndexError X) ((ObjectHash × Flags × Bytes) × Bytes)
  read_tail k file = do
    (hash, file) ← read_sha_for_kind k file
    (word, file) ← read_u16 file
    (flags, file) ← read_extended (from_u16 word) file
    (name, file) ← read_bytes flags.name_length file
    name ← (if is_utf8 name then ok name else err (not_utf8 name))
    (_, file) ← read_bytes (padding_of k flags.extended flags.name_length) file
    ok ((hash, flags, name), file)

  -- One round of the loop over the entries, without the insertion.
  unfoldable pub read_entry : HashKind → Bytes → Result (IndexError X) (IndexEntry × Bytes)
  read_entry k file = do
    (ctime, file) ← from_stream file
    (mtime, file) ← from_stream file
    (dev, file) ← read_u32 file
    (ino, file) ← read_u32 file
    (mode, file) ← read_u32 file
    (uid, file) ← read_u32 file
    (gid, file) ← read_u32 file
    (file_size, file) ← read_u32 file
    ((hash, flags, name), file) ← read_tail k file
    ok (
      record {
        ctime = ctime;
        mtime = mtime;
        dev = dev;
        ino = ino;
        mode = mode;
        uid = uid;
        gid = gid;
        file_size = file_size;
        hash = hash;
        flags = flags;
        name = name;
      },
      file,
    )

  -- One round of the loop of the writer.
  unfoldable pub write_entry : HashKind → IndexEntry → Result (IndexError X) Bytes
  write_entry k entry = do
    let word = written_word entry.flags
    flags_word ← ok_or (to_u16 entry.flags) name_too_long
    ok (
        to_be_bytes entry.ctime.seconds
        ++ (to_be_bytes entry.ctime.nanos
            ++ (to_be_bytes entry.mtime.seconds
                ++ (to_be_bytes entry.mtime.nanos
                    ++ (to_be_bytes entry.dev
                        ++ (to_be_bytes entry.ino
                            ++ (to_be_bytes entry.mode
                                ++ (to_be_bytes entry.uid
                                    ++ (to_be_bytes entry.gid
                                        ++ (to_be_bytes entry.file_size
                                            ++ (as_ref entry.hash
                                                ++ (to_be_bytes_16
                                                      (packed (has_word word) flags_word)
                                                    ++ (word_bytes word
                                                        ++ (entry.name
                                                            ++ replicate
                                                            (padding_of k (has_word word)
                                                            (length entry.name))
                                                            0))))))))))))))
