-- ===== src/Index/Entry/RoundTrip.antt =====
-- One entry of an index file, src/internal/index.rs, written and read again.
use git_internal.Base.{
  ℕ, ◌^◌, ◌<◌, Bool, true, false, ◌++◌, Bytes, if◌then◌else◌, length, replicate, ok, Option, ◌≡◌,
  refl, sym, ap, ◌∙◌, arith, append_assoc, length-replicate,
}
use git_internal.Base.Utf8.{is_utf8}
use git_internal.Delta.Decode.Stream.{read_exact-append}
use git_internal.Pack.Header.{to_be_bytes}
use git_internal.Hash.{HashKind, ObjectHash, as_ref}
use git_internal.Hash.Kinds.{OfKind}
use git_internal.Hash.Stream.Whole.{from_stream_for_kind-OfKind, drop-OfKind}
use git_internal.Index.Flags.{Flags, from_u16, from_extended_word, packed}
use git_internal.Index.Flags.RoundTrip.{with_flags, from_u16-to_u16}
use git_internal.Index.Entry.{
  IndexEntry, to_be_bytes_16, padding_of, written_word, word_bytes, has_word, read_bytes, read_u32,
  read_u16, from_stream, read_sha_for_kind, read_extended, read_tail, read_entry, write_entry,
}

abbrev pub IsWord : ℕ → Type 0
IsWord n = n < 2 ^ 32

-- An entry that can be written: the types of its fields, and a name of the length that its flags say.
pub record IsIndexEntry (k : HashKind) (e : IndexEntry) : Type 0 where
  pub times :
      IsWord e.ctime.seconds × IsWord e.ctime.nanos × IsWord e.mtime.seconds × IsWord e.mtime.nanos
  pub numbers :
      IsWord e.dev × IsWord e.ino × IsWord e.mode × IsWord e.uid × IsWord e.gid × IsWord e.file_size
  pub hash : OfKind k e.hash
  pub stage : e.flags.stage < 4
  pub name_length : e.flags.name_length ≡ length e.name
  pub short_name : length e.name < 2 ^ 12
  pub utf8 : is_utf8 e.name ≡ true

-- The entry as a reader sees it: `extended` says whether the second word of the flags is there.
abbrev pub stored_flags : Flags → Flags
stored_flags f = record {
  assume_valid = f.assume_valid;
  extended = has_word (written_word f);
  stage = f.stage;
  name_length = f.name_length;
  skip_worktree = f.skip_worktree;
  intent_to_add = f.intent_to_add;
}

abbrev pub stored : IndexEntry → IndexEntry
stored e = record {
  ctime = e.ctime;
  mtime = e.mtime;
  dev = e.dev;
  ino = e.ino;
  mode = e.mode;
  uid = e.uid;
  gid = e.gid;
  file_size = e.file_size;
  hash = e.hash;
  flags = stored_flags e.flags;
  name = e.name;
}

-- The second word by the three flags that it depends on.
abbrev word_of : Bool → Bool → Bool → Option ℕ
word_of e sk it = written_word (record {
  assume_valid = false;
  extended = e;
  stage = 0;
  name_length = 0;
  skip_worktree = sk;
  intent_to_add = it;
})

-- The part behind the ten numbers.
abbrev tail_of : HashKind → IndexEntry → ℕ → Bytes → Bytes
tail_of k e flags_word rest =
    let w = written_word e.flags in
    as_ref e.hash
    ++ (to_be_bytes_16 (packed (has_word w) flags_word)
        ++ (word_bytes w
            ++ (e.name ++ (replicate (padding_of k (has_word w) (length e.name)) 0 ++ rest))))

-- The ten numbers, and what follows.
abbrev numbers_of : IndexEntry → Bytes → Bytes
numbers_of e rest =
    to_be_bytes e.ctime.seconds
    ++ (to_be_bytes e.ctime.nanos
        ++ (to_be_bytes e.mtime.seconds
            ++ (to_be_bytes e.mtime.nanos
                ++ (to_be_bytes e.dev
                    ++ (to_be_bytes e.ino
                        ++ (to_be_bytes e.mode
                            ++ (to_be_bytes e.uid
                                ++ (to_be_bytes e.gid ++ (to_be_bytes e.file_size ++ rest)))))))))

-- The bytes behind the numbers as the writer nests them.
abbrev written_tail : HashKind → IndexEntry → ℕ → Bytes
written_tail k e flags_word =
    let w = written_word e.flags in
    as_ref e.hash
    ++ (to_be_bytes_16 (packed (has_word w) flags_word)
        ++ (word_bytes w ++ (e.name ++ replicate (padding_of k (has_word w) (length e.name)) 0)))

written_tail-append :
    (k : HashKind) (e : IndexEntry) (flags_word : ℕ) (rest : Bytes)
    → written_tail k e flags_word ++ rest ≡ tail_of k e flags_word rest
written_tail-append k e flags_word rest =
    let w = written_word e.flags in
    let pad = replicate (padding_of k (has_word w) (length e.name)) 0 in
    let word = to_be_bytes_16 (packed (has_word w) flags_word) in
    append_assoc (as_ref e.hash) (word ++ (word_bytes w ++ (e.name ++ pad))) rest
    ∙ ap (λ (t : Bytes). as_ref e.hash ++ (word ++ t))
        (append_assoc (word_bytes w) (e.name ++ pad) rest
          ∙ ap (word_bytes w ++◌) (append_assoc e.name pad rest))

module _ {X : Type 0} where
  pub read_bytes-append :
      (xs rest : Bytes) → read_bytes {X = X} (length xs) (xs ++ rest) ≡ ok (xs, rest)
  unfolding read_bytes
  read_bytes-append xs rest = rw (read_exact-append xs rest) refl

  read_bytes-sized :
      {n : ℕ} (xs rest : Bytes) → length xs ≡ n → read_bytes {X = X} n (xs ++ rest) ≡ ok (xs, rest)
  read_bytes-sized xs rest e =
      ap (λ n. read_bytes n (xs ++ rest)) (sym e) ∙ read_bytes-append xs rest

  pub read_u32-append :
      (n : ℕ) (rest : Bytes) → IsWord n → read_u32 {X = X} (to_be_bytes n ++ rest) ≡ ok (n, rest)
  unfolding read_u32
  read_u32-append n rest h =
      rw (read_bytes-append (to_be_bytes n) rest) (ap (λ m. ok (m, rest)) (omega arith))

  read_u16-append :
      (n : ℕ) (rest : Bytes)
      → n < 2 ^ 16
      → read_u16 {X = X} (to_be_bytes_16 n ++ rest) ≡ ok (n, rest)
  unfolding read_u16
  read_u16-append n rest h =
      rw (read_bytes-append (to_be_bytes_16 n) rest) (ap (λ m. ok (m, rest)) (omega arith))

  pub read_sha_for_kind-append :
      (k : HashKind) (h : ObjectHash) (rest : Bytes)
      → OfKind k h
      → read_sha_for_kind {X = X} k (as_ref h ++ rest) ≡ ok (h, rest)
  unfolding read_sha_for_kind
  read_sha_for_kind-append k h rest typed =
      rw (from_stream_for_kind-OfKind {X = X} k h rest typed, drop-OfKind k h rest typed) refl

  read_extended-word :
      (a e sk it : Bool) (s n : ℕ) (rest : Bytes)
      → read_extended {X = X}
          (with_flags a (if has_word (word_of e sk it) then true else e) s n)
          (word_bytes (word_of e sk it) ++ rest)
        ≡ ok (
          record {
            assume_valid = a;
            extended = has_word (word_of e sk it);
            stage = s;
            name_length = n;
            skip_worktree = sk;
            intent_to_add = it;
          },
          rest,
        )
  unfolding read_extended from_extended_word
  read_extended-word a true true true s n rest = rw (read_u16-append 0x6000 rest (omega arith)) refl
  read_extended-word a true true false s n rest =
      rw (read_u16-append 0x4000 rest (omega arith)) refl
  read_extended-word a true false true s n rest =
      rw (read_u16-append 0x2000 rest (omega arith)) refl
  read_extended-word a true false false s n rest = rw (read_u16-append 0 rest (omega arith)) refl
  read_extended-word a false true true s n rest =
      rw (read_u16-append 0x6000 rest (omega arith)) refl
  read_extended-word a false true false s n rest =
      rw (read_u16-append 0x4000 rest (omega arith)) refl
  read_extended-word a false false true s n rest =
      rw (read_u16-append 0x2000 rest (omega arith)) refl
  read_extended-word a false false false s n rest = refl

  read_tail-tail_of :
      (k : HashKind) (e : IndexEntry) (flags_word : ℕ) (rest : Bytes)
      → IsIndexEntry k e
      → packed (has_word (written_word e.flags)) flags_word < 2 ^ 16
      → from_u16 (packed (has_word (written_word e.flags)) flags_word)
        ≡ with_flags e.flags.assume_valid
            (if has_word (written_word e.flags) then true else e.flags.extended)
            e.flags.stage
            e.flags.name_length
      → read_tail {X = X} k (tail_of k e flags_word rest)
        ≡ ok ((e.hash, stored_flags e.flags, e.name), rest)
  unfolding read_tail
  read_tail-tail_of k e flags_word rest ready small read =
      let w = written_word e.flags in
      let pad = replicate (padding_of k (has_word w) (length e.name)) 0 in
      let named = e.name ++ (pad ++ rest) in
      let padded : length pad ≡ padding_of k (has_word w) (length e.name) =
        length-replicate (padding_of k (has_word w) (length e.name)) 0 in
      rw
        (
          read_sha_for_kind-append k e.hash
              (to_be_bytes_16 (packed (has_word w) flags_word) ++ (word_bytes w ++ named))
              ready.hash,
          read_u16-append (packed (has_word w) flags_word) (word_bytes w ++ named) small,
          read,
          read_extended-word e.flags.assume_valid e.flags.extended e.flags.skip_worktree
              e.flags.intent_to_add e.flags.stage e.flags.name_length named,
          ready.name_length,
          read_bytes-append e.name (pad ++ rest),
          ready.utf8,
          read_bytes-sized pad rest padded,
        )
        refl

  read_entry-numbers_of :
      (k : HashKind) (e : IndexEntry) (bytes rest : Bytes)
      → IsIndexEntry k e
      → read_tail {X = X} k bytes ≡ ok ((e.hash, stored_flags e.flags, e.name), rest)
      → read_entry {X = X} k (numbers_of e bytes) ≡ ok (stored e, rest)
  unfolding read_entry from_stream
  read_entry-numbers_of k e bytes rest ready tail =
      let (cs, cn, ms, mn) = ready.times in
      let (d, i, m, u, g, z) = ready.numbers in
      let after_size = to_be_bytes e.file_size ++ bytes in
      let after_gid = to_be_bytes e.gid ++ after_size in
      let after_uid = to_be_bytes e.uid ++ after_gid in
      let after_mode = to_be_bytes e.mode ++ after_uid in
      let after_ino = to_be_bytes e.ino ++ after_mode in
      let after_dev = to_be_bytes e.dev ++ after_ino in
      let after_mtime = to_be_bytes e.mtime.nanos ++ after_dev in
      let after_mseconds = to_be_bytes e.mtime.seconds ++ after_mtime in
      let after_ctime = to_be_bytes e.ctime.nanos ++ after_mseconds in
      rw
        (
          read_u32-append e.ctime.seconds after_ctime cs,
          read_u32-append e.ctime.nanos after_mseconds cn,
          read_u32-append e.mtime.seconds after_mtime ms,
          read_u32-append e.mtime.nanos after_dev mn,
          read_u32-append e.dev after_ino d,
          read_u32-append e.ino after_mode i,
          read_u32-append e.mode after_uid m,
          read_u32-append e.uid after_gid u,
          read_u32-append e.gid after_size g,
          read_u32-append e.file_size bytes z,
          tail,
        )
        refl

  -- An entry that can be written is read back as the entry that is stored, which says whether the
  -- second word of its flags is there, with the bytes behind it left in the file.
  pub read_entry-write_entry :
      (k : HashKind) (e : IndexEntry)
      → IsIndexEntry k e
      → (bytes : Bytes) × (write_entry {X = X} k e ≡ ok bytes)
        × ((rest : Bytes) → read_entry {X = X} k (bytes ++ rest) ≡ ok (stored e, rest))
  unfolding write_entry
  read_entry-write_entry k e ready =
      let w = written_word e.flags in
      let (flags_word, written, small, read) =
        from_u16-to_u16 e.flags (has_word w) ready.stage
          (omega (arith, ready.name_length, ready.short_name)) in
      (
        numbers_of e (written_tail k e flags_word),
        rw written refl,
        λ rest.
            ap (λ t. read_entry {X = X} k (numbers_of e t))
              (written_tail-append k e flags_word rest)
            ∙ read_entry-numbers_of k e (tail_of k e flags_word rest) rest ready
                (read_tail-tail_of k e flags_word rest ready small read),
      )
