-- ===== src/Pack/Encode/Batches.antt =====
-- The batches of src/internal/pack/encode/parallel.rs: together they write every entry, in its place.
use git_internal.Base.{
  ℕ, zero, suc, ◌+◌, ◌≤◌, ◌<◌, true, false, List, [], ◌∷◌, ◌++◌, Bytes, ◌==◌, length, take, drop,
  ok, none, ◌≡◌, refl, sym, ap, ap₂, ◌∙◌, subst, arith, All, All-take, All-drop, append_assoc,
  append-nil, length-append, length-take, length-drop, take-append-drop, take-nil,
}
use git_internal.Object.Types.Plain.{is_base-IsPlain}
use git_internal.Hash.{HashKind, ensure_kind}
use git_internal.Hash.Kinds.{ensure_kind-same}
use git_internal.Hash.Digest.{Digests, HashAlgorithm, update}
use git_internal.Hash.Digest.Objects.{update-append, update-nil}
use git_internal.Pack.Entry.{encode_one_object}
use git_internal.Pack.Idx.{IndexEntry}
use git_internal.Pack.Encode.{
  Entry, PackEncoder, receive_batch, encode_batch, write_batch, batch_loop,
}
use git_internal.Pack.Encode.Entries.{
  IsEntry, encode_one_object-IsPlain, entry_bytes, body, body-append, idx_from, idx_from-append,
}

module _ (d : Digests) (k : HashKind) (n : ℕ) where
  -- An encoder that is at work, by what its steps change.
  abbrev pub running : ℕ → Bytes → ℕ → HashAlgorithm d → PackEncoder d
  running index sent offset hasher = record {
    object_number = n;
    process_index = index;
    window_size = 0;
    pack_sender = true;
    sent = sent;
    idx_sender = true;
    idx_entries = none;
    inner_offset = offset;
    hash_kind = k;
    inner_hash = hasher;
    final_hash = none;
    start_encoding = false;
  }

module _ (d : Digests) (compress : Bytes → Bytes) (k : HashKind) (n : ℕ) where
  -- The encoder once it has written entries.
  abbrev pub written : ℕ → Bytes → ℕ → HashAlgorithm d → List Entry → PackEncoder d
  written index sent offset hasher entries =
      running d k n index (sent ++ body compress entries) (offset + length (body compress entries))
        (update d hasher (body compress entries))

module _ (d : Digests) (compress : Bytes → Bytes) (k : HashKind) (n : ℕ) where
  running-eq :
      (index : ℕ) {s s' : Bytes} {o o' : ℕ} {h h' : HashAlgorithm d}
      → s ≡ s'
      → o ≡ o'
      → h ≡ h'
      → running d k n index s o h ≡ running d k n index s' o' h'
  running-eq index a b c = λ i. running d k n index (a i) (b i) (c i)

  written_nothing :
      (index : ℕ) (sent : Bytes) (offset : ℕ) (hasher : HashAlgorithm d)
      → running d k n index sent offset hasher ≡ written d compress k n index sent offset hasher []
  written_nothing index sent offset hasher =
      running-eq index (sym (append-nil sent)) (omega arith) (sym (update-nil d hasher))

  -- Two parts written one behind the other.
  written-append :
      (index : ℕ) (sent : Bytes) (offset : ℕ) (hasher : HashAlgorithm d) (a b : List Entry)
      → written d compress k n index
          (sent ++ body compress a)
          (offset + length (body compress a))
          (update d hasher (body compress a))
          b
        ≡ written d compress k n index sent offset hasher (a ++ b)
  written-append index sent offset hasher a b =
      let all = body-append compress a b in
      running-eq index
        (append_assoc sent (body compress a) (body compress b) ∙ ap (sent ++◌) (sym all))
        (omega (
          arith,
          length-append (body compress a) (body compress b),
          ap (λ (x : Bytes). length x) all,
        ))
        (update-append d hasher (body compress a) (body compress b)
          ∙ ap (update d hasher) (sym all))

  written-cons :
      (index : ℕ) (sent : Bytes) (offset : ℕ) (hasher : HashAlgorithm d) (e : Entry)
      (entries : List Entry)
      → written d compress k n index
          (sent ++ entry_bytes compress e)
          (offset + length (entry_bytes compress e))
          (update d hasher (entry_bytes compress e))
          entries
        ≡ written d compress k n index sent offset hasher (e ∷ entries)
  written-cons index sent offset hasher e entries =
      let bytes = entry_bytes compress e in
      running-eq index (append_assoc sent bytes (body compress entries))
        (omega (arith, length-append bytes (body compress entries)))
        (update-append d hasher bytes (body compress entries))

module _ {X : Type 0} (d : Digests) (k : HashKind) where
  encoded :
      (compress : Bytes → Bytes) (e : Entry)
      → IsEntry X d k e
      → encode_one_object compress e.obj_type e.content none ≡ ok (entry_bytes compress e)
  encoded compress e h =
      rw
        (encode_one_object-IsPlain compress e.obj_type e.content
          (is_base-IsPlain e.obj_type h.base))
        refl

  receive_batch-IsEntry :
      (entries : List Entry) → All (IsEntry X d k) entries → receive_batch {X = X} k entries ≡ ok tt
  receive_batch-IsEntry [] h = refl
  receive_batch-IsEntry (e ∷ entries) (h, hs) =
      let plain = is_base-IsPlain e.obj_type h.base in
      let same : ensure_kind {X = X} e.hash k ≡ ok tt =
        subst (λ j. ensure_kind {X = X} e.hash j ≡ ok tt) h.of_kind (ensure_kind-same e.hash) in
      rw (plain.not_ai, same) (receive_batch-IsEntry entries hs)

module _ {X : Type 0} (d : Digests) (compress : Bytes → Bytes) (crc32 : Bytes → ℕ) (k : HashKind)
    (n : ℕ) where
  write_batch-written :
      (entries : List Entry) (index : ℕ) (sent : Bytes) (offset : ℕ) (hasher : HashAlgorithm d)
      → All (IsEntry X d k) entries
      → write_batch d {X = X} compress crc32
          (encode_batch d {X = X} compress crc32 entries)
          (running d k n index sent offset hasher)
        ≡ ok (
          idx_from compress crc32 offset entries,
          written d compress k n index sent offset hasher entries,
        )
  unfolding write_batch
  write_batch-written [] index sent offset hasher h =
      ap (λ (enc : PackEncoder d). ok ([], enc))
        (written_nothing d compress k n index sent offset hasher)
  write_batch-written (e ∷ entries) index sent offset hasher (h, hs) =
      let bytes = entry_bytes compress e in
      rw
        (
          encoded d k compress e h,
          write_batch-written entries index (sent ++ bytes) (offset + length bytes)
              (update d hasher bytes) hs,
        )
        (ap (λ (enc : PackEncoder d). ok (idx_from compress crc32 offset (e ∷ entries), enc))
          (written-cons d compress k n index sent offset hasher e entries))

  no_batch :
      (rounds batch_size : ℕ) (enc : PackEncoder d)
      → batch_loop d {X = X} compress crc32 rounds batch_size [] enc ≡ ok ([], enc)
  unfolding batch_loop
  no_batch zero batch_size enc = refl
  no_batch (suc rounds) batch_size enc = rw (take-nil Entry batch_size) refl

  -- Enough rounds for the batches write all entries.
  pub batch_loop-written :
      (rounds batch_size : ℕ) (entries : List Entry) (index : ℕ) (sent : Bytes) (offset : ℕ)
      (hasher : HashAlgorithm d)
      → 0 < batch_size
      → length entries ≤ rounds
      → All (IsEntry X d k) entries
      → batch_loop d {X = X} compress crc32 rounds batch_size entries
          (running d k n index sent offset hasher)
        ≡ ok (
          idx_from compress crc32 offset entries,
          written d compress k n (index + length entries) sent offset hasher entries,
        )
  unfolding batch_loop
  batch_loop-written rounds batch_size [] index sent offset hasher some_size fits h =
      no_batch rounds batch_size (running d k n index sent offset hasher)
      ∙ ap (λ (enc : PackEncoder d). ok ([], enc))
          (written_nothing d compress k n index sent offset hasher
            ∙ ap (λ (j : ℕ). written d compress k n j sent offset hasher []) (omega arith))
  batch_loop-written zero batch_size (e ∷ entries) index sent offset hasher some_size fits h =
      absurd (omega (arith, fits))
  batch_loop-written (suc rounds) batch_size (e ∷ entries) index sent offset hasher some_size fits
        h =
      let all = e ∷ entries in
      let batch = take batch_size all in
      let rest = drop batch_size all in
      let whole : batch ++ rest ≡ all = take-append-drop batch_size all in
      let taken = length-take batch_size all in
      let left = length-drop batch_size all in
      let parts : length batch + length rest ≡ length all =
        omega (arith, length-append batch rest, ap (λ (l : List Entry). length l) whole) in
      let nonempty : (length batch == 0) ≡ false = ground (arith, taken, some_size) in
      let bytes = body compress batch in
      let index' = index + length batch in
      rw
        (
          nonempty,
          receive_batch-IsEntry d k batch (All-take (IsEntry X d k) batch_size all h),
          write_batch-written batch index' sent offset hasher
              (All-take (IsEntry X d k) batch_size all h),
          batch_loop-written rounds batch_size rest index' (sent ++ bytes) (offset + length bytes)
              (update d hasher bytes) some_size (omega (arith, left, fits, some_size))
              (All-drop (IsEntry X d k) batch_size all h),
        )
        (ap₂ (λ (idx : List IndexEntry) (enc : PackEncoder d). ok (idx, enc))
          (sym (idx_from-append compress crc32 offset batch rest)
            ∙ ap (idx_from compress crc32 offset) whole)
          (written-append d compress k n (index' + length rest) sent offset hasher batch rest
            ∙ ap
                (λ (l : List Entry).
                  written d compress k n (index' + length rest) sent offset hasher l)
                whole
            ∙ ap (λ (j : ℕ). written d compress k n j sent offset hasher all)
                (omega (arith, parts))))
