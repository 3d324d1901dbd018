-- ===== src/Hash/Stream/Chunks.antt =====
-- The loop of `from_stream_for_kind` in src/hash.rs, against the whole of what a reader delivers.
use git_internal.Base.{
  ℕ, ◌-◌, ◌<◌, ◌≤◌, true, false, List, [], ◌∷◌, ◌++◌, Bytes, ◌==◌, ltb, leb, if◌then◌else◌, length,
  take, drop, Result, ok, err, Option, none, some, ◌≡◌, refl, sym, ap, ◌∙◌, arith, Bool-cases, inl,
  inr, length-append, append_assoc, append-nil, take_all, leb→le, le→leb, ltb→lt, ltb→le, leb→lt,
  take-append, take-append-drop, length-take,
}
use git_internal.Hash.{
  HashKind, ObjectHash, HashError, ErrorKind, invalid_length, io_error, in_from_stream, size,
  variant,
}
use git_internal.Hash.Kinds.{from_bytes_for_kind-sized}
use git_internal.Hash.Stream.{
  Response, chunk, failed, is_interrupted, finish, fill_loop, from_stream_for_kind, delivered,
  failure,
}

-- What a read makes of a reader that delivers too little, and of any reader.
abbrev pub short_read :
    {X : Type 0} → HashKind → ℕ → Option (ErrorKind × Bytes) → Result (HashError X) ObjectHash
short_read k actual none = err (invalid_length in_from_stream k (size k) actual)
short_read k actual (some (e, message)) = err (io_error in_from_stream k (size k) actual e message)

abbrev pub whole_read :
    {X : Type 0} → HashKind → Bytes → Option (ErrorKind × Bytes) → Result (HashError X) ObjectHash
whole_read k bytes end =
    if leb (size k) (length bytes)
    then ok (variant k (take (size k) bytes))
    else short_read k (length bytes) end

module _ (X : Type 0) (k : HashKind) where
  finish_full : (buf : Bytes) → length buf ≡ size k → finish {X = X} k buf ≡ ok (variant k buf)
  unfolding finish
  finish_full buf h =
      let t : (length buf == size k) ≡ true = ground arith in
      rw t (from_bytes_for_kind-sized k buf h)

  finish_short :
      (buf : Bytes) → length buf < size k → finish {X = X} k buf ≡ short_read k (length buf) none
  unfolding finish
  finish_short buf h = let t : (length buf == size k) ≡ false = ground arith in rw t refl

  -- A full buffer is all that matters.
  pub whole_read_full :
      (buf more : Bytes) (end : Option (ErrorKind × Bytes))
      → length buf ≡ size k
      → whole_read {X = X} k (buf ++ more) end ≡ ok (variant k buf)
  whole_read_full buf more end h =
      let t : leb (size k) (length (buf ++ more)) ≡ true =
        le→leb (size k) (length (buf ++ more)) (omega (arith, length-append buf more)) in
      rw (t, sym h) (ap (λ b. ok (variant k b)) (take-append buf more))

  whole_read_short :
      (bytes : Bytes) (end : Option (ErrorKind × Bytes))
      → length bytes < size k
      → whole_read {X = X} k bytes end ≡ short_read k (length bytes) end
  whole_read_short bytes end h =
      let t : leb (size k) (length bytes) ≡ false = ground arith in rw t refl

  fill_loop-full :
      (buf : Bytes) (s : List Response)
      → length buf ≡ size k
      → (fill_loop {X = X} k buf s).0 ≡ ok (variant k buf)
  unfolding fill_loop
  fill_loop-full buf [] h = finish_full buf h
  fill_loop-full buf (failed e message ∷ rest) h =
      let t : ltb (length buf) (size k) ≡ false = ground arith in rw t (finish_full buf h)
  fill_loop-full buf (chunk c ∷ rest) h =
      let t : ltb (length buf) (size k) ≡ false = ground arith in rw t (finish_full buf h)

  Reads : Bytes → List Response → Type 0
  Reads buf s =
      (fill_loop {X = X} k buf s).0 ≡ whole_read {X = X} k (buf ++ delivered s) (failure s)

  full-Reads : (buf : Bytes) (s : List Response) → length buf ≡ size k → Reads buf s
  unfolding Reads
  full-Reads buf s h =
      fill_loop-full buf s h ∙ sym (whole_read_full buf (delivered s) (failure s) h)

  empty-Reads : (buf : Bytes) → length buf < size k → Reads buf []
  unfolding Reads fill_loop
  empty-Reads buf h = rw (append-nil buf) (finish_short buf h ∙ sym (whole_read_short buf none h))

  failed-Reads :
      (buf : Bytes) (e : ErrorKind) (message : Bytes) (rest : List Response)
      → length buf < size k
      → Reads buf rest
      → Reads buf (failed e message ∷ rest)
  unfolding Reads fill_loop
  failed-Reads buf e message rest h ih =
      let t : ltb (length buf) (size k) ≡ true = ground arith in
      elim (Bool-cases (is_interrupted e)) [
        | inl again ↦ rw (t, again) ih
        | inr fatal ↦
            rw (t, fatal, append-nil buf) (sym (whole_read_short buf (some (e, message)) h))
      ]

  -- The rest of the chunk stays in the reader.
  part_full :
      (buf c more : Bytes) (end : Option (ErrorKind × Bytes))
      → length buf < size k
      → length (take (size k - length buf) c) ≡ size k - length buf
      → finish {X = X} k (buf ++ take (size k - length buf) c)
        ≡ whole_read k (buf ++ (c ++ more)) end
  part_full buf c more end h full =
      let room = size k - length buf in
      let taken : length (buf ++ take room c) ≡ size k =
        length-append buf (take room c) ∙ omega (arith, full) in
      finish_full (buf ++ take room c) taken
      ∙ sym (whole_read_full (buf ++ take room c) (drop room c ++ more) end taken)
      ∙ ap (λ b. whole_read k b end)
          (append_assoc buf (take room c) (drop room c ++ more)
            ∙ ap (buf ++◌) (
                sym (append_assoc (take room c) (drop room c) more)
                ∙ ap (◌++ more) (take-append-drop room c)))

  chunk-Reads :
      (buf c : Bytes) (rest : List Response)
      → length buf < size k
      → Reads (buf ++ take (size k - length buf) c) rest
      → Reads buf (chunk c ∷ rest)
  unfolding Reads fill_loop
  chunk-Reads buf c rest h ih =
      let room = size k - length buf in
      let t : ltb (length buf) (size k) ≡ true = ground arith in
      elim (Bool-cases (length c == 0)) [
        | inl nothing ↦
            rw (t, nothing, append-nil buf) (finish_short buf h ∙ sym (whole_read_short buf none h))
        | inr some_bytes ↦ elim (Bool-cases (leb (length c) room)) [
          | inl all ↦
              rw (t, some_bytes, all)
                (ih
                  ∙ ap (λ b. whole_read k (b ++ delivered rest) (failure rest))
                      (ap (buf ++◌) (take_all room c (leb→le (length c) room all)))
                  ∙ ap (λ b. whole_read k b (failure rest)) (append_assoc buf c (delivered rest)))
          | inr part ↦
              rw (t, some_bytes, part)
                (part_full buf c (delivered rest) (failure rest) h
                  (omega (arith, length-take room c, leb→lt (length c) room part)))
        ]
      ]

  -- A buffer that is not overfull is read on with what the reader still delivers.
  fill_loop-Reads : (buf : Bytes) (s : List Response) → length buf ≤ size k → Reads buf s
  fill_loop-Reads buf [] h = elim (Bool-cases (ltb (length buf) (size k))) [
    | inr full ↦ full-Reads buf [] (omega (arith, h, ltb→le (length buf) (size k) full))
    | inl more ↦ empty-Reads buf (ltb→lt (length buf) (size k) more)
  ]
  fill_loop-Reads buf (failed e message ∷ rest) h = elim (Bool-cases (ltb (length buf) (size k))) [
    | inr full ↦ full-Reads buf _ (omega (arith, h, ltb→le (length buf) (size k) full))
    | inl more ↦
        failed-Reads buf e message rest (ltb→lt (length buf) (size k) more)
          (fill_loop-Reads buf rest h)
  ]
  fill_loop-Reads buf (chunk c ∷ rest) h = elim (Bool-cases (ltb (length buf) (size k))) [
    | inr full ↦ full-Reads buf _ (omega (arith, h, ltb→le (length buf) (size k) full))
    | inl more ↦
        let room = size k - length buf in
        chunk-Reads buf c rest (ltb→lt (length buf) (size k) more) (
          fill_loop-Reads (buf ++ take room c) rest
            (omega (arith, h, length-append buf (take room c), length-take room c)))
  ]

-- However a reader splits its bytes into chunks and wherever it is interrupted, an identifier is
-- read from the bytes that it delivers in all: from the first of them, as many as the kind has,
-- where there are so many. Where there are fewer, the result is the error for the number that was
-- delivered: the reader's failure where one ended it, and a wrong length where it ended without.
pub from_stream_for_kind-whole_read :
    {X : Type 0} (k : HashKind) (stream : List Response)
    → (from_stream_for_kind {X = X} k stream).0 ≡ whole_read k (delivered stream) (failure stream)
unfolding Reads
from_stream_for_kind-whole_read k stream = fill_loop-Reads _ k [] stream (omega arith)
