-- ===== src/Hash/Stream.antt =====
-- Reading an identifier from a stream, src/hash.rs. A reader is the list of what its calls can give:
-- bytes, of which a call takes as many as its buffer has room for, or a failure. A call gives no
-- byte at the end of the list, and where it meets an empty chunk.
pub mod Chunks
pub mod Whole
use git_internal.Base.{
  ℕ, zero, suc, ◌+◌, ◌-◌, ◌*◌, ◌<◌, ◌≤◌, Bool, true, false, List, [], ◌∷◌, ◌++◌, Bytes, ◌==◌, ltb,
  leb, if◌then◌else◌, length, take, drop, Result, ok, err, Option, none, some,
}
use git_internal.Hash.{
  HashKind, ObjectHash, HashError, ErrorKind, interrupted, unexpected_eof, invalid_data, other_kind,
  invalid_length, io_error, in_from_stream, size, from_bytes_for_kind, io_kind,
}

pub data Response : Type 0 where
  chunk : Bytes → Response
  failed : ErrorKind → Bytes → Response

abbrev pub is_interrupted : ErrorKind → Bool
is_interrupted interrupted = true
is_interrupted unexpected_eof = false
is_interrupted invalid_data = false
is_interrupted (other_kind n) = false

-- What is left of a reader when `room` bytes of its first chunk were asked for.
abbrev pub after : ℕ → Bytes → List Response → List Response
after room c rest = if leb (length c) room then rest else chunk (drop room c) ∷ rest

-- What follows the loop.
unfoldable pub finish : {X : Type 0} → HashKind → Bytes → Result (HashError X) ObjectHash
finish k buf =
    if length buf == size k
    then from_bytes_for_kind k buf
    else err (invalid_length in_from_stream k (size k) (length buf))

unfoldable pub fill_loop :
    {X : Type 0}
    → HashKind
    → Bytes
    → List Response
    → Result (HashError X) ObjectHash × List Response
fill_loop k buf [] = (finish k buf, [])
fill_loop k buf (failed e message ∷ rest) =
    let continued = fill_loop k buf rest in
    if ltb (length buf) (size k)
    then if is_interrupted e
      then continued
      else (err (io_error in_from_stream k (size k) (length buf) e message), rest)
    else (finish k buf, failed e message ∷ rest)
fill_loop k buf (chunk c ∷ rest) =
    let room = size k - length buf in
    let continued = fill_loop k (buf ++ take room c) rest in
    if ltb (length buf) (size k)
    then if length c == 0
      then (finish k buf, rest)
      else if leb (length c) room
      then continued
      else (finish k (buf ++ take room c), after room c rest)
    else (finish k buf, chunk c ∷ rest)

abbrev pub from_stream_for_kind :
    {X : Type 0} → HashKind → List Response → Result (HashError X) ObjectHash × List Response
from_stream_for_kind k stream = fill_loop k [] stream

-- What the reader delivers up to its end or its first failure that is not an interruption, and
-- that failure.
abbrev pub delivered : List Response → Bytes
delivered [] = []
delivered (failed e message ∷ rest) = if is_interrupted e then delivered rest else []
delivered (chunk c ∷ rest) = if length c == 0 then [] else c ++ delivered rest

abbrev pub failure : List Response → Option (ErrorKind × Bytes)
failure [] = none
failure (failed e message ∷ rest) = if is_interrupted e then failure rest else some (e, message)
failure (chunk c ∷ rest) = if length c == 0 then none else failure rest
