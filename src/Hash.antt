-- ===== src/Hash.antt =====
-- Object identifiers, src/hash.rs: the hash kinds, the identifiers and their errors. An array
-- `[u8; n]` is the list of its bytes; `IsObjectHash` says what the array type says.
use git_internal.Base.{
  ◌&&◌, same_bytes, ℕ, ◌*◌, Bool, true, false, [], ◌∷◌, Bytes, IsByte, All, ◌==◌, if◌then◌else◌,
  length, replicate, Result, ok, err, Option, none, some, ◌≡◌, same_bytes, map, ltb, ◌+◌, leb, ◌&&◌,
}
use git_internal.Object.Types.{ObjectType}
pub mod Parse
pub mod Stream
pub mod Digest
pub mod Kinds
pub mod RoundTrip
pub mod Tests

pub data HashKind : Type 0 where
  sha1 sha256 blake3 : HashKind

pub data ObjectHash : Type 0 where
  sha1 sha256 blake3 : Bytes → ObjectHash

-- The functions that an error names.
pub data Operation : Type 0 where
  in_ensure_kind in_from_type_and_data in_from_bytes in_from_hex in_from_tagged in_from_stream
        in_calculate :
      Operation

-- `io::ErrorKind`, of which the code names three.
pub data ErrorKind : Type 0 where
  interrupted unexpected_eof invalid_data : ErrorKind
  other_kind : ℕ → ErrorKind

-- The constant fields of an error, which name the accepted tags, are left out; `X` is the error of
-- the hex library.
pub data HashError (X : Type 0) : Type 0 where
  invalid_length : Operation → HashKind → ℕ → ℕ → HashError X
  invalid_hex : Operation → HashKind → ℕ → ℕ → X → HashError X
  kind_mismatch : Operation → HashKind → HashKind → ℕ → ℕ → HashError X
  unknown_kind : Operation → Bytes → ℕ → ℕ → HashError X
  unsupported_object_type : Operation → HashKind → ObjectType → ℕ → ℕ → ℕ → HashError X
  io_error : Operation → HashKind → ℕ → ℕ → ErrorKind → Bytes → HashError X

-- `From<HashError> for io::Error`, as far as its kind.
pub io_kind : {X : Type 0} → HashError X → ErrorKind
io_kind (invalid_length in_from_stream k expected actual) = unexpected_eof
io_kind (io_error o k expected actual error_kind message) = error_kind
io_kind _ = invalid_data

abbrev pub size : HashKind → ℕ
size HashKind.sha1 = 20
size HashKind.sha256 = 32
size HashKind.blake3 = 32

abbrev pub hex_len : HashKind → ℕ
hex_len k = size k * 2

abbrev pub as_str : HashKind → Bytes
as_str HashKind.sha1 = 115 ∷ 104 ∷ 97 ∷ 49 ∷ []
as_str HashKind.sha256 = 115 ∷ 104 ∷ 97 ∷ 50 ∷ 53 ∷ 54 ∷ []
as_str HashKind.blake3 = 98 ∷ 108 ∷ 97 ∷ 107 ∷ 101 ∷ 51 ∷ []

abbrev pub is_git_standard : HashKind → Bool
is_git_standard HashKind.sha1 = true
is_git_standard HashKind.sha256 = true
is_git_standard HashKind.blake3 = false

-- `==` of the derived `PartialEq`.
abbrev pub same_kind : HashKind → HashKind → Bool
same_kind HashKind.sha1 HashKind.sha1 = true
same_kind HashKind.sha256 HashKind.sha256 = true
same_kind HashKind.blake3 HashKind.blake3 = true
same_kind _ _ = false

abbrev pub as_ref : ObjectHash → Bytes
as_ref (ObjectHash.sha1 bytes) = bytes
as_ref (ObjectHash.sha256 bytes) = bytes
as_ref (ObjectHash.blake3 bytes) = bytes

abbrev pub kind : ObjectHash → HashKind
kind (ObjectHash.sha1 bytes) = HashKind.sha1
kind (ObjectHash.sha256 bytes) = HashKind.sha256
kind (ObjectHash.blake3 bytes) = HashKind.blake3

-- `==` of the derived `PartialEq`.
abbrev pub same_hash : ObjectHash → ObjectHash → Bool
same_hash a b = same_kind (kind a) (kind b) && same_bytes (as_ref a) (as_ref b)

-- The variant of a kind, around the bytes of its array.
abbrev pub variant : HashKind → Bytes → ObjectHash
variant HashKind.sha1 h = ObjectHash.sha1 h
variant HashKind.sha256 h = ObjectHash.sha256 h
variant HashKind.blake3 h = ObjectHash.blake3 h

pub record IsObjectHash (h : ObjectHash) : Type 0 where
  pub sized : length (as_ref h) ≡ size (kind h)
  pub bytes : All IsByte (as_ref h)

abbrev pub zero_for_kind : HashKind → ObjectHash
zero_for_kind HashKind.sha1 = ObjectHash.sha1 (replicate 20 0)
zero_for_kind HashKind.sha256 = ObjectHash.sha256 (replicate 32 0)
zero_for_kind HashKind.blake3 = ObjectHash.blake3 (replicate 32 0)

unfoldable pub ensure_kind : {X : Type 0} → ObjectHash → HashKind → Result (HashError X) (Unit {0})
ensure_kind h expected =
    if same_kind (kind h) expected
    then ok tt
    else err (kind_mismatch in_ensure_kind expected (kind h) (size expected) (size (kind h)))

unfoldable pub from_bytes_for_kind :
    {X : Type 0} → HashKind → Bytes → Result (HashError X) ObjectHash
from_bytes_for_kind k bytes =
    if length bytes == size k
    then ok (variant k bytes)
    else err (invalid_length in_from_bytes k (size k) (length bytes))

-- The legacy constructor, with the actual length as its error.
unfoldable pub from_bytes_infer_kind : Bytes → Result ℕ ObjectHash
from_bytes_infer_kind bytes =
    if length bytes == 20
    then ok (ObjectHash.sha1 bytes)
    else if length bytes == 32
    then ok (ObjectHash.sha256 bytes)
    else err (length bytes)
