-- ===== src/Pack/Entry/RoundTrip.antt =====
-- `encode_one_object` and the readers of src/internal/pack/utils.rs.
use git_internal.Base.{
  ℕ, ◌+◌, ◌<◌, ◌^◌, true, false, [], ◌++◌, Bytes, Option, none, some, Result, ok, length, ◌≡◌, refl,
  ap, sym, subst, >>=-eq-ok, if_elim,
}
use git_internal.Object.Types.{ObjectType, to_pack_type_u8, from_pack_type_u8}
use git_internal.Object.Types.RoundTrip.{from_pack_type_u8_iff, pack_type-lt}
use git_internal.Pack.Varint.{
  object_header, encode_offset, read_type_and_varint_size, read_offset_encoding,
}
use git_internal.Pack.Varint.Size.{read_type_and_varint_size-object_header}
use git_internal.Pack.Varint.Offset.{read_offset_encoding-encode_offset}
use git_internal.Pack.Entry.{
  EncodeError, has_base_offset, is_hash_delta, type_number, checked_offset, offset_data,
  base_reference, encode_one_object,
}

-- What stands behind the header: the distance and the data, or the data alone.
abbrev pub Payload : ObjectType → Option ℕ → Bytes → Bytes → Type 0
Payload obj_type offset tail payload =
    (has_base_offset obj_type ≡ true
      → (n bytes_read : ℕ) × (offset ≡ some n)
        × (read_offset_encoding tail ≡ ok ((n, bytes_read), payload)))
    × (has_base_offset obj_type ≡ false → tail ≡ payload)

abbrev FitsOffset : Option ℕ → Type 0
FitsOffset offset = (n : ℕ) → offset ≡ some n → n < 2 ^ 64

checked :
    (o : Option Bytes) (reference : Bytes) → checked_offset o ≡ ok reference → o ≡ some reference
unfolding checked_offset
checked none reference e = cc
checked (some b) reference e = cc

numbered : (o : Option ℕ) (n : ℕ) → type_number o ≡ ok n → o ≡ some n
unfolding type_number
numbered none n e = cc
numbered (some m) n e = cc

same_encoding : (a b : Bytes) (r s : Result EncodeError Bytes) → r ≡ s → r ≡ ok a → s ≡ ok b → a ≡ b
same_encoding a b r s e p q = cc

offset_data-read :
    (offset : Option ℕ) (reference payload : Bytes)
    → FitsOffset offset
    → offset_data offset ≡ ok reference
    → (n bytes_read : ℕ) × (offset ≡ some n)
      × (read_offset_encoding (reference ++ payload) ≡ ok ((n, bytes_read), payload))
unfolding offset_data
offset_data-read none reference payload fits e = cc
offset_data-read (some n) reference payload fits e = (
  n,
  length reference,
  refl,
  read_offset_encoding-encode_offset n reference payload (fits n refl)
      (checked (encode_offset n) reference e),
)

base_reference-Payload :
    (obj_type : ObjectType) (offset : Option ℕ) (reference payload : Bytes)
    → FitsOffset offset
    → base_reference obj_type offset ≡ ok reference
    → Payload obj_type offset (reference ++ payload) payload
unfolding base_reference
base_reference-Payload obj_type offset reference payload fits =
    if_elim (λ r. r ≡ ok reference → Payload obj_type offset (reference ++ payload) payload)
      (has_base_offset obj_type)
      (λ has e. (λ _. offset_data-read offset reference payload fits e, λ k. cc))
      (λ hasnt.
        if_elim (λ r. r ≡ ok reference → Payload obj_type offset (reference ++ payload) payload)
          (is_hash_delta obj_type) (λ _ e. cc)
          (λ _ e.
            let empty : [] ≡ reference = cc in
            (λ k. cc, λ _. ap (λ (r : Bytes). r ++ payload) (sym empty))))

-- An entry that `encode_one_object` gives, for data and a distance below 2 ^ 64, is read back: the
-- type bits are parsed to its type, the size is the length of its data, and behind them stand the
-- distance, for an offset delta, and the compressed data.
pub encode_one_object-read :
    (compress : Bytes → Bytes) (obj_type : ObjectType) (obj_data : Bytes) (offset : Option ℕ)
    (encoded : Bytes)
    → length obj_data < 2 ^ 64
    → ((n : ℕ) → offset ≡ some n → n < 2 ^ 64)
    → encode_one_object compress obj_type obj_data offset ≡ ok encoded
    → (obj_type_number header_len : ℕ) × (tail : Bytes) × (read_type_and_varint_size encoded 0
        ≡ ok (obj_type_number, (length obj_data, header_len), tail))
      × (from_pack_type_u8 obj_type_number ≡ some obj_type)
      × Payload obj_type offset tail (compress obj_data)
unfolding encode_one_object
encode_one_object-read compress obj_type obj_data offset encoded hd fits e =
    let (k, bits, e1) = >>=-eq-ok (type_number (to_pack_type_u8 obj_type)) _ e in
    let (reference, refd, e2) = >>=-eq-ok (base_reference obj_type offset) _ e1 in
    let number : to_pack_type_u8 obj_type ≡ some k = numbered (to_pack_type_u8 obj_type) k bits in
    let header : Bytes = object_header k (length obj_data) in
    let tail : Bytes = reference ++ compress obj_data in
    let whole : header ++ tail ≡ encoded =
      same_encoding (header ++ tail) encoded (ok (header ++ tail)) (ok encoded) e2 refl refl in
    (
      k,
      0 + length header,
      tail,
      subst
          (λ b. read_type_and_varint_size b 0 ≡ ok (k, (length obj_data, 0 + length header), tail))
          whole
          (read_type_and_varint_size-object_header k (length obj_data) 0 tail
            (pack_type-lt obj_type k number) hd),
      (from_pack_type_u8_iff obj_type k).1 number,
      base_reference-Payload obj_type offset reference (compress obj_data) fits refd,
    )
