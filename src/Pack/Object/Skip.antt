-- ===== src/Pack/Object/Skip.antt =====
-- Objects that nothing needs, src/internal/pack/decode.rs: what is skipped is checked as what is kept.
use git_internal.Base.{
  ℕ, ◌^◌, ◌<◌, true, false, not, [], ◌∷◌, Bytes, ltb, if◌then◌else◌, length, take, drop, Result, ok,
  err, Option, none, some, ◌≡◌, refl, sym, ap, ◌∙◌, arith, Bool-cases, Option-cases, Result-cases,
  inl, inr, take_all, ltb→le,
}
use git_internal.Base.Decimal.{decimal}
use git_internal.Object.Types.{ObjectType, is_base, from_pack_type_u8}
use git_internal.Object.Names.{to_bytes}
use git_internal.Hash.{
  HashKind, ObjectHash, HashError, unsupported_object_type, in_calculate, size, same_hash,
}
use git_internal.Hash.Digest.{Digests, hasher_for_kind, update, finalize_object_hash}
use git_internal.Hash.Digest.Loose.{
  calculate_object_hash_for_kind, hash_loose_object, decimal_usize_bytes,
  decimal_usize_bytes-decimal,
}
use git_internal.Pack.Varint.{read_type_and_varint_size}
use git_internal.Pack.Varint.Bounds.{read_type_and_varint_size-lt}
use git_internal.Pack.Object.{
  Inflated, Arguments, Head, Decoded, should_skip_no_callback_object, extra_read, verify_known_crc,
  crc_of, decompress_data, hash_compressed_object, skipped_size, skip_base, decode_base,
  decode_offset_delta, decode_hash_delta, decode_delta, decode_by_type, decode_pack_object_with_crc,
}

-- Where the decoder stands after an object that it accepts: the offset, and what is left of the pack.
abbrev pub accepted : {E : Type 0} → Result E Decoded → Option (ℕ × Bytes)
accepted (ok (obj, place)) = some place
accepted (err e) = none

abbrev decode_all : Arguments → Arguments
decode_all a = record a { skip_unneeded_objects = false }

-- A skip wants a known name.
skip_by-known :
    (a : Arguments) (offset : ℕ)
    → should_skip_no_callback_object a offset ≡ true
    → (h : ObjectHash) × (a.known_hash ≡ some h)
skip_by-known a offset e = elim (Option-cases a.known_hash) [
  | inr found ↦ found
  | inl unknown ↦
      let never : (if not a.skip_unneeded_objects then false else false) ≡ true = rw unknown at e in
      elim (Bool-cases a.skip_unneeded_objects) [
        | inl on ↦ let nothing : false ≡ true = rw on at never in cc
        | inr off ↦ let nothing : false ≡ true = rw off at never in cc
      ]
]

module _ (d : Digests) where
  -- The hash over a payload as it is streamed, which is the identifier of its object.
  abbrev streamed_hash : HashKind → Bytes → ℕ → Bytes → ObjectHash
  streamed_hash k name n content =
      let hasher = update d (hasher_for_kind d k) name in
      let hasher = update d hasher (32 ∷ []) in
      let hasher = update d hasher (decimal n) in
      let hasher = update d hasher (0 ∷ []) in
      finalize_object_hash d (update d hasher (take n content))

module _ {X : Type 0} (d : Digests) where
  calculate-unnamed :
      (k : HashKind) (t : ObjectType) (content : Bytes)
      → to_bytes t ≡ none
      → (e : HashError X) × (calculate_object_hash_for_kind d {X = X} k t content ≡ err e)
  unfolding calculate_object_hash_for_kind
  calculate-unnamed k t content unnamed =
      (unsupported_object_type in_calculate k t (size k) 0 (length content), rw unnamed refl)

  calculate-streamed_hash :
      (k : HashKind) (t : ObjectType) (name : Bytes) (n : ℕ) (content : Bytes)
      → to_bytes t ≡ some name
      → length content ≡ n
      → n < 2 ^ 64
      → calculate_object_hash_for_kind d {X = X} k t content ≡ ok (streamed_hash d k name n content)
  unfolding calculate_object_hash_for_kind hash_loose_object
  calculate-streamed_hash k t name n content named sized small =
      let digits : decimal_usize_bytes (length content) ≡ decimal n =
        ap decimal_usize_bytes sized ∙ decimal_usize_bytes-decimal n (omega (arith, small)) in
      let whole : take n content ≡ content = take_all n content (omega (arith, sized)) in
      rw (named, digits, whole) refl

module _ {X Z : Type 0} where
  -- A stream that delivers enough and ends with it delivers just what was expected.
  extra_read-length :
      (n : ℕ) (inflated : Inflated Z) (consumed : ℕ)
      → ltb (length inflated.delivered) n ≡ false
      → extra_read {X = X} n inflated ≡ ok consumed
      → length inflated.delivered ≡ n
  unfolding extra_read
  extra_read-length n inflated consumed enough e =
      elim (Bool-cases (ltb n (length inflated.delivered))) [
        | inl more ↦ let nothing : err _ ≡ ok consumed = rw more at e in cc
        | inr no_more ↦ omega (arith, ltb→le _ n enough, ltb→le n _ no_more)
      ]

module _ (X : Type 0) {Z : Type 0} (d : Digests) (inflate : Bytes → Inflated Z)
    (crc32 : Bytes → ℕ) where
  -- Behind a payload that is whole: the name and the CRC, in either order.
  checked :
      (k : HashKind) (a : Arguments) (t : ObjectType) (head : Head) (h : ObjectHash) (name : Bytes)
      (consumed : ℕ)
      → head.size < 2 ^ 64
      → a.known_hash ≡ some h
      → to_bytes t ≡ some name
      → ltb (length (inflate head.stream).delivered) head.size ≡ false
      → extra_read {X = X} head.size (inflate head.stream) ≡ ok consumed
      → accepted (skip_base {X = X} d inflate crc32 k a t head)
        ≡ accepted (decode_base {X = X} d inflate crc32 k a t head)
  unfolding skip_base skipped_size hash_compressed_object decode_base decompress_data
  checked k a t head h name consumed small known named enough ended =
      let content = (inflate head.stream).delivered in
      let sized = extra_read-length {X = X} head.size (inflate head.stream) consumed enough ended in
      let hash = streamed_hash d k name head.size content in
      let computed =
        calculate-streamed_hash {X = X} d k t name head.size content named sized small in
      let crc = crc_of crc32 a.track_crc head.entry (drop consumed head.stream) in
      elim (Bool-cases (same_hash h hash)) [
        | inl same ↦
            elim (Result-cases
              (verify_known_crc {X = X} {Z = Z} a.track_crc head.init_offset crc a.known_crc)) [
                | inl (_, right) ↦ elim (Bool-cases a.emit_skipped_base_callback) [
                  | inl emits ↦ rw (known, named, enough, ended, computed, same, right, emits) refl
                  | inr quiet ↦ rw (known, named, enough, ended, computed, same, right, quiet) refl
                ]
                | inr (e, wrong) ↦ rw (known, named, enough, ended, computed, same, wrong) refl
              ]
        | inr other ↦
            elim (Result-cases
              (verify_known_crc {X = X} {Z = Z} a.track_crc head.init_offset crc a.known_crc)) [
                | inl (_, right) ↦ rw (known, named, enough, ended, computed, other, right) refl
                | inr (e, wrong) ↦ rw (known, named, enough, ended, computed, other, wrong) refl
              ]
      ]

  -- A type without a name can be neither skipped nor decoded.
  unnamed_refused :
      (k : HashKind) (a : Arguments) (t : ObjectType) (head : Head) (h : ObjectHash)
      → a.known_hash ≡ some h
      → to_bytes t ≡ none
      → (accepted (skip_base {X = X} d inflate crc32 k a t head) ≡ none)
        × (accepted (decode_base {X = X} d inflate crc32 k a t head) ≡ none)
  unfolding skip_base skipped_size hash_compressed_object decode_base
  unnamed_refused k a t head h known unnamed = (
    rw (known, unnamed) refl,
    elim (Result-cases (decompress_data {X = X} d inflate crc32 head.stream head.size)) [
      | inr (e, failed) ↦ rw failed refl
      | inl ((content, consumed), read) ↦
          let crc = crc_of crc32 a.track_crc head.entry (drop consumed head.stream) in
          let refused = calculate-unnamed {X = X} d k t content unnamed in
          elim (Result-cases
            (verify_known_crc {X = X} {Z = Z} a.track_crc head.init_offset crc a.known_crc)) [
              | inl (_, right) ↦ rw (read, right, refused.1) refl
              | inr (e, wrong) ↦ rw (read, wrong) refl
            ]
    ],
  )

  skip_base-decode_base :
      (k : HashKind) (a : Arguments) (t : ObjectType) (head : Head) (h : ObjectHash)
      → head.size < 2 ^ 64
      → a.known_hash ≡ some h
      → accepted (skip_base {X = X} d inflate crc32 k a t head)
        ≡ accepted (decode_base {X = X} d inflate crc32 k a t head)
  unfolding skip_base skipped_size hash_compressed_object decode_base decompress_data
  skip_base-decode_base k a t head h small known =
      let inflated = inflate head.stream in
      elim (Option-cases (to_bytes t)) [
        | inl unnamed ↦
            let (skipped, decoded) = unnamed_refused k a t head h known unnamed in
            skipped ∙ sym decoded
        | inr (name, named) ↦ elim (Bool-cases (ltb (length inflated.delivered) head.size)) [
          | inl short ↦ rw (known, named, short) refl
          | inr enough ↦ elim (Result-cases (extra_read {X = X} head.size inflated)) [
            | inr (e, failed) ↦ rw (known, named, enough, failed) refl
            | inl (consumed, ended) ↦
                checked k a t head h name consumed small known named enough ended
          ]
        ]
      ]

  decode_base-decode_all :
      (k : HashKind) (a : Arguments) (t : ObjectType) (head : Head)
      → decode_base {X = X} d inflate crc32 k a t head
        ≡ decode_base {X = X} d inflate crc32 k (decode_all a) t head
  unfolding decode_base
  decode_base-decode_all k a t head = refl

  decode_by_type-decode_all :
      (k : HashKind) (a : Arguments) (t : ObjectType) (head : Head)
      → head.size < 2 ^ 64
      → accepted (decode_by_type {X = X} d inflate crc32 k a t head)
        ≡ accepted (decode_by_type {X = X} d inflate crc32 k (decode_all a) t head)
  unfolding decode_by_type decode_offset_delta decode_hash_delta decode_delta
  decode_by_type-decode_all k a t head small = elim (Bool-cases (is_base t)) [
    | inl base ↦ elim (Bool-cases (should_skip_no_callback_object a head.init_offset)) [
      | inl skips ↦
          let (h, known) = skip_by-known a head.init_offset skips in
          rw (base, skips)
            (skip_base-decode_base k a t head h small known
              ∙ ap accepted (decode_base-decode_all k a t head))
      | inr keeps ↦ rw (base, keeps) (ap accepted (decode_base-decode_all k a t head))
    ]
    | inr delta ↦ rw delta refl
  ]

  -- Whether an object that nothing needs is skipped or decoded, the decoder accepts the same bytes
  -- and stands at the same place behind it: a skip checks the size, the end, the CRC and the name
  -- of a payload as decoding does, and any other object is decoded either way.
  pub decode_pack_object-decode_all :
      (k : HashKind) (a : Arguments) (pack : Bytes) (offset : ℕ)
      → accepted (decode_pack_object_with_crc {X = X} d inflate crc32 k a pack offset)
        ≡ accepted (
            decode_pack_object_with_crc {X = X} d inflate crc32 k
              (record a { skip_unneeded_objects = false })
              pack
              offset)
  unfolding decode_pack_object_with_crc
  decode_pack_object-decode_all k a pack offset =
      elim (Result-cases (read_type_and_varint_size pack offset)) [
        | inr (e, failed) ↦ rw failed refl
        | inl ((bits, (n, o), stream), read) ↦ elim (Option-cases (from_pack_type_u8 bits)) [
          | inl unknown ↦ rw (read, unknown) refl
          | inr (t, typed) ↦
              rw (read, typed)
                (decode_by_type-decode_all k a t _
                  (read_type_and_varint_size-lt pack stream offset bits n o read))
        ]
      ]
