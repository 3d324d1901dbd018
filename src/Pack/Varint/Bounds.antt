-- ===== src/Pack/Varint/Bounds.antt =====
-- The size that `read_type_and_varint_size` of src/internal/pack/utils.rs reads is a u64.
use git_internal.Base.{
  ℕ, ◌+◌, ◌*◌, ◌%◌, ◌/◌, ◌^◌, ◌<◌, bit_and, bit_or, [], ◌∷◌, Bytes, ok, ◌≡◌, refl, subst, ap, arith,
  Bool-cases, inl, inr, >>=-eq-ok, ok-injective,
}
use git_internal.Base.Bits.{bit_or-lt, bit_and-le}
use git_internal.Pack.Varint.{continuation, size_loop, read_type_and_varint_size}

size_loop-lt :
    (stream rest : Bytes) (size shift offset n o : ℕ)
    → size < 2 ^ 64
    → size_loop stream size shift offset ≡ ok ((n, o), rest)
    → n < 2 ^ 64
unfolding size_loop
size_loop-lt [] rest size shift offset n o h e = cc
size_loop-lt (byte ∷ stream) rest size shift offset n o h e =
    let part = (continuation byte).0 * 2 ^ (shift % 64) % 2 ^ 64 in
    let small : bit_or size part < 2 ^ 64 = bit_or-lt 64 size part h (omega arith) in
    elim (Bool-cases (continuation byte).1) [
      | inl more ↦
          size_loop-lt stream rest (bit_or size part) (shift + 7) (offset + 1) n o small
            (rw more at e)
      | inr last ↦
          let read : ok ((bit_or size part, offset + 1), stream) ≡ ok ((n, o), rest) =
            rw last at e in
          subst (◌< 2 ^ 64) (ap (λ (p : (ℕ × ℕ) × Bytes). p.0.0) (ok-injective refl read)) small
    ]

pub read_type_and_varint_size-lt :
    (pack rest : Bytes) (offset bits n o : ℕ)
    → read_type_and_varint_size pack offset ≡ ok (bits, (n, o), rest)
    → n < 2 ^ 64
unfolding read_type_and_varint_size
read_type_and_varint_size-lt [] rest offset bits n o e = cc
read_type_and_varint_size-lt (byte ∷ stream) rest offset bits n o e =
    let size = bit_and (continuation byte).0 0x0f in
    let small : size < 2 ^ 64 = omega (arith, bit_and-le (continuation byte).0 0x0f) in
    let bits_read = bit_and (continuation byte).0 0x70 / 2 ^ 4 in
    elim (Bool-cases (continuation byte).1) [
      | inl more ↦
          let (((m, at), left), looped, same) =
            >>=-eq-ok (size_loop stream size 4 (offset + 1)) _ (rw more at e) in
          subst (◌< 2 ^ 64) (ap (λ (p : ℕ × (ℕ × ℕ) × Bytes). p.1.0) (ok-injective refl same))
            (size_loop-lt stream left size 4 (offset + 1) m at small looped)
      | inr last ↦
          let read : ok (bits_read, (size, offset + 1), stream) ≡ ok (bits, (n, o), rest) =
            rw last at e in
          subst (◌< 2 ^ 64) (ap (λ (p : ℕ × (ℕ × ℕ) × Bytes). p.1.0) (ok-injective refl read)) small
    ]
