-- ===== src/Hash/Tests/Codec.antt =====
-- A hexadecimal codec and a digest, which stand for the libraries in the tests.
use git_internal.Base.{
  ℕ, suc, ◌+◌, ◌*◌, ◌/◌, ◌%◌, ◌≤◌, [], ◌∷◌, ◌++◌, Bytes, IsByte, All, length, replicate, take, map,
  Result, ok, err, ok-injective, subst, All-take, All-append, append-nil, All-replicate,
  length-take, length-append, length-replicate, Option, none, some, ◌≡◌, refl, ap, ◌∙◌, arith,
  append_assoc,
}
use git_internal.Protocol.PktLine.{hex_digit, lower_digit}
use git_internal.Protocol.PktLine.RoundTrip.{hex_digit-lower_digit, hex_digit-lt}
use git_internal.Hash.{HashKind, size}
use git_internal.Hash.Parse.{Hex}
use git_internal.Hash.Digest.{Digests}

pub data HexError : Type 0 where
  odd_length bad_digit : HexError

abbrev hex_encode : Bytes → Bytes
hex_encode [] = []
hex_encode (b ∷ bs) = lower_digit (b / 16) ∷ lower_digit (b % 16) ∷ hex_encode bs

abbrev pair_up : Option ℕ → Option ℕ → Result HexError Bytes → Result HexError Bytes
pair_up (some h) (some l) (ok bs) = ok ((h * 16 + l) ∷ bs)
pair_up (some h) (some l) (err e) = err e
pair_up _ _ _ = err bad_digit

abbrev hex_decode : Bytes → Result HexError Bytes
hex_decode [] = ok []
hex_decode (c ∷ []) = err odd_length
hex_decode (c ∷ c' ∷ cs) = pair_up (hex_digit c) (hex_digit c') (hex_decode cs)

pub length-encode : (bs : Bytes) → length (hex_encode bs) ≡ length bs * 2
length-encode [] = refl
length-encode (b ∷ bs) = omega (arith, length-encode bs)

pub decode-encode : (bs : Bytes) → All IsByte bs → hex_decode (hex_encode bs) ≡ ok bs
decode-encode [] h = refl
decode-encode (b ∷ bs) (h, hs) =
    rw
      (
        hex_digit-lower_digit (b / 16) (omega arith),
        hex_digit-lower_digit (b % 16) (omega arith),
        decode-encode bs hs,
      )
      (ap (λ c. ok (c ∷ bs)) (omega arith))

pair_up-inv :
    (h l : Option ℕ) (r : Result HexError Bytes) (bs : Bytes)
    → pair_up h l r ≡ ok bs
    → (a b : ℕ) × (cs : Bytes) × (h ≡ some a)
      × (l ≡ some b)
      × (r ≡ ok cs)
      × ((a * 16 + b) ∷ cs ≡ bs)
pair_up-inv (some a) (some b) (ok cs) bs e = (a, b, cs, refl, refl, refl, ok-injective refl e)
pair_up-inv (some a) (some b) (err x) bs e = cc
pair_up-inv none l r bs e = cc
pair_up-inv (some a) none r bs e = cc

pub decode-All : (s bs : Bytes) → hex_decode s ≡ ok bs → All IsByte bs
decode-All [] bs e = subst (All IsByte) (ok-injective refl e) tt
decode-All (c ∷ []) bs e = cc
decode-All (c ∷ c' ∷ cs) bs e =
    let (a, b, rest, ha, hb, r, same) =
      pair_up-inv (hex_digit c) (hex_digit c') (hex_decode cs) bs e in
    subst (All IsByte) same
      (omega (arith, hex_digit-lt c a ha, hex_digit-lt c' b hb), decode-All cs rest r)

pub decode-length : (s bs : Bytes) → hex_decode s ≡ ok bs → length s ≡ length bs * 2
decode-length [] bs e = ap (λ (b : Bytes). length b * 2) (ok-injective refl e)
decode-length (c ∷ []) bs e = cc
decode-length (c ∷ c' ∷ cs) bs e =
    let (a, b, rest, ha, hb, r, same) =
      pair_up-inv (hex_digit c) (hex_digit c') (hex_decode cs) bs e in
    subst (λ (x : Bytes). suc (suc (length cs)) ≡ length x * 2) same
      (omega (arith, decode-length cs rest r))

abbrev pub hex : Hex HexError
hex = record {
  encode = hex_encode;
  decode = hex_decode;
  length-encode = length-encode;
  decode-encode = decode-encode;
  decode-All = decode-All;
  decode-length = decode-length;
}

-- The bytes themselves, cut or filled up to the size.
abbrev fit : HashKind → Bytes → Bytes
fit k bs = take (size k) (map (◌% 256) bs ++ replicate 32 0)

size-le : (k : HashKind) → size k ≤ 32
size-le HashKind.sha1 = omega arith
size-le HashKind.sha256 = omega arith
size-le HashKind.blake3 = omega arith

remainders : (bs : Bytes) → All IsByte (map (◌% 256) bs)
remainders [] = tt
remainders (b ∷ bs) = (omega arith, remainders bs)

pub length-fit : (k : HashKind) (bs : Bytes) → length (fit k bs) ≡ size k
length-fit k bs =
    length-take (size k) (map (◌% 256) bs ++ replicate 32 0)
    ∙ omega (
      arith,
      size-le k,
      length-append (map (◌% 256) bs) (replicate 32 0),
      length-replicate {A = ℕ} 32 0,
    )

pub fit-All : (k : HashKind) (bs : Bytes) → All IsByte (fit k bs)
fit-All k bs = All-take IsByte (size k) (map (◌% 256) bs ++ replicate 32 0) (
    All-append IsByte (map (◌% 256) bs) (replicate 32 0) (remainders bs)
      (All-replicate IsByte 32 0 (omega arith)))

abbrev pub digests : Digests
digests = record {
  State = λ k. Bytes;
  new = λ k. [];
  update = λ k s bs. s ++ bs;
  finalize = fit;
  update-append = λ k s a b. append_assoc s a b;
  update-nil = λ k s. append-nil s;
  length-finalize = length-fit;
  finalize-All = fit-All;
}
