-- ===== src/Delta/Samples.antt =====
-- Short inputs that the tests of the delta code share.
use git_internal.Base.{ℕ, ◌++◌, Bool, true, [], ◌∷◌, Bytes, replicate, refl}
use git_internal.Delta.Decode.Stream.{Allocates}
use git_internal.Delta.Rabin.Index.{RabinDeltaIndex}

abbrev pub old_bytes : Bytes
old_bytes =
    10 ∷ 11 ∷ 12 ∷ 13 ∷ 14 ∷ 15 ∷ 16 ∷ 17 ∷ 18 ∷ 19 ∷ 20 ∷ 21 ∷ 22 ∷ 23 ∷ 24 ∷ 25 ∷ 26 ∷ 27 ∷ 28
    ∷ 29 ∷ 30 ∷ 31 ∷ 32 ∷ 33 ∷ []

abbrev pub new_bytes : Bytes
new_bytes = 99 ∷ old_bytes

abbrev pub always : ℕ → ℕ → Bool
always have more = true

pub always-Allocates : (n : ℕ) → Allocates always n
always-Allocates n k h = λ _. refl

-- A diff that keeps the middle of "hello world".
abbrev pub hello : Bytes
hello = 104 ∷ 101 ∷ 108 ∷ 108 ∷ 111 ∷ []

abbrev pub jelly : Bytes
jelly = 106 ∷ 101 ∷ 108 ∷ 108 ∷ 121 ∷ []

abbrev pub old_index : RabinDeltaIndex
old_index = record {
  source = old_bytes;
  entries = record { offset = 16; hash = 369735798 } ∷ [];
  buckets = replicate 7 0 ++ replicate 10 1;
  hash_mask = 15;
}
