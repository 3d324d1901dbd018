-- ===== src/Pack/Idx/Fanout.antt =====
-- The fanout table that is made of the entries in src/internal/pack/pack_index.rs.
use git_internal.Base.{
  ℕ, zero, suc, ◌+◌, ◌%◌, ◌^◌, ◌<◌, ◌≤◌, List, [], ◌∷◌, length, get_or, set, replicate, ◌≡◌, refl,
  ap, ◌∙◌, arith, All, length-set, length-replicate,
}
use git_internal.Hash.{as_ref}
use git_internal.Index.Entry.RoundTrip.{IsWord}
use git_internal.Pack.Idx.{IndexEntry, count_name, count_names, running_counts, fanout_of}

abbrev sum : List ℕ → ℕ
sum [] = 0
sum (n ∷ ns) = n + sum ns

get_or-le-sum : (ns : List ℕ) (i : ℕ) → get_or ns i 0 ≤ sum ns
get_or-le-sum [] i = omega arith
get_or-le-sum (n ∷ ns) zero = omega arith
get_or-le-sum (n ∷ ns) (suc i) = omega (arith, get_or-le-sum ns i)

sum-set : (ns : List ℕ) (i v : ℕ) → i < length ns → sum (set ns i v) + get_or ns i 0 ≡ sum ns + v
sum-set [] i v h = omega (arith, h)
sum-set (n ∷ ns) zero v h = omega arith
sum-set (n ∷ ns) (suc i) v h = omega (arith, sum-set ns i v (omega (arith, h)))

sum-replicate : (n : ℕ) → sum (replicate n 0) ≡ 0
sum-replicate zero = refl
sum-replicate (suc n) = omega (arith, sum-replicate n)

-- A name whose first byte has a counter.
abbrev pub HasCounter : ℕ → IndexEntry → Type 0
HasCounter n e = get_or (as_ref e.hash) 0 0 < n

sum-count_name :
    (counts : List ℕ) (e : IndexEntry)
    → HasCounter (length counts) e
    → 1 + sum counts < 2 ^ 32
    → sum (count_name counts e.hash) ≡ 1 + sum counts
sum-count_name counts e h few =
    let first = get_or (as_ref e.hash) 0 0 in
    omega (
      arith,
      get_or-le-sum counts first,
      sum-set counts first ((get_or counts first 0 + 1) % 2 ^ 32) h,
      few,
    )

length-count_names :
    (counts : List ℕ) (entries : List IndexEntry)
    → length (count_names counts entries) ≡ length counts
length-count_names counts [] = refl
length-count_names counts (e ∷ entries) =
    length-count_names (count_name counts e.hash) entries ∙ length-set counts _ _

sum-count_names :
    (n : ℕ) (counts : List ℕ) (entries : List IndexEntry)
    → length counts ≡ n
    → All (HasCounter n) entries
    → length entries + sum counts < 2 ^ 32
    → sum (count_names counts entries) ≡ length entries + sum counts
sum-count_names n counts [] sized h few = omega arith
sum-count_names n counts (e ∷ entries) sized (h, hs) few =
    let now = sum-count_name counts e (omega (arith, h, sized)) (omega (arith, few)) in
    omega (
      arith,
      now,
      sum-count_names n (count_name counts e.hash) entries (length-set counts _ _ ∙ sized) hs
          (omega (arith, now, few)),
    )

-- A table that does not fall.
abbrev pub Rises : ℕ → List ℕ → Type 0
Rises prev [] = Unit
Rises prev (n ∷ ns) = (prev ≤ n) × Rises n ns

length-running_counts : (r : ℕ) (counts : List ℕ) → length (running_counts r counts) ≡ length counts
length-running_counts r [] = refl
length-running_counts r (n ∷ counts) = ap suc (length-running_counts ((r + n) % 2 ^ 32) counts)

running_counts-All : (r : ℕ) (counts : List ℕ) → All IsWord (running_counts r counts)
running_counts-All r [] = tt
running_counts-All r (n ∷ counts) = (omega arith, running_counts-All ((r + n) % 2 ^ 32) counts)

running_counts-Rises :
    (r : ℕ) (counts : List ℕ) → r + sum counts < 2 ^ 32 → Rises r (running_counts r counts)
running_counts-Rises r [] h = tt
running_counts-Rises r (n ∷ counts) h =
    (omega (arith, h), running_counts-Rises ((r + n) % 2 ^ 32) counts (omega (arith, h)))

last_count :
    (r n : ℕ) (counts : List ℕ)
    → length counts ≡ suc n
    → r + sum counts < 2 ^ 32
    → get_or (running_counts r counts) n 0 ≡ r + sum counts
last_count r n [] sized h = omega (arith, sized)
last_count r zero (c ∷ []) sized h = omega (arith, h)
last_count r zero (c ∷ c' ∷ counts) sized h = omega (arith, sized)
last_count r (suc n) (c ∷ counts) sized h =
    last_count ((r + c) % 2 ^ 32) n counts (omega (arith, sized)) (omega (arith, h))
    ∙ omega (arith, h)

-- What the parser needs of a fanout table for a number of entries.
pub record IsFanout (count : ℕ) (fanout : List ℕ) : Type 0 where
  pub sized : length fanout ≡ 256
  pub words : All IsWord fanout
  pub rises : Rises 0 fanout
  pub last : get_or fanout 255 0 ≡ count

pub fanout_of-IsFanout :
    (entries : List IndexEntry)
    → All (HasCounter 256) entries
    → length entries < 2 ^ 32
    → IsFanout (length entries) (fanout_of entries)
fanout_of-IsFanout entries h few =
    let counts = count_names (replicate 256 0) entries in
    let sized : length counts ≡ 256 =
      length-count_names (replicate 256 0) entries ∙ length-replicate {A = ℕ} 256 0 in
    let none_yet = sum-replicate 256 in
    let total : sum counts ≡ length entries =
      sum-count_names 256 (replicate 256 0) entries (length-replicate {A = ℕ} 256 0) h
        (omega (arith, none_yet, few))
      ∙ omega (arith, none_yet) in
    record {
      sized = length-running_counts 0 counts ∙ sized;
      words = running_counts-All 0 counts;
      rises = running_counts-Rises 0 counts (omega (arith, total, few));
      last = omega (arith, last_count 0 255 counts sized (omega (arith, total, few)), total);
    }
