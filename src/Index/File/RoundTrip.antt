-- ===== src/Index/File/RoundTrip.antt =====
-- The index file of src/internal/index.rs, written and read again.
use Prim.Native.Nat.{Ordering}
use git_internal.Base.{length, map, ◌≡◌, All}
use git_internal.Base.SortedMap.{Increasing}
use git_internal.Hash.{HashKind}
use git_internal.Index.Entry.{IndexEntry}
use git_internal.Index.Entry.RoundTrip.{IsWord, IsIndexEntry, stored}
use git_internal.Index.Map.{Key, compare_keys, Index}

-- An index that can be written: its entries, each under its own key, and their order.
pub record IsIndex (k : HashKind) (index : Index) : Type 0 where
  pub entries : All (λ (p : Key × IndexEntry). IsIndexEntry k p.1) index
  pub keys : All (λ (p : Key × IndexEntry). p.0 ≡ (p.1.name, p.1.flags.stage)) index
  pub ordered : Increasing compare_keys index
  pub counted : IsWord (length index)

abbrev pub stored_index : Index → Index
stored_index index = map (λ (p : Key × IndexEntry). (p.0, stored p.1)) index

-- Each key of the first index is below each of the second.
abbrev Before : Index → Index → Type 0
Before front index =
    All
      (λ (q : Key × IndexEntry).
        All (λ (p : Key × IndexEntry). compare_keys q.0 p.0 ≡ Ordering.lt) index)
      front
