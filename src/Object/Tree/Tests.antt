-- ===== src/Object/Tree/Tests.antt =====
-- Trees on concrete inputs, with a search and a decoder in place of the libraries.
use mathlib.Core.Option
use git_internal.Base.{
  ℕ, suc, ◌+◌, true, [], ◌∷◌, ◌++◌, Bytes, ◌==◌, if◌then◌else◌, length, replicate, All,
  All-replicate, IsByte, ok, Option, none, some, ◌≡◌, ◌≢◌, refl, ap, arith, Bool-cases, inl, inr,
  ==→eq,
}
use git_internal.Base.Utf8.{is_utf8}
use git_internal.Hash.{HashKind, ObjectHash, ensure_kind}
use git_internal.Hash.Tests.Codec.{HexError, digests}
use git_internal.Hash.Digest.{from_type_and_data_for_kind}
use git_internal.Object.Names.{to_bytes}
use git_internal.Object.Tree.{
  Text, TreeItemMode, TreeItem, Tree, items_data, items_loop, from_bytes, from_tree_items_with_kind,
  items_data_for_kind,
}
use git_internal.Object.Tree.RoundTrip.{IsTreeItem, from_bytes-from_tree_items_with_kind}
use git_internal.Object.Tree.Fuel.{Ends, items_loop-length}

abbrev find : ℕ → Bytes → Option ℕ
find c [] = none
find c (b ∷ bs) = let later = Option.map suc (find c bs) in if b == c then some 0 else later

find-found :
    (c : ℕ) (before after : Bytes)
    → All (◌≢ c) before
    → find c (before ++ c ∷ after) ≡ some (length before)
find-found c [] after h = let same : (c == c) ≡ true = ground arith in rw same refl
find-found c (b ∷ before) after (h, hs) = elim (Bool-cases (b == c)) [
  | inl t ↦ absurd (h (==→eq b c t))
  | inr f ↦ rw f (ap (Option.map suc) (find-found c before after hs))
]

find-absent : (c : ℕ) (bs : Bytes) → All (◌≢ c) bs → find c bs ≡ none
find-absent c [] h = refl
find-absent c (b ∷ bs) (h, hs) = elim (Bool-cases (b == c)) [
  | inl t ↦ absurd (h (==→eq b c t))
  | inr f ↦ rw f (ap (Option.map suc) (find-absent c bs hs))
]

pub no_name-is_utf8 : is_utf8 [] ≡ true
unfolding is_utf8
no_name-is_utf8 = refl

-- Every name that is not UTF-8 is refused.
abbrev text : Text
text = record {
  memchr = find;
  gbk_decode = λ bs. ([], true);
  memchr-found = find-found;
  memchr-absent = find-absent;
  gbk_decode-is_utf8 = λ bs. no_name-is_utf8;
}

abbrev readme : TreeItem
readme = record {
  mode = TreeItemMode.blob;
  id = ObjectHash.sha1 (replicate 20 9);
  name = 82 ∷ 69 ∷ [];
}

abbrev src : TreeItem
src = record { mode = TreeItemMode.tree; id = ObjectHash.sha1 (replicate 20 0); name = 115 ∷ [] }

readme-IsTreeItem : IsTreeItem readme
unfolding is_utf8
readme-IsTreeItem = record {
  hash = record { sized = refl; bytes = All-replicate IsByte 20 9 (omega arith) };
  utf8 = refl;
  no_nul = (omega arith, (omega arith, tt));
}

src-IsTreeItem : IsTreeItem src
unfolding is_utf8
src-IsTreeItem = record {
  hash = record { sized = refl; bytes = All-replicate IsByte 20 0 (omega arith) };
  utf8 = refl;
  no_nul = (omega arith, tt);
}

-- The tree of both; the digest is the first twenty bytes of what is hashed.
abbrev made : Tree
made = record {
  id = ObjectHash.sha1 (
      116 ∷ 114 ∷ 101 ∷ 101 ∷ 32 ∷ 53 ∷ 56 ∷ 0 ∷ 49 ∷ 48 ∷ 48 ∷ 54 ∷ 52 ∷ 52 ∷ 32 ∷ 82 ∷ 69 ∷ 0 ∷ 9
      ∷ 9 ∷ []);
  tree_items = readme ∷ src ∷ [];
}

from_tree_items_with_kind-made :
    from_tree_items_with_kind {X = HexError} digests HashKind.sha1 (readme ∷ src ∷ []) ≡ ok made
unfolding from_tree_items_with_kind items_data_for_kind ensure_kind from_type_and_data_for_kind
    to_bytes
from_tree_items_with_kind-made = refl

from_bytes-from_tree_items_with_kind_example :
    from_bytes {X = HexError} text (items_data (readme ∷ src ∷ [])) made.id ≡ ok made
from_bytes-from_tree_items_with_kind_example =
    from_bytes-from_tree_items_with_kind digests text HashKind.sha1 (readme ∷ src ∷ [])
      (readme-IsTreeItem, (src-IsTreeItem, tt)) from_tree_items_with_kind-made

-- A body that is cut off.
abbrev cut : Bytes
cut = 52 ∷ 48 ∷ 48 ∷ 48 ∷ 48 ∷ 32 ∷ 115 ∷ 0 ∷ 1 ∷ []

items_loop-length_example :
    Ends (items_loop {X = HexError} text (9 + 5) HashKind.sha1 cut)
    × (items_loop {X = HexError} text (9 + 5) HashKind.sha1 cut
        ≡ items_loop text 9 HashKind.sha1 cut)
    × ((hash : ObjectHash) → Ends (from_bytes {X = HexError} text cut hash))
items_loop-length_example = items_loop-length text 5 HashKind.sha1 cut
