-- ===== src/Object/Tree.antt =====
-- Tree objects, src/internal/object/tree.rs. A `String` is the list of its UTF-8 bytes. The search
-- for a byte and the GBK decoder are libraries: the record `Text` holds them with what their
-- documentation says.
pub mod RoundTrip
pub mod Fuel
pub mod Tests
use mathlib.Core.Option
use git_internal.Base.{
  ℕ, zero, suc, ◌+◌, ◌-◌, Bool, true, false, not, List, [], ◌∷◌, ◌++◌, Bytes, ◌==◌, ltb, leb, All,
  if◌then◌else◌, length, take, drop, same_bytes, Result, ok, err, map_err, ◌>>=◌, ◌>>◌, Option,
  none, some, ◌≡◌, ◌≢◌,
}
use git_internal.Base.Utf8.{is_utf8}
use git_internal.Object.Types.{ObjectType}
use git_internal.Hash.{
  HashKind, ObjectHash, HashError, size, kind, as_ref, ensure_kind, from_bytes_for_kind,
}
use git_internal.Hash.Parse.{ok_or}
use git_internal.Hash.Digest.{Digests, from_type_and_data_for_kind, from_type_and_data}

pub record Text : Type 0 where
  pub memchr : ℕ → Bytes → Option ℕ
  pub gbk_decode : Bytes → Bytes × Bool
  pub memchr-found :
      (c : ℕ) (before after : Bytes)
      → All (◌≢ c) before
      → memchr c (before ++ c ∷ after) ≡ some (length before)
  pub memchr-absent : (c : ℕ) (bs : Bytes) → All (◌≢ c) bs → memchr c bs ≡ none
  pub gbk_decode-is_utf8 : (bs : Bytes) → is_utf8 (gbk_decode bs).0 ≡ true

-- `GitError`, as far as it arises here; a message is told by what it reports.
-- `out_of_fuel` is no error of the program: it says that the model's loop ran out of rounds.
pub data TreeError (X : Type 0) : Type 0 where
  missing_mode missing_nul : ℕ → HashKind → TreeError X
  unsupported_format : Bytes → TreeError X
  invalid_mode : Bytes → TreeError X
  invalid_hash_value : HashError X → TreeError X
  invalid_tree_object : TreeError X
  empty_tree_items : TreeError X
  out_of_fuel : TreeError X

pub data TreeItemMode : Type 0 where
  blob blob_executable tree commit link : TreeItemMode

pub record TreeItem : Type 0 where
  pub mode : TreeItemMode
  pub id : ObjectHash
  pub name : Bytes

pub record Tree : Type 0 where
  pub id : ObjectHash
  pub tree_items : List TreeItem

unfoldable pub tree_item_type_from_bytes : {X : Type 0} → Bytes → Result (TreeError X) TreeItemMode
tree_item_type_from_bytes mode =
    if same_bytes mode (52 ∷ 48 ∷ 48 ∷ 48 ∷ 48 ∷ [])
    then ok TreeItemMode.tree
    else if same_bytes mode (49 ∷ 48 ∷ 48 ∷ 54 ∷ 52 ∷ 52 ∷ [])
    then ok TreeItemMode.blob
    else if same_bytes mode (49 ∷ 48 ∷ 48 ∷ 55 ∷ 53 ∷ 53 ∷ [])
    then ok TreeItemMode.blob_executable
    else if same_bytes mode (49 ∷ 50 ∷ 48 ∷ 48 ∷ 48 ∷ 48 ∷ [])
    then ok TreeItemMode.link
    else if same_bytes mode (49 ∷ 54 ∷ 48 ∷ 48 ∷ 48 ∷ 48 ∷ [])
    then ok TreeItemMode.commit
    else if same_bytes mode (49 ∷ 48 ∷ 48 ∷ 54 ∷ 54 ∷ 52 ∷ [])
    then ok TreeItemMode.blob
    else if same_bytes mode (49 ∷ 48 ∷ 48 ∷ 54 ∷ 52 ∷ 48 ∷ [])
    then ok TreeItemMode.blob
    else err (invalid_mode mode)

abbrev pub mode_bytes : TreeItemMode → Bytes
mode_bytes TreeItemMode.blob = 49 ∷ 48 ∷ 48 ∷ 54 ∷ 52 ∷ 52 ∷ []
mode_bytes TreeItemMode.blob_executable = 49 ∷ 48 ∷ 48 ∷ 55 ∷ 53 ∷ 53 ∷ []
mode_bytes TreeItemMode.link = 49 ∷ 50 ∷ 48 ∷ 48 ∷ 48 ∷ 48 ∷ []
mode_bytes TreeItemMode.tree = 52 ∷ 48 ∷ 48 ∷ 48 ∷ 48 ∷ []
mode_bytes TreeItemMode.commit = 49 ∷ 54 ∷ 48 ∷ 48 ∷ 48 ∷ 48 ∷ []

abbrev pub item_data : TreeItem → Bytes
item_data item = mode_bytes item.mode ++ (32 ∷ [] ++ (item.name ++ (0 ∷ [] ++ as_ref item.id)))

abbrev pub is_tree : TreeItem → Bool
is_tree item = elim item.mode [ tree ↦ true | _ ↦ false ]

abbrev pub is_blob : TreeItem → Bool
is_blob item = elim item.mode [ blob ↦ true | _ ↦ false ]

abbrev pub items_data : List TreeItem → Bytes
items_data [] = []
items_data (item ∷ items) = item_data item ++ items_data items

module _ {X : Type 0} (text : Text) where
  -- The name, and the errors of the two decoders.
  abbrev pub decode_name : Bytes → Result (TreeError X) Bytes
  decode_name raw_name =
      if is_utf8 raw_name
      then ok raw_name
      else if (text.gbk_decode raw_name).1
      then err (unsupported_format raw_name)
      else ok (text.gbk_decode raw_name).0

  unfoldable pub from_bytes_with_kind : Bytes → HashKind → Result (TreeError X) TreeItem
  from_bytes_with_kind bytes k = do
    space ← ok_or (text.memchr 32 bytes) (missing_mode (length bytes) k)
    let mode_part = take space bytes
    let rest = drop (space + 1) bytes
    nul ← ok_or (text.memchr 0 rest) (missing_nul (length bytes) k)
    let id_part = drop (nul + 1) rest
    name ← decode_name (take nul rest)
    mode ← tree_item_type_from_bytes mode_part
    id ← map_err invalid_hash_value (from_bytes_for_kind k id_part)
    ok (record { mode = mode; id = id; name = name })

  -- The loop of `Tree::from_bytes`, on the data from its index on.
  unfoldable pub items_loop : ℕ → HashKind → Bytes → Result (TreeError X) (List TreeItem)
  items_loop zero k [] = ok []
  items_loop zero k (b ∷ bs) = err out_of_fuel
  items_loop (suc fuel) k [] = ok []
  items_loop (suc fuel) k (b ∷ bs) = do
    index ← ok_or (text.memchr 0 (b ∷ bs)) invalid_tree_object
    let next = index + size k + 1
    let later = items_loop fuel k (drop next (b ∷ bs))
    if ltb (length (b ∷ bs)) next then err invalid_tree_object else (do
      tree_item ← from_bytes_with_kind (take next (b ∷ bs)) k
      tree_items ← later
      ok (tree_item ∷ tree_items))

  unfoldable pub from_bytes : Bytes → ObjectHash → Result (TreeError X) Tree
  from_bytes bs hash = do
    tree_items ← items_loop (length bs) (kind hash) bs
    ok (record { id = hash; tree_items = tree_items })

module _ {X : Type 0} where
  unfoldable pub items_data_for_kind : HashKind → List TreeItem → Result (TreeError X) Bytes
  items_data_for_kind k [] = ok []
  items_data_for_kind k (item ∷ items) = do
    _ ← map_err invalid_hash_value (ensure_kind item.id k)
    later ← items_data_for_kind k items
    ok (item_data item ++ later)

module _ {X : Type 0} (d : Digests) where
  -- The fields of a tree from what its items hash to.
  unfoldable pub from_tree_items_with_kind : HashKind → List TreeItem → Result (TreeError X) Tree
  from_tree_items_with_kind k [] = err empty_tree_items
  from_tree_items_with_kind k (item ∷ items) = do
    bs ← items_data_for_kind k (item ∷ items)
    id ← map_err invalid_hash_value (from_type_and_data_for_kind d k ObjectType.tree bs)
    ok (record { id = id; tree_items = item ∷ items })

  -- The new state of the tree, which is the old one where it fails.
  unfoldable pub rehash_with_kind : Tree → HashKind → Result (TreeError X) (Unit {0}) × Tree
  rehash_with_kind t k =
      elim (items_data_for_kind k t.tree_items >>= λ bs.
      map_err invalid_hash_value (from_type_and_data_for_kind d k ObjectType.tree bs)) [
        | ok id ↦ (ok tt, record { id = id; tree_items = t.tree_items })
        | err e ↦ (err e, t)
      ]

  -- The legacy forms on a thread of a kind, which have no item checked; they panic where the type
  -- has no name.
  unfoldable pub from_tree_items : HashKind → List TreeItem → Option (Result (TreeError X) Tree)
  from_tree_items k [] = some (err empty_tree_items)
  from_tree_items k (item ∷ items) =
      Option.map (λ (id : ObjectHash). ok (record { id = id; tree_items = item ∷ items }))
        (from_type_and_data d k ObjectType.tree (items_data (item ∷ items)))

abbrev pub rehash : Digests → HashKind → Tree → Option Tree
rehash d k t =
    Option.map (λ (id : ObjectHash). record { id = id; tree_items = t.tree_items })
      (from_type_and_data d k ObjectType.tree (items_data t.tree_items))
