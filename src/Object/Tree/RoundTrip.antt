-- ===== src/Object/Tree/RoundTrip.antt =====
-- Tree objects of src/internal/object/tree.rs, written and read again.
use git_internal.Base.{
  ℕ, zero, suc, ◌+◌, ◌≤◌, ◌<◌, true, false, List, [], ◌∷◌, ◌++◌, Bytes, ltb, All, length, take,
  drop, ok, map_err, ◌>>=◌, >>=-eq-ok, map_err-eq-ok, some, ◌≡◌, ◌≢◌, refl, sym, ap, ap₂, ◌∙◌,
  subst, arith, take-append, drop-append, drop-add, append_assoc, length-append, All-append,
  ok-injective, le→ltb,
}
use git_internal.Base.Utf8.{is_utf8}
use git_internal.Object.Types.{ObjectType}
use git_internal.Hash.{
  HashKind, ObjectHash, IsObjectHash, size, kind, as_ref, ensure_kind, from_bytes_for_kind,
}
use git_internal.Hash.Kinds.{from_bytes_for_kind-sized, variant-kind, ensure_kind-inv}
use git_internal.Hash.Digest.Objects.{from_type_and_data_for_kind-OfKind}
use git_internal.Hash.Digest.{Digests, from_type_and_data_for_kind}
use git_internal.Object.Tree.{
  Text, invalid_hash_value, TreeItemMode, TreeItem, Tree, tree_item_type_from_bytes, mode_bytes,
  item_data, items_data, from_bytes_with_kind, items_loop, from_bytes, items_data_for_kind,
  from_tree_items_with_kind,
}

-- An item that can be written: the type of its fields, and no NUL in its name.
pub record IsTreeItem (item : TreeItem) : Type 0 where
  pub hash : IsObjectHash item.id
  pub utf8 : is_utf8 item.name ≡ true
  pub no_nul : All (◌≢ 0) item.name

tree_item_type_from_bytes-mode_bytes :
    {X : Type 0} (m : TreeItemMode) → tree_item_type_from_bytes {X = X} (mode_bytes m) ≡ ok m
unfolding tree_item_type_from_bytes
tree_item_type_from_bytes-mode_bytes TreeItemMode.blob = refl
tree_item_type_from_bytes-mode_bytes TreeItemMode.blob_executable = refl
tree_item_type_from_bytes-mode_bytes TreeItemMode.tree = refl
tree_item_type_from_bytes-mode_bytes TreeItemMode.commit = refl
tree_item_type_from_bytes-mode_bytes TreeItemMode.link = refl

-- The digits of a mode are neither a space nor a NUL.
mode_bytes-digits : (m : TreeItemMode) (c : ℕ) → c < 48 → All (◌≢ c) (mode_bytes m)
mode_bytes-digits TreeItemMode.blob c h =
    (omega arith, (omega arith, (omega arith, (omega arith, (omega arith, (omega arith, tt))))))
mode_bytes-digits TreeItemMode.blob_executable c h =
    (omega arith, (omega arith, (omega arith, (omega arith, (omega arith, (omega arith, tt))))))
mode_bytes-digits TreeItemMode.tree c h =
    (omega arith, (omega arith, (omega arith, (omega arith, (omega arith, tt)))))
mode_bytes-digits TreeItemMode.commit c h =
    (omega arith, (omega arith, (omega arith, (omega arith, (omega arith, (omega arith, tt))))))
mode_bytes-digits TreeItemMode.link c h =
    (omega arith, (omega arith, (omega arith, (omega arith, (omega arith, (omega arith, tt))))))

drop_past : (c : ℕ) (before after : Bytes) → drop (length before + 1) (before ++ c ∷ after) ≡ after
drop_past c before after =
    drop-add (length before) 1 (length before + 1) (before ++ c ∷ after) refl
    ∙ ap (drop 1) (drop-append before (c ∷ after))

-- An item that can be written, with an identifier of a kind.
pub record OfTree (k : HashKind) (item : TreeItem) : Type 0 where
  pub item_ready : IsTreeItem item
  pub same_kind : kind item.id ≡ k

-- What precedes the NUL of an item.
item_front : TreeItem → Bytes
item_front item = mode_bytes item.mode ++ 32 ∷ item.name

item_data-parts : (item : TreeItem) → item_data item ≡ item_front item ++ 0 ∷ as_ref item.id
unfolding item_front
item_data-parts item =
    sym (append_assoc (mode_bytes item.mode) (32 ∷ item.name) (0 ∷ as_ref item.id))

item_data-front :
    (item : TreeItem) (rest : Bytes)
    → item_data item ++ rest ≡ item_front item ++ 0 ∷ (as_ref item.id ++ rest)
item_data-front item rest =
    ap (◌++ rest) (item_data-parts item) ∙ append_assoc (item_front item) (0 ∷ as_ref item.id) rest

item_front-no_nul : (item : TreeItem) → All (◌≢ 0) item.name → All (◌≢ 0) (item_front item)
unfolding item_front
item_front-no_nul item h =
    All-append (◌≢ 0) (mode_bytes item.mode) (32 ∷ item.name)
      (mode_bytes-digits item.mode 0 (omega arith)) (omega arith, h)

length-item_data :
    (item : TreeItem)
    → IsObjectHash item.id
    → length (item_data item) ≡ length (item_front item) + size (kind item.id) + 1
length-item_data item h =
    ap length (item_data-parts item)
    ∙ length-append (item_front item) (0 ∷ as_ref item.id)
    ∙ omega (arith, h.sized)

module _ {X : Type 0} (text : Text) where
  from_bytes_with_kind-parts :
      (m : TreeItemMode) (name id : Bytes) (k : HashKind)
      → is_utf8 name ≡ true
      → All (◌≢ 0) name
      → from_bytes_with_kind {X = X} text (mode_bytes m ++ 32 ∷ (name ++ 0 ∷ id)) k ≡ (
          map_err invalid_hash_value (from_bytes_for_kind {X = X} k id) >>= λ i.
          ok (record { mode = m; id = i; name = name }))
  unfolding from_bytes_with_kind
  from_bytes_with_kind-parts m name id k utf8 no_nul =
      rw
        (
          text.memchr-found 32 (mode_bytes m) (name ++ 0 ∷ id)
              (mode_bytes-digits m 32 (omega arith)),
          drop_past 32 (mode_bytes m) (name ++ 0 ∷ id),
          take-append (mode_bytes m) (32 ∷ (name ++ 0 ∷ id)),
          text.memchr-found 0 name id no_nul,
          drop_past 0 name id,
          take-append name (0 ∷ id),
          utf8,
          tree_item_type_from_bytes-mode_bytes {X = X} m,
        )
        refl

  pub from_bytes_with_kind-item_data :
      (item : TreeItem)
      → IsTreeItem item
      → from_bytes_with_kind {X = X} text (item_data item) (kind item.id) ≡ ok item
  from_bytes_with_kind-item_data item ready =
      from_bytes_with_kind-parts item.mode item.name (as_ref item.id) (kind item.id) ready.utf8
        ready.no_nul
      ∙ read_id
    where
      read_id :
          (map_err invalid_hash_value (from_bytes_for_kind {X = X} (kind item.id) (as_ref item.id))
            >>= λ i. ok (record { mode = item.mode; id = i; name = item.name }))
          ≡ ok item
      read_id =
          rw (from_bytes_for_kind-sized {X = X} (kind item.id) (as_ref item.id) ready.hash.sized) (
            ap (λ i. ok (record { mode = item.mode; id = i; name = item.name }))
              (variant-kind item.id))

  items_loop-cons :
      (fuel : ℕ) (bs : Bytes) (item : TreeItem) (rest : Bytes)
      → bs ≡ item_data item ++ rest
      → IsTreeItem item
      → items_loop {X = X} text (suc fuel) (kind item.id) bs
        ≡ (items_loop text fuel (kind item.id) rest >>= λ items. ok (item ∷ items))
  unfolding items_loop
  items_loop-cons fuel [] item rest e ready = absurd (
      omega
        (arith, ap length e, length-append (item_data item) rest, length-item_data item ready.hash))
  items_loop-cons fuel (b ∷ bs) item rest e ready =
      let next_is = length-item_data item ready.hash in
      let found : text.memchr 0 (b ∷ bs) ≡ some (length (item_front item)) =
        ap (text.memchr 0) (e ∙ item_data-front item rest)
        ∙ text.memchr-found 0 (item_front item) (as_ref item.id ++ rest)
            (item_front-no_nul item ready.no_nul) in
      let taken : take (length (item_front item) + size (kind item.id) + 1) (b ∷ bs)
          ≡ item_data item =
        ap₂ (λ (n : ℕ) (l : Bytes). take n l) (sym next_is) e ∙ take-append (item_data item) rest in
      let dropped : drop (length (item_front item) + size (kind item.id) + 1) (b ∷ bs) ≡ rest =
        ap₂ (λ (n : ℕ) (l : Bytes). drop n l) (sym next_is) e ∙ drop-append (item_data item) rest in
      let enough : ltb (length (b ∷ bs)) (length (item_front item) + size (kind item.id) + 1)
          ≡ false =
        le→ltb _ _ (omega (arith, ap length e, length-append (item_data item) rest, next_is)) in
      rw (found, taken, dropped, enough, from_bytes_with_kind-item_data item ready) refl

  items_loop-items_data :
      (fuel : ℕ) (k : HashKind) (items : List TreeItem)
      → length (items_data items) ≤ fuel
      → All (OfTree k) items
      → items_loop {X = X} text fuel k (items_data items) ≡ ok items
  unfolding items_loop
  items_loop-items_data zero k [] h ready = refl
  items_loop-items_data (suc fuel) k [] h ready = refl
  items_loop-items_data zero k (item ∷ items) h (r, rs) = absurd (
      omega (
        arith,
        h,
        length-append (item_data item) (items_data items),
        length-item_data item r.item_ready.hash,
      ))
  items_loop-items_data (suc fuel) k (item ∷ items) h (r, rs) =
      let bs = item_data item ++ items_data items in
      let shorter : length (items_data items) ≤ fuel = omega (
        arith,
        h,
        length-append (item_data item) (items_data items),
        length-item_data item r.item_ready.hash,
      ) in
      subst (λ j. items_loop {X = X} text (suc fuel) j bs ≡ ok (item ∷ items)) r.same_kind
        (items_loop-cons fuel bs item (items_data items) refl r.item_ready
          ∙ ap (λ j. items_loop {X = X} text fuel j (items_data items) >>= λ is. ok (item ∷ is))
              r.same_kind
          ∙ ap (λ r. r >>= λ is. ok (item ∷ is)) (items_loop-items_data fuel k items shorter rs))

  -- The body of a tree is read back as its items, under any identifier of the items' kind, where
  -- their names are UTF-8 without a NUL.
  pub from_bytes-items_data :
      (id : ObjectHash) (items : List TreeItem)
      → All (OfTree (kind id)) items
      → from_bytes {X = X} text (items_data items) id ≡ ok (record { id = id; tree_items = items })
  unfolding from_bytes
  from_bytes-items_data id items ready =
      rw (items_loop-items_data (length (items_data items)) (kind id) items (omega arith) ready)
        refl

both-OfTree :
    (k : HashKind) (items : List TreeItem)
    → All IsTreeItem items
    → All (λ item. kind item.id ≡ k) items
    → All (OfTree k) items
both-OfTree k [] h j = tt
both-OfTree k (item ∷ items) (h, hs) (j, js) =
    (record { item_ready = h; same_kind = j }, both-OfTree k items hs js)

module _ {X : Type 0} where
  items_data_for_kind-inv :
      (k : HashKind) (items : List TreeItem) {bs : Bytes}
      → items_data_for_kind {X = X} k items ≡ ok bs
      → (bs ≡ items_data items) × All (λ item. kind item.id ≡ k) items
  unfolding items_data_for_kind
  items_data_for_kind-inv k [] e = (sym (ok-injective refl e), tt)
  items_data_for_kind-inv k (item ∷ items) e =
      let (u, same, e1) = >>=-eq-ok (map_err _ (ensure_kind item.id k)) _ e in
      let (later, r, e2) = >>=-eq-ok (items_data_for_kind {X = X} k items) _ e1 in
      let (rest, kinds) = items_data_for_kind-inv k items r in
      (
        sym (ok-injective refl e2) ∙ ap (item_data item ++◌) rest,
        (ensure_kind-inv item.id k (map_err-eq-ok _ (ensure_kind {X = X} item.id k) same), kinds),
      )

module _ {X : Type 0} (d : Digests) where
  -- A tree that is made from items, whose names are UTF-8 without a NUL, is read back from the body
  -- that its identifier was computed for; that it was made means that every item had an identifier
  -- of the tree's kind.
  pub from_bytes-from_tree_items_with_kind :
      (text : Text) (k : HashKind) (items : List TreeItem) {t : Tree}
      → All IsTreeItem items
      → from_tree_items_with_kind {X = X} d k items ≡ ok t
      → from_bytes {X = X} text (items_data t.tree_items) t.id ≡ ok t
  unfolding from_tree_items_with_kind
  from_bytes-from_tree_items_with_kind text k [] ready e = cc
  from_bytes-from_tree_items_with_kind text k (item ∷ items) ready e =
      let (bs, r, e1) = >>=-eq-ok (items_data_for_kind {X = X} k (item ∷ items)) _ e in
      let (id, h, e2) =
        >>=-eq-ok (map_err _ (from_type_and_data_for_kind d {X = X} k ObjectType.tree bs)) _ e1 in
      let (same, kinds) = items_data_for_kind-inv k (item ∷ items) r in
      let typed =
        from_type_and_data_for_kind-OfKind d k ObjectType.tree bs
          (map_err-eq-ok _ (from_type_and_data_for_kind d {X = X} k ObjectType.tree bs) h) in
      let made : record { id = id; tree_items = item ∷ items } ≡ _ = ok-injective refl e2 in
      subst (λ t. from_bytes {X = X} text (items_data t.tree_items) t.id ≡ ok t) made
        (from_bytes-items_data text id (item ∷ items) (
          subst (λ j. All (OfTree j) (item ∷ items)) (sym typed.of_kind)
            (both-OfTree k (item ∷ items) ready kinds)))
