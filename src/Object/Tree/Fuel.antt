-- ===== src/Object/Tree/Fuel.antt =====
-- The loop of `Tree::from_bytes` in src/internal/object/tree.rs and its rounds.
use git_internal.Base.{
  ℕ, zero, suc, ◌+◌, ◌≤◌, [], ◌∷◌, Bytes, length, take, drop, Option, none, some, inl, inr,
  Option-cases, Result, ok, err, map_err, ◌>>=◌, ltb, if_elim, ◌≡◌, ◌≢◌, refl, arith, length-drop,
}
use git_internal.Hash.{HashKind, ObjectHash, HashError, kind, size, from_bytes_for_kind}
use git_internal.Hash.Parse.{ok_or}
use git_internal.Object.Tree.{
  Text, TreeError, out_of_fuel, invalid_tree_object, invalid_hash_value, decode_name,
  tree_item_type_from_bytes, from_bytes_with_kind, items_loop, from_bytes,
}

module _ {X : Type 0} (text : Text) where
  enough_fuel :
      (f g : ℕ) (k : HashKind) (bs : Bytes)
      → length bs ≤ f
      → length bs ≤ g
      → items_loop {X = X} text f k bs ≡ items_loop text g k bs
  unfolding items_loop
  enough_fuel zero zero k [] h j = refl
  enough_fuel zero (suc g) k [] h j = refl
  enough_fuel (suc f) zero k [] h j = refl
  enough_fuel (suc f) (suc g) k [] h j = refl
  enough_fuel zero g k (b ∷ bs) h j = absurd (omega (arith, h))
  enough_fuel (suc f) zero k (b ∷ bs) h j = absurd (omega (arith, j))
  enough_fuel (suc f) (suc g) k (b ∷ bs) h j = elim (Option-cases (text.memchr 0 (b ∷ bs))) [
    | inl absent ↦ rw absent refl
    | inr (index, found) ↦
        let next = index + size k + 1 in
        let shorter = length-drop next (b ∷ bs) in
        rw
          (
            found,
            enough_fuel f g k (drop next (b ∷ bs)) (omega (arith, h, shorter))
                (omega (arith, j, shorter)),
          )
          refl
  ]

-- No error that stands for an exhausted loop.
abbrev pub Ends : {X A : Type 0} → Result (TreeError X) A → Type 0
Ends r = r ≢ err out_of_fuel

module _ {X : Type 0} where
  Ends->>= :
      {A B : Type 0} (m : Result (TreeError X) A) (f : A → Result (TreeError X) B)
      → Ends m
      → ((a : A) → Ends (f a))
      → Ends (m >>= f)
  Ends->>= (ok a) f h k = k a
  Ends->>= (err x) f h k = λ e. h cc

  Ends-ok_or : {A : Type 0} (o : Option A) (x : TreeError X) → x ≢ out_of_fuel → Ends (ok_or o x)
  Ends-ok_or none x h = λ e. h cc
  Ends-ok_or (some a) x h = λ e. cc

  Ends-map_err :
      {A : Type 0} (r : Result (HashError X) A) → Ends (map_err (λ e. invalid_hash_value e) r)
  Ends-map_err (ok a) = λ e. cc
  Ends-map_err (err y) = λ e. cc

  tree_item_type_from_bytes-Ends : (mode : Bytes) → Ends (tree_item_type_from_bytes {X = X} mode)
  unfolding tree_item_type_from_bytes
  tree_item_type_from_bytes-Ends mode = ground arith

module _ {X : Type 0} (text : Text) where
  decode_name-Ends : (raw_name : Bytes) → Ends (decode_name {X = X} text raw_name)
  decode_name-Ends raw_name = ground arith

  from_bytes_with_kind-Ends :
      (bytes : Bytes) (k : HashKind) → Ends (from_bytes_with_kind {X = X} text bytes k)
  unfolding from_bytes_with_kind
  from_bytes_with_kind-Ends bytes k =
      Ends->>= (ok_or (text.memchr 32 bytes) _) _ (Ends-ok_or _ _ (λ e. cc)) (λ space.
        Ends->>= (ok_or (text.memchr 0 (drop (space + 1) bytes)) _) _ (Ends-ok_or _ _ (λ e. cc))
          (λ nul.
            Ends->>= (decode_name {X = X} text (take nul (drop (space + 1) bytes))) _
              (decode_name-Ends _)
              (λ name.
                Ends->>= (tree_item_type_from_bytes {X = X} (take space bytes)) _
                  (tree_item_type_from_bytes-Ends _)
                  (λ mode.
                    Ends->>=
                      (map_err invalid_hash_value
                        (from_bytes_for_kind {X = X} k (drop (nul + 1) (drop (space + 1) bytes))))
                      _ (Ends-map_err _) (λ id e. cc)))))

  items_loop-Ends :
      (fuel : ℕ) (k : HashKind) (bs : Bytes)
      → length bs ≤ fuel
      → Ends (items_loop {X = X} text fuel k bs)
  unfolding items_loop
  items_loop-Ends zero k [] h = λ e. cc
  items_loop-Ends (suc fuel) k [] h = λ e. cc
  items_loop-Ends zero k (b ∷ bs) h = absurd (omega (arith, h))
  items_loop-Ends (suc fuel) k (b ∷ bs) h =
      Ends->>= (ok_or (text.memchr 0 (b ∷ bs)) invalid_tree_object) _ (Ends-ok_or _ _ (λ e. cc))
        (λ index.
          let next = index + size k + 1 in
          let shorter = length-drop next (b ∷ bs) in
          if_elim Ends (ltb (length (b ∷ bs)) next) (λ _ e. cc)
            (λ _.
              Ends->>= (from_bytes_with_kind {X = X} text (take next (b ∷ bs)) k) _
                (from_bytes_with_kind-Ends _ k)
                (λ item.
                  Ends->>= (items_loop {X = X} text fuel k (drop next (b ∷ bs))) _
                    (items_loop-Ends fuel k (drop next (b ∷ bs)) (omega (arith, h, shorter)))
                    (λ items e. cc))))

  -- The loop over a tree's body ends on every input within as many rounds as the body has bytes: with
  -- that many rounds or more it does not run out of them, and the result is the same. So the parser
  -- of a tree ends on every input.
  pub items_loop-length :
      (spare : ℕ) (k : HashKind) (bs : Bytes)
      → Ends (items_loop {X = X} text (length bs + spare) k bs)
        × (items_loop {X = X} text (length bs + spare) k bs ≡ items_loop text (length bs) k bs)
        × ((hash : ObjectHash) → Ends (from_bytes {X = X} text bs hash))
  unfolding from_bytes
  items_loop-length spare k bs = (
    items_loop-Ends (length bs + spare) k bs (omega arith),
    enough_fuel text (length bs + spare) (length bs) k bs (omega arith) (omega arith),
    λ hash.
        Ends->>= (items_loop {X = X} text (length bs) (kind hash) bs) _
          (items_loop-Ends (length bs) (kind hash) bs (omega arith)) (λ items e. cc),
  )
