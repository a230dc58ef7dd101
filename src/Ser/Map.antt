-- ===== src/Ser/Map.antt =====
-- borsh/src/ser/mod.rs: `HashMap`, `HashSet`, `BTreeMap` and `BTreeSet`. A hash collection is the
-- list of its entries in the order in which its iterator gives them, a B-tree one in ascending
-- order. `lt` is `a.cmp(b).is_lt()` of the keys' `Ord`.
use borsh_rs.Base.{ℕ, Bool, List, [], ◌∷◌, if◌then◌else◌}
use borsh_rs.Io.{M, Write}
use borsh_rs.Ser.Sum.{serialize_pair}
use borsh_rs.Ser.Seq.{serialize_counted}

-- The order of entries by their keys.
abbrev pub by_key : {K V : Type 0} → (K → K → Bool) → K × V → K × V → Bool
by_key lt (a, v) (b, u) = lt a b

module _ {A : Type 0} (less : A → A → Bool) where
  -- The place of one item among sorted ones; it goes before those that are equal to it.
  unfoldable pub insert_sorted : A → List A → List A
  insert_sorted x [] = x ∷ []
  insert_sorted x (y ∷ ys) =
      let rest = insert_sorted x ys in if less y x then y ∷ rest else x ∷ y ∷ ys

  -- `sort_by`, which is stable.
  unfoldable pub sort : List A → List A
  unfolding insert_sorted
  sort [] = []
  sort (x ∷ xs) = insert_sorted x (sort xs)

module _ {W : Type 0} (w : Write W) where
  unfoldable pub serialize_btree_set :
      {A : Type 0} → ℕ → (A → M W (Unit {0})) → List A → M W (Unit {0})
  unfolding serialize_counted
  serialize_btree_set size_of serialize items = serialize_counted w size_of serialize items

  unfoldable pub serialize_hash_set :
      {A : Type 0} → (A → A → Bool) → ℕ → (A → M W (Unit {0})) → List A → M W (Unit {0})
  unfolding sort serialize_counted
  serialize_hash_set lt size_of serialize items =
      serialize_counted w size_of serialize (sort lt items)

  module _ {K V : Type 0} where
    -- `size_of` is that of the key.
    unfoldable pub serialize_btree_map :
        ℕ → (K → M W (Unit {0})) → (V → M W (Unit {0})) → List (K × V) → M W (Unit {0})
    unfolding serialize_counted serialize_pair
    serialize_btree_map size_of key value entries =
        serialize_counted w size_of (serialize_pair w key value) entries

    unfoldable pub serialize_hash_map :
        (K → K → Bool)
        → ℕ
        → (K → M W (Unit {0}))
        → (V → M W (Unit {0}))
        → List (K × V)
        → M W (Unit {0})
    unfolding sort serialize_counted serialize_pair
    serialize_hash_map lt size_of key value entries =
        serialize_counted w size_of (serialize_pair w key value) (sort (by_key lt) entries)
