-- ===== src/De/Map.antt =====
-- borsh/src/de/mod.rs: `HashMap`, `HashSet`, `BTreeMap` and `BTreeSet`, each given by its entries
-- in ascending order of the keys. `strict` is the feature `de_strict_order`.
use borsh_rs.Base.{ℕ, Bool, true, List, [], ◌∷◌, if◌then◌else◌, ◌&&◌, not}
use borsh_rs.Io.{M, Read, Error, throw, pure, ◌>>=◌, ◌>>◌}
use borsh_rs.Ser.{check_zst}
use borsh_rs.Ser.Map.{by_key}
use borsh_rs.De.{BorshDeserialize, invalid}
use borsh_rs.De.Seq.{deserialize_vec}

abbrev pub wrong_order_of_keys : Error
wrong_order_of_keys = invalid "keys were not serialized in ascending order"

module _ {A : Type 0} (less : A → A → Bool) where
  -- Each of `windows(2)` is ascending.
  unfoldable pub is_ascending : List A → Bool
  is_ascending [] = true
  is_ascending (x ∷ []) = true
  is_ascending (x ∷ y ∷ rest) = less x y && is_ascending (y ∷ rest)

  -- One more entry in front of those that come later: of equal keys the last stays.
  unfoldable pub put : A → List A → List A
  put x [] = x ∷ []
  put x (y ∷ ys) =
      let rest = put x ys in if less x y then x ∷ y ∷ ys else if less y x then y ∷ rest else y ∷ ys

  -- `vec.into_iter().collect()`
  unfoldable pub collect : List A → List A
  unfolding put
  collect [] = []
  collect (x ∷ xs) = put x (collect xs)

  unfoldable pub check_order : {R : Type 0} → Bool → List A → M R (Unit {0})
  unfolding is_ascending
  check_order strict vec =
      if strict && not (is_ascending vec) then throw wrong_order_of_keys else pure tt

  -- What follows the `Vec`.
  unfoldable pub ordered : {R : Type 0} → Bool → List A → M R (List A)
  unfolding check_order collect
  ordered strict vec = do check_order strict vec; pure (collect vec)

module _ {R : Type 0} (rd : Read R) (strict : Bool) where
  -- `size_of` is that of the items. `BTreeSet` and `HashSet` do the same.
  unfoldable pub deserialize_set :
      {A : Type 0} → (A → A → Bool) → ℕ → BorshDeserialize R A → M R (List A)
  unfolding deserialize_vec ordered
  deserialize_set lt size_of d = do vec ← deserialize_vec rd size_of d; ordered lt strict vec

  -- The sizes are those of the key and of the pair. `BTreeMap` and `HashMap` do the same.
  unfoldable pub deserialize_map :
      {K V : Type 0} → (K → K → Bool) → ℕ → ℕ → BorshDeserialize R (K × V) → M R (List (K × V))
  unfolding check_zst deserialize_vec ordered
  deserialize_map lt size_of_key size_of_pair d = do
    check_zst size_of_key
    vec ← deserialize_vec rd size_of_pair d
    ordered (by_key lt) strict vec
