-- ===== src/Tests/Maps.antt =====
-- Maps: runs and theorems at concrete inputs.
use borsh_rs.Base.{inr}
use borsh_rs.Ser.Map.{sort}
use borsh_rs.Types.Maps.{serialize_hash_entries, from_slice-hash_map}
use borsh_rs.Base.{ℕ, ◌≡◌, ◌↔◌, refl, arith, List, [], ◌∷◌, ◌++◌, true, inl}
use borsh_rs.Io.{ok, err}
use borsh_rs.Io.Sink.{vec_writer}
use borsh_rs.Num.{Bytes}
use borsh_rs.Ser.Helpers.{to_vec}
use borsh_rs.De.Entry.{from_slice}
use borsh_rs.Types.{u8, unsigned, pair}
use borsh_rs.Types.{size_of}
use borsh_rs.Num.{to_le_bytes}
use borsh_rs.Io.Sink.{vec_write_all}
use borsh_rs.Types.Spec.{encode}
use borsh_rs.Base.{Bool, false, ltb}
use borsh_rs.Ser.{serialize_u8}
use borsh_rs.Ser.Map.{by_key, serialize_hash_map}
use borsh_rs.Ser.Sorted.{IsTransitive, Distinct, swap, serialize_hash_map-Reorders}
use borsh_rs.De.Map.{is_ascending, wrong_order_of_keys}
use borsh_rs.Types.Spec.{encode_seq}
use borsh_rs.Types.Maps.{
  ValidEntries, Canonical, serialize_entries, deserialize_entries, from_slice-btree_map,
  from_slice-wrong_order, from_slice-strict_map-eq-ok_iff,
}

-- The order of numbers.
abbrev below : ℕ → ℕ → Bool
below a b = ltb a b

-- A `BTreeMap<u8, u8>`, the order in which a `HashMap` might give its entries, and the bytes.
abbrev small_map : List (ℕ × ℕ)
small_map = (1, 20) ∷ (3, 10) ∷ []

abbrev unsorted_map : List (ℕ × ℕ)
unsorted_map = (3, 10) ∷ (1, 20) ∷ []

small_map-ValidEntries : ValidEntries (unsigned u8) (unsigned u8) below small_map
unfolding size_of
small_map-ValidEntries =
    (omega arith, omega arith, ((omega arith, omega arith), ((omega arith, omega arith), tt)))

unsorted_map-ValidEntries : ValidEntries (unsigned u8) (unsigned u8) below unsorted_map
unfolding size_of
unsorted_map-ValidEntries =
    (omega arith, omega arith, ((omega arith, omega arith), ((omega arith, omega arith), tt)))

is_ascending-small_map : is_ascending (by_key below) small_map ≡ true
unfolding is_ascending
is_ascending-small_map = refl

is_ascending-unsorted_map : is_ascending (by_key below) unsorted_map ≡ false
unfolding is_ascending
is_ascending-unsorted_map = refl

abbrev map_bytes : List ℕ
map_bytes = 2 ∷ 0 ∷ 0 ∷ 0 ∷ 1 ∷ 20 ∷ 3 ∷ 10 ∷ []

map_bytes-Bytes : Bytes map_bytes
map_bytes-Bytes = omega arith

by_key-IsTransitive : IsTransitive (by_key {V = ℕ} below)
by_key-IsTransitive a b c p q = ground arith

small_map-Distinct : Distinct (by_key below) small_map
small_map-Distinct = ((inl (refl, refl), tt), (tt, tt))

from_slice-btree_map_example :
    (bytes : List ℕ) × (to_vec (serialize_entries (unsigned u8) (unsigned u8) below small_map)
      ≡ ok bytes)
    × (from_slice (deserialize_entries (unsigned u8) (unsigned u8) below true) bytes ≡ ok small_map)
from_slice-btree_map_example =
    from_slice-btree_map (unsigned u8) (unsigned u8) below true small_map small_map-ValidEntries
      is_ascending-small_map

from_slice-wrong_order_example :
    from_slice
      (deserialize_entries (unsigned u8) (unsigned u8) below true)
      (encode_seq (encode (pair (unsigned u8) (unsigned u8))) unsorted_map ++ [])
    ≡ err wrong_order_of_keys
from_slice-wrong_order_example =
    from_slice-wrong_order (unsigned u8) (unsigned u8) below unsorted_map []
      unsorted_map-ValidEntries is_ascending-unsorted_map

from_slice-strict_map-eq-ok_iff_example :
    (from_slice (deserialize_entries (unsigned u8) (unsigned u8) below true) map_bytes
      ≡ ok small_map)
    ↔ Canonical (unsigned u8) (unsigned u8) below map_bytes small_map
from_slice-strict_map-eq-ok_iff_example =
    from_slice-strict_map-eq-ok_iff (unsigned u8) (unsigned u8) below map_bytes small_map
      map_bytes-Bytes

serialize_hash_map-Reorders_example :
    serialize_hash_map vec_writer below 1
      (serialize_u8 vec_writer)
      (serialize_u8 vec_writer)
      small_map
      []
    ≡ serialize_hash_map vec_writer below 1
        (serialize_u8 vec_writer)
        (serialize_u8 vec_writer)
        unsorted_map
        []
serialize_hash_map-Reorders_example =
    serialize_hash_map-Reorders vec_writer below 1 (serialize_u8 vec_writer)
      (serialize_u8 vec_writer) small_map unsorted_map [] by_key-IsTransitive small_map-Distinct
      (swap (1, 20) (3, 10) [])

serialize_hash_map-unsorted_map :
    serialize_hash_map vec_writer below 1
      (serialize_u8 vec_writer)
      (serialize_u8 vec_writer)
      unsorted_map
      []
    ≡ (ok tt, 2 ∷ 0 ∷ 0 ∷ 0 ∷ 1 ∷ 20 ∷ 3 ∷ 10 ∷ [])
unfolding serialize_hash_map serialize_u8 to_le_bytes vec_write_all
serialize_hash_map-unsorted_map = refl

unsorted_map-Distinct : Distinct (by_key below) unsorted_map
unsorted_map-Distinct = ((inr (refl, refl), tt), (tt, tt))

from_slice-hash_map_example :
    (bytes : List ℕ) × (to_vec
        (serialize_hash_entries (unsigned u8) (unsigned u8) below unsorted_map)
      ≡ ok bytes)
    × (from_slice (deserialize_entries (unsigned u8) (unsigned u8) below true) bytes
        ≡ ok (sort (by_key below) unsorted_map))
from_slice-hash_map_example =
    from_slice-hash_map (unsigned u8) (unsigned u8) below true unsorted_map
      unsorted_map-ValidEntries unsorted_map-Distinct
