-- ===== src/Types/Maps.antt =====
-- Maps whose keys and values are of the modelled types: what is written and read back.
use borsh_rs.Base.{
  ℕ, ◌<◌, ◌≡◌, ◌↔◌, sym, ◌∙◌, Bool, true, false, List, [], ◌∷◌, ◌++◌, All, append-nil, Bool-cases,
  inl, inr, subst, arith,
}
use borsh_rs.Io.{M, Result, ok, err, out_of_fuel, and_then}
use borsh_rs.Io.Slice.{slice_reader}
use borsh_rs.Io.Sink.{vec_writer, vec_writer-IsSink}
use borsh_rs.Ser.Helpers.{to_vec}
use borsh_rs.Ser.Sorted.{Distinct}
use borsh_rs.De.Sorted.{sort-ascending, sort-All, length-sort}
use borsh_rs.Ser.Map.{serialize_hash_map, sort, by_key, serialize_btree_map}
use borsh_rs.Ser.SeqLaws.{Writes-serialize_counted, check_zst-pass, check_zst-fail}
use borsh_rs.De.Entry.{from_slice, finish_slice}
use borsh_rs.De.Map.{is_ascending, ordered, deserialize_map, wrong_order_of_keys}
use borsh_rs.De.Consumes.{Consumed}
use borsh_rs.De.Exact.{Exactly, Exact-deserialize_vec}
use borsh_rs.Num.{Bytes}
use borsh_rs.Ser.{check_zst}
use native.Mathlib.Decide.{dec_lt}
use borsh_rs.De.Laws.{Reads-deserialize_vec}
use borsh_rs.De.Ascending.{ordered-ascending, ordered-descending}
use borsh_rs.Types.{Ty, ⟦◌⟧, pair, size_of}
use borsh_rs.Types.Spec.{Valid, encode, encode_seq, FitsU32}
use borsh_rs.Types.Dispatch.{serialize_of, deserialize_of}
use borsh_rs.Types.Encode.{serialize_of-IsEncoder}
use borsh_rs.Types.Decode.{deserialize_of-IsDecoder}
use borsh_rs.Types.Canonical.{deserialize_of-IsExact}

module _ (t u : Ty) (lt : ⟦ t ⟧ → ⟦ t ⟧ → Bool) where
  -- The entries of a map as the serializer gives them to the writer `vec_writer`.
  unfoldable pub serialize_entries : List (⟦ t ⟧ × ⟦ u ⟧) → M (List ℕ) (Unit {0})
  unfolding serialize_btree_map
  serialize_entries =
      serialize_btree_map vec_writer (size_of t) (serialize_of vec_writer t).serialize
        (serialize_of vec_writer u).serialize

  unfoldable pub serialize_hash_entries : List (⟦ t ⟧ × ⟦ u ⟧) → M (List ℕ) (Unit {0})
  unfolding serialize_hash_map
  serialize_hash_entries =
      serialize_hash_map vec_writer lt (size_of t) (serialize_of vec_writer t).serialize
        (serialize_of vec_writer u).serialize

  unfoldable pub deserialize_entries : Bool → M (List ℕ) (List (⟦ t ⟧ × ⟦ u ⟧))
  unfolding deserialize_map
  deserialize_entries strict =
      deserialize_map slice_reader strict lt (size_of t) (size_of (pair t u))
        (deserialize_of slice_reader (pair t u))

  -- The keys take room, there are fewer than 2^32 entries, and each is valid.
  abbrev pub ValidEntries : List (⟦ t ⟧ × ⟦ u ⟧) → Type 0
  ValidEntries m = (0 < size_of t) × FitsU32 m × All (Valid (pair t u)) m

  entries_written :
      (m : List (⟦ t ⟧ × ⟦ u ⟧))
      → ValidEntries m
      → serialize_entries m [] ≡ (ok tt, encode_seq (encode (pair t u)) m)
  unfolding serialize_entries serialize_btree_map serialize_of
  entries_written m h =
      (Writes-serialize_counted vec_writer (vec_writer-IsSink [])
          (serialize_of-IsEncoder vec_writer (vec_writer-IsSink []) (pair t u)).item (size_of t) m
          h.0 h.1 h.2).from
        [] tt

  to_vec-entries :
      (m : List (⟦ t ⟧ × ⟦ u ⟧))
      → ValidEntries m
      → to_vec (serialize_entries m) ≡ ok (encode_seq (encode (pair t u)) m)
  unfolding to_vec
  to_vec-entries m h = rw (entries_written m h)

  deserialize_entries-encode :
      (strict : Bool) (m : List (⟦ t ⟧ × ⟦ u ⟧)) (rest : List ℕ)
      → ValidEntries m
      → deserialize_entries strict (encode_seq (encode (pair t u)) m ++ rest)
        ≡ ordered (by_key lt) strict m rest
  unfolding deserialize_entries deserialize_map size_of
  deserialize_entries-encode strict m rest h = rw (
    check_zst-pass (size_of t) (encode_seq (encode (pair t u)) m ++ rest) h.0,
    (Reads-deserialize_vec (deserialize_of-IsDecoder (pair t u)) (size_of (pair t u)) m
          (omega (arith, h.0)) h.1 h.2).from
        rest,
  )

  -- A `BTreeMap` with valid entries survives the round trip, with `de_strict_order` or without.
  pub from_slice-btree_map :
      (strict : Bool) (m : List (⟦ t ⟧ × ⟦ u ⟧))
      → ValidEntries m
      → is_ascending (by_key lt) m ≡ true
      → (bytes : List ℕ) × (to_vec (serialize_entries m) ≡ ok bytes)
        × (from_slice (deserialize_entries strict) bytes ≡ ok m)
  unfolding from_slice
  from_slice-btree_map strict m h asc = (
    encode_seq (encode (pair t u)) m,
    to_vec-entries m h,
    rw (
        rw append-nil at (
          deserialize_entries-encode strict m [] h
          ∙ ordered-ascending (by_key lt) strict m [] asc)),
  )

  -- A `HashMap` with valid entries, in whatever order its iterator gives them, no two keys of which
  -- are equal, is written so that it is read with `de_strict_order` or without: as its entries in
  -- ascending order.
  pub from_slice-hash_map :
      (strict : Bool) (m : List (⟦ t ⟧ × ⟦ u ⟧))
      → ValidEntries m
      → Distinct (by_key lt) m
      → (bytes : List ℕ) × (to_vec (serialize_hash_entries m) ≡ ok bytes)
        × (from_slice (deserialize_entries strict) bytes ≡ ok (sort (by_key lt) m))
  unfolding serialize_hash_entries serialize_entries
  from_slice-hash_map strict m h distinct =
      from_slice-btree_map strict (sort (by_key lt) m)
        (
          h.0,
          omega (arith, h.1, length-sort (by_key lt) m),
          sort-All (by_key lt) (Valid (pair t u)) m h.2,
        )
        (sort-ascending (by_key lt) m distinct)

  -- With `de_strict_order`, the encoding of valid entries in another order is refused.
  pub from_slice-wrong_order :
      (m : List (⟦ t ⟧ × ⟦ u ⟧)) (rest : List ℕ)
      → ValidEntries m
      → is_ascending (by_key lt) m ≡ false
      → from_slice (deserialize_entries true) (encode_seq (encode (pair t u)) m ++ rest)
        ≡ err wrong_order_of_keys
  unfolding from_slice
  from_slice-wrong_order m rest h desc =
      rw (deserialize_entries-encode true m rest h ∙ ordered-descending (by_key lt) m rest desc)

  -- The bytes are the encoding of valid entries in ascending order.
  abbrev pub Canonical : List ℕ → List (⟦ t ⟧ × ⟦ u ⟧) → Type 0
  Canonical used m =
      ValidEntries m
      × (is_ascending (by_key lt) m ≡ true)
      × (used ≡ encode_seq (encode (pair t u)) m)

  ordered-Consumed :
      (bs used rest : List ℕ) (m : List (⟦ t ⟧ × ⟦ u ⟧))
      → bs ≡ used ++ rest
      → ValidEntries m
      → used ≡ encode_seq (encode (pair t u)) m
      → Consumed Canonical bs (ordered (by_key lt) true m rest)
  ordered-Consumed bs used rest m e h q = elim (Bool-cases (is_ascending (by_key lt) m)) [
    | inl asc ↦ rw (ordered-ascending (by_key lt) true m rest asc) (used, e, (h, asc, q))
    | inr desc ↦ rw (ordered-descending (by_key lt) m rest desc) tt
  ]

  vec_then_ordered :
      (bs : List ℕ) (x : Result (List (⟦ t ⟧ × ⟦ u ⟧)) × List ℕ)
      → 0 < size_of t
      → Consumed
          (Exactly
            (λ xs. (0 < size_of (pair t u)) × FitsU32 xs × All (Valid (pair t u)) xs)
            (encode_seq (encode (pair t u))))
          bs
          x
      → Consumed Canonical bs (and_then x (ordered (by_key lt) true))
  vec_then_ordered bs (ok m, rest) z (used, e, q) =
      ordered-Consumed bs used rest m e (z, q.0.1, q.0.2) q.1
  vec_then_ordered bs (err x, rest) z c = tt
  vec_then_ordered bs (out_of_fuel, rest) z c = absurd c

  deserialize_entries-Consumed :
      (bs : List ℕ) → Bytes bs → Consumed Canonical bs (deserialize_entries true bs)
  unfolding deserialize_entries deserialize_map check_zst
  deserialize_entries-Consumed bs h = elim (dec_lt 0 (size_of t)) [
    | yes z ↦ rw (check_zst-pass (size_of t) bs z) (
        vec_then_ordered bs _ z (
          (Exact-deserialize_vec (Valid (pair t u)) (encode (pair t u))
              (deserialize_of slice_reader (pair t u)) (deserialize_of-IsExact (pair t u))
              (size_of (pair t u))).on
            bs h))
    | no z ↦ rw (check_zst-fail (size_of t) bs (omega arith)) tt
  ]

  finish_slice-Canonical :
      (bs : List ℕ) (m : List (⟦ t ⟧ × ⟦ u ⟧)) (x : Result (List (⟦ t ⟧ × ⟦ u ⟧)) × List ℕ)
      → Consumed Canonical bs x
      → finish_slice x ≡ ok m
      → Canonical bs m
  finish_slice-Canonical bs m (ok a, []) (used, p, q) e =
      let same : a ≡ m = cc in
      subst (λ (l : List ℕ). Canonical l m) (sym (p ∙ append-nil used))
        (subst (Canonical used) same q)
  finish_slice-Canonical bs m (ok a, b ∷ rest) c e = cc
  finish_slice-Canonical bs m (err x, rest) c e = cc
  finish_slice-Canonical bs m (out_of_fuel, rest) c e = absurd c

  -- With `de_strict_order`, a `BTreeMap` or `HashMap` is accepted exactly if the slice is the
  -- encoding of its entries, these are valid, and their keys stand in ascending order.
  pub from_slice-strict_map-eq-ok_iff :
      (bs : List ℕ) (m : List (⟦ t ⟧ × ⟦ u ⟧))
      → Bytes bs
      → (from_slice (deserialize_entries true) bs ≡ ok m) ↔ Canonical bs m
  unfolding from_slice
  from_slice-strict_map-eq-ok_iff bs m h = (
    finish_slice-Canonical bs m (deserialize_entries true bs) (deserialize_entries-Consumed bs h),
    λ q. rw q.2 (
        rw (
          rw append-nil at (
            deserialize_entries-encode true m [] q.0
            ∙ ordered-ascending (by_key lt) true m [] q.1))),
  )
