-- ===== src/De/Sorted.antt =====
-- Sorted entries, of borsh/src/ser/mod.rs, as borsh/src/de/mod.rs reads them.
use borsh_rs.Base.{
  suc, Bool, true, false, List, [], ◌∷◌, length, All, ◌≡◌, refl, Bool-cases, inl, inr, arith,
}
use borsh_rs.Ser.Map.{insert_sorted, sort}
use borsh_rs.Ser.Sorted.{Apart, Distinct}
use borsh_rs.De.Map.{is_ascending}
use borsh_rs.De.Ascending.{is_ascending-tail}

module _ {A : Type 0} (less : A → A → Bool) where
  insert_sorted-All :
      (P : A → Type 0) (x : A) (l : List A) → P x → All P l → All P (insert_sorted less x l)
  unfolding insert_sorted
  insert_sorted-All P x [] p h = (p, tt)
  insert_sorted-All P x (y ∷ l) p h = elim (Bool-cases (less y x)) [
    | inl e ↦ rw e (h.0, insert_sorted-All P x l p h.1)
    | inr e ↦ rw e (p, h)
  ]

  pub sort-All : (P : A → Type 0) (l : List A) → All P l → All P (sort less l)
  unfolding sort
  sort-All P [] h = tt
  sort-All P (x ∷ l) h = insert_sorted-All P x (sort less l) h.0 (sort-All P l h.1)

  length-insert_sorted : (x : A) (l : List A) → length (insert_sorted less x l) ≡ suc (length l)
  unfolding insert_sorted
  length-insert_sorted x [] = refl
  length-insert_sorted x (y ∷ l) = ground (arith, length-insert_sorted x l)

  pub length-sort : (l : List A) → length (sort less l) ≡ length l
  unfolding sort
  length-sort [] = refl
  length-sort (x ∷ l) = omega (arith, length-insert_sorted x (sort less l), length-sort l)

  -- `y` stands in front of both.
  insert_sorted-below :
      (x y : A) (l : List A)
      → less y x ≡ true
      → is_ascending less (y ∷ l) ≡ true
      → is_ascending less (insert_sorted less x l) ≡ true
      → is_ascending less (y ∷ insert_sorted less x l) ≡ true
  unfolding is_ascending insert_sorted
  insert_sorted-below x y [] yx h k = rw yx refl
  insert_sorted-below x y (z ∷ l) yx h k = elim (Bool-cases (less z x)) [
    | inl e ↦
        let k' : is_ascending less (z ∷ insert_sorted less x l) ≡ true = rw e at k in
        rw (e, k') (ground arith)
    | inr e ↦ let k' : is_ascending less (x ∷ z ∷ l) ≡ true = rw e at k in rw (e, yx) k'
  ]

  Apart-less : (x y : A) → Apart less x y → less y x ≡ false → less x y ≡ true
  Apart-less x y (inl (xy, yx)) e = xy
  Apart-less x y (inr (xy, yx)) e = absurd cc

  insert_sorted-ascending :
      (x : A) (l : List A)
      → All (Apart less x) l
      → is_ascending less l ≡ true
      → is_ascending less (insert_sorted less x l) ≡ true
  unfolding is_ascending insert_sorted
  insert_sorted-ascending x [] p h = refl
  insert_sorted-ascending x (y ∷ l) p h = elim (Bool-cases (less y x)) [
    | inl e ↦ rw e (
        insert_sorted-below x y l e h
          (insert_sorted-ascending x l p.1 (is_ascending-tail less y l h)))
    | inr e ↦ rw (e, Apart-less x y p.0 e) h
  ]

  -- Sorting items of which no two are equal puts them in ascending order.
  pub sort-ascending : (l : List A) → Distinct less l → is_ascending less (sort less l) ≡ true
  unfolding sort is_ascending
  sort-ascending [] h = refl
  sort-ascending (x ∷ l) h =
      insert_sorted-ascending x (sort less l) (sort-All (Apart less x) l h.0) (sort-ascending l h.1)
