-- ===== src/Ser/Sorted.antt =====
-- The order of the entries of hash collections that borsh/src/ser/mod.rs writes.
use borsh_rs.Base.{
  ℕ, Bool, true, false, List, [], ◌∷◌, ◌≡◌, ◌⊎◌, refl, ap, ◌∙◌, sym, All, Bool-cases, inl, inr,
}
use borsh_rs.Io.{M, Write}
use borsh_rs.Ser.Map.{insert_sorted, sort, by_key, serialize_hash_map}
use borsh_rs.Ser.Sum.{serialize_pair}
use borsh_rs.Ser.Seq.{serialize_counted}

-- One order of a list's items is as good as the other.
pub data Reorders {A : Type 0} : List A → List A → Type 0 where
  nil : Reorders [] []
  keep : (x : A) {xs ys : List A} → Reorders xs ys → Reorders (x ∷ xs) (x ∷ ys)
  swap : (x y : A) (xs : List A) → Reorders (x ∷ y ∷ xs) (y ∷ x ∷ xs)
  both : {xs ys zs : List A} → Reorders xs ys → Reorders ys zs → Reorders xs zs

module _ {A : Type 0} (less : A → A → Bool) where
  -- Of two items one is less than the other.
  abbrev pub Apart : A → A → Type 0
  Apart a b = ((less a b ≡ true) × (less b a ≡ false)) ⊎ ((less a b ≡ false) × (less b a ≡ true))

  -- No two items are equal in the order.
  abbrev pub Distinct : List A → Type 0
  Distinct [] = Unit {0}
  Distinct (x ∷ xs) = All (Apart x) xs × Distinct xs

  -- The documented contract of `Ord`.
  abbrev pub IsTransitive : Type 0
  IsTransitive = (a b c : A) → less a b ≡ true → less b c ≡ true → less a c ≡ true

  after :
      (x z : A) (l : List A)
      → less z x ≡ true
      → insert_sorted less x (z ∷ l) ≡ z ∷ insert_sorted less x l
  unfolding insert_sorted
  after x z l h = rw h refl

  before : (x z : A) (l : List A) → less z x ≡ false → insert_sorted less x (z ∷ l) ≡ x ∷ z ∷ l
  unfolding insert_sorted
  before x z l h = rw h refl

  alone : (x : A) → insert_sorted less x [] ≡ x ∷ []
  unfolding insert_sorted
  alone x = refl

  -- Two items in front of a third that neither follows.
  front_swap :
      (x y : A) (l : List A)
      → Apart x y
      → insert_sorted less x l ≡ x ∷ l
      → insert_sorted less y l ≡ y ∷ l
      → insert_sorted less x (y ∷ l) ≡ insert_sorted less y (x ∷ l)
  front_swap x y l (inl (xy, yx)) hx hy =
      before x y l yx ∙ sym (after y x l xy ∙ ap (λ (k : List A). x ∷ k) hy)
  front_swap x y l (inr (xy, yx)) hx hy =
      after x y l yx ∙ ap (λ (k : List A). y ∷ k) hx ∙ sym (before y x l xy)

  Apart-sym : (x y : A) → Apart x y → Apart y x
  Apart-sym x y (inl (xy, yx)) = inr (yx, xy)
  Apart-sym x y (inr (xy, yx)) = inl (yx, xy)

  module _ (trans : IsTransitive) where
    -- What stands behind `x` goes behind `z`, and what stands in front of `z` is less than `x`.
    between : (x y z : A) → Apart x y → less z x ≡ true → less z y ≡ false → less y x ≡ true
    between x y z (inl (xy, yx)) zx zy =
        let zy_true : less z y ≡ true = trans z x y zx xy in absurd cc
    between x y z (inr (xy, yx)) zx zy = yx

    -- `y` goes in front of `z`, and `x` behind it.
    split_swap :
        (x y z : A) (l : List A)
        → Apart x y
        → less z x ≡ true
        → less z y ≡ false
        → insert_sorted less x (y ∷ z ∷ l) ≡ insert_sorted less y (z ∷ insert_sorted less x l)
    split_swap x y z l p zx zy =
        after x y (z ∷ l) (between x y z p zx zy)
        ∙ ap (λ (k : List A). y ∷ k) (after x z l zx)
        ∙ sym (before y z (insert_sorted less x l) zy)

    insert_sorted-insert_sorted :
        (x y : A) (l : List A)
        → Apart x y
        → insert_sorted less x (insert_sorted less y l)
          ≡ insert_sorted less y (insert_sorted less x l)
    unfolding insert_sorted
    insert_sorted-insert_sorted x y [] p = front_swap x y [] p (alone x) (alone y)
    insert_sorted-insert_sorted x y (z ∷ l) p =
        go (insert_sorted-insert_sorted x y l p) (Bool-cases (less z x)) (Bool-cases (less z y))
      where
        go :
            insert_sorted less x (insert_sorted less y l)
              ≡ insert_sorted less y (insert_sorted less x l)
            → (less z x ≡ true) ⊎ (less z x ≡ false)
            → (less z y ≡ true) ⊎ (less z y ≡ false)
            → insert_sorted less x (insert_sorted less y (z ∷ l))
              ≡ insert_sorted less y (insert_sorted less x (z ∷ l))
        go h (inl zx) (inl zy) =
            ap (insert_sorted less x) (after y z l zy)
            ∙ after x z (insert_sorted less y l) zx
            ∙ ap (λ (k : List A). z ∷ k) h
            ∙ sym
                (ap (insert_sorted less y) (after x z l zx) ∙ after y z (insert_sorted less x l) zy)
        go h (inl zx) (inr zy) =
            ap (insert_sorted less x) (before y z l zy)
            ∙ split_swap x y z l p zx zy
            ∙ sym (ap (insert_sorted less y) (after x z l zx))
        go h (inr zx) (inl zy) =
            ap (insert_sorted less x) (after y z l zy)
            ∙ sym (split_swap y x z l (Apart-sym x y p) zy zx)
            ∙ sym (ap (insert_sorted less y) (before x z l zx))
        go h (inr zx) (inr zy) =
            ap (insert_sorted less x) (before y z l zy)
            ∙ front_swap x y (z ∷ l) p (before x z l zx) (before y z l zy)
            ∙ sym (ap (insert_sorted less y) (before x z l zx))

    Reorders-All : (P : A → Type 0) (xs ys : List A) → Reorders xs ys → All P xs → All P ys
    Reorders-All P _ _ nil h = tt
    Reorders-All P _ _ (keep x r) h = (h.0, Reorders-All P _ _ r h.1)
    Reorders-All P _ _ (swap x y xs) h = (h.1.0, (h.0, h.1.1))
    Reorders-All P _ _ (both r q) h = Reorders-All P _ _ q (Reorders-All P _ _ r h)

    Reorders-Distinct : (xs ys : List A) → Reorders xs ys → Distinct xs → Distinct ys
    Reorders-Distinct _ _ nil h = tt
    Reorders-Distinct _ _ (keep x r) h =
        (Reorders-All (Apart x) _ _ r h.0, Reorders-Distinct _ _ r h.1)
    Reorders-Distinct _ _ (swap x y xs) h = ((Apart-sym x y h.0.0, h.1.0), (h.0.1, h.1.1))
    Reorders-Distinct _ _ (both r q) h = Reorders-Distinct _ _ q (Reorders-Distinct _ _ r h)

    pub sort-Reorders :
        (xs ys : List A) → Reorders xs ys → Distinct xs → sort less xs ≡ sort less ys
    unfolding sort
    sort-Reorders _ _ nil h = refl
    sort-Reorders _ _ (keep x r) h = ap (insert_sorted less x) (sort-Reorders _ _ r h.1)
    sort-Reorders _ _ (swap x y xs) h = insert_sorted-insert_sorted x y (sort less xs) h.0.0
    sort-Reorders _ _ (both r q) h =
        sort-Reorders _ _ r h ∙ sort-Reorders _ _ q (Reorders-Distinct _ _ r h)

-- What a `HashMap` writes does not depend on the order in which its iterator gives the entries,
-- under a transitive order of the keys in which no two of them are equal.
pub serialize_hash_map-Reorders :
    {W K V : Type 0} (w : Write W) (lt : K → K → Bool) (size_of : ℕ) (key : K → M W (Unit {0}))
    (value : V → M W (Unit {0})) (entries others : List (K × V)) (s : W)
    → IsTransitive (by_key {V = V} lt)
    → Distinct (by_key lt) entries
    → Reorders entries others
    → serialize_hash_map w lt size_of key value entries s
      ≡ serialize_hash_map w lt size_of key value others s
unfolding serialize_hash_map
serialize_hash_map-Reorders w lt size_of key value entries others s trans distinct r =
    ap (λ l. serialize_counted w size_of (serialize_pair w key value) l s)
      (sort-Reorders (by_key lt) trans entries others r distinct)
