-- ===== src/De/Ascending.antt =====
-- The order of the entries of collections that borsh/src/de/mod.rs reads.
use borsh_rs.Base.{Bool, true, false, List, [], ◌∷◌, ◌≡◌, refl, ap, ◌∙◌, arith}
use borsh_rs.Io.{ok, err}
use borsh_rs.De.Map.{is_ascending, put, collect, check_order, ordered, wrong_order_of_keys}

module _ {A : Type 0} (less : A → A → Bool) where
  put-ascending : (x : A) (l : List A) → is_ascending less (x ∷ l) ≡ true → put less x l ≡ x ∷ l
  unfolding put is_ascending
  put-ascending x [] h = refl
  put-ascending x (y ∷ l) h = ground arith

  pub is_ascending-tail :
      (x : A) (l : List A) → is_ascending less (x ∷ l) ≡ true → is_ascending less l ≡ true
  unfolding is_ascending
  is_ascending-tail x [] h = refl
  is_ascending-tail x (y ∷ l) h = ground arith

  pub collect-ascending : (l : List A) → is_ascending less l ≡ true → collect less l ≡ l
  unfolding collect
  collect-ascending [] h = refl
  collect-ascending (x ∷ l) h =
      ap (put less x) (collect-ascending l (is_ascending-tail x l h)) ∙ put-ascending x l h

  -- Ascending items pass whether the order is looked at or not.
  pub ordered-ascending :
      {R : Type 0} (strict : Bool) (l : List A) (r : R)
      → is_ascending less l ≡ true
      → ordered less strict l r ≡ (ok l, r)
  unfolding ordered check_order
  ordered-ascending true l r h = rw (h, collect-ascending l h)
  ordered-ascending false l r h = rw (collect-ascending l h)

  -- With `de_strict_order`, items in another order are refused.
  pub ordered-descending :
      {R : Type 0} (l : List A) (r : R)
      → is_ascending less l ≡ false
      → ordered less true l r ≡ (err wrong_order_of_keys, r)
  unfolding ordered check_order
  ordered-descending l r h = rw h
