-- ===== src/Schema/Container.antt =====
-- The definitions of a container of borsh/src/schema.rs: what is found after an insertion.
use borsh_rs.Base.{
  ◌≡◌, refl, true, false, some, List, [], ◌∷◌, if◌then◌else◌, Bool-cases, inl, inr, arith, ap,
}
use borsh_rs.Schema.{Declaration, Definition, get, insert}
use text.Mathlib.Text.{◌==◌ as str_eq}
use text.Mathlib.TextEquality.{eq_iff}

-- The tests of three names agree.
eq_trans : (k d e : Declaration) → str_eq k d ≡ true → str_eq k e ≡ str_eq d e
eq_trans k d e h = ap (λ (n : Declaration). str_eq n e) ((eq_iff k d).0 h)

eq_chain : (k d e : Declaration) → str_eq k d ≡ false → str_eq k e ≡ true → str_eq d e ≡ false
eq_chain k d e h same = ground (arith, eq_iff k d, eq_iff k e, eq_iff d e)

pub get-insert :
    (d e : Declaration) (def : Definition) (defs : List (Declaration × Definition))
    → get e (insert d def defs) ≡ (if str_eq d e then some def else get e defs)
unfolding get insert
get-insert d e def [] = refl
get-insert d e def ((k, old) ∷ more) = elim (Bool-cases (str_eq k d)) [
  | inl same ↦ rw (same, ← eq_trans k d e same) (ground arith)
  | inr differs ↦ elim (Bool-cases (str_eq k e)) [
    | inl found ↦ rw (differs, found, eq_chain k d e differs found) refl
    | inr other ↦ rw (differs, other) (get-insert d e def more)
  ]
]
