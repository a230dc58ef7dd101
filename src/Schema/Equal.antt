-- ===== src/Schema/Equal.antt =====
-- `PartialEq` of `Definition` and `Fields`, which borsh/src/schema.rs derives.
use borsh_rs.Base.{◌≡◌, refl, ap, Bool, true, false, List, [], ◌∷◌, ◌==◌, ◌&&◌, arith, ==→eq}
use borsh_rs.Num.{ℤ, pos, negsuc}
use borsh_rs.Schema.{
  Declaration, Definition, Fields, primitive, sequence, tuple, enum, struct, named_fields,
  unnamed_fields, empty,
}
use text.Mathlib.Text.{◌==◌ as str_eq}
use text.Mathlib.TextEquality.{eq_iff}
use Prim.Native.String.{String}

abbrev eq_ℤ : ℤ → ℤ → Bool
eq_ℤ (pos m) (pos n) = m == n
eq_ℤ (negsuc m) (negsuc n) = m == n
eq_ℤ _ _ = false

unfoldable eq_list : {A : Type 0} → (A → A → Bool) → List A → List A → Bool
eq_list eq [] [] = true
eq_list eq (x ∷ xs) (y ∷ ys) = eq x y && eq_list eq xs ys
eq_list eq _ _ = false

abbrev eq_field : String × Declaration → String × Declaration → Bool
eq_field a b = str_eq a.0 b.0 && str_eq a.1 b.1

abbrev eq_variant : ℤ × String × Declaration → ℤ × String × Declaration → Bool
eq_variant a b = eq_ℤ a.0 b.0 && str_eq a.1 b.1 && str_eq a.2 b.2

unfoldable eq_fields : Fields → Fields → Bool
unfolding eq_list
eq_fields (named_fields fs) (named_fields gs) = eq_list eq_field fs gs
eq_fields (unnamed_fields fs) (unnamed_fields gs) = eq_list str_eq fs gs
eq_fields empty empty = true
eq_fields _ _ = false

unfoldable pub eq_definition : Definition → Definition → Bool
unfolding eq_fields eq_list
eq_definition (primitive m) (primitive n) = m == n
eq_definition (sequence w lo hi e) (sequence w' lo' hi' e') =
    w == w' && lo == lo' && hi == hi' && str_eq e e'
eq_definition (tuple ds) (tuple es) = eq_list str_eq ds es
eq_definition (enum w vs) (enum w' vs') = w == w' && eq_list eq_variant vs vs'
eq_definition (struct fs) (struct gs) = eq_fields fs gs
eq_definition _ _ = false

eq_list_sound :
    {A : Type 0} (eq : A → A → Bool)
    → ((x y : A) → eq x y ≡ true → x ≡ y)
    → (xs ys : List A) → eq_list eq xs ys ≡ true
    → xs ≡ ys
unfolding eq_list
eq_list_sound eq s [] [] h = refl
eq_list_sound eq s [] (y ∷ ys) h = cc
eq_list_sound eq s (x ∷ xs) [] h = cc
eq_list_sound eq s (x ∷ xs) (y ∷ ys) h = ground (arith, s x y, eq_list_sound eq s xs ys)

eq_ℤ-sound : (a b : ℤ) → eq_ℤ a b ≡ true → a ≡ b
eq_ℤ-sound (pos m) (pos n) h = ap pos (==→eq m n h)
eq_ℤ-sound (negsuc m) (negsuc n) h = ap negsuc (==→eq m n h)
eq_ℤ-sound (pos m) (negsuc n) h = cc
eq_ℤ-sound (negsuc m) (pos n) h = cc

eq_field_sound : (a b : String × Declaration) → eq_field a b ≡ true → a ≡ b
eq_field_sound (a, b) (c, d) h = ground (arith, eq_iff a c, eq_iff b d)

eq_variant_sound : (a b : ℤ × String × Declaration) → eq_variant a b ≡ true → a ≡ b
eq_variant_sound (i, a, b) (j, c, d) h = ground (arith, eq_ℤ-sound i j, eq_iff a c, eq_iff b d)

eq_fields_sound : (a b : Fields) → eq_fields a b ≡ true → a ≡ b
unfolding eq_fields
eq_fields_sound (named_fields fs) (named_fields gs) h =
    ap named_fields (eq_list_sound eq_field eq_field_sound fs gs h)
eq_fields_sound (unnamed_fields fs) (unnamed_fields gs) h =
    ap unnamed_fields (eq_list_sound str_eq (λ x y. (eq_iff x y).0) fs gs h)
eq_fields_sound empty empty h = refl
eq_fields_sound (named_fields fs) (unnamed_fields gs) h = cc
eq_fields_sound (named_fields fs) empty h = cc
eq_fields_sound (unnamed_fields fs) (named_fields gs) h = cc
eq_fields_sound (unnamed_fields fs) empty h = cc
eq_fields_sound empty (named_fields gs) h = cc
eq_fields_sound empty (unnamed_fields gs) h = cc

pub eq_definition_sound : (a b : Definition) → eq_definition a b ≡ true → a ≡ b
unfolding eq_definition
eq_definition_sound (primitive m) (primitive n) h = ap primitive (==→eq m n h)
eq_definition_sound (sequence w lo hi e) (sequence w' lo' hi' e') h = ground (arith, eq_iff e e')
eq_definition_sound (tuple ds) (tuple es) h =
    ap tuple (eq_list_sound str_eq (λ x y. (eq_iff x y).0) ds es h)
eq_definition_sound (enum w vs) (enum w' vs') h =
    ground (arith, eq_list_sound eq_variant eq_variant_sound vs vs')
eq_definition_sound (struct fs) (struct gs) h = ap struct (eq_fields_sound fs gs h)
eq_definition_sound (primitive m) (sequence w' lo' hi' e') h = cc
eq_definition_sound (primitive m) (tuple es) h = cc
eq_definition_sound (primitive m) (enum w' vs') h = cc
eq_definition_sound (primitive m) (struct gs) h = cc
eq_definition_sound (sequence w lo hi e) (primitive n) h = cc
eq_definition_sound (sequence w lo hi e) (tuple es) h = cc
eq_definition_sound (sequence w lo hi e) (enum w' vs') h = cc
eq_definition_sound (sequence w lo hi e) (struct gs) h = cc
eq_definition_sound (tuple ds) (primitive n) h = cc
eq_definition_sound (tuple ds) (sequence w' lo' hi' e') h = cc
eq_definition_sound (tuple ds) (enum w' vs') h = cc
eq_definition_sound (tuple ds) (struct gs) h = cc
eq_definition_sound (enum w vs) (primitive n) h = cc
eq_definition_sound (enum w vs) (sequence w' lo' hi' e') h = cc
eq_definition_sound (enum w vs) (tuple es) h = cc
eq_definition_sound (enum w vs) (struct gs) h = cc
eq_definition_sound (struct fs) (primitive n) h = cc
eq_definition_sound (struct fs) (sequence w' lo' hi' e') h = cc
eq_definition_sound (struct fs) (tuple es) h = cc
eq_definition_sound (struct fs) (enum w' vs') h = cc
