-- ===== src/Derive/RunEnum.antt =====
-- What the code that the macros of borsh-derive/src/internals make of an enum does when it runs.
-- `none` is code that rustc refuses, on the way that a value takes through it: a name is not bound or
-- is hidden, a field is not given, or a type has no `Default`.
use borsh_rs.Base.{
  ℕ, String, Bool, true, false, Option, none, some, List, [], ◌∷◌, if◌then◌else◌, ◌==◌,
}
use borsh_rs.Io.{
  M, Write, Read, pure, throw, lift, out_of_fuel, ◌>>=◌, ◌>>◌, Error, custom, invalid_data, fmt,
}
use borsh_rs.De.{deserialize_u8}
use borsh_rs.Types.{Ty, ⟦◌⟧}
use borsh_rs.Derive.{ExprPath, Field, ItemFields, named, unnamed}
use borsh_rs.Derive.Item.{Tokens, Variant, value}
use borsh_rs.Derive.Serialize.{
  Ident, name, id, skipped_id, Expr, variable, Header, named_header, unnamed_header, SerializeImpl,
  Arm,
}
use borsh_rs.Derive.Deserialize.{EnumImpl, Construct}
use borsh_rs.Derive.Deserialize as D
use borsh_rs.Derive.Run.{
  Dyn, Values, fields_of, by_name, is_local, writing_locals, unless, run_body, run_construct,
  then_call_init,
}
use text.Mathlib.Text.{◌==◌ as str_eq}

-- A value of an enum: its variant, and a value for each field.
abbrev pub Choice : Type 0
Choice = (v : Variant) × Values (fields_of v.fields)

abbrev pub same_ident : Ident → Ident → Bool
same_ident (name a) (name b) = str_eq a b
same_ident (id i) (id j) = i == j
same_ident (skipped_id i) (skipped_id j) = i == j
same_ident _ _ = false

abbrev pub contains : Ident → List Ident → Bool
contains x [] = false
contains x (y ∷ ys) = if same_ident y x then true else contains x ys

-- `{ a, b, .. }` binds the names in it.
abbrev pub by_names : List Ident → (fs : List Field) → Values fs → Ident → Option Dyn
by_names ids fs vs (name n) = if contains (name n) ids then by_name fs vs n else none
by_names ids fs vs _ = none

-- `(id0, _id1)` binds by position.
abbrev pub by_position : List Ident → (fs : List Field) → Values fs → Ident → Option Dyn
by_position [] fs vs x = none
by_position (y ∷ ys) [] vs x = none
by_position (y ∷ ys) (f ∷ fs) vs x =
    if same_ident y x then some (f.ty, vs.0) else by_position ys fs vs.1 x

-- The paths that are variables in the arm of a variant. The span of `id0` and its like keeps them apart
-- from a path of the same name.
abbrev pub variant_hides : Header → ExprPath → Bool
variant_hides (named_header ids) p =
    if is_local writing_locals p then true else contains (name p) ids
variant_hides (unnamed_header ids) p = is_local writing_locals p

-- The variables of the pattern. A `writer` in it hides the parameter, so that no statement can write.
abbrev pub variant_env : Header → (fs : ItemFields) → Values (fields_of fs) → Expr → Option Dyn
variant_env (named_header ids) (named fs) vs (variable x) =
    unless (contains (name "writer") ids) (by_names ids fs vs x)
variant_env (unnamed_header ids) (unnamed fs) vs (variable x) = by_position ids fs vs x
variant_env _ _ _ _ = none

abbrev pub find_tag : String → List (String × Tokens) → Option Tokens
find_tag n [] = none
find_tag n ((k, e) ∷ more) = if str_eq k n then some e else find_tag n more

-- The value of an arm in the `match` of type `u8`.
abbrev pub tag_of : Option Tokens → Option ℕ
tag_of none = none
tag_of (some e) = value 8 e

abbrev pub find_arm : String → List Arm → Option Arm
find_arm n [] = none
find_arm n (arm ∷ more) = if str_eq arm.variant n then some arm else find_arm n more

module _ {W : Type 0} (w : Write W) (serialize_with : ExprPath → Dyn → M W (Unit {0})) where
  -- `optimize_fields_body`: no match without arms, and the catch-all for the unit variants.
  abbrev pub run_arm : Option Arm → List Arm → Bool → Choice → Option (M W (Unit {0}))
  run_arm (some arm) arms has_unit_variant c =
      run_body w serialize_with (variant_hides arm.header) (variant_env arm.header c.0.fields c.1)
        arm.body
  run_arm none [] has_unit_variant c = some (pure tt)
  run_arm none (arm ∷ arms) has_unit_variant c = if has_unit_variant then some (pure tt) else none

  -- `writer.write_all(&variant_idx.to_le_bytes())?`, and then the fields.
  abbrev pub after_tag : Option ℕ → Option (M W (Unit {0})) → Option (M W (Unit {0}))
  after_tag none m = none
  after_tag (some tag) none = none
  after_tag (some tag) (some m) = some (w.write_all (tag ∷ []) >> m)

  abbrev pub run_enum : SerializeImpl → Choice → Option (M W (Unit {0}))
  run_enum impl c =
      after_tag (tag_of (find_tag c.0.ident impl.tags))
        (run_arm (find_arm c.0.ident impl.arms) impl.arms impl.has_unit_variant c)

-- The arm that the chain of tests takes; `some none` is its last `else`.
abbrev pub select : List D.Arm → ℕ → Option (Option D.Arm)
select [] tag = some none
select (arm ∷ arms) tag = elim (value 8 arm.tag) [
  | none ↦ none
  | some k ↦ elim (tag == k) [ true ↦ some (some arm) | false ↦ select arms tag ]
]

abbrev pub variant_named : List Variant → String → Option Variant
variant_named [] n = none
variant_named (v ∷ vs) n = if str_eq v.ident n then some v else variant_named vs n

abbrev pub unexpected_tag : ℕ → Error
unexpected_tag tag = custom invalid_data (fmt "Unexpected variant tag: " tag "")

module _ {R : Type 0} (rd : Read R) (deserialize_with : ExprPath → (t : Ty) → M R ⟦ t ⟧)
    (default_of : (t : Ty) → Option ⟦ t ⟧) where
  abbrev pub with_variant :
      (v : Variant) → Option (M R (Values (fields_of v.fields))) → Option (M R Choice)
  with_variant v none = none
  with_variant v (some m) = some (m >>= λ vs. pure (v, vs))

  abbrev pub construct_variant : Option Variant → Construct → Option (M R Choice)
  construct_variant none construct = none
  construct_variant (some v) construct =
      with_variant v (run_construct rd deserialize_with default_of v.fields construct)

  abbrev pub build : List Variant → ℕ → Option (Option D.Arm) → Option (M R Choice)
  build variants tag none = none
  build variants tag (some none) = some (throw (unexpected_tag tag))
  build variants tag (some (some arm)) =
      construct_variant (variant_named variants arm.variant) arm.construct

  -- `EnumExt::deserialize_variant`
  abbrev pub deserialize_variant :
      List Variant → (ExprPath → Choice → Choice) → EnumImpl → ℕ → Option (M R Choice)
  deserialize_variant variants init_with impl tag =
      then_call_init init_with impl.init (build variants tag (select impl.arms tag))

  -- Code that rustc refuses has no result.
  abbrev pub or_nothing : {A : Type 0} → Option (M R A) → M R A
  or_nothing none = lift out_of_fuel
  or_nothing (some m) = m

  -- `deserialize_reader`
  abbrev pub run_enum_back : List Variant → (ExprPath → Choice → Choice) → EnumImpl → M R Choice
  run_enum_back variants init_with impl =
      deserialize_u8 rd >>= λ tag. or_nothing (deserialize_variant variants init_with impl tag)
