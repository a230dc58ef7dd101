-- ===== src/Derive/Entry.antt =====
-- borsh-derive/src/lib.rs: the entry points of the macros, with `check_attributes` and `get_crate` of
-- internals/attributes/item/mod.rs and `get` of internals/cratename.rs. A parameter is the name of the
-- crate that `proc_macro_crate` finds in the manifest of the user's package.
use borsh_rs.Base.{
  Bool, true, false, Option, none, some, List, [], ◌∷◌, ◌⊎◌, inl, inr, if◌then◌else◌,
}
use borsh_rs.Derive.{ExprPath, SynResult, accepted, rejected, ◌>>=◌}
use borsh_rs.Derive.Item.{
  ItemStruct, ItemEnum, ItemAttribute, ItemMeta, use_discriminant, init, crate, other,
}
use borsh_rs.Derive.Serialize as S
use borsh_rs.Derive.Deserialize as D
use text.Mathlib.Text.{◌==◌ as str_eq}

-- `DeriveInput`; nothing of a union but its attributes is looked at.
pub data DeriveInput : Type 0 where
  struct : ItemStruct → DeriveInput
  enum : ItemEnum → DeriveInput
  union : List ItemAttribute → DeriveInput

abbrev pub attributes : DeriveInput → List ItemAttribute
attributes (struct input) = input.attrs
attributes (enum input) = input.attrs
attributes (union attrs) = attrs

abbrev pub is_struct : DeriveInput → Bool
is_struct (struct input) = true
is_struct _ = false

unfoldable pub borsh_attributes : List ItemAttribute → List ItemAttribute
borsh_attributes [] = []
borsh_attributes (x ∷ xs) =
    if str_eq x.path "borsh" then x ∷ borsh_attributes xs else borsh_attributes xs

-- What `check_attributes` does with an entry.
abbrev pub check_meta : Bool → ItemMeta → SynResult (Unit {0})
check_meta on_struct (other key) =
    rejected "`crate`, `use_discriminant` or `init` are the only supported attributes for `borsh`"
check_meta on_struct (use_discriminant value) =
    if on_struct
    then rejected "borsh(use_discriminant=<bool>) does not support structs"
    else accepted tt
check_meta on_struct (init p) = accepted tt
check_meta on_struct (crate p) = accepted tt

abbrev pub check_metas : Bool → List ItemMeta → SynResult (Unit {0})
check_metas on_struct [] = accepted tt
check_metas on_struct (m ∷ ms) = check_meta on_struct m >>= λ _. check_metas on_struct ms

-- `get_one_attribute`, and then the entries.
abbrev pub check_one : Bool → List ItemAttribute → SynResult (Unit {0})
check_one on_struct [] = accepted tt
check_one on_struct (x ∷ []) = check_metas on_struct x.metas
check_one on_struct (x ∷ y ∷ more) = rejected "multiple `borsh` attributes not allowed"

unfoldable pub check_attributes : DeriveInput → SynResult (Unit {0})
unfolding borsh_attributes
check_attributes input = check_one (is_struct input) (borsh_attributes (attributes input))

abbrev crate_meta : ItemMeta → Option ExprPath → Option ExprPath
crate_meta (crate p) found = some p
crate_meta (use_discriminant value) found = found
crate_meta (init p) found = found
crate_meta (other key) found = found

abbrev last_crate : List ItemMeta → Option ExprPath → Option ExprPath
last_crate [] found = found
last_crate (m ∷ ms) found = last_crate ms (crate_meta m found)

abbrev pub first_metas : List ItemAttribute → List ItemMeta
first_metas [] = []
first_metas (x ∷ xs) = x.metas

unfoldable pub get_crate : List ItemAttribute → Option ExprPath
unfolding borsh_attributes
get_crate attrs = last_crate (first_metas (borsh_attributes attrs)) none

module _ (crate_name : ExprPath) where
  abbrev unwrap_or_crate_name : Option ExprPath → ExprPath
  unwrap_or_crate_name none = crate_name
  unwrap_or_crate_name (some p) = p

  -- `cratename::get`
  unfoldable pub get : List ItemAttribute → ExprPath
  unfolding get_crate
  get attrs = unwrap_or_crate_name (get_crate attrs)

  unfoldable pub check_attrs_get_cratename : DeriveInput → SynResult ExprPath
  unfolding check_attributes get
  check_attrs_get_cratename input =
      check_attributes input >>= λ _. accepted (get (attributes input))

  -- A union runs into `unimplemented!()`.
  abbrev pub serialize_item : DeriveInput → SynResult (S.Output ⊎ S.SerializeImpl)
  serialize_item (struct input) = S.process_struct input >>= λ o. accepted (inl o)
  serialize_item (enum input) = S.process_enum input >>= λ s. accepted (inr s)
  serialize_item (union attrs) = rejected "not implemented"

  abbrev pub deserialize_item : DeriveInput → SynResult (D.StructImpl ⊎ D.EnumImpl)
  deserialize_item (struct input) = D.process_struct input >>= λ s. accepted (inl s)
  deserialize_item (enum input) = D.process_enum input >>= λ s. accepted (inr s)
  deserialize_item (union attrs) = rejected "not implemented"

  -- The name of the crate stands before each path in what is made.
  unfoldable pub borsh_serialize : DeriveInput → SynResult (ExprPath × (S.Output ⊎ S.SerializeImpl))
  unfolding check_attrs_get_cratename
  borsh_serialize input = check_attrs_get_cratename input >>= λ cratename.
      serialize_item input >>= λ made. accepted (cratename, made)

  unfoldable pub borsh_deserialize :
      DeriveInput → SynResult (ExprPath × (D.StructImpl ⊎ D.EnumImpl))
  unfolding check_attrs_get_cratename
  borsh_deserialize input = check_attrs_get_cratename input >>= λ cratename.
      deserialize_item input >>= λ made. accepted (cratename, made)
