-- ===== src/Derive/Accepts.antt =====
-- borsh-derive/src/lib.rs: the items that the macros accept.
use borsh_rs.Base.{◌≤◌, ◌≡◌, refl, arith, Bool, true, false, List, [], ◌∷◌, ◌⊎◌, length, All}
use borsh_rs.Derive.{ExprPath, SynResult, accepted, rejected}
use borsh_rs.Derive.Consistent.{bind-accepted}
use borsh_rs.Derive.Item.{ItemAttribute, ItemMeta, use_discriminant, init, crate, other}
use borsh_rs.Derive.Entry.{
  DeriveInput, struct, enum, union, attributes, is_struct, borsh_attributes, check_meta,
  check_metas, check_one, check_attributes, check_attrs_get_cratename, first_metas, borsh_serialize,
  borsh_deserialize, serialize_item, deserialize_item,
}
use borsh_rs.Derive.Serialize as S
use borsh_rs.Derive.Deserialize as D

-- The entries for an item: `use_discriminant` is not one for a struct.
abbrev pub IsSupported : Bool → ItemMeta → Type 0
IsSupported on_struct (use_discriminant value) = on_struct ≡ false
IsSupported on_struct (init p) = Unit {0}
IsSupported on_struct (crate p) = Unit {0}
IsSupported on_struct (other key) = ⊥

abbrev pub IsUnion : DeriveInput → Type 0
IsUnion (struct input) = ⊥
IsUnion (enum input) = ⊥
IsUnion (union attrs) = Unit {0}

-- One attribute of the macro at most, with supported entries, on a struct or an enum.
pub record IsChecked (input : DeriveInput) : Type 0 where
  pub one : length (borsh_attributes (attributes input)) ≤ 1
  pub supported :
      All (IsSupported (is_struct input)) (first_metas (borsh_attributes (attributes input)))
  pub no_union : ¬ IsUnion input

check_meta-IsSupported : (b : Bool) (m : ItemMeta) → check_meta b m ≡ accepted tt → IsSupported b m
check_meta-IsSupported true (use_discriminant value) h = cc
check_meta-IsSupported false (use_discriminant value) h = refl
check_meta-IsSupported b (init p) h = tt
check_meta-IsSupported b (crate p) h = tt
check_meta-IsSupported b (other key) h =
    let bad : (◌≡◌ {A = SynResult (Unit {0})}
        (rejected
          "`crate`, `use_discriminant` or `init` are the only supported attributes for `borsh`")
        (accepted tt)) =
      h in
    cc

check_metas-IsSupported :
    (b : Bool) (ms : List ItemMeta) → check_metas b ms ≡ accepted tt → All (IsSupported b) ms
check_metas-IsSupported b [] h = tt
check_metas-IsSupported b (m ∷ ms) h =
    let (u, first, rest) = bind-accepted (check_meta b m) _ tt h in
    (check_meta-IsSupported b m first, check_metas-IsSupported b ms rest)

check_one-IsSupported :
    (b : Bool) (attrs : List ItemAttribute)
    → check_one b attrs ≡ accepted tt
    → (length attrs ≤ 1) × All (IsSupported b) (first_metas attrs)
check_one-IsSupported b [] h = (omega arith, tt)
check_one-IsSupported b (x ∷ []) h = (omega arith, check_metas-IsSupported b x.metas h)
check_one-IsSupported b (x ∷ y ∷ more) h = cc

module _ (crate_name : ExprPath) where
  checked :
      (input : DeriveInput) (name : ExprPath)
      → check_attrs_get_cratename crate_name input ≡ accepted name
      → (length (borsh_attributes (attributes input)) ≤ 1)
        × All (IsSupported (is_struct input)) (first_metas (borsh_attributes (attributes input)))
  unfolding check_attrs_get_cratename check_attributes
  checked input name h =
      let (u, first, rest) = bind-accepted (check_attributes input) _ name h in
      check_one-IsSupported (is_struct input) (borsh_attributes (attributes input)) first

  serialize_item-not-IsUnion :
      (input : DeriveInput) (made : S.Output ⊎ S.SerializeImpl)
      → serialize_item crate_name input ≡ accepted made
      → ¬ IsUnion input
  serialize_item-not-IsUnion (struct input) made h u = u
  serialize_item-not-IsUnion (enum input) made h u = u
  serialize_item-not-IsUnion (union attrs) made h u = cc

  deserialize_item-not-IsUnion :
      (input : DeriveInput) (made : D.StructImpl ⊎ D.EnumImpl)
      → deserialize_item crate_name input ≡ accepted made
      → ¬ IsUnion input
  deserialize_item-not-IsUnion (struct input) made h u = u
  deserialize_item-not-IsUnion (enum input) made h u = u
  deserialize_item-not-IsUnion (union attrs) made h u = cc

  -- Whatever item `BorshSerialize` or `BorshDeserialize` makes code for is a struct or an enum with at most
  -- one `borsh` attribute, all of whose entries are supported: on a struct, `use_discriminant` is not.
  pub borsh_serialize-IsChecked :
      (input : DeriveInput)
      → ((r : ExprPath × (S.Output ⊎ S.SerializeImpl))
          → borsh_serialize crate_name input ≡ accepted r
          → IsChecked input)
        × ((r : ExprPath × (D.StructImpl ⊎ D.EnumImpl))
            → borsh_deserialize crate_name input ≡ accepted r
            → IsChecked input)
  unfolding borsh_serialize borsh_deserialize
  borsh_serialize-IsChecked input = (
    (λ r h.
        let (name, first, rest) =
          bind-accepted (check_attrs_get_cratename crate_name input) _ r h in
        let (made, second, last) = bind-accepted (serialize_item crate_name input) _ r rest in
        let (one, supported) = checked input name first in
        record {
          one = one;
          supported = supported;
          no_union = serialize_item-not-IsUnion input made second;
        }),
    λ r h.
        let (name, first, rest) =
          bind-accepted (check_attrs_get_cratename crate_name input) _ r h in
        let (made, second, last) = bind-accepted (deserialize_item crate_name input) _ r rest in
        let (one, supported) = checked input name first in
        record {
          one = one;
          supported = supported;
          no_union = deserialize_item-not-IsUnion input made second;
        },
  )
