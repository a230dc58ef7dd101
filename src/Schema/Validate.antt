-- ===== src/Schema/Validate.antt =====
-- borsh/src/schema/container_ext/validate.rs: the rules that a schema container must keep.
use borsh_rs.Base.{
  ℕ, zero, suc, ◌*◌, ◌^◌, Bool, true, false, none, some, List, [], ◌∷◌, if◌then◌else◌, ◌==◌, ltb,
  leb, ◌&&◌, ◌||◌, length,
}
use borsh_rs.Schema.{
  Declaration, Definition, primitive, sequence, tuple, enum, struct, BorshSchemaContainer,
  get_definition, on_stack, Outcome, ok, err, Walk, ◌>>◌, pure, throw, push, pop, panicked,
  out_of_fuel, ◌>>=◌, field_types, result_of,
}
use borsh_rs.Schema.ZeroSize.{ZeroSizeError, is_zero_size, variant_types, count_is_one}

pub data Error : Type 0 where
  zst_sequence tag_too_wide tag_too_narrow tag_not_power_of_two : Declaration → Error
  missing_definition empty_length_range : Declaration → Error

abbrev pub Checked : Type 0
Checked = Outcome Error (Unit {0})

abbrev pub is_one_of : ℕ → List ℕ → Bool
is_one_of w [] = false
is_one_of w (n ∷ more) = w == n || is_one_of w more

-- `max < 1 << (width * 8)`, at a width of at most 7 bytes.
unfoldable pub check_length_width : Declaration → ℕ → ℕ → Checked
check_length_width d width max =
    if width == 0
    then ok tt
    else if is_one_of width (3 ∷ 5 ∷ 6 ∷ 7 ∷ [])
    then err (tag_not_power_of_two d)
    else if leb width 7 && ltb max (2 ^ (width * 8))
    then ok tt
    else if leb width 7
    then err (tag_too_narrow d)
    else if width == 8
    then ok tt
    else err (tag_too_wide d)

abbrev pub check : Checked → Walk Error (Unit {0})
check r s = (r, s)

-- What `validate_impl` does with the outcome of `is_zero_size`.
unfoldable pub check_zero_size : Declaration → Outcome ZeroSizeError Bool → Checked
check_zero_size d (ok true) = err (zst_sequence d)
check_zero_size d (ok false) = ok tt
check_zero_size d (err ZeroSizeError.recursive) = ok tt
check_zero_size d (err (ZeroSizeError.missing_definition e)) = err (missing_definition e)
check_zero_size d panicked = panicked
check_zero_size d out_of_fuel = out_of_fuel

unfoldable pub validate_each :
    (Declaration → Walk Error (Unit {0})) → List Declaration → Walk Error (Unit {0})
validate_each validate [] = pure tt
validate_each validate (d ∷ more) = validate d >> validate_each validate more

-- The checks of one definition; `validate` is the recursive call.
unfoldable pub validate_definition :
    ℕ
    → (Declaration → Walk Error (Unit {0}))
    → (Declaration → Outcome ZeroSizeError Bool)
    → Declaration
    → Definition
    → Walk Error (Unit {0})
unfolding check_length_width check_zero_size validate_each count_is_one
validate_definition usize_max validate is_zero d (primitive size) = pure tt
validate_definition usize_max validate is_zero d (sequence length_width start end elements) = do
  array ← if length_width == 0 then count_is_one usize_max start end else pure false
  if array then validate elements else if ltb end start then throw (empty_length_range d) else do
    check (check_length_width d length_width end)
    check (check_zero_size d (is_zero elements))
    validate elements
validate_definition usize_max validate is_zero d (enum tag_width variants) =
    if ltb 8 tag_width
    then throw (tag_too_wide d)
    else validate_each validate (variant_types variants)
validate_definition usize_max validate is_zero d (tuple elements) = validate_each validate elements
validate_definition usize_max validate is_zero d (struct fields) =
    validate_each validate (field_types fields)

module _ (usize_max : ℕ) (schema : BorshSchemaContainer) where
  -- The definition is looked up before the stack is; a declaration on the stack is accepted.
  unfoldable pub validate_impl : ℕ → Declaration → Walk Error (Unit {0})
  unfolding validate_definition is_zero_size
  validate_impl zero d s = (out_of_fuel, s)
  validate_impl (suc fuel) d s = elim (get_definition schema d) [
    | none ↦ throw (missing_definition d) s
    | some def ↦
        let inside = (do
          push d
          validate_definition usize_max (validate_impl fuel) (is_zero_size usize_max schema) d def
          pop) in
        elim (on_stack d s) [ true ↦ pure tt s | false ↦ inside s ]
  ]

  unfoldable pub validate : Checked
  unfolding validate_impl
  validate = result_of (validate_impl (suc (length schema.definitions)) schema.declaration [])
