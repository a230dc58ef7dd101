-- ===== src/Schema/Fuel/Validate.antt =====
-- The fuel of `validate`, of borsh/src/schema/container_ext/validate.rs.
use borsh_rs.Base.{
  ℕ, zero, suc, ◌⊎◌, if◌then◌else◌, ◌<◌, ◌≡◌, ◌≢◌, refl, Bool, true, false, none, some, List, [],
  ◌∷◌, ◌++◌, arith, subst, sym, Bool-cases, inl, inr, length, ◌==◌, ltb, max,
}
use borsh_rs.Schema.{
  Declaration, Definition, primitive, sequence, tuple, enum, struct, BorshSchemaContainer,
  get_definition, on_stack, Outcome, ok, err, out_of_fuel, panicked, Walk, and_then, ◌>>◌, throw,
  pop, pure, field_types,
}
use borsh_rs.Schema.Fuel.{
  HasLong, IsLong, get-HasLong, Ended, Ended-cases, fresh, fresh-le_length, fresh-push,
  Option-cases, Grows, Grows-below, result_of-Ended, Grows-keep, Ends, Ends-if, Ends-bind,
}
use borsh_rs.Schema.ZeroSize.{ZeroSizeError, is_zero_size, variant_types, count_is_one}
use borsh_rs.Schema.Fuel.ZeroSize.{count_is_one-Ends, is_zero_size-Ended}
use borsh_rs.Schema.Validate.{
  Error, missing_definition, Checked, check, check_length_width, check_zero_size, validate_each,
  validate_definition, validate_impl, validate, empty_length_range, tag_too_wide,
}

module _ (P : Type 0) (defs : List (Declaration × Definition)) (n : ℕ) where
  check-Ends : (r : Checked) → Ended P r → Ends P defs n (check r)
  check-Ends (ok a) h s small = ([], refl)
  check-Ends (err e) h s small = tt
  check-Ends panicked h s small = h
  check-Ends out_of_fuel h s small = absurd h

  check_length_width-Ended :
      (d : Declaration) (width max : ℕ) → Ended P (check_length_width d width max)
  unfolding check_length_width
  check_length_width-Ended d width max = ground arith

  check_zero_size-Ended :
      (d : Declaration) (r : Outcome ZeroSizeError Bool) → Ended P r → Ended P (check_zero_size d r)
  unfolding check_zero_size
  check_zero_size-Ended d (ok true) h = tt
  check_zero_size-Ended d (ok false) h = tt
  check_zero_size-Ended d (err ZeroSizeError.recursive) h = tt
  check_zero_size-Ended d (err (ZeroSizeError.missing_definition m)) h = tt
  check_zero_size-Ended d panicked h = h
  check_zero_size-Ended d out_of_fuel h = h

  module _ (rec : Declaration → Walk Error (Unit {0}))
      (h : (d : Declaration) → Ends P defs n (rec d)) where
    validate_each-Ends : (ds : List Declaration) → Ends P defs n (validate_each rec ds)
    unfolding validate_each
    validate_each-Ends [] = λ s small. ([], refl)
    validate_each-Ends (d ∷ more) = Ends-bind P defs n (rec d) _ (h d) λ u. validate_each-Ends more

    module _ (is_zero : Declaration → Outcome ZeroSizeError Bool)
        (z : (d : Declaration) → Ended P (is_zero d)) where
      sequence_checks-Ends :
          (d : Declaration) (length_width end : ℕ) (elements : Declaration)
          → Ends P defs n (
              check (check_length_width d length_width end)
              >> (check (check_zero_size d (is_zero elements)) >> rec elements))
      sequence_checks-Ends d length_width end elements =
          Ends-bind P defs n _ _
            (check-Ends (check_length_width d length_width end)
              (check_length_width-Ended d length_width end))
            λ u.
              Ends-bind P defs n _ _
                (check-Ends (check_zero_size d (is_zero elements))
                  (check_zero_size-Ended d (is_zero elements) (z elements)))
                λ u'. h elements

      guarded-Ends :
          (d : Declaration) (length_width start end : ℕ) (elements : Declaration) (array : Bool)
          → Ends P defs n (
              if array
              then rec elements
              else if ltb end start
              then throw (empty_length_range d)
              else (check (check_length_width d length_width end)
                  >> (check (check_zero_size d (is_zero elements)) >> rec elements)))
      guarded-Ends d length_width start end elements array =
          Ends-if P defs n array (rec elements) _ (h elements) (
            Ends-if P defs n (ltb end start) (throw (empty_length_range d)) _ (λ s small. tt)
              (sequence_checks-Ends d length_width end elements))

      array-Ends :
          (usize_max length_width start end : ℕ) (elements : Declaration)
          → (IsLong usize_max (sequence length_width start end elements) → P)
          → Ends P defs {E = Error} n
              (if length_width == 0 then count_is_one usize_max start end else pure false)
      array-Ends usize_max length_width start end elements long =
          elim (Bool-cases (length_width == 0)) [
            | inl none_there ↦ rw none_there (
                count_is_one-Ends Error P defs n usize_max start end
                  λ (le, many). long (ground (arith, none_there), le, many))
            | inr there ↦ rw there (λ s small. ([], refl))
          ]

      validate_definition-Ends :
          (usize_max : ℕ) (d : Declaration) (def : Definition)
          → (IsLong usize_max def → P)
          → Ends P defs n (validate_definition usize_max rec is_zero d def)
      unfolding validate_definition
      validate_definition-Ends usize_max d (primitive size) long = λ s small. ([], refl)
      validate_definition-Ends usize_max d (sequence length_width start end elements) long =
          Ends-bind P defs n _ _ (array-Ends usize_max length_width start end elements long)
            (guarded-Ends d length_width start end elements)
      validate_definition-Ends usize_max d (enum tag_width variants) long =
          Ends-if P defs n (ltb 8 tag_width) (throw (tag_too_wide d)) _ (λ s small. tt)
            (validate_each-Ends (variant_types variants))
      validate_definition-Ends usize_max d (tuple elements) long = validate_each-Ends elements
      validate_definition-Ends usize_max d (struct fields) long =
          validate_each-Ends (field_types fields)

module _ (usize_max : ℕ) (schema : BorshSchemaContainer) where
  -- The reason to panic.
  abbrev Long : Type 0
  Long = HasLong usize_max schema.definitions

  impl-undefined :
      (fuel : ℕ) (d : Declaration) (s : List Declaration)
      → get_definition schema d ≡ none
      → validate_impl usize_max schema (suc fuel) d s ≡ (err (missing_definition d), s)
  unfolding validate_impl
  impl-undefined fuel d s there = rw (there, validate_impl)

  impl-on_stack :
      (fuel : ℕ) (d : Declaration) (s : List Declaration) (def : Definition)
      → get_definition schema d ≡ some def
      → on_stack d s ≡ true
      → validate_impl usize_max schema (suc fuel) d s ≡ (ok tt, s)
  unfolding validate_impl
  impl-on_stack fuel d s def there e = rw (there, e, validate_impl)

  impl-defined :
      (fuel : ℕ) (d : Declaration) (s : List Declaration) (def : Definition)
      → get_definition schema d ≡ some def
      → on_stack d s ≡ false
      → validate_impl usize_max schema (suc fuel) d s
        ≡ and_then
            (validate_definition usize_max
              (validate_impl usize_max schema fuel)
              (is_zero_size usize_max schema)
              d
              def
              (d ∷ s))
            λ u. pop
  unfolding validate_impl
  impl-defined fuel d s def there e = rw (there, e, validate_impl)

  pop-Grows :
      (d : Declaration) (s extra : List Declaration)
      → Grows {E = Error} Long s (pop (extra ++ (d ∷ s)))
  pop-Grows d s [] = ([], refl)
  pop-Grows d s (e ∷ extra) = Grows-keep Long Error tt extra d s

  below-Grows :
      (fuel : ℕ) (d : Declaration) (s : List Declaration) (def : Definition)
      → get_definition schema d ≡ some def
      → ((e : Declaration)
          → Ends Long schema.definitions fuel (validate_impl usize_max schema fuel e))
      → fresh (d ∷ s) schema.definitions < fuel
      → Grows Long s (
          and_then
            (validate_definition usize_max
              (validate_impl usize_max schema fuel)
              (is_zero_size usize_max schema)
              d
              def
              (d ∷ s))
            λ u. pop)
  unfolding get_definition
  below-Grows fuel d s def there rec small =
      Grows-below Long d s
        (validate_definition usize_max (validate_impl usize_max schema fuel)
          (is_zero_size usize_max schema) d def (d ∷ s))
        _
        (validate_definition-Ends Long schema.definitions fuel (validate_impl usize_max schema fuel)
          rec (is_zero_size usize_max schema) (is_zero_size-Ended usize_max schema) usize_max d def
          (get-HasLong usize_max d def schema.definitions there) (d ∷ s) small)
        λ u extra. pop-Grows d s extra

  validate_impl-Ends :
      (fuel : ℕ) (d : Declaration)
      → Ends Long schema.definitions fuel (validate_impl usize_max schema fuel d)
  unfolding get_definition
  validate_impl-Ends zero d s small = absurd (omega (arith, small))
  validate_impl-Ends (suc fuel) d s small = elim (Option-cases (get_definition schema d)) [
    | inl there ↦ subst (Grows Long s) (sym (impl-undefined fuel d s there)) tt
    | inr (def, there) ↦ elim (Bool-cases (on_stack d s)) [
      | inl e ↦ subst (Grows Long s) (sym (impl-on_stack fuel d s def there e)) ([], refl)
      | inr e ↦ subst (Grows Long s) (sym (impl-defined fuel d s def there e)) (
          below-Grows fuel d s def there (validate_impl-Ends fuel)
            (omega (arith, small, fresh-push d s schema.definitions def there e)))
    ]
  ]

  -- `validate` never runs out of the fuel it is given, whatever the schema, and it panics only if a
  -- definition of the schema is a sequence without a length that has more items than a `usize` counts.
  pub validate-ends :
      (validate usize_max schema ≢ out_of_fuel)
      × ((validate usize_max schema ≢ panicked) ⊎ HasLong usize_max schema.definitions)
  unfolding validate
  validate-ends = Ended-cases Long (validate usize_max schema) (
      result_of-Ended Long []
        (validate_impl usize_max schema (suc (length schema.definitions)) schema.declaration [])
        (validate_impl-Ends (suc (length schema.definitions)) schema.declaration []
          (omega (arith, fresh-le_length [] schema.definitions))))
