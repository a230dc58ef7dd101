-- ===== src/Schema/Fuel/MaxSize.antt =====
-- The fuel of `max_serialized_size`, of borsh/src/schema/container_ext/max_size.rs.
use borsh_rs.Base.{
  ℕ, zero, suc, ◌⊎◌, ◌+◌, ◌*◌, ◌<◌, ◌≡◌, ◌≢◌, refl, Bool, true, false, none, some, List, [], ◌∷◌,
  arith, subst, sym, Bool-cases, inl, inr, if◌then◌else◌, length, ◌==◌, ltb, max,
}
use borsh_rs.Schema.{
  Declaration, Definition, primitive, sequence, tuple, enum, struct, BorshSchemaContainer,
  get_definition, on_stack, Outcome, ok, err, out_of_fuel, panicked, Walk, and_then, ◌>>=◌, ◌>>◌,
  pure, throw, pop, field_types, map_err, named_fields, unnamed_fields, empty,
}
use borsh_rs.Schema.Fuel.{
  HasLong, Ended-cases, fresh, fresh-le_length, fresh-push, Option-cases, Grows, Grows-below,
  result_of-Ended, Grows-pop, Ends, Ends-if, Ends-bind,
}
use borsh_rs.Schema.ZeroSize.{ZeroSizeError, is_zero_size_impl, variant_types}
use borsh_rs.Schema.Fuel.ZeroSize.{is_zero_size_impl-Ends}
use borsh_rs.Schema.MaxSize.{
  Error, overflow, recursive, missing_definition, of_zero_size_error, add, mul, sum_sizes,
  tuple_size, max_variant, definition_size, max_serialized_size_impl, max_serialized_size,
}

map_err-Grows :
    (P : Type 0) {E F A : Type 0} (s : List Declaration) (f : E → F)
    (x : Outcome E A × List Declaration)
    → Grows P s x
    → Grows P s (map_err f (λ u. x) s)
map_err-Grows P s f (ok a, s') h = h
map_err-Grows P s f (err e, s') h = tt
map_err-Grows P s f (panicked, s') h = h
map_err-Grows P s f (out_of_fuel, s') h = absurd h

module _ (usize_max : ℕ) (P : Type 0) (defs : List (Declaration × Definition)) (n : ℕ) where
  add-Ends : (x y : ℕ) → Ends P defs n (add usize_max x y)
  unfolding add
  add-Ends x y =
      Ends-if P defs n (ltb usize_max (x + y)) (throw overflow) (pure (x + y)) (λ s small. tt)
        λ s small. ([], refl)

  mul-Ends : (x y : ℕ) → Ends P defs n (mul usize_max x y)
  unfolding mul
  mul-Ends x y =
      Ends-if P defs n (ltb usize_max (x * y)) (throw overflow) (pure (x * y)) (λ s small. tt)
        λ s small. ([], refl)

  module _ (size : ℕ → Declaration → Walk Error ℕ)
      (h : (k : ℕ) (d : Declaration) → Ends P defs n (size k d)) where
    sum_sizes-Ends :
        (sum : ℕ) (ds : List Declaration) → Ends P defs n (sum_sizes usize_max (size 1) sum ds)
    unfolding sum_sizes
    sum_sizes-Ends sum [] = λ s small. ([], refl)
    sum_sizes-Ends sum (d ∷ more) = Ends-bind P defs n (size 1 d) _ (h 1 d) λ sz.
        Ends-bind P defs n (add usize_max sum sz) _ (add-Ends sum sz)
          λ total. sum_sizes-Ends total more

    max_variant-Ends :
        (biggest : ℕ) (ds : List Declaration)
        → Ends P defs n (max_variant usize_max (size 1) biggest ds)
    unfolding max_variant
    max_variant-Ends biggest [] = λ s small. ([], refl)
    max_variant-Ends biggest (d ∷ more) =
        Ends-bind P defs n (size 1 d) _ (h 1 d) λ sz. max_variant-Ends (max biggest sz) more

    tuple_size-Ends :
        (count : ℕ) (ds : List Declaration) → Ends P defs n (tuple_size usize_max (size 1) count ds)
    unfolding tuple_size
    tuple_size-Ends count ds =
        Ends-bind P defs n (sum_sizes usize_max (size 1) 0 ds) _ (sum_sizes-Ends 0 ds)
          λ sum. mul-Ends count sum

    module _ (is_zero : Declaration → Walk ZeroSizeError Bool)
        (z : (d : Declaration) → Ends P defs n (is_zero d)) where
      zero_or_overflow-Ends :
          (elements : Declaration)
          → Ends P defs {A = ℕ} n (
              map_err of_zero_size_error (is_zero elements) >>= λ zero_sized.
              if zero_sized then pure 0 else throw overflow)
      zero_or_overflow-Ends elements =
          Ends-bind P defs n (map_err of_zero_size_error (is_zero elements)) _
            (λ s small.
              map_err-Grows P s of_zero_size_error (is_zero elements s) (z elements s small))
            λ zero_sized.
              Ends-if P defs n zero_sized (pure 0) (throw overflow) (λ s small. ([], refl))
                λ s small. tt

      definition_size-Ends :
          (count : ℕ) (def : Definition)
          → Ends P defs n (definition_size usize_max size is_zero count def)
      unfolding definition_size
      definition_size-Ends count (primitive zero) = λ s small. ([], refl)
      definition_size-Ends count (primitive (suc k)) = mul-Ends (suc k) count
      definition_size-Ends count (sequence length_width start end elements) =
          Ends-bind P defs n _ _
            (Ends-if P defs n (ltb usize_max end) _ _ (zero_or_overflow-Ends elements) (
              Ends-if P defs n (end == 0) (pure 0) (size end elements) (λ s small. ([], refl))
                (h end elements)))
            λ sz.
              Ends-bind P defs n (add usize_max sz length_width) _ (add-Ends sz length_width)
                λ total. mul-Ends count total
      definition_size-Ends count (enum tag_width variants) =
          Ends-bind P defs n (max_variant usize_max (size 1) 0 (variant_types variants)) _
            (max_variant-Ends 0 (variant_types variants)) λ biggest. add-Ends biggest tag_width
      definition_size-Ends count (tuple elements) = tuple_size-Ends count elements
      definition_size-Ends count (struct (named_fields fields)) =
          tuple_size-Ends count (field_types (named_fields fields))
      definition_size-Ends count (struct (unnamed_fields fields)) = tuple_size-Ends count fields
      definition_size-Ends count (struct empty) = λ s small. ([], refl)

module _ (usize_max : ℕ) (schema : BorshSchemaContainer) where
  -- The reason to panic.
  abbrev Long : Type 0
  Long = HasLong usize_max schema.definitions

  pub impl-on_stack :
      (fuel count : ℕ) (d : Declaration) (s : List Declaration)
      → on_stack d s ≡ true
      → max_serialized_size_impl usize_max schema (suc fuel) count d s ≡ (err recursive, s)
  unfolding max_serialized_size_impl
  impl-on_stack fuel count d s e = rw (e, max_serialized_size_impl)

  pub impl-undefined :
      (fuel count : ℕ) (d : Declaration) (s : List Declaration)
      → on_stack d s ≡ false
      → get_definition schema d ≡ none
      → max_serialized_size_impl usize_max schema (suc fuel) count d s
        ≡ (err (missing_definition d), d ∷ s)
  unfolding max_serialized_size_impl
  impl-undefined fuel count d s e there = rw (e, there, max_serialized_size_impl)

  -- What is left of the walk once `d` is on the stack and has the definition `def`.
  abbrev pub inside :
      ℕ → ℕ → Declaration → Definition → List Declaration → Outcome Error ℕ × List Declaration
  inside fuel count d def s =
      definition_size usize_max (max_serialized_size_impl usize_max schema fuel)
        (is_zero_size_impl usize_max schema fuel) count def (d ∷ s)

  pub impl-defined :
      (fuel count : ℕ) (d : Declaration) (s : List Declaration) (def : Definition)
      → on_stack d s ≡ false
      → get_definition schema d ≡ some def
      → max_serialized_size_impl usize_max schema (suc fuel) count d s
        ≡ and_then (inside fuel count d def s) λ r. (pop >> pure r)
  unfolding max_serialized_size_impl
  impl-defined fuel count d s def e there = rw (e, there, max_serialized_size_impl)

  below-Grows :
      (fuel count : ℕ) (d : Declaration) (s : List Declaration) (def : Definition)
      → ((k : ℕ) (e : Declaration)
          → Ends Long schema.definitions fuel (max_serialized_size_impl usize_max schema fuel k e))
      → fresh (d ∷ s) schema.definitions < fuel
      → Grows Long s (and_then (inside fuel count d def s) λ r. (pop >> pure r))
  below-Grows fuel count d s def rec small =
      Grows-below Long d s (inside fuel count d def s) _
        (definition_size-Ends usize_max Long schema.definitions fuel
          (max_serialized_size_impl usize_max schema fuel) rec
          (is_zero_size_impl usize_max schema fuel) (is_zero_size_impl-Ends usize_max schema fuel)
          count def (d ∷ s) small)
        λ r extra. Grows-pop Long Error r extra d s

  max_serialized_size_impl-Ends :
      (fuel count : ℕ) (d : Declaration)
      → Ends Long schema.definitions fuel (max_serialized_size_impl usize_max schema fuel count d)
  unfolding get_definition
  max_serialized_size_impl-Ends zero count d s small = absurd (omega (arith, small))
  max_serialized_size_impl-Ends (suc fuel) count d s small = elim (Bool-cases (on_stack d s)) [
    | inl e ↦ subst (Grows Long s) (sym (impl-on_stack fuel count d s e)) tt
    | inr e ↦ elim (Option-cases (get_definition schema d)) [
      | inl there ↦ subst (Grows Long s) (sym (impl-undefined fuel count d s e there)) tt
      | inr (def, there) ↦ subst (Grows Long s) (sym (impl-defined fuel count d s def e there)) (
          below-Grows fuel count d s def (max_serialized_size_impl-Ends fuel)
            (omega (arith, small, fresh-push d s schema.definitions def there e)))
    ]
  ]

  -- `max_serialized_size` never runs out of the fuel it is given, whatever the schema, and it panics
  -- only if a definition of the schema is a sequence without a length that has more items than a `usize`
  -- counts.
  pub max_serialized_size-ends :
      (max_serialized_size usize_max schema ≢ out_of_fuel)
      × ((max_serialized_size usize_max schema ≢ panicked) ⊎ HasLong usize_max schema.definitions)
  unfolding max_serialized_size
  max_serialized_size-ends = Ended-cases Long (max_serialized_size usize_max schema) (
      result_of-Ended Long []
        (max_serialized_size_impl usize_max schema (suc (length schema.definitions)) 1
          schema.declaration [])
        (max_serialized_size_impl-Ends (suc (length schema.definitions)) 1 schema.declaration []
          (omega (arith, fresh-le_length [] schema.definitions))))
