-- ===== src/Schema/MaxSize.antt =====
-- borsh/src/schema/container_ext/max_size.rs: `max_serialized_size`. A parameter is `usize::MAX`.
use borsh_rs.Base.{
  ℕ, zero, suc, ◌+◌, ◌*◌, Bool, true, false, Option, none, some, List, [], ◌∷◌, if◌then◌else◌, ◌==◌,
  ltb, max, length,
}
use borsh_rs.Schema.{
  Declaration, Definition, primitive, sequence, tuple, enum, struct, BorshSchemaContainer,
  named_fields, unnamed_fields, empty, get_definition, on_stack, Outcome, Walk, ◌>>=◌, ◌>>◌, pure,
  throw, push, pop, out_of_fuel, field_types, map_err, result_of,
}
use borsh_rs.Schema.ZeroSize.{ZeroSizeError, is_zero_size_impl, variant_types}

pub data Error : Type 0 where
  overflow : Error
  recursive : Error
  missing_definition : Declaration → Error

-- `impl From<ZeroSizeError> for Error`
abbrev pub of_zero_size_error : ZeroSizeError → Error
of_zero_size_error ZeroSizeError.recursive = Error.recursive
of_zero_size_error (ZeroSizeError.missing_definition d) = Error.missing_definition d

module _ (usize_max : ℕ) where
  unfoldable pub add : ℕ → ℕ → Walk Error ℕ
  add x y = if ltb usize_max (x + y) then throw overflow else pure (x + y)

  unfoldable pub mul : ℕ → ℕ → Walk Error ℕ
  mul x y = if ltb usize_max (x * y) then throw overflow else pure (x * y)

  -- The loop of `tuple`; `size` is `max_serialized_size_impl(ONE, el, ..)`.
  unfoldable pub sum_sizes : (Declaration → Walk Error ℕ) → ℕ → List Declaration → Walk Error ℕ
  unfolding add
  sum_sizes size sum [] = pure sum
  sum_sizes size sum (el ∷ more) = do sz ← size el; sum' ← add sum sz; sum_sizes size sum' more

  unfoldable pub tuple_size : (Declaration → Walk Error ℕ) → ℕ → List Declaration → Walk Error ℕ
  unfolding sum_sizes mul
  tuple_size size count elements = do sum ← sum_sizes size 0 elements; mul count sum

  -- The loop over the variants of an enum.
  unfoldable pub max_variant : (Declaration → Walk Error ℕ) → ℕ → List Declaration → Walk Error ℕ
  max_variant size biggest [] = pure biggest
  max_variant size biggest (variant ∷ more) = do
    sz ← size variant
    max_variant size (max biggest sz) more

  -- The size of `count` values of a definition; `size n el` is the recursive call.
  unfoldable pub definition_size :
      (ℕ → Declaration → Walk Error ℕ)
      → (Declaration → Walk ZeroSizeError Bool)
      → ℕ
      → Definition
      → Walk Error ℕ
  unfolding add mul tuple_size max_variant
  definition_size size is_zero count (primitive zero) = pure 0
  definition_size size is_zero count (primitive (suc n)) = mul (suc n) count
  definition_size size is_zero count (sequence length_width start end elements) = do
    sz ←
        if ltb usize_max end
        then (do
          zero_sized ← map_err of_zero_size_error (is_zero elements)
          if zero_sized then pure 0 else throw overflow)
        else if end == 0
        then pure 0
        else size end elements
    total ← add sz length_width
    mul count total
  definition_size size is_zero count (enum tag_width variants) = do
    biggest ← max_variant (size 1) 0 (variant_types variants)
    add biggest tag_width
  definition_size size is_zero count (tuple elements) = tuple_size (size 1) count elements
  definition_size size is_zero count (struct (named_fields fields)) =
      tuple_size (size 1) count (field_types (named_fields fields))
  definition_size size is_zero count (struct (unnamed_fields fields)) =
      tuple_size (size 1) count fields
  definition_size size is_zero count (struct empty) = pure 0

  module _ (schema : BorshSchemaContainer) where
    abbrev lookup : Declaration → Option Definition → Walk Error Definition
    lookup d none = throw (missing_definition d)
    lookup d (some def) = pure def

    unfoldable pub max_serialized_size_impl : ℕ → ℕ → Declaration → Walk Error ℕ
    unfolding definition_size is_zero_size_impl
    max_serialized_size_impl zero count d s = (out_of_fuel, s)
    max_serialized_size_impl (suc fuel) count d s = elim (on_stack d s) [
      | true ↦ throw Error.recursive s
      | false ↦
          (do
            push d
            def ← lookup d (get_definition schema d)
            res ←
                definition_size (max_serialized_size_impl fuel)
                  (is_zero_size_impl usize_max schema fuel) count def
            pop
            pure res)
            s
    ]

    unfoldable pub max_serialized_size : Outcome Error ℕ
    unfolding max_serialized_size_impl
    max_serialized_size =
        result_of
          (max_serialized_size_impl (suc (length schema.definitions)) 1 schema.declaration [])
