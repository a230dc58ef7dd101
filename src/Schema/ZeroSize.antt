-- ===== src/Schema/ZeroSize.antt =====
-- borsh/src/schema/container_ext/max_size.rs: `is_zero_size`.
use borsh_rs.Base.{
  ℕ, zero, suc, ◌-◌, ltb, Bool, true, false, Option, none, some, List, [], ◌∷◌, if◌then◌else◌, ◌==◌,
  ◌&&◌, length,
}
use borsh_rs.Schema.{
  Declaration, Definition, primitive, sequence, tuple, enum, struct, BorshSchemaContainer,
  get_definition, on_stack, Outcome, ok, panicked, Walk, ◌>>=◌, ◌>>◌, pure, throw, push, pop,
  out_of_fuel, field_types, result_of,
}
use borsh_rs.Num.{ℤ}
use Prim.Native.String.{String}

pub data ZeroSizeError : Type 0 where
  recursive : ZeroSizeError
  missing_definition : Declaration → ZeroSizeError

-- `length_range.count() == 1` of a range of `u64`. `count` of Rust's library counts in a `usize`, and
-- panics if there are more items.
unfoldable pub count_is_one : {E : Type 0} → ℕ → ℕ → ℕ → Walk E Bool
count_is_one usize_max start end s =
    if ltb end start
    then (ok false, s)
    else if ltb usize_max (suc (end - start))
    then (panicked, s)
    else (ok (start == end), s)

abbrev pub variant_types : List (ℤ × String × Declaration) → List Declaration
variant_types [] = []
variant_types ((i, n, d) ∷ more) = d ∷ variant_types more

-- The helper `all`: it stops at the first declaration that is not zero-sized.
unfoldable pub all :
    (Declaration → Walk ZeroSizeError Bool) → List Declaration → Walk ZeroSizeError Bool
all is_zero [] = pure true
all is_zero (d ∷ more) = do
  zero_sized ← is_zero d
  if zero_sized then all is_zero more else pure false

-- The result for a definition, and whether the walk returns it without `stack.pop()`.
unfoldable pub is_zero_definition :
    ℕ → (Declaration → Walk ZeroSizeError Bool) → Definition → Walk ZeroSizeError (Bool × Bool)
unfolding all count_is_one
is_zero_definition usize_max is_zero (primitive size) = pure (size == 0, true)
is_zero_definition usize_max is_zero (sequence length_width start end elements) =
    if length_width == 0
    then (do
      one ← count_is_one usize_max start end
      if one && start == 0 then pure (true, false) else do
        zero_sized ← is_zero elements
        if zero_sized then pure (true, false) else pure (false, true))
    else pure (false, true)
is_zero_definition usize_max is_zero (tuple elements) = do r ← all is_zero elements; pure (r, true)
is_zero_definition usize_max is_zero (enum tag_width variants) =
    if tag_width == 0
    then (do r ← all is_zero (variant_types variants); pure (r, true))
    else pure (false, true)
is_zero_definition usize_max is_zero (struct fields) = do
  r ← all is_zero (field_types fields)
  pure (r, true)

module _ (usize_max : ℕ) (schema : BorshSchemaContainer) where
  -- `schema.get_definition(declaration).ok_or(declaration)`
  abbrev lookup : Declaration → Option Definition → Walk ZeroSizeError Definition
  lookup d none = throw (missing_definition d)
  lookup d (some def) = pure def

  abbrev pub leave : Bool → Walk ZeroSizeError (Unit {0})
  leave true = pop
  leave false = pure tt

  unfoldable pub is_zero_size_impl : ℕ → Declaration → Walk ZeroSizeError Bool
  unfolding is_zero_definition
  is_zero_size_impl zero d s = (out_of_fuel, s)
  is_zero_size_impl (suc fuel) d s = elim (on_stack d s) [
    | true ↦ throw recursive s
    | false ↦
        (do
          push d
          def ← lookup d (get_definition schema d)
          (res, pops) ← is_zero_definition usize_max (is_zero_size_impl fuel) def
          leave pops
          pure res)
          s
  ]

  -- The walk from an empty stack. A declaration on the stack ends the walk, and one that has no
  -- definition does too, so no walk is deeper than there are definitions.
  unfoldable pub is_zero_size : Declaration → Outcome ZeroSizeError Bool
  unfolding is_zero_size_impl
  is_zero_size d = result_of (is_zero_size_impl (suc (length schema.definitions)) d [])
