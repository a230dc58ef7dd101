-- ===== src/Schema/Defects.antt =====
-- Zero-length arrays and enums in borsh/src/schema/container_ext/max_size.rs.
use borsh_rs.Base.{
  ℕ, zero, suc, ◌-◌, ◌<◌, length, ◌≡◌, ◌≢◌, refl, true, false, some, List, [], ◌∷◌, arith,
  Bool-cases, ltb, inl, inr, subst,
}
use borsh_rs.Schema.{
  Declaration, sequence, tuple, enum, BorshSchemaContainer, get_definition, on_stack, ok, err,
  result_of,
}
use borsh_rs.Schema.ZeroSize.{ZeroSizeError, is_zero_size_impl, is_zero_size}
use borsh_rs.Schema.MaxSize.{max_serialized_size_impl}
use borsh_rs.Num.{ℤ}
use Prim.Native.String.{String}
use text.Mathlib.TextEquality.{eq_iff}

on_stack-nil : (d : Declaration) → on_stack d [] ≡ false
unfolding on_stack
on_stack-nil d = refl

on_stack-cons_ne :
    (d top : Declaration) (rest : List Declaration)
    → top ≢ d
    → on_stack d rest ≡ false
    → on_stack d (top ∷ rest) ≡ false
unfolding on_stack
on_stack-cons_ne d top rest ne h = ground (arith, eq_iff top d)

on_stack-cons_self : (d : Declaration) (rest : List Declaration) → on_stack d (d ∷ rest) ≡ true
unfolding on_stack
on_stack-cons_self d rest = ground (arith, eq_iff d d)

module _ (usize_max : ℕ) (schema : BorshSchemaContainer) (array pair : Declaration) where
  -- A zero-length array alone is found to be zero-sized.
  pub is_zero_size-empty_array :
      (elements : Declaration)
      → 0 < usize_max
      → get_definition schema array ≡ some (sequence 0 0 0 elements)
      → is_zero_size usize_max schema array ≡ ok true
  unfolding is_zero_size
  is_zero_size-empty_array elements big h =
      let fits : ltb usize_max 1 ≡ false = ground arith in
      rw (on_stack-nil array, h, fits, is_zero_size_impl)

  -- The walk at any fuel that is enough for it, from an empty stack.
  two_empty_arrays-impl :
      (elements : Declaration) (fuel : ℕ)
      → 0 < usize_max
      → pair ≢ array
      → get_definition schema array ≡ some (sequence 0 0 0 elements)
      → get_definition schema pair ≡ some (tuple (array ∷ array ∷ []))
      → result_of (is_zero_size_impl usize_max schema (suc (suc fuel)) pair [])
        ≡ err ZeroSizeError.recursive
  unfolding is_zero_size_impl
  two_empty_arrays-impl elements fuel big ne ha hp =
      let fits : ltb usize_max 1 ≡ false = ground arith in
      rw (
        on_stack-nil pair,
        hp,
        on_stack-cons_ne array pair [] ne (on_stack-nil array),
        ha,
        fits,
        on_stack-cons_self array (pair ∷ []),
        is_zero_size_impl,
      )

  -- In a schema with a definition, at a `usize::MAX` above 0, `is_zero_size` takes a pair of two
  -- zero-length arrays of one type, itself of another name, for a recursive type.
  pub is_zero_size-two_empty_arrays :
      (elements : Declaration)
      → 0 < usize_max
      → 0 < length schema.definitions
      → pair ≢ array
      → get_definition schema array ≡ some (sequence 0 0 0 elements)
      → get_definition schema pair ≡ some (tuple (array ∷ array ∷ []))
      → is_zero_size usize_max schema pair ≡ err ZeroSizeError.recursive
  unfolding is_zero_size
  is_zero_size-two_empty_arrays elements big some_defs ne ha hp =
      let deep : suc (length schema.definitions - 1) ≡ length schema.definitions = omega arith in
      subst
        (λ (n : ℕ).
          result_of (is_zero_size_impl usize_max schema (suc n) pair [])
          ≡ err ZeroSizeError.recursive)
        deep (two_empty_arrays-impl elements (length schema.definitions - 1) big ne ha hp)

-- The size found for an enum is that of one value, for every `count` of values.
pub max_serialized_size_impl-enum :
    (usize_max : ℕ) (schema : BorshSchemaContainer) (fuel count : ℕ) (d : Declaration)
    (tag_width : ℕ) (variants : List (ℤ × String × Declaration)) (stack : List Declaration)
    → get_definition schema d ≡ some (enum tag_width variants)
    → max_serialized_size_impl usize_max schema fuel count d stack
      ≡ max_serialized_size_impl usize_max schema fuel 1 d stack
unfolding max_serialized_size_impl
max_serialized_size_impl-enum usize_max schema zero count d tag_width variants stack h = refl
max_serialized_size_impl-enum usize_max schema (suc fuel) count d tag_width variants stack h =
    elim (Bool-cases (on_stack d stack)) [
      | inl e ↦ rw (e, max_serialized_size_impl)
      | inr e ↦ rw (e, h, max_serialized_size_impl)
    ]
