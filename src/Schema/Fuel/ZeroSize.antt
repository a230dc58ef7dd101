-- ===== src/Schema/Fuel/ZeroSize.antt =====
-- The fuel of `is_zero_size`, of borsh/src/schema/container_ext/max_size.rs.
use borsh_rs.Base.{
  ℕ, zero, suc, ◌-◌, ◌<◌, ◌≤◌, ◌⊎◌, ltb, if◌then◌else◌, ◌≡◌, ◌≢◌, refl, Bool, true, false, none,
  some, List, [], ◌∷◌, ◌++◌, arith, subst, sym, Bool-cases, inl, inr, length, ◌==◌, ◌&&◌,
}
use borsh_rs.Schema.{
  Declaration, Definition, primitive, sequence, tuple, enum, struct, BorshSchemaContainer,
  get_definition, on_stack, err, out_of_fuel, panicked, Walk, and_then, ◌>>=◌, ◌>>◌, pure,
  field_types,
}
use borsh_rs.Schema.ZeroSize.{
  ZeroSizeError, recursive, missing_definition, all, is_zero_definition, is_zero_size_impl,
  is_zero_size, variant_types, count_is_one, leave,
}
use borsh_rs.Schema.Fuel.{
  HasLong, IsLong, get-HasLong, Ended, Ended-cases, fresh, fresh-le_length, fresh-push,
  Option-cases, Grows, Grows-below, result_of-Ended, Grows-keep, Grows-pop, Ends, Ends-if,
  Ends-bind,
}

-- It panics for a long range only.
pub count_is_one-Ends :
    (E : Type 0) (P : Type 0) (defs : List (Declaration × Definition)) (n usize_max start end : ℕ)
    → ((start ≤ end) × (usize_max < suc (end - start)) → P)
    → Ends P defs {E = E} n (count_is_one usize_max start end)
unfolding count_is_one
count_is_one-Ends E P defs n usize_max start end long s small = elim (Bool-cases (ltb end start)) [
  | inl e ↦ rw e ([], refl)
  | inr e ↦ elim (Bool-cases (ltb usize_max (suc (end - start)))) [
    | inl many ↦ rw (e, many) (long (ground (arith, e), ground (arith, many)))
    | inr few ↦ rw (e, few) ([], refl)
  ]
]

module _ (P : Type 0) (defs : List (Declaration × Definition)) (n : ℕ)
    (is_zero : Declaration → Walk ZeroSizeError Bool)
    (h : (d : Declaration) → Ends P defs n (is_zero d)) where
  all-Ends : (ds : List Declaration) → Ends P defs n (all is_zero ds)
  unfolding all
  all-Ends [] = λ s small. ([], refl)
  all-Ends (d ∷ more) =
      Ends-bind P defs n (is_zero d) _ (h d) λ r.
        Ends-if P defs n r (all is_zero more) (pure false) (all-Ends more) λ s small. ([], refl)

  all_then-Ends :
      (ds : List Declaration)
      → Ends P defs {A = Bool × Bool} n (all is_zero ds >>= λ r. pure (r, true))
  all_then-Ends ds = Ends-bind P defs n (all is_zero ds) _ (all-Ends ds) λ r s small. ([], refl)

  zero_after_count-Ends :
      (elements : Declaration) (array : Bool)
      → Ends P defs {A = Bool × Bool} n (
          if array
          then pure (true, false)
          else (is_zero elements >>= λ r. if r then pure (true, false) else pure (false, true)))
  zero_after_count-Ends elements array =
      Ends-if P defs n array (pure (true, false)) _ (λ s small. ([], refl))
        (Ends-bind P defs n (is_zero elements) _ (h elements) λ r.
          Ends-if P defs n r (pure (true, false)) (pure (false, true)) (λ s small. ([], refl))
            (λ s small. ([], refl)))

  pub is_zero_definition-Ends :
      (usize_max : ℕ) (def : Definition)
      → (IsLong usize_max def → P)
      → Ends P defs n (is_zero_definition usize_max is_zero def)
  unfolding is_zero_definition
  is_zero_definition-Ends usize_max (primitive size) long = λ s small. ([], refl)
  is_zero_definition-Ends usize_max (sequence length_width start end elements) long =
      elim (Bool-cases (length_width == 0)) [
        | inl none_there ↦ rw none_there (
            Ends-bind P defs n (count_is_one usize_max start end) _
              (count_is_one-Ends ZeroSizeError P defs n usize_max start end
                λ (le, many). long (ground (arith, none_there), le, many))
              λ one. zero_after_count-Ends elements (one && start == 0))
        | inr there ↦ rw there (λ s small. ([], refl))
      ]
  is_zero_definition-Ends usize_max (tuple elements) long = all_then-Ends elements
  is_zero_definition-Ends usize_max (enum tag_width variants) long =
      Ends-if P defs n (tag_width == 0) _ (pure (false, true))
        (all_then-Ends (variant_types variants)) (λ s small. ([], refl))
  is_zero_definition-Ends usize_max (struct fields) long = all_then-Ends (field_types fields)

module _ (usize_max : ℕ) (schema : BorshSchemaContainer) where
  -- The reason to panic.
  abbrev Long : Type 0
  Long = HasLong usize_max schema.definitions

  leave-Grows :
      (d : Declaration) (s : List Declaration) (r : Bool × Bool) (extra : List Declaration)
      → Grows Long s ((leave usize_max schema r.1 >> pure r.0) (extra ++ (d ∷ s)))
  leave-Grows d s (r, true) extra = Grows-pop Long ZeroSizeError r extra d s
  leave-Grows d s (r, false) extra = Grows-keep Long ZeroSizeError r extra d s

  impl-on_stack :
      (fuel : ℕ) (d : Declaration) (s : List Declaration)
      → on_stack d s ≡ true
      → is_zero_size_impl usize_max schema (suc fuel) d s ≡ (err recursive, s)
  unfolding is_zero_size_impl
  impl-on_stack fuel d s e = rw (e, is_zero_size_impl)

  impl-undefined :
      (fuel : ℕ) (d : Declaration) (s : List Declaration)
      → on_stack d s ≡ false
      → get_definition schema d ≡ none
      → is_zero_size_impl usize_max schema (suc fuel) d s ≡ (err (missing_definition d), d ∷ s)
  unfolding is_zero_size_impl
  impl-undefined fuel d s e there = rw (e, there, is_zero_size_impl)

  impl-defined :
      (fuel : ℕ) (d : Declaration) (s : List Declaration) (def : Definition)
      → on_stack d s ≡ false
      → get_definition schema d ≡ some def
      → is_zero_size_impl usize_max schema (suc fuel) d s
        ≡ and_then
            (is_zero_definition usize_max (is_zero_size_impl usize_max schema fuel) def (d ∷ s))
            λ r. (leave usize_max schema r.1 >> pure r.0)
  unfolding is_zero_size_impl
  impl-defined fuel d s def e there = rw (e, there, is_zero_size_impl)

  below-Grows :
      (fuel : ℕ) (d : Declaration) (s : List Declaration) (def : Definition)
      → get_definition schema d ≡ some def
      → ((e : Declaration)
          → Ends Long schema.definitions fuel (is_zero_size_impl usize_max schema fuel e))
      → fresh (d ∷ s) schema.definitions < fuel
      → Grows Long s (
          and_then
            (is_zero_definition usize_max (is_zero_size_impl usize_max schema fuel) def (d ∷ s))
            λ r. (leave usize_max schema r.1 >> pure r.0))
  unfolding get_definition
  below-Grows fuel d s def there rec small =
      Grows-below Long d s
        (is_zero_definition usize_max (is_zero_size_impl usize_max schema fuel) def (d ∷ s)) _
        (is_zero_definition-Ends Long schema.definitions fuel
          (is_zero_size_impl usize_max schema fuel) rec usize_max def
          (get-HasLong usize_max d def schema.definitions there) (d ∷ s) small)
        (leave-Grows d s)

  pub is_zero_size_impl-Ends :
      (fuel : ℕ) (d : Declaration)
      → Ends Long schema.definitions fuel (is_zero_size_impl usize_max schema fuel d)
  unfolding is_zero_size_impl get_definition
  is_zero_size_impl-Ends zero d s small = absurd (omega (arith, small))
  is_zero_size_impl-Ends (suc fuel) d s small = elim (Bool-cases (on_stack d s)) [
    | inl e ↦ subst (Grows Long s) (sym (impl-on_stack fuel d s e)) tt
    | inr e ↦ elim (Option-cases (get_definition schema d)) [
      | inl none_there ↦ subst (Grows Long s) (sym (impl-undefined fuel d s e none_there)) tt
      | inr (def, there) ↦ subst (Grows Long s) (sym (impl-defined fuel d s def e there)) (
          below-Grows fuel d s def there (is_zero_size_impl-Ends fuel)
            (omega (arith, small, fresh-push d s schema.definitions def there e)))
    ]
  ]

  pub is_zero_size-Ended : (d : Declaration) → Ended Long (is_zero_size usize_max schema d)
  unfolding is_zero_size
  is_zero_size-Ended d =
      result_of-Ended Long []
        (is_zero_size_impl usize_max schema (suc (length schema.definitions)) d [])
        (is_zero_size_impl-Ends (suc (length schema.definitions)) d []
          (omega (arith, fresh-le_length [] schema.definitions)))

  -- `is_zero_size` never runs out of the fuel it is given, whatever the schema, and it panics only if
  -- a definition of the schema is a sequence without a length that has more items than a `usize` counts.
  pub is_zero_size-ends :
      (d : Declaration)
      → (is_zero_size usize_max schema d ≢ out_of_fuel)
        × ((is_zero_size usize_max schema d ≢ panicked) ⊎ HasLong usize_max schema.definitions)
  is_zero_size-ends d = Ended-cases Long (is_zero_size usize_max schema d) (is_zero_size-Ended d)
