-- ===== src/Schema/MaxBound.antt =====
-- The size that `max_serialized_size` of borsh/src/schema/container_ext/max_size.rs finds, step by
-- step of its walk.
use borsh_rs.Base.{
  ℕ, zero, suc, ◌+◌, ◌≤◌, ◌≡◌, refl, sym, ap, ◌∙◌, subst, arith, some, List, [], ◌∷◌, length, inl,
  inr, Bool-cases, length-append, All,
}
use text.Mathlib.Text.{◌==◌ as str_eq}
use borsh_rs.Schema.{
  Declaration, Definition, get, get_definition, BorshSchemaContainer, Outcome, ok, err, out_of_fuel,
  ◌>>◌, pure, pop, on_stack, result_of,
}
use borsh_rs.Schema.ZeroSize.{is_zero_size_impl}
use borsh_rs.Schema.MaxSize.{Error, max_serialized_size_impl, max_serialized_size}
use borsh_rs.Schema.Standard.{Definitions}
use borsh_rs.Schema.Conforms.{Conforms, done}
use borsh_rs.Schema.Fuel.{Option-cases}
use borsh_rs.Schema.Fuel.MaxSize.{impl-on_stack, impl-undefined, impl-defined, inside}
use mathlib.Core.Option.{some-injective}
use borsh_rs.Schema.Bound.{Conforms-Value}
use borsh_rs.Schema.SizeBound.{and_then-ok, IsPlain, IsSize, definition_size-Bounds}

-- What a walk goes on with once its declaration is off the stack.
popped :
    (r n : ℕ) (s s' : List Declaration)
    → (pop {E = Error} >> pure {E = Error} r) s ≡ (ok n, s')
    → r ≡ n
popped r n [] s' h =
    let same : (◌≡◌ {A = Outcome Error ℕ × List Declaration} (ok r, []) (ok n, s')) = h in cc
popped r n (d ∷ s) s' h =
    let same : (◌≡◌ {A = Outcome Error ℕ × List Declaration} (ok r, s) (ok n, s')) = h in cc

-- The first bytes, if the walk of a schema ends well.
walked :
    (x : Outcome Error ℕ × List Declaration) (n : ℕ)
    → result_of x ≡ ok n
    → (s : List Declaration) × (x ≡ (ok n, s))
walked (o, s) n h = (s, ap (λ (k : Outcome Error ℕ). (k, s)) h)

nothing_left : (defs : Definitions) (bs : List ℕ) → Conforms defs [] bs → bs ≡ []
nothing_left defs [] done = refl
nothing_left defs (b ∷ bs) c = elim c [ ]

module _ (usize_max : ℕ) where
  abbrev pub IsPlainSchema : BorshSchemaContainer → Type 0
  IsPlainSchema schema =
      All (λ (entry : Declaration × Definition). IsPlain usize_max entry.1) schema.definitions

  get-IsPlain :
      (d : Declaration) (def : Definition) (defs : Definitions)
      → All (λ (entry : Declaration × Definition). IsPlain usize_max entry.1) defs
      → get d defs ≡ some def
      → IsPlain usize_max def
  unfolding get
  get-IsPlain d def [] p h = cc
  get-IsPlain d def ((k, first) ∷ more) p h = elim (Bool-cases (str_eq k d)) [
    | inl e ↦
        let found : some first ≡ some def = rw e at h in
        subst (IsPlain usize_max) (some-injective _ _ found) p.0
    | inr e ↦ get-IsPlain d def more p.1 (rw e at h)
  ]

  max_serialized_size_impl-IsSize :
      (schema : BorshSchemaContainer)
      → IsPlainSchema schema
      → (fuel : ℕ)
      → IsSize usize_max schema.definitions (max_serialized_size_impl usize_max schema fuel)
  unfolding max_serialized_size_impl get_definition
  max_serialized_size_impl-IsSize schema p zero count d s s' n e =
      let bad : (◌≡◌ {A = Outcome Error ℕ × List Declaration} (out_of_fuel, s) (ok n, s')) = e in cc
  max_serialized_size_impl-IsSize schema p (suc fuel) count d s s' n e =
      elim (Bool-cases (on_stack d s)) [
        | inl on ↦
            let bad : (◌≡◌ {A = Outcome Error ℕ × List Declaration} (err Error.recursive, s)
                (ok n, s')) =
              sym (impl-on_stack usize_max schema fuel count d s on) ∙ e in
            cc
        | inr off ↦ elim (Option-cases (get_definition schema d)) [
          | inl undefined ↦
              let bad : (◌≡◌ {A = Outcome Error ℕ × List Declaration}
                  (err (Error.missing_definition d), d ∷ s) (ok n, s')) =
                sym (impl-undefined usize_max schema fuel count d s off undefined) ∙ e in
              cc
          | inr (def, there) ↦
              let (r, s1, first, e1) =
                and_then-ok (inside usize_max schema fuel count d def s) (λ r. (pop >> pure r)) n s'
                  (sym (impl-defined usize_max schema fuel count d s def off there) ∙ e) in
              let (m, le, b) =
                definition_size-Bounds usize_max schema.definitions
                  (max_serialized_size_impl usize_max schema fuel)
                  (max_serialized_size_impl-IsSize schema p fuel)
                  (is_zero_size_impl usize_max schema fuel) count def (d ∷ s) s1 r
                  (get-IsPlain d def schema.definitions p there) first in
              let same : r ≡ n = popped r n s1 s' e1 in
              (
                m,
                omega (arith, le, same),
                λ ds bs c. b ds bs (Conforms-Value schema.definitions d def ds bs there c),
              )
        ]
      ]

  -- In a schema without enums and without sequences of more items than `usize::MAX`, no value of the
  -- declaration takes more bytes than the number that `max_serialized_size` returns.
  pub max_serialized_size-Conforms :
      (schema : BorshSchemaContainer)
      → IsPlainSchema schema
      → (n : ℕ) → max_serialized_size usize_max schema ≡ ok n
      → (bs : List ℕ) → Conforms schema.definitions (schema.declaration ∷ []) bs
      → length bs ≤ n
  unfolding max_serialized_size
  max_serialized_size-Conforms schema p n h bs c =
      let (s, e) =
        walked
          (max_serialized_size_impl usize_max schema (suc (length schema.definitions)) 1
            schema.declaration [])
          n h in
      let (m, le, w) =
        max_serialized_size_impl-IsSize schema p (suc (length schema.definitions)) 1
          schema.declaration [] s n e in
      let (used, rest, eq, l, c') = w [] bs c in
      let whole : length bs ≡ length used + length rest = ap length eq ∙ length-append used rest in
      omega (arith, le, l, whole, ap length (nothing_left schema.definitions rest c'))
