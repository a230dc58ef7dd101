-- ===== src/Schema/Fuel.antt =====
-- How deep the walks over a schema go, of borsh/src/schema/container_ext.
pub mod ZeroSize
pub mod MaxSize
pub mod Validate
use borsh_rs.Base.{
  ℕ, zero, suc, ◌+◌, ◌-◌, ◌≤◌, ◌<◌, ◌≡◌, ◌≢◌, refl, sym, ap, ◌∙◌, subst, Bool, true, false, Option,
  none, some, List, [], ◌∷◌, ◌++◌, arith, Bool-cases, inl, inr, ◌⊎◌, if◌then◌else◌, length, ◌||◌,
  append_assoc,
}
use borsh_rs.Schema.{
  Declaration, Definition, BorshSchemaContainer, get, get_definition, on_stack, Outcome, ok, err,
  panicked, out_of_fuel, sequence, Walk, and_then, ◌>>=◌, ◌>>◌, pure, throw, push, pop, map_err,
  result_of,
}
use text.Mathlib.Text.{◌==◌ as str_eq}
use text.Mathlib.TextEquality.{eq_iff}
use mathlib.Core.Option.{some-injective}

-- The number of entries whose key is not on the stack.
abbrev pub fresh : List Declaration → List (Declaration × Definition) → ℕ
fresh s [] = 0
fresh s ((k, def) ∷ more) = (if on_stack k s then 0 else 1) + fresh s more

pub fresh-le_length :
    (s : List Declaration) (defs : List (Declaration × Definition)) → fresh s defs ≤ length defs
fresh-le_length s [] = omega arith
fresh-le_length s ((k, def) ∷ more) = ground (arith, fresh-le_length s more)

on_stack-append :
    (d : Declaration) (extra s : List Declaration)
    → on_stack d s ≡ true
    → on_stack d (extra ++ s) ≡ true
unfolding on_stack
on_stack-append d [] s h = h
on_stack-append d (e ∷ extra) s h = ground (arith, on_stack-append d extra s h)

fresh-append :
    (extra s : List Declaration) (defs : List (Declaration × Definition))
    → fresh (extra ++ s) defs ≤ fresh s defs
fresh-append extra s [] = omega arith
fresh-append extra s ((k, def) ∷ more) = elim (Bool-cases (on_stack k s)) [
  | inl e ↦ rw (e, on_stack-append k extra s e) (omega (arith, fresh-append extra s more))
  | inr e ↦ rw e (ground (arith, fresh-append extra s more))
]

on_stack-cons_self : (d : Declaration) (s : List Declaration) → on_stack d (d ∷ s) ≡ true
unfolding on_stack
on_stack-cons_self d s = ground (arith, eq_iff d d)

on_stack-cons_differs :
    (k d : Declaration) (s : List Declaration)
    → str_eq k d ≡ false
    → on_stack k (d ∷ s) ≡ on_stack k s
unfolding on_stack
on_stack-cons_differs k d s h = ground (arith, eq_iff k d, eq_iff d k)

-- A defined declaration that is pushed takes its entry off the fresh ones.
fresh-push :
    (d : Declaration) (s : List Declaration) (defs : List (Declaration × Definition))
    (def : Definition)
    → get d defs ≡ some def
    → on_stack d s ≡ false
    → fresh (d ∷ s) defs < fresh s defs
unfolding get
fresh-push d s [] def h e = cc
fresh-push d s ((k, old) ∷ more) def h e = elim (Bool-cases (str_eq k d)) [
  | inl same ↦
      let k_d : k ≡ d = (eq_iff k d).0 same in
      let free : on_stack k s ≡ false = rw k_d e in
      let taken : on_stack k (d ∷ s) ≡ true = rw k_d (on_stack-cons_self d s) in
      rw (free, taken) (omega (arith, fresh-append (d ∷ []) s more))
  | inr differs ↦
      let rest : fresh (d ∷ s) more < fresh s more = fresh-push d s more def (rw differs at h) e in
      let grows : on_stack k (d ∷ s) ≡ on_stack k s = on_stack-cons_differs k d s differs in
      rw grows (omega (arith, rest))
]

pub Option-cases : {A : Type 0} (o : Option A) → (o ≡ none) ⊎ ((a : A) × (o ≡ some a))
Option-cases none = inl refl
Option-cases (some a) = inr (a, refl)

-- A result leaves a stack that begins with more, a panic has the reason `P`, and the fuel does not end.
abbrev pub Grows :
    {E A : Type 0} → Type 0 → List Declaration → Outcome E A × List Declaration → Type 0
Grows P s (ok a, s') = (extra : List Declaration) × (s' ≡ extra ++ s)
Grows P s (err e, s') = Unit {0}
Grows P s (panicked, s') = P
Grows P s (out_of_fuel, s') = ⊥

-- An outcome that is not the end of the fuel.
abbrev pub Ended : {E A : Type 0} → Type 0 → Outcome E A → Type 0
Ended P (ok a) = Unit {0}
Ended P (err e) = Unit {0}
Ended P panicked = P
Ended P out_of_fuel = ⊥

pub result_of-Ended :
    (P : Type 0) {E A : Type 0} (s : List Declaration) (x : Outcome E A × List Declaration)
    → Grows P s x
    → Ended P (result_of x)
result_of-Ended P s (ok a, s') h = tt
result_of-Ended P s (err x, s') h = tt
result_of-Ended P s (panicked, s') h = h
result_of-Ended P s (out_of_fuel, s') h = absurd h

-- It is a result, unless there is a reason to panic.
pub Ended-cases :
    (P : Type 0) {E A : Type 0} (r : Outcome E A)
    → Ended P r
    → (r ≢ out_of_fuel) × ((r ≢ panicked) ⊎ P)
Ended-cases P (ok a) h = ((λ e. cc), inl λ e. cc)
Ended-cases P (err x) h = ((λ e. cc), inl λ e. cc)
Ended-cases P panicked h = ((λ e. cc), inr h)
Ended-cases P out_of_fuel h = absurd h

-- A sequence without a length whose `count` is no `usize`.
abbrev pub IsLong : ℕ → Definition → Type 0
IsLong usize_max (sequence length_width start end elements) =
    (length_width ≡ 0) × (start ≤ end) × (usize_max < suc (end - start))
IsLong usize_max _ = ⊥

-- One of the definitions is such a sequence.
abbrev pub HasLong : ℕ → List (Declaration × Definition) → Type 0
HasLong usize_max [] = ⊥
HasLong usize_max ((k, def) ∷ more) = IsLong usize_max def ⊎ HasLong usize_max more

pub get-HasLong :
    (usize_max : ℕ) (d : Declaration) (def : Definition) (defs : List (Declaration × Definition))
    → get d defs ≡ some def
    → IsLong usize_max def
    → HasLong usize_max defs
unfolding get
get-HasLong usize_max d def [] h long = cc
get-HasLong usize_max d def ((k, old) ∷ more) h long = elim (Bool-cases (str_eq k d)) [
  | inl same ↦
      let found : some old ≡ some def = rw same at h in
      inl (subst (IsLong usize_max) (sym (some-injective old def found)) long)
  | inr differs ↦ inr (get-HasLong usize_max d def more (rw differs at h) long)
]

Grows-and_then :
    (P : Type 0) {E A B : Type 0} (s : List Declaration) (x : Outcome E A × List Declaration)
    (f : A → Walk E B)
    → Grows P s x
    → ((a : A) (extra : List Declaration) → Grows P s (f a (extra ++ s)))
    → Grows P s (and_then x f)
Grows-and_then P s (ok a, s') f (extra, e) k = subst (λ l. Grows P s (f a l)) (sym e) (k a extra)
Grows-and_then P s (err e, s') f h k = tt
Grows-and_then P s (panicked, s') f h k = h
Grows-and_then P s (out_of_fuel, s') f h k = absurd h

Grows-weaken :
    (P : Type 0) {E A : Type 0} (s extra : List Declaration) (x : Outcome E A × List Declaration)
    → Grows P (extra ++ s) x
    → Grows P s x
Grows-weaken P s extra (ok a, s') (more, e) = (more ++ extra, e ∙ sym (append_assoc more extra s))
Grows-weaken P s extra (err e, s') h = tt
Grows-weaken P s extra (panicked, s') h = h
Grows-weaken P s extra (out_of_fuel, s') h = absurd h

-- What follows a walk below `d` may take `d` off the stack again.
pub Grows-below :
    (P : Type 0) {E A B : Type 0} (d : Declaration) (s : List Declaration)
    (x : Outcome E A × List Declaration) (f : A → Walk E B)
    → Grows P (d ∷ s) x
    → ((a : A) (extra : List Declaration) → Grows P s (f a (extra ++ (d ∷ s))))
    → Grows P s (and_then x f)
Grows-below P d s (ok a, s') f (extra, e) k = subst (λ l. Grows P s (f a l)) (sym e) (k a extra)
Grows-below P d s (err e, s') f h k = tt
Grows-below P d s (panicked, s') f h k = h
Grows-below P d s (out_of_fuel, s') f h k = absurd h

pub Grows-keep :
    (P : Type 0) (E : Type 0) {B : Type 0} (b : B) (extra : List Declaration) (d : Declaration)
    (s : List Declaration)
    → Grows {E = E} P s (pure b (extra ++ (d ∷ s)))
Grows-keep P E b extra d s = (extra ++ (d ∷ []), sym (append_assoc extra (d ∷ []) s))

pub Grows-pop :
    (P : Type 0) (E : Type 0) {B : Type 0} (b : B) (extra : List Declaration) (d : Declaration)
    (s : List Declaration)
    → Grows {E = E} P s ((pop >> pure b) (extra ++ (d ∷ s)))
Grows-pop P E b [] d s = ([], refl)
Grows-pop P E b (e ∷ extra) d s = Grows-keep P E b extra d s

module _ (P : Type 0) (defs : List (Declaration × Definition)) where
  -- From a stack that leaves fewer than `n` entries fresh, the walk ends.
  abbrev pub Ends : {E A : Type 0} → ℕ → Walk E A → Type 0
  Ends n m = (s : List Declaration) → fresh s defs < n → Grows P s (m s)

  pub Ends-if :
      {E A : Type 0} (n : ℕ) (b : Bool) (x y : Walk E A)
      → Ends n x
      → Ends n y
      → Ends n (if b then x else y)
  Ends-if n true x y h k = h
  Ends-if n false x y h k = k

  pub Ends-bind :
      {E A B : Type 0} (n : ℕ) (m : Walk E A) (f : A → Walk E B)
      → Ends n m
      → ((a : A) → Ends n (f a))
      → Ends n (m >>= f)
  Ends-bind n m f h k s small = Grows-and_then P s (m s) f (h s small) λ a extra.
      Grows-weaken P s extra (f a (extra ++ s))
        (k a (extra ++ s) (omega (arith, fresh-append extra s defs, small)))
