-- ===== src/Schema/SizeBound.antt =====
-- The sizes that the steps of borsh/src/schema/container_ext/max_size.rs find, against the bytes that
-- a definition allows.
use borsh_rs.Base.{
  ℕ, zero, suc, ◌+◌, ◌*◌, ◌≤◌, ◌≡◌, refl, arith, Bool, false, List, [], ◌∷◌, inl, inr,
  if◌then◌else◌, ltb, ◌==◌, Bool-cases,
}
use borsh_rs.Schema.{
  Declaration, Definition, primitive, sequence, tuple, enum, struct, named_fields, unnamed_fields,
  empty, Outcome, ok, err, panicked, out_of_fuel, Walk, and_then, pure,
}
use borsh_rs.Schema.ZeroSize.{ZeroSizeError}
use borsh_rs.Schema.MaxSize.{Error, overflow, add, mul, sum_sizes, tuple_size, definition_size}
use borsh_rs.Schema.Standard.{Definitions}
use native.Mathlib.Nat.{mul-le-mul_left, mul_comm, mul-zero}
use borsh_rs.Schema.Bound.{
  Within, Bounds, Within-nil, Within-cons, Bounds-primitive, Bounds-sequence, Bounds-empty,
  Splits-weaken,
}

-- What came before, if a walk goes on to a result.
pub and_then-ok :
    {E A B : Type 0} (x : Outcome E A × List Declaration) (f : A → Walk E B) (b : B)
    (s' : List Declaration)
    → and_then x f ≡ (ok b, s')
    → (a : A) × (s : List Declaration) × (x ≡ (ok a, s)) × (f a s ≡ (ok b, s'))
and_then-ok (ok a, s) f b s' h = (a, s, refl, h)
and_then-ok (err e, s) f b s' h = cc
and_then-ok (panicked, s) f b s' h = cc
and_then-ok (out_of_fuel, s) f b s' h = cc

module _ (usize_max : ℕ) where
  add-ok : (x y n : ℕ) (s s' : List Declaration) → add usize_max x y s ≡ (ok n, s') → n ≡ x + y
  unfolding add
  add-ok x y n s s' h = elim (Bool-cases (ltb usize_max (x + y))) [
    | inl e ↦
        let bad : (◌≡◌ {A = Outcome Error ℕ × List Declaration} (err overflow, s) (ok n, s')) =
          rw e at h in
        cc
    | inr e ↦
        let same : (◌≡◌ {A = Outcome Error ℕ × List Declaration} (ok (x + y), s) (ok n, s')) =
          rw e at h in
        cc
  ]

  mul-ok : (x y n : ℕ) (s s' : List Declaration) → mul usize_max x y s ≡ (ok n, s') → n ≡ x * y
  unfolding mul
  mul-ok x y n s s' h = elim (Bool-cases (ltb usize_max (x * y))) [
    | inl e ↦
        let bad : (◌≡◌ {A = Outcome Error ℕ × List Declaration} (err overflow, s) (ok n, s')) =
          rw e at h in
        cc
    | inr e ↦
        let same : (◌≡◌ {A = Outcome Error ℕ × List Declaration} (ok (x * y), s) (ok n, s')) =
          rw e at h in
        cc
  ]

  -- No enum, and no sequence of more items than `usize::MAX`.
  abbrev pub IsPlain : Definition → Type 0
  IsPlain (primitive k) = Unit {0}
  IsPlain (sequence w lo hi e) = hi ≤ usize_max
  IsPlain (tuple es) = Unit {0}
  IsPlain (enum w vs) = ⊥
  IsPlain (struct fs) = Unit {0}

  module _ (defs : Definitions) where
    -- A size found for `count` values of a declaration is at least that of each of them, `count` times.
    abbrev pub IsSize : (ℕ → Declaration → Walk Error ℕ) → Type 0
    IsSize size =
        (count : ℕ) (d : Declaration) (s s' : List Declaration) (n : ℕ)
        → size count d s ≡ (ok n, s')
        → (m : ℕ) × (count * m ≤ n) × Within defs (d ∷ []) m

    module _ (size : ℕ → Declaration → Walk Error ℕ) (h : IsSize size) where
      sum_sizes-Within :
          (sum : ℕ) (ds : List Declaration) (s s' : List Declaration) (n : ℕ)
          → sum_sizes usize_max (size 1) sum ds s ≡ (ok n, s')
          → (m : ℕ) × (sum + m ≤ n) × Within defs ds m
      unfolding sum_sizes
      sum_sizes-Within sum [] s s' n e =
          (0, (let same : n ≡ sum = cc in omega (arith, same)), Within-nil defs)
      sum_sizes-Within sum (d ∷ ds) s s' n e =
          let (sz, s1, first, e1) = and_then-ok (size 1 d s) _ n s' e in
          let (total, s2, second, e2) = and_then-ok (add usize_max sum sz s1) _ n s' e1 in
          let (m1, le1, w1) = h 1 d s s1 sz first in
          let (m2, le2, w2) = sum_sizes-Within total ds s2 s' n e2 in
          (
            m1 + m2,
            omega (arith, le1, le2, add-ok sum sz total s1 s2 second),
            Within-cons defs d ds m1 m2 w1 w2,
          )

      tuple_size-Within :
          (count : ℕ) (ds : List Declaration) (s s' : List Declaration) (n : ℕ)
          → tuple_size usize_max (size 1) count ds s ≡ (ok n, s')
          → (m : ℕ) × (count * m ≤ n) × Within defs ds m
      unfolding tuple_size
      tuple_size-Within count ds s s' n e =
          let (sum, s1, first, e1) = and_then-ok (sum_sizes usize_max (size 1) 0 ds s) _ n s' e in
          let (m, le, w) = sum_sizes-Within 0 ds s s1 sum first in
          (m, omega (arith, mul-le-mul_left count le, mul-ok count sum n s1 s' e1), w)

      -- The items of a sequence, of `hi` at most.
      items-Bounds :
          (w lo hi : ℕ) (el : Declaration) (s s' : List Declaration) (sz : ℕ)
          → (if hi == 0 then pure {E = Error} 0 else size hi el) s ≡ (ok sz, s')
          → Bounds defs (sequence w lo hi el) (w + sz)
      items-Bounds w lo zero el s s' sz e ds bs v =
          Splits-weaken defs ds w (w + sz) bs (omega arith) (Bounds-empty defs w lo el ds bs v)
      items-Bounds w lo (suc hi) el s s' sz e ds bs v =
          let some_items : (suc hi == 0) ≡ false = ground arith in
          let (m, le, win) = h (suc hi) el s s' sz (rw some_items at e) in
          Splits-weaken defs ds (w + suc hi * m) (w + sz) bs (omega (arith, le))
            (Bounds-sequence defs w lo (suc hi) el m win ds bs v)

      pub definition_size-Bounds :
          (is_zero : Declaration → Walk ZeroSizeError Bool) (count : ℕ) (def : Definition)
          (s s' : List Declaration) (n : ℕ)
          → IsPlain def
          → definition_size usize_max size is_zero count def s ≡ (ok n, s')
          → (m : ℕ) × (count * m ≤ n) × Bounds defs def m
      unfolding definition_size
      definition_size-Bounds is_zero count (primitive zero) s s' n p e =
          (0, omega (arith, mul-zero count), Bounds-primitive defs 0)
      definition_size-Bounds is_zero count (primitive (suc k)) s s' n p e = (
        suc k,
        omega (arith, mul-ok (suc k) count n s s' e, mul_comm count (suc k)),
        Bounds-primitive defs (suc k),
      )
      definition_size-Bounds is_zero count (sequence w lo hi el) s s' n p e =
          let fits : ltb usize_max hi ≡ false = ground arith in
          let (sz, s1, first, e1) =
            and_then-ok ((if hi == 0 then pure {E = Error} 0 else size hi el) s) _ n s'
              (rw fits at e) in
          let (total, s2, second, e2) = and_then-ok (add usize_max sz w s1) _ n s' e1 in
          (
            w + sz,
            omega (
              arith,
              mul-le-mul_left {m = w + sz} {n = total} count
                  (omega (arith, add-ok sz w total s1 s2 second)),
              mul-ok count total n s2 s' e2,
            ),
            items-Bounds w lo hi el s s1 sz first,
          )
      definition_size-Bounds is_zero count (tuple es) s s' n p e =
          tuple_size-Within count es s s' n e
      definition_size-Bounds is_zero count (enum w vs) s s' n p e = absurd p
      definition_size-Bounds is_zero count (struct (named_fields fs)) s s' n p e =
          tuple_size-Within count _ s s' n e
      definition_size-Bounds is_zero count (struct (unnamed_fields ds)) s s' n p e =
          tuple_size-Within count ds s s' n e
      definition_size-Bounds is_zero count (struct empty) s s' n p e =
          (0, omega (arith, mul-zero count), Within-nil defs)
