-- ===== src/Schema/Bound.antt =====
-- `max_serialized_size` of borsh/src/schema/container_ext/max_size.rs against the bytes that a
-- schema allows.
use borsh_rs.Base.{
  ℕ, zero, suc, ◌+◌, ◌*◌, ◌≤◌, ◌≡◌, refl, sym, ap, ◌∙◌, subst, arith, some, List, [], ◌∷◌, ◌++◌,
  length, replicate, append_assoc, length-append,
}
use borsh_rs.Num.{to_le_bytes, length-to_le_bytes}
use borsh_rs.Schema.{
  Declaration, Definition, primitive, sequence, tuple, enum, struct, field_types, get,
}
use borsh_rs.Schema.Standard.{Definitions}
use borsh_rs.Schema.Conforms.{Conforms, bytes_of, items_of, members_of, variant_of, fields_of}
use mathlib.Core.Option.{some-injective}
use native.Mathlib.Nat.{mul-le-mul_right, suc-mul}

module _ (defs : Definitions) where
  -- At most `m` bytes at the front, and then values of `ds`.
  abbrev pub Splits : List Declaration → ℕ → List ℕ → Type 0
  Splits ds m bs =
      (used : List ℕ) × (rest : List ℕ) × (bs ≡ used ++ rest)
      × (length used ≤ m)
      × Conforms defs ds rest

  -- Values of `es`, one after the other, take at most `m` bytes.
  abbrev pub Within : List Declaration → ℕ → Type 0
  Within es m = (ds : List Declaration) (bs : List ℕ) → Conforms defs (es ++ ds) bs → Splits ds m bs

  Splits-more :
      (ds : List Declaration) (a m : ℕ) (bs used rest : List ℕ)
      → bs ≡ used ++ rest
      → length used ≤ a
      → Splits ds m rest
      → Splits ds (a + m) bs
  Splits-more ds a m bs used rest e l (xs, ys, e', l', c) = (
    used ++ xs,
    ys,
    e ∙ ap (λ (k : List ℕ). used ++ k) e' ∙ sym (append_assoc used xs ys),
    omega (arith, length-append used xs, l, l'),
    c,
  )

  pub Splits-weaken :
      (ds : List Declaration) (a m : ℕ) (bs : List ℕ) → a ≤ m → Splits ds a bs → Splits ds m bs
  Splits-weaken ds a m bs h (xs, ys, e, l, c) = (xs, ys, e, omega (arith, h, l), c)

  pub Within-nil : Within [] 0
  Within-nil ds bs c = ([], bs, refl, omega arith, c)

  pub Within-cons :
      (e : Declaration) (es : List Declaration) (a m : ℕ)
      → Within (e ∷ []) a
      → Within es m
      → Within (e ∷ es) (a + m)
  Within-cons e es a m h k ds bs c =
      let (used, rest, eq, l, c') = h (es ++ ds) bs c in
      Splits-more ds a m bs used rest eq l (k ds rest c')

  Within-replicate :
      (n : ℕ) (e : Declaration) (m : ℕ) → Within (e ∷ []) m → Within (replicate n e) (n * m)
  Within-replicate zero e m h ds bs c =
      Splits-weaken ds 0 (0 * m) bs (omega arith) (Within-nil ds bs c)
  Within-replicate (suc n) e m h ds bs c =
      Splits-weaken ds (m + n * m) (suc n * m) bs (omega (arith, suc-mul n m))
        (Within-cons e (replicate n e) m (n * m) h (Within-replicate n e m h) ds bs c)

  -- The bytes of a value with this definition, and of what follows it.
  abbrev pub Value : Definition → List Declaration → List ℕ → Type 0
  Value (primitive k) ds bs =
      (used : List ℕ) × (rest : List ℕ) × (length used ≡ k)
      × (bs ≡ used ++ rest)
      × Conforms defs ds rest
  Value (sequence w lo hi e) ds bs =
      (n : ℕ) × (rest : List ℕ) × (n ≤ hi)
      × (bs ≡ to_le_bytes w n ++ rest)
      × Conforms defs (replicate n e ++ ds) rest
  Value (tuple es) ds bs = Conforms defs (es ++ ds) bs
  Value (enum w vs) ds bs = Unit {0}
  Value (struct fs) ds bs = Conforms defs (field_types fs ++ ds) bs

  pub Conforms-Value :
      (d : Declaration) (def : Definition) (ds : List Declaration) (bs : List ℕ)
      → get d defs ≡ some def
      → Conforms defs (d ∷ ds) bs
      → Value def ds bs
  Conforms-Value d def ds bs h (bytes_of n used rest g l e c) =
      subst (λ x. Value x ds bs) (some-injective _ _ (sym g ∙ h)) (used, rest, l, e, c)
  Conforms-Value d def ds bs h (items_of w lo hi el n rest g l u e c) =
      subst (λ x. Value x ds bs) (some-injective _ _ (sym g ∙ h)) (n, rest, u, e, c)
  Conforms-Value d def ds bs h (members_of es g c) =
      subst (λ x. Value x ds bs) (some-injective _ _ (sym g ∙ h)) c
  Conforms-Value d def ds bs h (variant_of w vs v rest g i e c) =
      subst (λ x. Value x ds bs) (some-injective _ _ (sym g ∙ h)) tt
  Conforms-Value d def ds bs h (fields_of fs g c) =
      subst (λ x. Value x ds bs) (some-injective _ _ (sym g ∙ h)) c

  -- Each value of the definition takes at most `m` bytes.
  abbrev pub Bounds : Definition → ℕ → Type 0
  Bounds def m = (ds : List Declaration) (bs : List ℕ) → Value def ds bs → Splits ds m bs

  pub Bounds-primitive : (k : ℕ) → Bounds (primitive k) k
  Bounds-primitive k ds bs (used, rest, l, e, c) = (used, rest, e, omega (arith, l), c)

  pub Bounds-sequence :
      (w lo hi : ℕ) (e : Declaration) (m : ℕ)
      → Within (e ∷ []) m
      → Bounds (sequence w lo hi e) (w + hi * m)
  Bounds-sequence w lo hi e m h ds bs (n, rest, u, eq, c) =
      Splits-more ds w (hi * m) bs (to_le_bytes w n) rest eq (omega (arith, length-to_le_bytes w n))
        (Splits-weaken ds (n * m) (hi * m) rest (mul-le-mul_right m u)
          (Within-replicate n e m h ds rest c))

  -- An empty sequence is its length.
  pub Bounds-empty : (w lo : ℕ) (e : Declaration) → Bounds (sequence w lo 0 e) w
  Bounds-empty w lo e ds bs (zero, rest, u, eq, c) =
      (to_le_bytes w 0, rest, eq, omega (arith, length-to_le_bytes w 0), c)
  Bounds-empty w lo e ds bs (suc n, rest, u, eq, c) = absurd (omega (arith, u))
