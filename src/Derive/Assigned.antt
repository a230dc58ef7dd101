-- ===== src/Derive/Assigned.antt =====
-- borsh-derive/src/internals/enum_discriminant.rs: the discriminants against those that rustc
-- assigns.
use borsh_rs.Base.{
  ℕ, zero, suc, ◌≢◌, ◌+◌, ◌*◌, ◌^◌, ◌%◌, ◌<◌, String, ◌≡◌, refl, sym, ap, ap₂, ◌∙◌, subst, arith,
  true, Option, none, some, List, [], ◌∷◌, ◌++◌, ltb, lt→ltb,
}
use borsh_rs.Derive.{unit}
use native.Mathlib.Nat.{pow-suc}
use mathlib.Core.Option.{some-injective}
use borsh_rs.Derive.Item.{
  Tokens, number, plus, shift_left, Variant, Discriminants, map_or_else, discriminants_from, new,
  value, value_from, checked,
}

-- A number, and the numbers that are added to it.
abbrev pub sum : List ℕ → Tokens
sum [] = []
sum (n ∷ ns) = plus ∷ number n ∷ sum ns

abbrev pub IsSum : Tokens → Type 0
IsSum e = (n : ℕ) × (ns : List ℕ) × (e ≡ number n ∷ sum ns)

abbrev pub SumsOnly : List Variant → Type 0
SumsOnly [] = Unit {0}
SumsOnly (v ∷ vs) = ((e : Tokens) → v.discriminant ≡ some e → IsSum e) × SumsOnly vs

-- One more than a value, in `bits` bits.
abbrev pub successor : ℕ → Option ℕ → Option ℕ
successor bits none = none
successor bits (some s) = checked bits (s + 1)

abbrev explicit_or : ℕ → Option Tokens → Option ℕ → Option ℕ
explicit_or bits none next = next
explicit_or bits (some e) next = value bits e

-- What the reference of Rust says: the value that is written, or else one more than the previous
-- one's.
abbrev pub assigned_from : ℕ → Option ℕ → List Variant → List (String × Option ℕ)
assigned_from bits next [] = []
assigned_from bits next (v ∷ vs) =
    (v.ident, explicit_or bits v.discriminant next)
    ∷ assigned_from bits (successor bits (explicit_or bits v.discriminant next)) vs

abbrev pub assigned : ℕ → List Variant → List (String × Option ℕ)
assigned bits variants = assigned_from bits (checked bits 0) variants

abbrev pub values : ℕ → Discriminants → List (String × Option ℕ)
values bits [] = []
values bits ((k, e) ∷ more) = (k, value bits e) ∷ values bits more

ended : (bits : ℕ) (o : Option ℕ) → value_from bits none o [] ≡ o
unfolding value_from
ended bits none = refl
ended bits (some s) = refl

value_from-successor :
    (bits : ℕ) (ns : List ℕ) (o : Option ℕ)
    → value_from bits none o (sum ns ++ (plus ∷ number 1 ∷ []))
      ≡ successor bits (value_from bits none o (sum ns))
unfolding value_from
value_from-successor bits [] none = refl
value_from-successor bits [] (some s) = ended bits (checked bits (s + 1))
value_from-successor bits (n ∷ ns) none = refl
value_from-successor bits (n ∷ ns) (some s) = value_from-successor bits ns (checked bits (s + n))

value-successor :
    (bits : ℕ) (e : Tokens)
    → IsSum e
    → value bits (e ++ (plus ∷ number 1 ∷ [])) ≡ successor bits (value bits e)
unfolding value
value-successor bits e (n, ns, h) =
    subst (λ x. value bits (x ++ (plus ∷ number 1 ∷ [])) ≡ successor bits (value bits x)) (sym h)
      (value_from-successor bits ns (checked bits n))

sum-append : (ns : List ℕ) → sum ns ++ (plus ∷ number 1 ∷ []) ≡ sum (ns ++ (1 ∷ []))
sum-append [] = refl
sum-append (n ∷ ns) = ap (λ x. plus ∷ number n ∷ x) (sum-append ns)

IsSum-next : (e : Tokens) → IsSum e → IsSum (e ++ (plus ∷ number 1 ∷ []))
IsSum-next e (n, ns, h) = (
  n,
  ns ++ (1 ∷ []),
  ap (λ x. x ++ (plus ∷ number 1 ∷ [])) h ∙ ap (λ x. number n ∷ x) (sum-append ns),
)

map_or_else-IsSum :
    (d : Option Tokens) (next : Tokens)
    → ((e : Tokens) → d ≡ some e → IsSum e)
    → IsSum next
    → IsSum (map_or_else d next)
map_or_else-IsSum none next h k = k
map_or_else-IsSum (some e) next h k = h e refl

value-map_or_else :
    (bits : ℕ) (d : Option Tokens) (next : Tokens)
    → value bits (map_or_else d next) ≡ explicit_or bits d (value bits next)
value-map_or_else bits none next = refl
value-map_or_else bits (some e) next = refl

discriminants_from-assigned :
    (bits : ℕ) (next : Tokens) (variants : List Variant)
    → IsSum next
    → SumsOnly variants
    → values bits (discriminants_from next variants) ≡ assigned_from bits (value bits next) variants
unfolding discriminants_from
discriminants_from-assigned bits next [] k h = refl
discriminants_from-assigned bits next (v ∷ vs) k h =
    let this_sum = map_or_else-IsSum v.discriminant next h.0 k in
    let e = value-map_or_else bits v.discriminant next in
    ap₂ (λ (x : Option ℕ) (xs : List (String × Option ℕ)). (v.ident, x) ∷ xs) e
      (discriminants_from-assigned bits _ vs (IsSum-next _ this_sum) h.1
        ∙ ap (λ (x : Option ℕ). assigned_from bits x vs)
            (value-successor bits _ this_sum ∙ ap (successor bits) e))

-- As long as each explicit discriminant is a number or a sum of numbers, the discriminants that
-- `Discriminants::new` computes have the values that rustc assigns to the variants.
pub new-assigned :
    (bits : ℕ) (variants : List Variant)
    → SumsOnly variants
    → values bits (new variants) ≡ assigned bits variants
unfolding new value value_from
new-assigned bits variants h =
    discriminants_from-assigned bits (number 0 ∷ []) variants (0, [], refl) h
    ∙ ap (λ (o : Option ℕ). assigned_from bits o variants) (ended bits (checked bits 0))

-- `enum { first = a << b, second }`
abbrev pub shifted_then_next : String → String → ℕ → ℕ → List Variant
shifted_then_next first second a b =
    (record {
      ident = first;
      fields = unit;
      discriminant = some (number a ∷ shift_left ∷ number b ∷ []);
    })
    ∷ (record { ident = second; fields = unit; discriminant = none })
    ∷ []

value_at : ℕ → List (String × Option ℕ) → Option ℕ
value_at i [] = none
value_at zero ((k, v) ∷ more) = v
value_at (suc i) ((k, v) ∷ more) = value_at i more

second_value :
    (first second : String) (u v w x : ℕ)
    → (◌≡◌ {A = List (String × Option ℕ)}
        ((first, some u) ∷ (second, some v) ∷ [])
        ((first, some w) ∷ (second, some x) ∷ []))
    → v ≡ x
unfolding value_at
second_value first second u v w x h = some-injective v x (ap (value_at 1) h)

succ : (b : ℕ) → b + 1 ≡ suc b
succ b = omega arith

scale : (a p : ℕ) → a * (2 * p) ≡ 2 * (a * p)
scale a p = grind arith

shifted_values :
    (first second : String) (a b : ℕ)
    → a < 256
    → b < 7
    → 2 * (a * 2 ^ b) < 256
    → (values 8 (new (shifted_then_next first second a b))
        ≡ (first, some (a * 2 ^ b)) ∷ (second, some (2 * (a * 2 ^ b))) ∷ [])
      × (assigned 8 (shifted_then_next first second a b)
          ≡ (first, some (a * 2 ^ b)) ∷ (second, some (a * 2 ^ b + 1)) ∷ [])
unfolding new discriminants_from value value_from
shifted_values first second a b small_a small_b small =
    let fits : ltb a 256 ≡ true = lt→ltb a 256 small_a in
    let few : ltb b 8 ≡ true = lt→ltb b 8 (omega (arith, small_b)) in
    let short : ltb b 256 ≡ true = lt→ltb b 256 (omega (arith, small_b)) in
    let few' : ltb (b + 1) 8 ≡ true = lt→ltb (b + 1) 8 (omega (arith, small_b)) in
    let short' : ltb (b + 1) 256 ≡ true = lt→ltb (b + 1) 256 (omega (arith, small_b)) in
    let once : (a * 2 ^ b) % 256 ≡ a * 2 ^ b = omega (arith, small) in
    let step : 2 ^ (b + 1) ≡ 2 * 2 ^ b = ap (λ x. 2 ^ x) (succ b) ∙ omega (arith, pow-suc 2 b) in
    let doubled : a * 2 ^ (b + 1) ≡ 2 * (a * 2 ^ b) = ap (λ x. a * x) step ∙ scale a (2 ^ b) in
    let twice : (a * 2 ^ (b + 1)) % 256 ≡ 2 * (a * 2 ^ b) = omega (arith, doubled, small) in
    let next : ltb (a * 2 ^ b + 1) 256 ≡ true = lt→ltb (a * 2 ^ b + 1) 256 (omega (arith, small)) in
    (
      rw (fits, value_from, short, few, short', few', once, twice) refl,
      rw (fits, value_from, short, few, once, next) refl,
    )

-- After a discriminant `a << b` in a byte, of at least 2 and less than 128, the next variant is given
-- twice the value. `rustc` assigns one more than the value, which is another one.
pub new-after_shift :
    (first second : String) (a b : ℕ)
    → a < 256
    → b < 7
    → 1 < a * 2 ^ b
    → 2 * (a * 2 ^ b) < 256
    → (values 8 (new (shifted_then_next first second a b))
        ≡ (first, some (a * 2 ^ b)) ∷ (second, some (2 * (a * 2 ^ b))) ∷ [])
      × (assigned 8 (shifted_then_next first second a b)
          ≡ (first, some (a * 2 ^ b)) ∷ (second, some (a * 2 ^ b + 1)) ∷ [])
      × (values 8 (new (shifted_then_next first second a b))
          ≢ assigned 8 (shifted_then_next first second a b))
new-after_shift first second a b small_a small_b many small =
    let (computed, right) = shifted_values first second a b small_a small_b small in
    (
      computed,
      right,
      λ same.
          let twice : 2 * (a * 2 ^ b) ≡ a * 2 ^ b + 1 =
            second_value first second _ _ _ _ (sym computed ∙ same ∙ right) in
          absurd (omega (arith, twice, many)),
    )
