-- ===== src/De/Consumes.antt =====
-- What a deserializer of borsh/src/de/mod.rs accepts of a slice, and the bytes that it uses.
use borsh_rs.Base.{
  ℕ, ◌≡◌, refl, sym, ap, ◌∙◌, subst, arith, Bool, true, false, List, [], ◌∷◌, ◌++◌, length, take,
  if◌then◌else◌, append_assoc, append-nil, take-append-drop, length-take,
}
use borsh_rs.Io.{M, Result, Error, ok, err, out_of_fuel, pure, throw, ◌>>=◌, and_then}
use borsh_rs.Io.Slice.{slice_reader, slice_read_exact-short, slice_read_exact-ok}
use borsh_rs.Num.{Bytes}
use borsh_rs.De.{read_bytes}
use native.Mathlib.Decide.{dec_lt}

-- The outcome on the input `bs`: `Q` holds of the bytes used and the value.
abbrev pub Consumed : {A : Type 0} → (List ℕ → A → Type 0) → List ℕ → Result A × List ℕ → Type 0
Consumed Q bs (ok a, rest) = (used : List ℕ) × (bs ≡ used ++ rest) × Q used a
Consumed Q bs (err e, rest) = Unit {0}
Consumed Q bs (out_of_fuel, rest) = ⊥

pub record Consumes {A : Type 0} (d : M (List ℕ) A) (Q : List ℕ → A → Type 0) : Type 0 where
  pub on : (bs : List ℕ) → Bytes bs → Consumed Q bs (d bs)

pub Bytes-split : (xs rest : List ℕ) → Bytes (xs ++ rest) → Bytes xs × Bytes rest
Bytes-split [] rest h = (tt, h)
Bytes-split (x ∷ xs) rest h = let (a, b) = Bytes-split xs rest h.1 in ((h.0, a), b)

-- The outcome of what comes next, seen from the start.
Consumed-later :
    {B : Type 0} (Q : List ℕ → B → Type 0) (bs used rest : List ℕ) (y : Result B × List ℕ)
    → bs ≡ used ++ rest
    → Consumed (λ ys b. Q (used ++ ys) b) rest y
    → Consumed Q bs y
Consumed-later Q bs used rest (ok b, r) e (ys, p, q) =
    (used ++ ys, e ∙ ap (λ (l : List ℕ). used ++ l) p ∙ sym (append_assoc used ys r), q)
Consumed-later Q bs used rest (err x, r) e h = tt
Consumed-later Q bs used rest (out_of_fuel, r) e h = h

Consumed-and_then :
    {A B : Type 0} (Q : List ℕ → A → Type 0) (Q' : List ℕ → B → Type 0) (f : A → M (List ℕ) B)
    (bs : List ℕ) (x : Result A × List ℕ)
    → Bytes bs
    → Consumed Q bs x
    → ((a : A) (used : List ℕ) → Bytes used → Q used a → Consumes (f a) (λ ys b. Q' (used ++ ys) b))
    → Consumed Q' bs (and_then x f)
Consumed-and_then Q Q' f bs (ok a, rest) h (used, p, q) next =
    let (hu, hr) = Bytes-split used rest (subst Bytes p h) in
    Consumed-later Q' bs used rest (f a rest) p ((next a used hu q).on rest hr)
Consumed-and_then Q Q' f bs (err e, rest) h c next = tt
Consumed-and_then Q Q' f bs (out_of_fuel, rest) h c next = c

pub Consumes->>= :
    {A B : Type 0} {Q : List ℕ → A → Type 0} (Q' : List ℕ → B → Type 0) {d : M (List ℕ) A}
    (f : A → M (List ℕ) B)
    → Consumes d Q
    → ((a : A) (used : List ℕ) → Bytes used → Q used a → Consumes (f a) (λ ys b. Q' (used ++ ys) b))
    → Consumes (d >>= f) Q'
Consumes->>= {Q} Q' {d} f c next = record {
  on = λ bs h. Consumed-and_then Q Q' f bs (d bs) h (c.on bs h) next;
}

pub Consumes-pure : {A : Type 0} (Q : List ℕ → A → Type 0) (a : A) → Q [] a → Consumes (pure a) Q
Consumes-pure Q a q = record { on = λ bs h. ([], refl, q) }

pub Consumes-throw : {A : Type 0} (Q : List ℕ → A → Type 0) (e : Error) → Consumes (throw e) Q
Consumes-throw Q e = record { on = λ bs h. tt }

-- The last step writes down the value.
pub Consumes-map :
    {A B : Type 0} {Q : List ℕ → A → Type 0} (Q' : List ℕ → B → Type 0) {d : M (List ℕ) A}
    (f : A → B)
    → Consumes d Q
    → ((a : A) (used : List ℕ) → Bytes used → Q used a → Q' used (f a))
    → Consumes (d >>= λ x. pure (f x)) Q'
Consumes-map Q' f c next =
    Consumes->>= Q' (λ x. pure (f x)) c
      λ a used h q.
        Consumes-pure _ (f a)
          (subst (λ (l : List ℕ). Q' l (f a)) (sym (append-nil used)) (next a used h q))

pub Consumes-if :
    {A : Type 0} {Q : List ℕ → A → Type 0} (b : Bool) {d d' : M (List ℕ) A}
    → (b ≡ true → Consumes d Q)
    → (b ≡ false → Consumes d' Q)
    → Consumes (if b then d else d') Q
Consumes-if true p q = p refl
Consumes-if false p q = q refl

abbrev pub Chunk : ℕ → List ℕ → List ℕ → Type 0
Chunk n used buf = (used ≡ buf) × (length buf ≡ n)

pub Consumes-read_bytes : (n : ℕ) → Consumes (read_bytes slice_reader n) (Chunk n)
unfolding read_bytes
Consumes-read_bytes n = record { on = go }
  where
    go : (bs : List ℕ) → Bytes bs → Consumed (Chunk n) bs (read_bytes slice_reader n bs)
    go bs h = elim (dec_lt (length bs) n) [
      | yes short ↦ rw (slice_read_exact-short n bs short) tt
      | no enough ↦
          rw (slice_read_exact-ok n bs (omega arith))
            (take n bs, sym (take-append-drop n bs), (refl, omega (arith, length-take n bs)))
    ]
