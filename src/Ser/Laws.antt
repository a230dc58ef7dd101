-- ===== src/Ser/Laws.antt =====
-- What each serializer writes, at any writer that takes what it has room for.
use borsh_rs.Base.{
  ℕ, ◌^◌, ◌<◌, ◌≡◌, sym, ap, ◌∙◌, subst, Option, none, some, List, [], ◌∷◌, ◌++◌, All, append-nil,
  append_assoc, lt→ltb,
}
use borsh_rs.Io.{M, Write, ok, pure, ◌>>◌}
use borsh_rs.Io.Sink.{IsSink}
use borsh_rs.Num.{to_le_bytes}
use borsh_rs.Ser.{serialize_u8}
use borsh_rs.Ser.Seq.{write_len, serialize_each, serialize_items}
use borsh_rs.Types.Spec.{encode_each}

-- The bulk bytes of a slice, where the type has them, are what its items write.
abbrev pub SliceOf : {A : Type 0} → (A → List ℕ) → Option (List ℕ) → List A → Type 0
SliceOf enc none xs = Unit {0}
SliceOf enc (some bytes) xs = bytes ≡ encode_each enc xs

-- `m` writes `bytes` behind whatever is written, if they fit.
pub record Writes {W : Type 0} (state : List ℕ → W) (Fits : List ℕ → Type 0) (m : M W (Unit {0}))
    (bytes : List ℕ) : Type 0 where
  pub from : (out : List ℕ) → Fits (out ++ bytes) → m (state out) ≡ (ok tt, state (out ++ bytes))

module _ {W : Type 0} (w : Write W) {state : List ℕ → W} {Fits : List ℕ → Type 0}
    (k : IsSink w state Fits) where
  abbrev Does : M W (Unit {0}) → List ℕ → Type 0
  Does = Writes state Fits

  pub Writes-write_all : (bytes : List ℕ) → Does (w.write_all bytes) bytes
  Writes-write_all bytes = record { from = λ out h. k.writes out bytes h }

  pub Writes-pure : Does (pure tt) []
  Writes-pure = record {
    from = λ out h. ap (λ (l : List ℕ). (ok tt, state l)) (sym (append-nil out));
  }

  pub Writes->> :
      {m n : M W (Unit {0})} {xs ys : List ℕ} → Does m xs → Does n ys → Does (m >> n) (xs ++ ys)
  Writes->> {m} {n} {xs} {ys} p q = record { from = both }
    where
      both :
          (out : List ℕ)
          → Fits (out ++ (xs ++ ys))
          → (m >> n) (state out) ≡ (ok tt, state (out ++ (xs ++ ys)))
      both out h =
          let whole : Fits ((out ++ xs) ++ ys) = subst Fits (sym (append_assoc out xs ys)) h in
          rw (p.from out (k.shorter (out ++ xs) ys whole)) (
            q.from (out ++ xs) whole
            ∙ ap (λ (l : List ℕ). (ok tt, state l)) (append_assoc out xs ys))

  -- A step that writes nothing.
  pub Writes-skip :
      {m n : M W (Unit {0})} {ys : List ℕ}
      → ((s : W) → m s ≡ (ok tt, s))
      → Does n ys
      → Does (m >> n) ys
  Writes-skip {m} {n} {ys} p q = record { from = λ out h. rw (p (state out)) (q.from out h) }

  pub Writes-serialize_u8 : (v : ℕ) → Does (serialize_u8 w v) (v ∷ [])
  unfolding serialize_u8
  Writes-serialize_u8 v = Writes-write_all (v ∷ [])

  pub Writes-write_len : (n : ℕ) → n < 2 ^ 32 → Does (write_len w n) (to_le_bytes 4 n)
  unfolding write_len
  Writes-write_len n h = record {
    from = λ out fits. rw (lt→ltb n (2 ^ 32) h) (k.writes out _ fits);
  }

  module _ {A : Type 0} {P : A → Type 0} {enc : A → List ℕ} where
    pub Writes-serialize_each :
        {serialize : A → M W (Unit {0})}
        → ((a : A) → P a → Does (serialize a) (enc a))
        → (xs : List A) → All P xs
        → Does (serialize_each w serialize xs) (encode_each enc xs)
    unfolding serialize_each
    Writes-serialize_each item [] h = Writes-pure
    Writes-serialize_each item (x ∷ xs) h =
        Writes->> (item x h.0) (Writes-serialize_each item xs h.1)

    pub Writes-serialize_items :
        {serialize : A → M W (Unit {0})}
        → ((a : A) → P a → Does (serialize a) (enc a))
        → (bulk : Option (List ℕ)) (xs : List A) → SliceOf enc bulk xs
        → All P xs
        → Does (serialize_items w bulk serialize xs) (encode_each enc xs)
    unfolding serialize_items
    Writes-serialize_items item none xs bulk h = Writes-serialize_each item xs h
    Writes-serialize_items item (some bytes) xs bulk h = rw (← bulk) (Writes-write_all bytes)
