-- ===== src/De/Simulate.antt =====
-- Deserializers of borsh/src/de/mod.rs on a reader that hands out bytes in pieces, and on a slice.
use borsh_rs.Base.{
  ℕ, zero, suc, ◌^◌, ◌≤◌, ◌<◌, ◌≡◌, refl, subst, arith, Bool, true, false, Option, none, some, List,
  [], length, All-take, All-drop, if◌then◌else◌, ◌==◌, length-take,
}
use borsh_rs.Io.{
  M, Result, Error, ok, err, out_of_fuel, Read, pure, throw, ◌>>=◌, and_then, kind, unexpected_eof,
}
use borsh_rs.Io.Slice.{slice_reader, slice_read_exact-ok, slice_read_exact-short}
use borsh_rs.Io.Stream.{IsStream, slice_reader-IsStream}
use borsh_rs.Io.Sink.{usize_max}
use borsh_rs.Num.{Bytes, IsByte, from_le_bytes, from_le_bytes-lt}
use borsh_rs.De.{
  BorshDeserialize, read_bytes, deserialize_u8, deserialize_uint, unexpected_length,
  unexpected_eof_to_unexpected_length_of_input,
}
use borsh_rs.De.Seq.{
  deserialize_each, items_or_each, vec_items, deserialize_vec, deserialize_array,
  u8_vec_from_reader, u8_array_from_reader,
}
use borsh_rs.De.Bulk.{u8_vec_from_reader-ok, u8_vec_from_reader-short}
use borsh_rs.Ser.{check_zst}
use native.Mathlib.Decide.{dec_lt}

module _ {R : Type 0} (rem : R → List ℕ) where
  -- The outcome on the reader against that on the slice of its bytes: the same result, and after a
  -- value, of which `Q` holds, the same bytes left.
  abbrev pub Agrees : {A : Type 0} → (A → Type 0) → Result A × R → Result A × List ℕ → Type 0
  Agrees Q (ok a, r) y = (y ≡ (ok a, rem r)) × Bytes (rem r) × Q a
  Agrees Q (err e, r) y = y.0 ≡ err e
  Agrees Q (out_of_fuel, r) y = y.0 ≡ out_of_fuel

  pub record Simulates {A : Type 0} (d : M R A) (d' : M (List ℕ) A) (Q : A → Type 0) : Type 0 where
    pub on : (r : R) → Bytes (rem r) → Agrees Q (d r) (d' (rem r))

  Agrees-and_then :
      {A B : Type 0} (Q : A → Type 0) (P : B → Type 0) (f : A → M R B) (f' : A → M (List ℕ) B)
      (x : Result A × R) (y : Result A × List ℕ)
      → Agrees Q x y
      → ((a : A) → Q a → Simulates (f a) (f' a) P)
      → Agrees P (and_then x f) (and_then y f')
  Agrees-and_then Q P f f' (ok a, r) y (e, h, q) next = rw e ((next a q).on r h)
  Agrees-and_then Q P f f' (err e, r) (ok b, l) h next = cc
  Agrees-and_then Q P f f' (err e, r) (err e', l) h next = cc
  Agrees-and_then Q P f f' (err e, r) (out_of_fuel, l) h next = cc
  Agrees-and_then Q P f f' (out_of_fuel, r) (ok b, l) h next = cc
  Agrees-and_then Q P f f' (out_of_fuel, r) (err e', l) h next = cc
  Agrees-and_then Q P f f' (out_of_fuel, r) (out_of_fuel, l) h next = refl

  Agrees-forget :
      {A : Type 0} (Q : A → Type 0) (x : Result A × R) (y : Result A × List ℕ)
      → Agrees Q x y
      → Agrees (λ _. Unit {0}) x y
  Agrees-forget Q (ok a, r) y h = (h.0, h.1, tt)
  Agrees-forget Q (err e, r) y h = h
  Agrees-forget Q (out_of_fuel, r) y h = h

  pub Simulates-forget :
      {A : Type 0} {Q : A → Type 0} {d : M R A} {d' : M (List ℕ) A}
      → Simulates d d' Q
      → Simulates d d' (λ _. Unit {0})
  Simulates-forget {Q} {d} {d'} c = record {
    on = λ r h. Agrees-forget Q (d r) (d' (rem r)) (c.on r h);
  }

  pub Simulates->>= :
      {A B : Type 0} {Q : A → Type 0} {P : B → Type 0} {d : M R A} {d' : M (List ℕ) A}
      (f : A → M R B) (f' : A → M (List ℕ) B)
      → Simulates d d' Q
      → ((a : A) → Q a → Simulates (f a) (f' a) P)
      → Simulates (d >>= f) (d' >>= f') P
  Simulates->>= {Q} {P} {d} {d'} f f' c next = record {
    on = λ r h. Agrees-and_then Q P f f' (d r) (d' (rem r)) (c.on r h) next;
  }

  pub Simulates-pure : {A : Type 0} (Q : A → Type 0) (a : A) → Q a → Simulates (pure a) (pure a) Q
  Simulates-pure Q a q = record { on = λ r h. (refl, h, q) }

  pub Simulates-throw : {A : Type 0} (Q : A → Type 0) (e : Error) → Simulates (throw e) (throw e) Q
  Simulates-throw Q e = record { on = λ r h. refl }

  pub Simulates-if :
      {A : Type 0} {Q : A → Type 0} (b : Bool) {d e : M R A} {d' e' : M (List ℕ) A}
      → Simulates d d' Q
      → Simulates e e' Q
      → Simulates (if b then d else e) (if b then d' else e') Q
  Simulates-if true p q = p
  Simulates-if false p q = q

module _ {R : Type 0} (rd : Read R) {rem : R → List ℕ} (k : IsStream rd rem) where
  abbrev Chunk : ℕ → List ℕ → Type 0
  Chunk n buf = Bytes buf × (length buf ≡ n)

  eof_error :
      (e : Error)
      → kind e ≡ unexpected_eof
      → unexpected_eof_to_unexpected_length_of_input e ≡ unexpected_length
  unfolding unexpected_eof_to_unexpected_length_of_input
  eof_error e h = rw h refl

  pub Simulates-read_bytes :
      (n : ℕ) → Simulates rem (read_bytes rd n) (read_bytes slice_reader n) (Chunk n)
  unfolding read_bytes kind
  Simulates-read_bytes n = record { on = go }
    where
      go :
          (r : R)
          → Bytes (rem r)
          → Agrees rem (Chunk n) (read_bytes rd n r) (read_bytes slice_reader n (rem r))
      go r h = elim (dec_lt (length (rem r)) n) [
        | yes short ↦
            let (e, r', run, eof) = k.read_short n r short in
            rw (run, slice_read_exact-short n (rem r) short, eof_error e eof) refl
        | no enough ↦
            let (r', run, left) = k.read_all n r (omega arith) in
            rw (run, slice_read_exact-ok n (rem r) (omega arith))
              (rw left (
                refl,
                All-drop IsByte n (rem r) h,
                (All-take IsByte n (rem r) h, omega (arith, length-take n (rem r))),
              ))
      ]

  pub Simulates-deserialize_u8 :
      Simulates rem (deserialize_u8 rd) (deserialize_u8 slice_reader) (λ b. Unit {0})
  unfolding deserialize_u8
  Simulates-deserialize_u8 =
      Simulates->>= rem _ _ (Simulates-read_bytes 1) λ buf q. Simulates-pure rem _ _ tt

  pub Simulates-deserialize_uint :
      (size : ℕ)
      → Simulates rem
          (deserialize_uint rd size)
          (deserialize_uint slice_reader size)
          (λ v. v < 256 ^ size)
  unfolding deserialize_uint
  Simulates-deserialize_uint size = Simulates->>= rem _ _ (Simulates-read_bytes size) λ buf q.
      Simulates-pure rem _ _
        (subst (λ (n : ℕ). from_le_bytes buf < 256 ^ n) q.1 (from_le_bytes-lt buf q.0))

  pub Simulates-check_zst :
      (size : ℕ) → Simulates rem (check_zst size) (check_zst size) (λ _. Unit {0})
  unfolding check_zst
  Simulates-check_zst size =
      Simulates-if rem (size == 0) (Simulates-throw rem _ _) (Simulates-pure rem _ tt tt)

  pub Simulates-u8_vec_from_reader :
      (n : ℕ)
      → 0 < n
      → n ≤ usize_max
      → Simulates rem (u8_vec_from_reader rd n) (u8_vec_from_reader slice_reader n) (λ _. Unit {0})
  Simulates-u8_vec_from_reader n z d = record { on = go }
    where
      go :
          (r : R)
          → Bytes (rem r)
          → Agrees rem
              (λ _. Unit {0})
              (u8_vec_from_reader rd n r)
              (u8_vec_from_reader slice_reader n (rem r))
      go r h = elim (dec_lt (length (rem r)) n) [
        | yes short ↦
            let (r', run) = u8_vec_from_reader-short rd k n r d short in
            let (l, slice_run) =
              u8_vec_from_reader-short slice_reader slice_reader-IsStream n (rem r) d short in
            rw (run, slice_run) refl
        | no enough ↦
            let (r', run, left) = u8_vec_from_reader-ok rd k n r z d (omega arith) in
            let (l, slice_run, slice_left) =
              u8_vec_from_reader-ok slice_reader slice_reader-IsStream n (rem r) z d
                (omega arith) in
            rw (run, slice_run, slice_left, left) (refl, All-drop IsByte n (rem r) h, tt)
      ]

  pub Simulates-u8_array_from_reader :
      (n : ℕ)
      → Simulates rem
          (u8_array_from_reader rd n)
          (u8_array_from_reader slice_reader n)
          (λ _. Unit {0})
  unfolding u8_array_from_reader
  Simulates-u8_array_from_reader n =
      Simulates->>= rem _ _ (Simulates-read_bytes n) λ buf q. Simulates-pure rem _ _ tt

  -- Both implementations of a type do the same, in bulk too.
  pub record SimulatesType {A : Type 0} (d : BorshDeserialize R A)
      (d' : BorshDeserialize (List ℕ) A) : Type 0 where
    pub item : Simulates rem d.deserialize_reader d'.deserialize_reader (λ _. Unit {0})
    pub vec_bulk :
        (n : ℕ)
        → 0 < n
        → n < 2 ^ 32
        → Simulates rem (d.vec_from_reader n) (d'.vec_from_reader n) (λ _. Unit {0})
    pub array_bulk :
        (n : ℕ) → Simulates rem (d.array_from_reader n) (d'.array_from_reader n) (λ _. Unit {0})

  module _ {A : Type 0} where
    Simulates-deserialize_each :
        {d : M R A} {d' : M (List ℕ) A} (n : ℕ)
        → Simulates rem d d' (λ _. Unit {0})
        → Simulates rem
            (deserialize_each rd d n)
            (deserialize_each slice_reader d' n)
            (λ _. Unit {0})
    unfolding deserialize_each
    Simulates-deserialize_each zero c = Simulates-pure rem _ [] tt
    Simulates-deserialize_each (suc n) c = Simulates->>= rem _ _ c λ x _.
        Simulates->>= rem _ _ (Simulates-deserialize_each n c) λ xs _. Simulates-pure rem _ _ tt

    Simulates-items_or_each :
        {d : M R A} {d' : M (List ℕ) A} (n : ℕ) (o : Option (List A))
        → Simulates rem d d' (λ _. Unit {0})
        → Simulates rem (items_or_each rd d n o) (items_or_each slice_reader d' n o) (λ _. Unit {0})
    unfolding items_or_each
    Simulates-items_or_each n (some xs) c = Simulates-pure rem _ xs tt
    Simulates-items_or_each n none c = Simulates-deserialize_each n c

    module _ (d : BorshDeserialize R A) (d' : BorshDeserialize (List ℕ) A)
        (t : SimulatesType d d') where
      Simulates-vec_items :
          (n : ℕ)
          → n < 2 ^ 32
          → Simulates rem (vec_items rd d n) (vec_items slice_reader d' n) (λ _. Unit {0})
      unfolding vec_items
      Simulates-vec_items zero h = Simulates-pure rem _ [] tt
      Simulates-vec_items (suc n) h =
          let some_items : (suc n == 0) ≡ false = ground arith in
          rw some_items (
            Simulates->>= rem _ _ (t.vec_bulk (suc n) (omega arith) h)
              λ o _. Simulates-items_or_each (suc n) o t.item)

      pub Simulates-deserialize_vec :
          (size : ℕ)
          → Simulates rem
              (deserialize_vec rd size d)
              (deserialize_vec slice_reader size d')
              (λ _. Unit {0})
      unfolding deserialize_vec
      Simulates-deserialize_vec size =
          Simulates->>= rem _ _ (Simulates-check_zst size) λ _ _.
            Simulates->>= rem _ _ (Simulates-deserialize_uint 4) λ n h. Simulates-vec_items n h

      pub Simulates-deserialize_array :
          (n : ℕ)
          → Simulates rem
              (deserialize_array rd n d)
              (deserialize_array slice_reader n d')
              (λ _. Unit {0})
      unfolding deserialize_array
      Simulates-deserialize_array n =
          Simulates->>= rem _ _ (t.array_bulk n) λ o _. Simulates-items_or_each n o t.item
