-- ===== src/De/Exact.antt =====
-- Deserializers that accept nothing but the encoding of the value that they return.
use borsh_rs.Base.{
  ℕ, zero, suc, ◌^◌, ◌<◌, ◌≡◌, refl, sym, ap, ap₂, ◌∙◌, subst, arith, Option, none, some, List, [],
  ◌∷◌, ◌++◌, length, take, ◌==◌, append-nil, All, take-append-drop, length-take, ==→eq,
}
use borsh_rs.Io.{M, Result, ok, err, out_of_fuel, ◌>>=◌}
use borsh_rs.Io.Slice.{slice_reader}
use borsh_rs.Io.Stream.{slice_reader-IsStream}
use borsh_rs.Num.{Bytes, to_le_bytes, from_le_bytes, from_le_bytes-lt, to_le_bytes-from_le_bytes}
use borsh_rs.Ser.{check_zst, zst_forbidden}
use borsh_rs.De.{BorshDeserialize, read_bytes, deserialize_u8, deserialize_uint}
use borsh_rs.De.Seq.{
  deserialize_each, items_or_each, vec_items, deserialize_vec, deserialize_array,
  u8_vec_from_reader, u8_array_from_reader,
}
use borsh_rs.De.Bulk.{u8_vec_from_reader-ok, u8_vec_from_reader-short}
use borsh_rs.De.Consumes.{
  Consumed, Consumes, Consumes->>=, Consumes-pure, Consumes-throw, Consumes-map, Consumes-if,
  Consumes-read_bytes, Bytes-split,
}
use borsh_rs.Types.Spec.{encode_each, encode_seq, FitsU32}
use native.Mathlib.Decide.{dec_lt}

-- A value that satisfies `P`, from exactly its encoding.
abbrev pub Exactly : {A : Type 0} → (A → Type 0) → (A → List ℕ) → List ℕ → A → Type 0
Exactly P enc used a = P a × (used ≡ enc a)

pub Exact-deserialize_u8 :
    Consumes (deserialize_u8 slice_reader) (λ used b. (b < 256) × (used ≡ b ∷ []))
unfolding deserialize_u8
Exact-deserialize_u8 = Consumes-map _ _ (Consumes-read_bytes 1) one
  where
    one :
        (buf used : List ℕ)
        → Bytes used
        → (used ≡ buf) × (length buf ≡ 1)
        → (borsh_rs.De.first slice_reader buf < 256)
          × (used ≡ borsh_rs.De.first slice_reader buf ∷ [])
    one [] used h (e, l) = absurd (omega arith)
    one (b ∷ []) used h (e, l) = ((subst Bytes e h).0, e)
    one (b ∷ c ∷ bs) used h (e, l) = absurd (omega arith)

pub Exact-deserialize_uint :
    (size : ℕ)
    → Consumes
        (deserialize_uint slice_reader size)
        (Exactly (λ v. v < 256 ^ size) (to_le_bytes size))
unfolding deserialize_uint
Exact-deserialize_uint size =
    Consumes-map _ from_le_bytes (Consumes-read_bytes size) λ buf used h q.
      let hb : Bytes buf = subst Bytes q.0 h in
      (
        rw (← q.1) (from_le_bytes-lt buf hb),
        q.0 ∙ rw (← q.1) (sym (to_le_bytes-from_le_bytes buf hb)),
      )

pub Consumes_mono :
    {A : Type 0} {Q Q' : List ℕ → A → Type 0} {d : M (List ℕ) A}
    → Consumes d Q
    → ((a : A) (used : List ℕ) → Bytes used → Q used a → Q' used a)
    → Consumes d Q'
Consumes_mono {A} {Q} {Q'} {d} c f = record { on = λ bs h. go bs h (d bs) (c.on bs h) }
  where
    go : (bs : List ℕ) → Bytes bs → (x : Result A × List ℕ) → Consumed Q bs x → Consumed Q' bs x
    go bs h (ok a, rest) (used, p, q) =
        (used, p, f a used (Bytes-split used rest (subst Bytes p h)).0 q)
    go bs h (err e, rest) c = tt
    go bs h (out_of_fuel, rest) c = c

-- A collection of a zero-sized type is refused before any byte is read.
Exact-check_zst :
    (size : ℕ) → Consumes {A = Unit {0}} (check_zst size) (λ used _. (used ≡ []) × (0 < size))
unfolding check_zst
Exact-check_zst size =
    Consumes-if (size == 0) (λ e. Consumes-throw _ zst_forbidden)
      (λ e. Consumes-pure _ tt (refl, ground arith))

module _ {A : Type 0} (P : A → Type 0) (enc : A → List ℕ) where
  -- `n` items, from their encodings one after the other.
  abbrev pub Items : ℕ → List ℕ → List A → Type 0
  Items n used xs = (length xs ≡ n) × All P xs × (used ≡ encode_each enc xs)

  -- All of `n` items, or none and no byte used.
  abbrev pub BulkItems : ℕ → List ℕ → Option (List A) → Type 0
  BulkItems n used none = used ≡ []
  BulkItems n used (some xs) = Items n used xs

  pub record IsExact (d : BorshDeserialize (List ℕ) A) : Type 0 where
    pub item : Consumes d.deserialize_reader (Exactly P enc)
    pub vec_bulk : (n : ℕ) → 0 < n → n < 2 ^ 32 → Consumes (d.vec_from_reader n) (BulkItems n)
    pub array_bulk : (n : ℕ) → Consumes (d.array_from_reader n) (BulkItems n)

  Exact-deserialize_each :
      (d : M (List ℕ) A)
      → Consumes d (Exactly P enc)
      → (n : ℕ) → Consumes (deserialize_each slice_reader d n) (Items n)
  unfolding deserialize_each
  Exact-deserialize_each d c zero = Consumes-pure _ [] (refl, tt, refl)
  Exact-deserialize_each d c (suc n) = Consumes->>= _ _ c λ a used h q.
      Consumes-map _ (λ xs. a ∷ xs) (Exact-deserialize_each d c n)
        λ xs more k r. (ap suc r.0, (q.0, r.1), ap₂ (λ (l : List ℕ) (m : List ℕ). l ++ m) q.1 r.2)

  Exact-items_or_each :
      (d : M (List ℕ) A) (bulk : M (List ℕ) (Option (List A))) (n : ℕ)
      → Consumes d (Exactly P enc)
      → Consumes bulk (BulkItems n)
      → Consumes (bulk >>= λ o. items_or_each slice_reader d n o) (Items n)
  unfolding items_or_each
  Exact-items_or_each d bulk n c b = Consumes->>= _ _ b next
    where
      next :
          (o : Option (List A)) (used : List ℕ)
          → Bytes used
          → BulkItems n used o
          → Consumes (items_or_each slice_reader d n o) (λ ys b. Items n (used ++ ys) b)
      next none used h q = rw q (Exact-deserialize_each d c n)
      next (some xs) used h q = Consumes-pure _ xs (q.0, q.1, append-nil used ∙ q.2)

  module _ (d : BorshDeserialize (List ℕ) A) (k : IsExact d) where
    Exact-vec_items : (n : ℕ) → n < 2 ^ 32 → Consumes (vec_items slice_reader d n) (Items n)
    unfolding vec_items
    Exact-vec_items n h =
        Consumes-if (n == 0) (λ e. Consumes-pure _ [] (sym (==→eq n 0 e), tt, refl))
          (λ e.
            Exact-items_or_each d.deserialize_reader (d.vec_from_reader n) n k.item
              (k.vec_bulk n (ground arith) h))

    pub Exact-deserialize_vec :
        (size : ℕ)
        → Consumes
            (deserialize_vec slice_reader size d)
            (Exactly (λ xs. (0 < size) × FitsU32 xs × All P xs) (encode_seq enc))
    unfolding deserialize_vec
    Exact-deserialize_vec size = Consumes->>= _ _ (Exact-check_zst size) λ _ none h z.
        Consumes->>= _ (vec_items slice_reader d) (Exact-deserialize_uint 4) λ n tag ht q.
          Consumes_mono (Exact-vec_items n q.0) λ xs body hb r.
            let fits : FitsU32 xs = rw r.0 q.0 in ((z.1, fits, r.1), rw (z.0, q.1, r.0, r.2))

    pub Exact-deserialize_array :
        (n : ℕ)
        → Consumes
            (deserialize_array slice_reader n d)
            (Exactly (λ xs. (length xs ≡ n) × All P xs) (encode_each enc))
    unfolding deserialize_array
    Exact-deserialize_array n =
        Consumes_mono
          (Exact-items_or_each d.deserialize_reader (d.array_from_reader n) n k.item
            (k.array_bulk n))
          λ xs used h q. ((q.0, q.1), q.2)

-- The bulk methods of `u8`.
pub Exact-u8_vec_from_reader :
    (n : ℕ)
    → 0 < n
    → n < 2 ^ 32
    → Consumes
        (u8_vec_from_reader slice_reader n)
        (λ used o. (xs : List ℕ) × (o ≡ some xs) × (used ≡ xs) × (length xs ≡ n))
Exact-u8_vec_from_reader n z h = record { on = λ bs hb. go bs }
  where
    go :
        (bs : List ℕ)
        → Consumed
            (λ used o. (xs : List ℕ) × (o ≡ some xs) × (used ≡ xs) × (length xs ≡ n))
            bs
            (u8_vec_from_reader slice_reader n bs)
    go bs = elim (dec_lt (length bs) n) [
      | yes short ↦
          let (r, run) =
            u8_vec_from_reader-short slice_reader slice_reader-IsStream n bs (omega arith) short in
          rw run tt
      | no enough ↦
          let (r, run, end) =
            u8_vec_from_reader-ok slice_reader slice_reader-IsStream n bs z (omega arith)
              (omega arith) in
          rw run (
            take n bs,
            sym (rw end (take-append-drop n bs)),
            (take n bs, refl, refl, omega (arith, length-take n bs)),
          )
    ]

pub Exact-u8_array_from_reader :
    (n : ℕ)
    → Consumes
        (u8_array_from_reader slice_reader n)
        (λ used o. (xs : List ℕ) × (o ≡ some xs) × (used ≡ xs) × (length xs ≡ n))
unfolding u8_array_from_reader
Exact-u8_array_from_reader n =
    Consumes-map _ (λ l. some l) (Consumes-read_bytes n) λ l used h q. (l, refl, q.0, q.1)
