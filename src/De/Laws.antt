-- ===== src/De/Laws.antt =====
-- What a deserializer reads off the front of a slice.
use borsh_rs.Base.{
  ℕ, suc, ◌^◌, ◌≤◌, ◌<◌, ◌≡◌, refl, ap, ap₂, ◌∙◌, arith, false, Option, none, some, List, [], ◌∷◌,
  ◌++◌, length, ◌==◌, append_assoc, All, take-append_length, drop-append_length, length-append,
}
use borsh_rs.Io.{M, Result, ok, pure, ◌>>=◌, ◌>>◌}
use borsh_rs.Io.Slice.{slice_reader, slice_read_exact-append}
use borsh_rs.Io.Stream.{slice_reader-IsStream}
use borsh_rs.Io.Sink.{usize_max}
use borsh_rs.Num.{to_le_bytes, length-to_le_bytes, from_le_bytes-to_le_bytes}
use borsh_rs.Ser.SeqLaws.{check_zst-pass}
use borsh_rs.De.{BorshDeserialize, read_bytes, deserialize_u8, deserialize_uint}
use borsh_rs.De.Seq.{
  deserialize_each, items_or_each, vec_items, deserialize_vec, deserialize_array,
  u8_vec_from_reader, u8_array_from_reader,
}
use borsh_rs.De.Bulk.{u8_vec_from_reader-ok}
use borsh_rs.Types.Spec.{encode_each, encode_seq, FitsU32}

pub record Reads {A : Type 0} (d : M (List ℕ) A) (bytes : List ℕ) (a : A) : Type 0 where
  pub from : (rest : List ℕ) → d (bytes ++ rest) ≡ (ok a, rest)

pub Reads-pure : {A : Type 0} (a : A) → Reads (pure a) [] a
Reads-pure a = record { from = λ rest. refl }

pub Reads->>= :
    {A B : Type 0} {d : M (List ℕ) A} (f : A → M (List ℕ) B) {xs ys : List ℕ} {a : A} {b : B}
    → Reads d xs a
    → Reads (f a) ys b
    → Reads (d >>= f) (xs ++ ys) b
Reads->>= f {xs} {ys} p q = record {
  from = λ rest. rw (append_assoc, p.from (ys ++ rest)) (q.from rest);
}

-- A step that reads nothing.
pub Reads-skip :
    {A : Type 0} {m : M (List ℕ) (Unit {0})} {d : M (List ℕ) A} {xs : List ℕ} {a : A}
    → ((s : List ℕ) → m s ≡ (ok tt, s))
    → Reads d xs a
    → Reads (m >> d) xs a
Reads-skip {xs} p q = record { from = λ rest. rw (p (xs ++ rest)) (q.from rest) }

-- The last step writes down the value.
pub Reads-map :
    {A B : Type 0} {d : M (List ℕ) A} (f : A → B) {xs : List ℕ} {a : A}
    → Reads d xs a
    → Reads (d >>= λ x. pure (f x)) xs (f a)
Reads-map f p = record { from = λ rest. rw (p.from rest) }

pub Reads-read_bytes :
    (n : ℕ) (xs : List ℕ) → length xs ≡ n → Reads (read_bytes slice_reader n) xs xs
unfolding read_bytes
Reads-read_bytes n xs h = record { from = λ rest. rw (slice_read_exact-append n xs rest h) }

pub Reads-deserialize_u8 : (b : ℕ) → Reads (deserialize_u8 slice_reader) (b ∷ []) b
unfolding deserialize_u8
Reads-deserialize_u8 b = record { from = λ rest. rw (slice_read_exact-append 1 (b ∷ []) rest refl) }

pub Reads-deserialize_uint :
    (size v : ℕ)
    → v < 256 ^ size
    → Reads (deserialize_uint slice_reader size) (to_le_bytes size v) v
unfolding deserialize_uint
Reads-deserialize_uint size v h = record {
  from = λ rest.
      rw (slice_read_exact-append size (to_le_bytes size v) rest (length-to_le_bytes size v))
        (ap (λ (n : ℕ). (Result.ok n, rest)) (from_le_bytes-to_le_bytes size v h));
}

module _ {A : Type 0} {P : A → Type 0} {enc : A → List ℕ} where
  pub Reads-deserialize_each :
      {d : M (List ℕ) A}
      → ((a : A) → P a → Reads d (enc a) a)
      → (xs : List A) → All P xs
      → Reads (deserialize_each slice_reader d (length xs)) (encode_each enc xs) xs
  unfolding deserialize_each
  Reads-deserialize_each item [] h = Reads-pure []
  Reads-deserialize_each item (x ∷ xs) h =
      Reads->>= _ (item x h.0) (Reads-map (λ l. x ∷ l) (Reads-deserialize_each item xs h.1))

-- The bulk methods of a type return its items, or leave the reading to the caller.
pub data Bulk {A : Type 0} (d : M (List ℕ) (Option (List A))) (bytes : List ℕ) (xs : List A)
    : Type 0 where
  at_once : Reads d bytes (some xs) → Bulk d bytes xs
  one_by_one : Reads d [] none → Bulk d bytes xs

pub record IsDecoder {A : Type 0} (P : A → Type 0) (enc : A → List ℕ)
    (d : BorshDeserialize (List ℕ) A) : Type 0 where
  pub item : (a : A) → P a → Reads d.deserialize_reader (enc a) a
  pub vec_bulk :
      (xs : List A)
      → 0 < length xs
      → FitsU32 xs
      → All P xs
      → Bulk (d.vec_from_reader (length xs)) (encode_each enc xs) xs
  pub array_bulk :
      (xs : List A) → All P xs → Bulk (d.array_from_reader (length xs)) (encode_each enc xs) xs

-- Bulk or item by item, the items are read.
Reads-items_or_each :
    {A : Type 0} {P : A → Type 0} {enc : A → List ℕ} (d : M (List ℕ) A)
    (bulk : M (List ℕ) (Option (List A))) (n : ℕ) (xs : List A)
    → length xs ≡ n
    → ((a : A) → P a → Reads d (enc a) a)
    → All P xs
    → Bulk bulk (encode_each enc xs) xs
    → Reads (bulk >>= λ o. items_or_each slice_reader d n o) (encode_each enc xs) xs
unfolding items_or_each
Reads-items_or_each d bulk n xs l item h (at_once r) = record { from = λ rest. rw (r.from rest) }
Reads-items_or_each d bulk n xs l item h (one_by_one r) = record {
  from = λ rest. rw (r.from, ← l) ((Reads-deserialize_each item xs h).from rest);
}

module _ {A : Type 0} {P : A → Type 0} {enc : A → List ℕ} {d : BorshDeserialize (List ℕ) A}
    (k : IsDecoder P enc d) where
  Reads-vec_items :
      (xs : List A)
      → FitsU32 xs
      → All P xs
      → Reads (vec_items slice_reader d (length xs)) (encode_each enc xs) xs
  unfolding vec_items
  Reads-vec_items [] n h = Reads-pure []
  Reads-vec_items (x ∷ xs) n h =
      let some_items : (suc (length xs) == 0) ≡ false = ground arith in
      rw some_items (
        Reads-items_or_each d.deserialize_reader (d.vec_from_reader (suc (length xs)))
          (suc (length xs)) (x ∷ xs) refl k.item h (k.vec_bulk (x ∷ xs) (omega arith) n h))

  pub Reads-deserialize_vec :
      (size : ℕ) (xs : List A)
      → 0 < size
      → FitsU32 xs
      → All P xs
      → Reads (deserialize_vec slice_reader size d) (encode_seq enc xs) xs
  unfolding deserialize_vec
  Reads-deserialize_vec size xs z n h =
      Reads-skip (λ s. check_zst-pass size s z)
        (Reads->>= (vec_items slice_reader d) (Reads-deserialize_uint 4 (length xs) n)
          (Reads-vec_items xs n h))

  pub Reads-deserialize_array :
      (n : ℕ) (xs : List A)
      → length xs ≡ n
      → All P xs
      → Reads (deserialize_array slice_reader n d) (encode_each enc xs) xs
  unfolding deserialize_array
  Reads-deserialize_array n xs l h =
      Reads-items_or_each d.deserialize_reader (d.array_from_reader n) n xs l k.item h
        (rw l at (k.array_bulk xs h))

-- The bulk methods of `u8`.
pub Reads-u8_vec_from_reader :
    (xs : List ℕ)
    → 0 < length xs
    → length xs ≤ usize_max
    → Reads (u8_vec_from_reader slice_reader (length xs)) xs (some xs)
Reads-u8_vec_from_reader xs z h = record { from = go }
  where
    go :
        (rest : List ℕ)
        → u8_vec_from_reader slice_reader (length xs) (xs ++ rest) ≡ (ok (some xs), rest)
    go rest =
        let (r', run, end) =
          u8_vec_from_reader-ok slice_reader slice_reader-IsStream (length xs) (xs ++ rest) z h
            (omega (arith, length-append xs rest)) in
        run
        ∙ ap₂ (λ (a : List ℕ) (b : List ℕ). (Result.ok (some a), b)) (take-append_length xs rest)
            (end ∙ drop-append_length xs rest)

pub Reads-u8_array_from_reader :
    (xs : List ℕ) → Reads (u8_array_from_reader slice_reader (length xs)) xs (some xs)
unfolding u8_array_from_reader
Reads-u8_array_from_reader xs = Reads-map (λ l. some l) (Reads-read_bytes (length xs) xs refl)
