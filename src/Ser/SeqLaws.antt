-- ===== src/Ser/SeqLaws.antt =====
-- What the serializers of sequences write.
use borsh_rs.Base.{
  ℕ, zero, suc, ◌<◌, ◌≡◌, refl, sym, ap, List, [], ◌∷◌, ◌++◌, length, All, append_assoc, arith,
  length-append,
}
use borsh_rs.Io.{M, Write}
use borsh_rs.Io.Sink.{IsSink}
use borsh_rs.Num.{to_le_bytes}
use borsh_rs.Ser.{BorshSerialize, check_zst, zst_forbidden}
use borsh_rs.Ser.Seq.{
  serialize_slice, serialize_unsized, serialize_string, u8_serialize, serialize_vec,
  serialize_vec_deque, serialize_counted, serialize_array,
}
use borsh_rs.Ser.Laws.{
  SliceOf, Writes, Writes-pure, Writes->>, Writes-skip, Writes-write_len, Writes-serialize_u8,
  Writes-serialize_each, Writes-serialize_items,
}
use borsh_rs.Types.Spec.{encode_each, encode_seq, FitsU32}

pub check_zst-pass :
    {S : Type 0} (size : ℕ) (s : S) → 0 < size → check_zst size s ≡ (borsh_rs.Io.ok tt, s)
unfolding check_zst
check_zst-pass size s h = ground arith

pub check_zst-fail :
    {S : Type 0} (size : ℕ) (s : S)
    → size ≡ 0
    → check_zst size s ≡ (borsh_rs.Io.err zst_forbidden, s)
unfolding check_zst
check_zst-fail size s h = ground arith

pub encode_each-append :
    {A : Type 0} (enc : A → List ℕ) (xs ys : List A)
    → encode_each enc (xs ++ ys) ≡ encode_each enc xs ++ encode_each enc ys
encode_each-append enc [] ys = refl
encode_each-append enc (x ∷ xs) ys =
    rw (encode_each-append enc xs ys) (sym (append_assoc (enc x) _ _))

-- Bytes are written as they stand.
pub encode_each-byte : (xs : List ℕ) → encode_each (λ b. b ∷ []) xs ≡ xs
encode_each-byte [] = refl
encode_each-byte (x ∷ xs) = ap (λ (l : List ℕ). x ∷ l) (encode_each-byte xs)

-- The trait's methods of a type agree with one encoding of its values.
pub record IsEncoder {W : Type 0} {A : Type 0} (state : List ℕ → W) (Fits : List ℕ → Type 0)
    (P : A → Type 0) (enc : A → List ℕ) (s : BorshSerialize W A) : Type 0 where
  pub item : (a : A) → P a → Writes state Fits (s.serialize a) (enc a)
  pub bulk : (xs : List A) → All P xs → SliceOf enc (s.u8_slice xs) xs

module _ {W : Type 0} (w : Write W) {state : List ℕ → W} {Fits : List ℕ → Type 0}
    (k : IsSink w state Fits) where
  abbrev Does : M W (Unit {0}) → List ℕ → Type 0
  Does = Writes state Fits

  module _ {A : Type 0} {P : A → Type 0} {enc : A → List ℕ} {s : BorshSerialize W A}
      (e : IsEncoder state Fits P enc s) where
    pub Writes-serialize_slice :
        (xs : List A) → All P xs → Does (serialize_slice w s xs) (encode_each enc xs)
    unfolding serialize_slice
    Writes-serialize_slice xs h =
        Writes-serialize_items w k e.item (s.u8_slice xs) xs (e.bulk xs h) h

    pub Writes-serialize_unsized :
        (xs : List A) → FitsU32 xs → All P xs → Does (serialize_unsized w s xs) (encode_seq enc xs)
    unfolding serialize_unsized
    Writes-serialize_unsized xs n h =
        Writes->> w k (Writes-write_len w k (length xs) n) (Writes-serialize_slice xs h)

    pub Writes-serialize_vec :
        (size : ℕ) (xs : List A)
        → 0 < size
        → FitsU32 xs
        → All P xs
        → Does (serialize_vec w size s xs) (encode_seq enc xs)
    unfolding serialize_vec
    Writes-serialize_vec size xs z n h =
        Writes-skip w k (λ s. check_zst-pass size s z) (Writes-serialize_unsized xs n h)

    pub Writes-serialize_vec_deque :
        (size : ℕ) (front back : List A)
        → 0 < size
        → FitsU32 (front ++ back)
        → All P front
        → All P back
        → Does (serialize_vec_deque w size s front back) (encode_seq enc (front ++ back))
    unfolding serialize_vec_deque
    Writes-serialize_vec_deque size front back z n hf hb =
        rw (length-append front back, encode_each-append enc front back)
          (Writes-skip w k (λ s. check_zst-pass size s z)
            (Writes->> w k (Writes-write_len w k _ (omega (arith, length-append front back)))
              (Writes->> w k (Writes-serialize_slice front hf) (Writes-serialize_slice back hb))))

    pub Writes-serialize_array :
        (n : ℕ) (xs : List A)
        → length xs ≡ n
        → All P xs
        → Does (serialize_array w n s xs) (encode_each enc xs)
    unfolding serialize_array
    Writes-serialize_array zero [] l h = Writes-pure w k
    Writes-serialize_array zero (x ∷ xs) l h = absurd (omega arith)
    Writes-serialize_array (suc n) xs l h =
        Writes-serialize_items w k e.item (s.u8_slice xs) xs (e.bulk xs h) h

  pub Writes-serialize_counted :
      {A : Type 0} {P : A → Type 0} {enc : A → List ℕ} {serialize : A → M W (Unit {0})}
      → ((a : A) → P a → Does (serialize a) (enc a))
      → (size : ℕ) (xs : List A) → 0 < size
      → FitsU32 xs
      → All P xs
      → Does (serialize_counted w size serialize xs) (encode_seq enc xs)
  unfolding serialize_counted
  Writes-serialize_counted item size xs z n h =
      Writes-skip w k (λ s. check_zst-pass size s z)
        (Writes->> w k (Writes-write_len w k (length xs) n) (Writes-serialize_each w k item xs h))

  pub u8_serialize-IsEncoder : IsEncoder state Fits (λ b. b < 256) (λ b. b ∷ []) (u8_serialize w)
  u8_serialize-IsEncoder = record {
    item = λ b h. Writes-serialize_u8 w k b;
    bulk = λ xs h. sym (encode_each-byte xs);
  }

  pub Writes-serialize_string :
      (s : List ℕ)
      → All (λ b. b < 256) s
      → FitsU32 s
      → Does (serialize_string w s) (to_le_bytes 4 (length s) ++ s)
  unfolding serialize_string
  Writes-serialize_string s h n =
      rw (encode_each-byte s) at (Writes-serialize_unsized u8_serialize-IsEncoder s n h)
