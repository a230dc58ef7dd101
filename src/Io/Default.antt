-- ===== src/Io/Default.antt =====
-- `default_read_exact` of borsh/src/nostd_io.rs, on a `read` that hands out bytes in pieces.
use borsh_rs.Base.{
  ℕ, zero, suc, ◌-◌, ◌≤◌, ◌<◌, ◌≡◌, refl, ap, ◌∙◌, arith, List, [], ◌∷◌, ◌++◌, length, take, drop,
  length-take, length-drop, take-take-drop, drop-drop, append_assoc, append-nil,
}
use borsh_rs.Io.{M, Result, ok, err, kind, failed_to_fill, default_read_exact, after_read}
use native.Mathlib.Decide.{dec_lt}
use borsh_rs.Io.Stream.{IsStream, Reading}

after_read-some :
    {R : Type 0} (n : ℕ) (acc : List ℕ) (again : ℕ → List ℕ → M R (List ℕ)) (buf : List ℕ) (r : R)
    → 0 < length buf
    → after_read n acc again (ok buf, r) ≡ again (n - length buf) (acc ++ buf) r
after_read-some n acc again [] r h = absurd (omega arith)
after_read-some n acc again (b ∷ buf) r h = refl

take_pieces :
    (acc l : List ℕ) (m n : ℕ)
    → m ≤ n
    → (acc ++ take m l) ++ take (n - m) (drop m l) ≡ acc ++ take n l
take_pieces acc l m n h =
    append_assoc acc (take m l) (take (n - m) (drop m l))
    ∙ ap (λ (k : List ℕ). acc ++ k)
        (take-take-drop m (n - m) l ∙ ap (λ (j : ℕ). take j l) (omega arith))

drop_pieces : (l : List ℕ) (m n : ℕ) → m ≤ n → drop (n - m) (drop m l) ≡ drop n l
drop_pieces l m n h = drop-drop m (n - m) l ∙ ap (λ (j : ℕ). drop j l) (omega arith)

module _ {R : Type 0} (read : ℕ → M R (List ℕ)) {rem : R → List ℕ} (k : Reading read rem) where
  -- One round that reads `m` bytes.
  round :
      (fuel n m : ℕ) (acc : List ℕ) (r r' : R)
      → read (suc n) r ≡ (ok (take m (rem r)), r')
      → m ≤ length (rem r)
      → 0 < m
      → default_read_exact read (suc fuel) (suc n) acc r
        ≡ default_read_exact read fuel (suc n - m) (acc ++ take m (rem r)) r'
  unfolding default_read_exact
  round fuel n m acc r r' run avail pos =
      let len : length (take m (rem r)) ≡ m = omega (arith, length-take m (rem r)) in
      rw run (
        after_read-some (suc n) acc (default_read_exact read fuel) (take m (rem r)) r'
          (omega (arith, len))
        ∙ ap (λ (j : ℕ). default_read_exact read fuel (suc n - j) (acc ++ take m (rem r)) r') len)

  pub default_read_exact-ok :
      (fuel n : ℕ) (acc : List ℕ) (r : R)
      → n ≤ fuel
      → n ≤ length (rem r)
      → (r' : R) × (default_read_exact read fuel n acc r ≡ (ok (acc ++ take n (rem r)), r'))
        × (rem r' ≡ drop n (rem r))
  unfolding default_read_exact
  default_read_exact-ok fuel zero acc r f h = (r, rw append-nil refl, refl)
  default_read_exact-ok zero (suc n) acc r f h = absurd (omega arith)
  default_read_exact-ok (suc fuel) (suc n) acc r f h =
      let (m, r', run, left, le, avail, pos) = k (suc n) r in
      let some_bytes : 0 < m = pos (omega arith) (omega arith) in
      let (r'', rest, end) =
        default_read_exact-ok fuel (suc n - m) (acc ++ take m (rem r)) r'
          (omega (arith, f, some_bytes))
          (omega (arith, h, ap length left, length-drop m (rem r))) in
      (
        r'',
        round fuel n m acc r r' run avail some_bytes
            ∙ rest
            ∙ ap (λ (l : List ℕ). (Result.ok l, r''))
                (rw left (take_pieces acc (rem r) m (suc n) le)),
        end ∙ rw left (drop_pieces (rem r) m (suc n) le),
      )

  -- A round at the end of the input.
  at_end :
      (fuel n m : ℕ) (acc l : List ℕ) (r r' : R)
      → read (suc n) r ≡ (ok (take m l), r')
      → l ≡ []
      → default_read_exact read (suc fuel) (suc n) acc r ≡ (err failed_to_fill, r')
  unfolding default_read_exact
  at_end fuel n zero acc l r r' run e = rw run refl
  at_end fuel n (suc m) acc [] r r' run e = rw run refl
  at_end fuel n (suc m) acc (b ∷ l) r r' run e = cc

  pub default_read_exact-short :
      (fuel n : ℕ) (acc : List ℕ) (r : R)
      → n ≤ fuel
      → length (rem r) < n
      → (r' : R) × (default_read_exact read fuel n acc r ≡ (err failed_to_fill, r'))
  default_read_exact-short fuel zero acc r f h = absurd (omega arith)
  default_read_exact-short zero (suc n) acc r f h = absurd (omega arith)
  default_read_exact-short (suc fuel) (suc n) acc r f h =
      let (m, r', run, left, le, avail, pos) = k (suc n) r in
      elim (dec_lt 0 (length (rem r))) [
        | yes more ↦
            let some_bytes : 0 < m = pos (omega arith) more in
            let (r'', rest) =
              default_read_exact-short fuel (suc n - m) (acc ++ take m (rem r)) r'
                (omega (arith, f, some_bytes))
                (omega (arith, h, avail, more, ap length left, length-drop m (rem r))) in
            (r'', round fuel n m acc r r' run avail some_bytes ∙ rest)
        | no none_left ↦ (r', at_end fuel n m acc (rem r) r r' run (length_zero (rem r) none_left))
      ]
    where
      length_zero : (l : List ℕ) → ¬ (0 < length l) → l ≡ []
      length_zero [] z = refl
      length_zero (b ∷ l) z = absurd (z (omega arith))

  -- A reader that has only `read`, which hands out bytes in pieces and does not fail, and takes the
  -- trait's own `read_exact`: this fills the buffer with the next bytes, however many calls it takes,
  -- or fails with `UnexpectedEof` if there are fewer.
  pub default_reader-IsStream :
      IsStream (record { read = read; read_exact = λ n. default_read_exact read n n [] }) rem
  unfolding kind
  default_reader-IsStream = record {
    read_some = k;
    read_all = λ n r h. default_read_exact-ok n n [] r (omega arith) h;
    read_short = λ n r h.
        let (r', run) = default_read_exact-short n n [] r (omega arith) h in
        (failed_to_fill, r', run, refl);
  }
