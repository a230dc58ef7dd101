-- ===== src/De/Bulk.antt =====
-- `u8::vec_from_reader` of borsh/src/de/mod.rs on a reader that hands out its bytes in pieces.
use borsh_rs.Base.{
  ℕ, zero, suc, ◌+◌, ◌-◌, ◌*◌, ◌≤◌, ◌<◌, ◌≡◌, refl, sym, ap, ◌∙◌, arith, true, false, some, List,
  [], ◌++◌, length, take, drop, min, ◌==◌, length-append, length-take, length-drop, take-take-drop,
  drop-drop, append_assoc, append-nil, lt→ltb, le→ltb,
}
use native.Mathlib.Decide.{dec_lt}
use borsh_rs.Io.{Result, ok, err, Read}
use borsh_rs.Io.Sink.{usize_max}
use borsh_rs.Io.Stream.{IsStream}
use borsh_rs.De.{unexpected_length}
use borsh_rs.De.Seq.{resize, vec_from_reader_loop, u8_vec_from_reader}

resize_bounds :
    (pos vec_len len : ℕ)
    → pos ≤ vec_len
    → vec_len ≤ len
    → 0 < vec_len
    → pos < len
    → len ≤ usize_max
    → (pos < resize pos vec_len len) × (resize pos vec_len len ≤ len)
unfolding resize
resize_bounds pos vec_len len a b c d e = ground arith

-- The bytes of two reads are those of one.
gather :
    (m need : ℕ) (bytes before after : List ℕ)
    → after ≡ drop m before
    → m ≤ need
    → (bytes ++ take m before) ++ take (need - m) after ≡ bytes ++ take need before
gather m need bytes before after e h =
    rw (e, append_assoc, take-take-drop) (ap (λ (n : ℕ). bytes ++ take n before) (omega arith))

gather_drop :
    (m need : ℕ) (before after : List ℕ)
    → after ≡ drop m before
    → m ≤ need
    → drop (need - m) after ≡ drop need before
gather_drop m need before after e h =
    rw (e, drop-drop) (ap (λ (n : ℕ). drop n before) (omega arith))

module _ {R : Type 0} (rd : Read R) {rem : R → List ℕ} (k : IsStream rd rem) where
  -- A round that reads the `m` next bytes, and goes on.
  loop_step :
      (fuel len vec_len m : ℕ) (bytes : List ℕ) (r r' : R)
      → length bytes < len
      → rd.read (resize (length bytes) vec_len len - length bytes) r ≡ (ok (take m (rem r)), r')
      → m ≤ length (rem r)
      → 0 < m
      → vec_from_reader_loop rd (suc fuel) len vec_len bytes r
        ≡ vec_from_reader_loop rd fuel len
            (resize (length bytes) vec_len len)
            (bytes ++ take m (rem r))
            r'
  unfolding vec_from_reader_loop
  loop_step fuel len vec_len m bytes r r' more read avail pos =
      let some_read : (length (take m (rem r)) == 0) ≡ false =
        ground (arith, length-take m (rem r)) in
      rw (lt→ltb _ _ more, read, some_read)

  loop_end :
      (fuel len vec_len m : ℕ) (bytes : List ℕ) (r r' : R)
      → length bytes < len
      → rd.read (resize (length bytes) vec_len len - length bytes) r ≡ (ok (take m (rem r)), r')
      → length (rem r) ≡ 0
      → vec_from_reader_loop rd (suc fuel) len vec_len bytes r ≡ (err unexpected_length, r')
  unfolding vec_from_reader_loop
  loop_end fuel len vec_len m bytes r r' more read avail =
      let none_read : (length (take m (rem r)) == 0) ≡ true =
        ground (arith, length-take m (rem r)) in
      rw (lt→ltb _ _ more, read, none_read)

  loop_done :
      (fuel len vec_len : ℕ) (bytes : List ℕ) (r : R)
      → length bytes ≡ len
      → vec_len ≡ len
      → vec_from_reader_loop rd (suc fuel) len vec_len bytes r ≡ (ok bytes, r)
  unfolding vec_from_reader_loop
  loop_done fuel len vec_len bytes r a b =
      let none_left : vec_len - length bytes ≡ 0 = omega arith in
      rw (le→ltb (length bytes) len (omega arith), none_left)
        (ap (λ (l : List ℕ). (Result.ok l, r)) (append-nil bytes))

  -- What is left to read after `m` of `need` bytes were read.
  rest_of :
      (len m : ℕ) (bytes : List ℕ) (r : R)
      → length (bytes ++ take m (rem r)) ≡ length bytes + min m (length (rem r))
  rest_of len m bytes r = omega (arith, length-append bytes (take m (rem r)), length-take m (rem r))

  loop_ok :
      (fuel len vec_len : ℕ) (bytes : List ℕ) (r : R)
      → length bytes ≤ vec_len
      → vec_len ≤ len
      → 0 < vec_len
      → len ≤ usize_max
      → (need : ℕ) → length bytes + need ≡ len
      → need < fuel
      → need ≤ length (rem r)
      → (r' : R) × (vec_from_reader_loop rd fuel len vec_len bytes r
          ≡ (ok (bytes ++ take need (rem r)), r'))
        × (rem r' ≡ drop need (rem r))
  loop_ok zero len vec_len bytes r a b c d need e f h = absurd (omega arith)
  loop_ok (suc fuel) len vec_len bytes r a b c d zero e f h = (
    r,
    loop_done fuel len vec_len bytes r (omega arith) (omega arith)
        ∙ ap (λ (l : List ℕ). (Result.ok l, r)) (sym (append-nil bytes)),
    refl,
  )
  loop_ok (suc fuel) len vec_len bytes r a b c d (suc need) e f h =
      let new = resize (length bytes) vec_len len in
      let (in_new, new_in) = resize_bounds (length bytes) vec_len len a b c (omega arith) d in
      let (m, r₁, read, left, fits, avail, some_read) = k.read_some (new - length bytes) r in
      let pos : 0 < m = some_read (omega arith) (omega arith) in
      let (r', run, end) =
        loop_ok fuel len new (bytes ++ take m (rem r)) r₁ (omega (arith, rest_of len m bytes r))
          new_in (omega arith) d (suc need - m) (omega (arith, rest_of len m bytes r)) (omega arith)
          (omega (arith, ap length left, length-drop m (rem r))) in
      (
        r',
        loop_step fuel len vec_len m bytes r r₁ (omega arith) read avail pos
            ∙ run
            ∙ ap (λ (l : List ℕ). (Result.ok l, r'))
                (gather m (suc need) bytes (rem r) (rem r₁) left (omega arith)),
        end ∙ gather_drop m (suc need) (rem r) (rem r₁) left (omega arith),
      )

  loop_short :
      (fuel len vec_len : ℕ) (bytes : List ℕ) (r : R)
      → length bytes ≤ vec_len
      → vec_len ≤ len
      → 0 < vec_len
      → len ≤ usize_max
      → (need : ℕ) → length bytes + need ≡ len
      → need < fuel
      → length (rem r) < need
      → (r' : R) × (vec_from_reader_loop rd fuel len vec_len bytes r ≡ (err unexpected_length, r'))
  loop_short zero len vec_len bytes r a b c d need e f h = absurd (omega arith)
  loop_short (suc fuel) len vec_len bytes r a b c d need e f h =
      let new = resize (length bytes) vec_len len in
      let (in_new, new_in) = resize_bounds (length bytes) vec_len len a b c (omega arith) d in
      let (m, r₁, read, left, fits, avail, some_read) = k.read_some (new - length bytes) r in
      elim (dec_lt 0 (length (rem r))) [
        | yes more ↦
            let pos : 0 < m = some_read (omega arith) more in
            let (r', run) =
              loop_short fuel len new (bytes ++ take m (rem r)) r₁
                (omega (arith, rest_of len m bytes r)) new_in (omega arith) d (need - m)
                (omega (arith, rest_of len m bytes r)) (omega arith)
                (omega (arith, ap length left, length-drop m (rem r))) in
            (r', loop_step fuel len vec_len m bytes r r₁ (omega arith) read avail pos ∙ run)
        | no none_left ↦
            (r₁, loop_end fuel len vec_len m bytes r r₁ (omega arith) read (omega arith))
      ]

  -- On a reader that gives its bytes in portions of any size, `vec_from_reader` of a length above 0
  -- and up to `usize::MAX` returns the next `len` bytes and leaves the others, if there are that many.
  pub u8_vec_from_reader-ok :
      (len : ℕ) (r : R)
      → 0 < len
      → len ≤ usize_max
      → len ≤ length (rem r)
      → (r' : R) × (u8_vec_from_reader rd len r ≡ (ok (some (take len (rem r))), r'))
        × (rem r' ≡ drop len (rem r))
  unfolding u8_vec_from_reader
  u8_vec_from_reader-ok len r z d h =
      let (r', run, end) =
        loop_ok (suc len) len (min len (1024 * 1024)) [] r (omega arith) (omega arith) (omega arith)
          d len (omega arith) (omega arith) h in
      (r', rw run, end)

  -- On such a reader with fewer bytes than `len`, it fails with the error on an unexpected length.
  pub u8_vec_from_reader-short :
      (len : ℕ) (r : R)
      → len ≤ usize_max
      → length (rem r) < len
      → (r' : R) × (u8_vec_from_reader rd len r ≡ (err unexpected_length, r'))
  unfolding u8_vec_from_reader
  u8_vec_from_reader-short len r d h =
      let (r', run) =
        loop_short (suc len) len (min len (1024 * 1024)) [] r (omega arith) (omega arith)
          (omega arith) d len (omega arith) (omega arith) h in
      (r', rw run)
