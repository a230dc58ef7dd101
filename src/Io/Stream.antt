-- ===== src/Io/Stream.antt =====
-- What the deserializers need of a reader: it hands out the bytes of one sequence, in order.
use borsh_rs.Base.{ℕ, ◌≤◌, ◌<◌, ◌≡◌, refl, arith, List, length, take, drop, min}
use borsh_rs.Io.{M, ok, err, Read, Error, unexpected_eof, kind, failed_to_fill}
use borsh_rs.Io.Slice.{slice_read, slice_reader, slice_read_exact-ok, slice_read_exact-short}

-- `rem r` is what is still to come. A `read` may return fewer bytes than there is room for, but
-- none only at the end or into an empty buffer, and it does not fail.
abbrev pub Reading : {R : Type 0} → (ℕ → M R (List ℕ)) → (R → List ℕ) → Type 0
Reading {R} read rem =
    (n : ℕ) (r : R)
    → (m : ℕ) × (r' : R) × (read n r ≡ (ok (take m (rem r)), r'))
      × (rem r' ≡ drop m (rem r))
      × (m ≤ n)
      × (m ≤ length (rem r))
      × (0 < n → 0 < length (rem r) → 0 < m)

-- `read_exact` fills the buffer, or fails with `UnexpectedEof`.
pub record IsStream {R : Type 0} (rd : Read R) (rem : R → List ℕ) : Type 0 where
  pub read_some : Reading rd.read rem
  pub read_all :
      (n : ℕ) (r : R)
      → n ≤ length (rem r)
      → (r' : R) × (rd.read_exact n r ≡ (ok (take n (rem r)), r')) × (rem r' ≡ drop n (rem r))
  pub read_short :
      (n : ℕ) (r : R)
      → length (rem r) < n
      → (e : Error) × (r' : R) × (rd.read_exact n r ≡ (err e, r')) × (kind e ≡ unexpected_eof)

pub slice_reader-IsStream : IsStream slice_reader (λ bs. bs)
unfolding slice_read kind
slice_reader-IsStream = record {
  read_some = λ n r. (
    min n (length r),
    drop (min n (length r)) r,
    refl,
    refl,
    omega arith,
    omega arith,
    λ a b. omega arith,
  );
  read_all = λ n r h. (drop n r, slice_read_exact-ok n r h, refl);
  read_short = λ n r h. (failed_to_fill, r, slice_read_exact-short n r h, refl);
}
