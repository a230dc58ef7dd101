-- ===== src/Io/Slice.antt =====
-- `impl Read for &[u8]` of borsh/src/nostd_io.rs: the state is the slice that is left.
use borsh_rs.Base.{ℕ, ◌≤◌, ◌<◌, ◌≡◌, ◌∙◌, ap₂, arith, List, ◌++◌, length, take, drop, min, ltb}
use borsh_rs.Base.{if◌then◌else◌, take-append_length, drop-append_length, length-append}
use borsh_rs.Io.{M, Result, ok, err, Read, failed_to_fill}

unfoldable pub slice_read : ℕ → M (List ℕ) (List ℕ)
slice_read n bs = let amt = min n (length bs) in (ok (take amt bs), drop amt bs)

unfoldable pub slice_read_exact : ℕ → M (List ℕ) (List ℕ)
slice_read_exact n bs =
    if ltb (length bs) n then (err failed_to_fill, bs) else (ok (take n bs), drop n bs)

abbrev pub slice_reader : Read (List ℕ)
slice_reader = record { read = slice_read; read_exact = slice_read_exact }

pub slice_read_exact-ok :
    (n : ℕ) (bs : List ℕ) → n ≤ length bs → slice_read_exact n bs ≡ (ok (take n bs), drop n bs)
unfolding slice_read_exact
slice_read_exact-ok n bs h = ground arith

pub slice_read_exact-short :
    (n : ℕ) (bs : List ℕ) → length bs < n → slice_read_exact n bs ≡ (err failed_to_fill, bs)
unfolding slice_read_exact
slice_read_exact-short n bs h = ground arith

-- Reading exactly the bytes at the front.
pub slice_read_exact-append :
    (n : ℕ) (xs rest : List ℕ) → length xs ≡ n → slice_read_exact n (xs ++ rest) ≡ (ok xs, rest)
slice_read_exact-append n xs rest h = rw (← h) (
    slice_read_exact-ok (length xs) (xs ++ rest) (omega (arith, length-append xs rest))
    ∙ ap₂ (λ (a : List ℕ) (b : List ℕ). (Result.ok a, b)) (take-append_length xs rest)
        (drop-append_length xs rest))
