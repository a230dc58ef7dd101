-- ===== src/Io/Sink.antt =====
-- The writers of borsh: `Vec<u8>` and `&mut [u8]` of borsh/src/nostd_io.rs, and the `LengthWriter`
-- of borsh/src/ser/helpers.rs. `IsSink` says what the serializers need of a writer.
use borsh_rs.Base.{
  ℕ, suc, ◌+◌, ◌≤◌, ◌<◌, ◌≡◌, refl, ap, sym, ◌∙◌, arith, List, [], ◌∷◌, ◌++◌, length, take, drop,
  min, ltb, ◌==◌, if◌then◌else◌, length-append, append_assoc, length-drop, drop-drop,
}
use borsh_rs.Io.{M, ok, err, Write, simple, out_of_memory, failed_to_write}
use borsh_rs.Io.{default_write_all, ◌>>=◌, throw, pure}

-- A writer takes whatever it has room for. `state out` is its state once `out` was written.
pub record IsSink {W : Type 0} (w : Write W) (state : List ℕ → W) (Fits : List ℕ → Type 0)
    : Type 0 where
  pub writes :
      (out bytes : List ℕ)
      → Fits (out ++ bytes)
      → w.write_all bytes (state out) ≡ (ok tt, state (out ++ bytes))
  pub shorter : (out more : List ℕ) → Fits (out ++ more) → Fits out

-- `impl Write for Vec<u8>`: both methods are `extend_from_slice`.
unfoldable pub vec_write : List ℕ → M (List ℕ) ℕ
vec_write buf v = (ok (length buf), v ++ buf)

unfoldable pub vec_write_all : List ℕ → M (List ℕ) (Unit {0})
vec_write_all buf v = (ok tt, v ++ buf)

abbrev pub vec_writer : Write (List ℕ)
vec_writer = record { write = vec_write; write_all = vec_write_all }

pub vec_writer-IsSink : (v : List ℕ) → IsSink vec_writer (λ out. v ++ out) (λ _. Unit {0})
unfolding vec_write_all
vec_writer-IsSink v = record { writes = λ out bytes h. rw append_assoc; shorter = λ out more h. tt }

-- `&mut [u8]`: the bytes written, and the part of the buffer that is still free.
pub record MutSlice : Type 0 where
  pub written : List ℕ
  pub free : List ℕ

unfoldable pub mut_slice_write : List ℕ → M MutSlice ℕ
mut_slice_write buf s =
    let amt = min (length buf) (length s.free) in
    (ok amt, record { written = s.written ++ take amt buf; free = drop amt s.free })

unfoldable pub mut_slice_write_all : List ℕ → M MutSlice (Unit {0})
unfolding mut_slice_write
mut_slice_write_all buf = do
  n ← mut_slice_write buf
  if n == length buf then pure tt else throw failed_to_write

abbrev pub mut_slice_writer : Write MutSlice
mut_slice_writer = record { write = mut_slice_write; write_all = mut_slice_write_all }

-- `usize` of a 64-bit target.
abbrev pub usize_max : ℕ
usize_max = 0xffff_ffff_ffff_ffff

-- `LengthWriter`: the state is `len`.
unfoldable pub length_write : List ℕ → M ℕ ℕ
length_write buf len =
    if ltb usize_max (len + length buf)
    then (err (simple out_of_memory), len)
    else (ok (length buf), len + length buf)

-- It has no `write_all` of its own. One `write` takes the whole buffer.
unfoldable pub length_write_all : List ℕ → M ℕ (Unit {0})
unfolding length_write default_write_all
length_write_all buf = default_write_all length_write (length buf) buf

abbrev pub length_writer : Write ℕ
length_writer = record { write = length_write; write_all = length_write_all }

drop_all {ℓ} : {A : Type ℓ} (xs : List A) → drop (length xs) xs ≡ []
drop_all [] = refl
drop_all (x ∷ xs) = drop_all xs

length_write-ok :
    (buf : List ℕ) (len : ℕ)
    → len + length buf ≤ usize_max
    → length_write buf len ≡ (ok (length buf), len + length buf)
unfolding length_write
length_write-ok buf len h = ground arith

-- A `write` that takes the whole buffer ends the default `write_all`.
default_write_all-whole :
    {W : Type 0} (write : List ℕ → M W ℕ) (fuel b : ℕ) (bs : List ℕ) (w : W) {w' : W}
    → write (b ∷ bs) w ≡ (ok (length (b ∷ bs)), w')
    → default_write_all write (suc fuel) (b ∷ bs) w ≡ (ok tt, w')
unfolding default_write_all
default_write_all-whole write fuel b bs w {w'} h =
    rw h (ap (λ (l : List ℕ). default_write_all write fuel l w') (drop_all bs))

length_write_all-ok :
    (buf : List ℕ) (len : ℕ)
    → len + length buf ≤ usize_max
    → length_write_all buf len ≡ (ok tt, len + length buf)
unfolding length_write_all
length_write_all-ok [] len h = ap (λ (n : ℕ). (ok tt, n)) (omega arith)
length_write_all-ok (b ∷ bs) len h =
    default_write_all-whole length_write (length bs) b bs len (length_write-ok (b ∷ bs) len h)

-- The lengths that still fit, from a `LengthWriter` whose `len` is `start`.
abbrev pub FitsLength : ℕ → List ℕ → Type 0
FitsLength start out = start + length out ≤ usize_max

pub length_writer-IsSink :
    (start : ℕ) → IsSink length_writer (λ out. start + length out) (FitsLength start)
length_writer-IsSink start = record {
  writes = λ out bytes h.
      length_write_all-ok bytes (start + length out) (omega (arith, length-append out bytes))
      ∙ ap (λ (n : ℕ). (ok tt, n)) (omega (arith, length-append out bytes));
  shorter = λ out more h. omega (arith, length-append out more);
}

take_all {ℓ} : {A : Type ℓ} (xs : List A) → take (length xs) xs ≡ xs
take_all [] = refl
take_all {A} (x ∷ xs) = ap (λ (l : List A). x ∷ l) (take_all xs)

mut_slice_write_all-ok :
    (buf : List ℕ) (s : MutSlice)
    → length buf ≤ length s.free
    → mut_slice_write_all buf s
      ≡ (ok tt, record { written = s.written ++ buf; free = drop (length buf) s.free })
unfolding mut_slice_write_all
mut_slice_write_all-ok buf s h =
    let amt : min (length buf) (length s.free) ≡ length buf = omega arith in
    rw (amt, take_all buf) (ground arith)

-- A `&mut [u8]` with too little room is filled, and the error tells that not all was written.
pub mut_slice_write_all-full :
    (buf : List ℕ) (s : MutSlice)
    → length s.free < length buf
    → mut_slice_write_all buf s
      ≡ (err failed_to_write, record { written = s.written ++ take (length s.free) buf; free = [] })
unfolding mut_slice_write_all
mut_slice_write_all-full buf s h =
    let amt : min (length buf) (length s.free) ≡ length s.free = omega arith in
    rw (amt, drop_all s.free) (ground arith)

-- The lengths that still fit into a `&mut [u8]` with the bytes `free` left.
abbrev pub FitsSlice : List ℕ → List ℕ → Type 0
FitsSlice free out = length out ≤ length free

abbrev pub mut_slice_after : List ℕ → List ℕ → MutSlice
mut_slice_after free out = record { written = out; free = drop (length out) free }

pub mut_slice_writer-IsSink :
    (free : List ℕ) → IsSink mut_slice_writer (mut_slice_after free) (FitsSlice free)
mut_slice_writer-IsSink free = record {
  writes = λ out bytes h.
      mut_slice_write_all-ok bytes _
        (omega (arith, length-append out bytes, length-drop (length out) free))
      ∙ ap (λ (l : List ℕ). (ok tt, record { written = out ++ bytes; free = l }))
          (drop-drop (length out) (length bytes) free
            ∙ ap (λ (n : ℕ). drop n free) (sym (length-append out bytes)));
  shorter = λ out more h. omega (arith, length-append out more);
}
