-- ===== src/Io.antt =====
-- borsh/src/nostd_io.rs: errors, the state-passing form of `&mut self` methods, and the traits
-- `Write` and `Read`. A `&mut [u8]` that a method fills is the list of bytes that it returns.
pub mod Slice
pub mod Sink
pub mod Stream
pub mod Default
use borsh_rs.Base.{
  ℕ, zero, suc, ◌+◌, ◌-◌, ◌≤◌, ◌<◌, String, Bool, true, false, Option, none, some, List, [], ◌∷◌,
  ◌++◌, length, drop, ltb, ◌==◌, if◌then◌else◌,
}

pub data ErrorKind : Type 0 where
  not_found permission_denied connection_refused connection_reset connection_aborted : ErrorKind
  not_connected addr_in_use addr_not_available broken_pipe already_exists would_block : ErrorKind
  invalid_input invalid_data timed_out write_zero interrupted other : ErrorKind
  unexpected_eof out_of_memory : ErrorKind

-- The text of an error; `fmt a n b` is `format!("a{n}b")`, and `from_display` is the text that
-- another library's error prints.
pub data Message : Type 0 where
  msg : String → Message
  fmt : String → ℕ → String → Message
  from_display : Message

-- `Repr`: a bare kind, or a kind with a message.
pub data Error : Type 0 where
  simple : ErrorKind → Error
  custom : ErrorKind → Message → Error

unfoldable pub kind : Error → ErrorKind
kind (simple k) = k
kind (custom k m) = k

-- `out_of_fuel` is no result of the program: a loop used up the rounds that the model gives it.
pub data Result {ℓ} (A : Type ℓ) : Type ℓ where
  ok : A → Result A
  err : Error → Result A
  out_of_fuel : Result A

-- `Result::map_err`
abbrev pub map_err {ℓ} : {A : Type ℓ} → (Error → Error) → Result A → Result A
map_err f (ok a) = ok a
map_err f (err e) = err (f e)
map_err f out_of_fuel = out_of_fuel

-- A method with `&mut self` on a value of type `S`.
abbrev pub M : Type 0 → Type 0 → Type 0
M S A = S → Result A × S

abbrev pub pure : {S A : Type 0} → A → M S A
pure a s = (ok a, s)

abbrev pub throw : {S A : Type 0} → Error → M S A
throw e s = (err e, s)

abbrev pub lift : {S A : Type 0} → Result A → M S A
lift r s = (r, s)

abbrev pub and_then : {S A B : Type 0} → Result A × S → (A → M S B) → Result B × S
and_then (ok a, s) f = f a s
and_then (err e, s) f = (err e, s)
and_then (out_of_fuel, s) f = (out_of_fuel, s)

infixl 5 ◌>>=◌ ◌>>◌
abbrev pub ◌>>=◌ : {S A B : Type 0} → M S A → (A → M S B) → M S B
◌>>=◌ m f s = and_then (m s) f

abbrev pub ◌>>◌ : {S B : Type 0} → M S (Unit {0}) → M S B → M S B
m >> k = m >>= λ _. k

abbrev pub map_err_of : {S A : Type 0} → (Error → Error) → M S A → M S A
map_err_of f m s = (map_err f (m s).0, (m s).1)

-- `Write::{write, write_all}` of a writer of type `W`; `flush` of every writer here is empty.
pub record Write (W : Type 0) : Type 0 where
  pub write : List ℕ → M W ℕ
  pub write_all : List ℕ → M W (Unit {0})

-- `read n` is `read` on a buffer of `n` bytes: it returns the bytes put at the buffer's front.
-- `read_exact n` returns the whole buffer.
pub record Read (R : Type 0) : Type 0 where
  pub read : ℕ → M R (List ℕ)
  pub read_exact : ℕ → M R (List ℕ)

abbrev pub failed_to_write : Error
failed_to_write = custom write_zero (msg "failed to write whole buffer")

abbrev pub failed_to_fill : Error
failed_to_fill = custom unexpected_eof (msg "failed to fill whole buffer")

abbrev pub is_interrupted : Error → Bool
is_interrupted (simple interrupted) = true
is_interrupted (custom interrupted m) = true
is_interrupted _ = false

-- What a round of the default `write_all` does with the outcome of one `write`.
abbrev after_write :
    {W : Type 0} → List ℕ → (List ℕ → M W (Unit {0})) → Result ℕ × W → Result (Unit {0}) × W
after_write buf again (ok zero, w) = (err failed_to_write, w)
after_write buf again (ok (suc n), w) = again (drop (suc n) buf) w
after_write buf again (err e, w) =
    let retry = again buf w in if is_interrupted e then retry else (err e, w)
after_write buf again (out_of_fuel, w) = (out_of_fuel, w)

-- The default method `Write::write_all`; a `write` that is interrupted is made again.
unfoldable pub default_write_all : {W : Type 0} → (List ℕ → M W ℕ) → ℕ → List ℕ → M W (Unit {0})
default_write_all write fuel [] w = (ok tt, w)
default_write_all write zero (b ∷ bs) w = (out_of_fuel, w)
default_write_all write (suc fuel) (b ∷ bs) w =
    after_write (b ∷ bs) (default_write_all write fuel) (write (b ∷ bs) w)

-- What a round of `default_read_exact` does with the outcome of one `read` into `n` free bytes.
abbrev pub after_read :
    {R : Type 0}
    → ℕ
    → List ℕ
    → (ℕ → List ℕ → M R (List ℕ))
    → Result (List ℕ) × R
    → Result (List ℕ) × R
after_read n acc again (ok [], r) = (err failed_to_fill, r)
after_read n acc again (ok (b ∷ bs), r) = again (n - length (b ∷ bs)) (acc ++ (b ∷ bs)) r
after_read n acc again (err e, r) =
    let retry = again n acc r in if is_interrupted e then retry else (err e, r)
after_read n acc again (out_of_fuel, r) = (out_of_fuel, r)

-- `default_read_exact` with `n` bytes of the buffer still to fill, and `acc` those filled.
unfoldable pub default_read_exact :
    {R : Type 0} → (ℕ → M R (List ℕ)) → ℕ → ℕ → List ℕ → M R (List ℕ)
default_read_exact read fuel zero acc r = (ok acc, r)
default_read_exact read zero (suc n) acc r = (out_of_fuel, r)
default_read_exact read (suc fuel) (suc n) acc r =
    after_read (suc n) acc (default_read_exact read fuel) (read (suc n) r)
