-- ===== src/De/Entry.antt =====
-- borsh/src/de/mod.rs: `try_from_slice`, `from_slice`, `try_from_reader` and `from_reader`.
use borsh_rs.Base.{List, [], ◌∷◌, ℕ, if◌then◌else◌}
use borsh_rs.Io.{M, Read, Error, Result, ok, err, out_of_fuel, kind, ◌>>=◌}
use borsh_rs.De.{invalid, is_eof}

abbrev pub not_all_bytes_read : Error
not_all_bytes_read = invalid "Not all bytes read"

-- The rest of the slice decides.
abbrev pub finish_slice : {A : Type 0} → Result A × List ℕ → Result A
finish_slice (ok a, []) = ok a
finish_slice (ok a, b ∷ rest) = err not_all_bytes_read
finish_slice (err e, rest) = err e
finish_slice (out_of_fuel, rest) = out_of_fuel

-- `deserialize` at the slice reader.
unfoldable pub from_slice : {A : Type 0} → M (List ℕ) A → List ℕ → Result A
from_slice deserialize v = finish_slice (deserialize v)

-- What a read of one more byte tells: only the end of the input is right.
abbrev pub finish_reader : {R A : Type 0} → A → Result (List ℕ) × R → Result A × R
finish_reader a (ok buf, r) = (err not_all_bytes_read, r)
finish_reader a (err e, r) = if is_eof (kind e) then (ok a, r) else (err not_all_bytes_read, r)
finish_reader a (out_of_fuel, r) = (out_of_fuel, r)

unfoldable pub from_reader : {R A : Type 0} → Read R → M R A → M R A
unfolding kind
from_reader rd deserialize = do a ← deserialize; λ r. finish_reader a (rd.read_exact 1 r)
