-- ===== src/Ser/Helpers.antt =====
-- borsh/src/ser/helpers.rs: `to_vec`, `to_writer` and `object_length`. The argument is the
-- `serialize` of the value, at the writer that the helper makes.
use borsh_rs.Base.{ℕ, List, []}
use borsh_rs.Io.{M, Result, ok, err, out_of_fuel}

-- The writer's state, once the value is written.
abbrev pub state_of : {W : Type 0} → Result (Unit {0}) × W → Result W
state_of (ok u, w) = ok w
state_of (err e, w) = err e
state_of (out_of_fuel, w) = out_of_fuel

-- At `vec_writer`. The capacity that the vector starts with is not modelled.
unfoldable pub to_vec : M (List ℕ) (Unit {0}) → Result (List ℕ)
to_vec serialize = state_of (serialize [])

unfoldable pub to_writer : {W : Type 0} → M W (Unit {0}) → M W (Unit {0})
to_writer serialize = serialize

-- At `length_writer`.
unfoldable pub object_length : M ℕ (Unit {0}) → Result ℕ
object_length serialize = state_of (serialize 0)
