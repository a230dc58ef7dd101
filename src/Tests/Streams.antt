-- ===== src/Tests/Streams.antt =====
-- Readers and writers: theorems at concrete inputs.
use borsh_rs.Base.{◌<◌, ◌≤◌, ◌*◌, ◌⊎◌}
use borsh_rs.Base.{min, drop, length, refl}
use borsh_rs.Io.{M, Read, default_read_exact}
use borsh_rs.Io.Stream.{Reading, IsStream}
use borsh_rs.Io.Default.{default_reader-IsStream}
use borsh_rs.Num.{Bytes}
use borsh_rs.De.Simulate.{Agrees}
use borsh_rs.De.Entry.{from_slice, from_reader}
use borsh_rs.Types.{u16, unsigned, option}
use borsh_rs.Types.Results.{deserialize}
use borsh_rs.Types.Streams.{deserialize-Agrees, from_reader-from_slice}
use borsh_rs.De.Hint.{cautious, cautious-bounds}
use borsh_rs.Base.{ℕ, ◌≡◌, arith, List, [], ◌∷◌, some}
use borsh_rs.Io.{ok, err}
use borsh_rs.Io.Slice.{slice_reader, slice_read}
use borsh_rs.Io.Stream.{slice_reader-IsStream}
use borsh_rs.Io.Sink.{mut_slice_write_all, mut_slice_write_all-full}
use borsh_rs.Io.{failed_to_write}
use borsh_rs.De.{unexpected_length}
use borsh_rs.De.Seq.{u8_vec_from_reader}
use borsh_rs.De.Bulk.{u8_vec_from_reader-ok, u8_vec_from_reader-short}

u8_vec_from_reader-ok_example :
    (r' : List ℕ) × (u8_vec_from_reader slice_reader 2 (7 ∷ 8 ∷ 9 ∷ [])
      ≡ (ok (some (7 ∷ 8 ∷ [])), r'))
    × (r' ≡ 9 ∷ [])
u8_vec_from_reader-ok_example =
    u8_vec_from_reader-ok slice_reader slice_reader-IsStream 2 (7 ∷ 8 ∷ 9 ∷ []) (omega arith)
      (omega arith) (omega arith)

u8_vec_from_reader-short_example :
    (r' : List ℕ) × (u8_vec_from_reader slice_reader 4 (7 ∷ 8 ∷ 9 ∷ [])
      ≡ (err unexpected_length, r'))
u8_vec_from_reader-short_example =
    u8_vec_from_reader-short slice_reader slice_reader-IsStream 4 (7 ∷ 8 ∷ 9 ∷ []) (omega arith)
      (omega arith)

mut_slice_write_all-full_example :
    mut_slice_write_all (7 ∷ 8 ∷ 9 ∷ []) (record { written = 1 ∷ []; free = 0 ∷ 0 ∷ [] })
    ≡ (err failed_to_write, record { written = 1 ∷ 7 ∷ 8 ∷ []; free = [] })
mut_slice_write_all-full_example =
    mut_slice_write_all-full (7 ∷ 8 ∷ 9 ∷ []) (record { written = 1 ∷ []; free = 0 ∷ 0 ∷ [] })
      (omega arith)

cautious-bounds_example :
    (n : ℕ) × (cautious 24 1000000 ≡ some n)
    × (0 < n)
    × ((n ≤ 1000000) ⊎ (n ≡ 1))
    × ((n * 24 ≤ 4096) ⊎ (n ≡ 1))
cautious-bounds_example = cautious-bounds 24 1000000 (omega arith) (omega arith)

-- A reader that gives one byte at a time.
abbrev drip : ℕ → M (List ℕ) (List ℕ)
drip n = slice_read (min n 1)

drip-Reading : Reading drip (λ bs. bs)
unfolding slice_read
drip-Reading n bs = (
  min (min n 1) (length bs),
  drop (min (min n 1) (length bs)) bs,
  refl,
  refl,
  omega arith,
  omega arith,
  λ a b. omega arith,
)

abbrev drip_reader : Read (List ℕ)
drip_reader = record { read = drip; read_exact = λ n. default_read_exact drip n n [] }

default_reader-IsStream_example : IsStream drip_reader (λ bs. bs)
default_reader-IsStream_example = default_reader-IsStream drip drip-Reading

option-Bytes : Bytes (1 ∷ 5 ∷ 7 ∷ 9 ∷ [])
option-Bytes = omega arith

deserialize-Agrees_example :
    Agrees
      (λ bs. bs)
      (λ v. Unit {0})
      (deserialize drip_reader (option (unsigned u16)) (1 ∷ 5 ∷ 7 ∷ 9 ∷ []))
      (deserialize slice_reader (option (unsigned u16)) (1 ∷ 5 ∷ 7 ∷ 9 ∷ []))
deserialize-Agrees_example =
    deserialize-Agrees drip_reader (default_reader-IsStream drip drip-Reading)
      (option (unsigned u16)) (1 ∷ 5 ∷ 7 ∷ 9 ∷ []) option-Bytes

from_reader-from_slice_example :
    (from_reader drip_reader
      (deserialize drip_reader (option (unsigned u16)))
      (1 ∷ 5 ∷ 7 ∷ 9 ∷ [])).0
    ≡ from_slice (deserialize slice_reader (option (unsigned u16))) (1 ∷ 5 ∷ 7 ∷ 9 ∷ [])
from_reader-from_slice_example =
    from_reader-from_slice drip_reader (default_reader-IsStream drip drip-Reading)
      (option (unsigned u16)) (1 ∷ 5 ∷ 7 ∷ 9 ∷ []) option-Bytes
