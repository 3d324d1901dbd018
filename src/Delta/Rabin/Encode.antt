-- ===== src/Delta/Rabin/Encode.antt =====
-- The public functions of src/delta/encode/rabin/mod.rs over the index and `create_delta`.
pub mod RoundTrip
use git_internal.Base.{
  ℕ, zero, suc, ◌+◌, ◌-◌, ◌%◌, min, Bool, true, false, [], ◌∷◌, ◌++◌, Bytes, Option, none, some,
  Result, ok, err, ltb, ◌==◌, if◌then◌else◌, length, take, drop,
}
use git_internal.Delta.Size.{write_varint}
use git_internal.Delta.Rabin.Tables.{data_ins_len}
use git_internal.Delta.Rabin.Index.{RabinDeltaIndex, create_delta_index}
use git_internal.Delta.Rabin.Create.{Stop, create_delta}

-- The runs of at most 127 bytes from `pos` on. Each takes a byte, so `new_len` rounds are enough.
pub literal_runs : ℕ → Bytes → ℕ → Bytes
literal_runs zero new_data pos = []
literal_runs (suc fuel) new_data pos =
    let chunk = min data_ins_len (length new_data - pos) in
    let rest = literal_runs fuel new_data (pos + chunk) in
    if ltb pos (length new_data)
    then (chunk % 256) ∷ (take chunk (drop pos new_data) ++ rest)
    else []

unfoldable pub encode_literal_only : ℕ → Bytes → Bytes
unfolding literal_runs
encode_literal_only source_len new_data =
    write_varint source_len
    ++ (write_varint (length new_data) ++ literal_runs (length new_data) new_data 0)

-- `expect` on the delta with no limit: `none` here is a panic, of this or of `create_delta`.
abbrev pub expect : Result Stop Bytes → Option Bytes
expect (ok delta) = some delta
expect (err e) = none

pub encode_with_index : RabinDeltaIndex → Bytes → Option Bytes
encode_with_index index target = expect (create_delta index target none)

pub encode_indexed : Option RabinDeltaIndex → ℕ → Bytes → Option Bytes
encode_indexed (some index) old_len new_data = encode_with_index index new_data
encode_indexed none old_len new_data = some (encode_literal_only old_len new_data)

unfoldable pub encode_rabin : Bytes → Bytes → Option Bytes
unfolding encode_indexed encode_with_index
encode_rabin old_data new_data =
    if length new_data == 0
    then some (write_varint (length old_data) ++ write_varint 0)
    else if length old_data == 0
    then some (encode_literal_only 0 new_data)
    else encode_indexed (create_delta_index old_data) (length old_data) new_data

unfoldable pub encode_with_max_size : RabinDeltaIndex → Bytes → ℕ → Result Stop Bytes
unfolding create_delta
encode_with_max_size index target max_size =
    if length target == 0
    then ok (write_varint (length index.source) ++ write_varint 0)
    else create_delta index target (some max_size)
