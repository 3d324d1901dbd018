-- ===== src/Delta/Diff.antt =====
-- src/delta/encode/mod.rs: the encoder behind the `diffs` crate. The crate's algorithm is a
-- parameter: the list of the calls that it makes of the `Diff` trait's methods.
pub mod Encode
pub mod Script
use git_internal.Base.{
  ℕ, zero, suc, ◌+◌, ◌-◌, ◌%◌, bit_and, Bool, true, false, ◌&&◌, List, [], ◌∷◌, ◌++◌, Bytes, Option,
  none, some, ltb, ◌==◌, if◌then◌else◌, length, take, drop, last?, set_last,
}
use git_internal.Delta.Size.{write_size_encoding}
use git_internal.Delta.Copy.{copy_op}

abbrev pub data_ins_len : ℕ
data_ins_len = 0x7f

pub data Optype : Type 0 where
  data_ins copy_ins : Optype

pub record DeltaOp : Type 0 where
  pub ins : Optype
  pub begin : ℕ
  pub len : ℕ

pub record DeltaDiff : Type 0 where
  pub ops : List DeltaOp
  pub old_data : Bytes
  pub new_data : Bytes
  pub ssam : ℕ

abbrev pub is_copy : Optype → Bool
is_copy copy_ins = true
is_copy data_ins = false

abbrev pub is_data : Optype → Bool
is_data copy_ins = false
is_data data_ins = true

abbrev pub copied : ℕ → ℕ → DeltaOp
copied begin len = record { ins = copy_ins; begin = begin; len = len }

abbrev pub inserted : ℕ → ℕ → DeltaOp
inserted begin len = record { ins = data_ins; begin = begin; len = len }

pub push_equal : Option DeltaOp → List DeltaOp → ℕ → ℕ → List DeltaOp
push_equal none ops old len = ops ++ copied old len ∷ []
push_equal (some tail) ops old len =
    if tail.begin + tail.len == old && is_copy tail.ins
    then set_last ops (record tail { len = tail.len + len })
    else ops ++ copied old len ∷ []

pub equal : DeltaDiff → ℕ → ℕ → ℕ → DeltaDiff
equal d old new len = record d { ops = push_equal (last? d.ops) d.ops old len; ssam = d.ssam + len }

-- `while len > DATA_INS_LEN`, and the push behind it. Each round takes 127 bytes from `len`.
pub push_chunks : ℕ → List DeltaOp → ℕ → ℕ → List DeltaOp
push_chunks zero ops new len = ops
push_chunks (suc fuel) ops new len =
    let more =
      push_chunks fuel (ops ++ inserted new data_ins_len ∷ []) (new + data_ins_len)
        (len - data_ins_len) in
    if ltb data_ins_len len then more else ops ++ inserted new len ∷ []

pub push_insert : Option DeltaOp → List DeltaOp → ℕ → ℕ → List DeltaOp
push_insert none ops new len = ops ++ inserted new len ∷ []
push_insert (some tail) ops new len =
    if tail.begin + tail.len == new && (is_data tail.ins && ltb (tail.len + len) data_ins_len)
    then set_last ops (record tail { len = tail.len + len })
    else ops ++ inserted new len ∷ []

pub insert : DeltaDiff → ℕ → ℕ → ℕ → DeltaDiff
insert d old new len = record d {
  ops =
      if ltb data_ins_len len
      then push_chunks (suc len) d.ops new len
      else push_insert (last? d.ops) d.ops new len;
}

-- A call of the `Diff` trait. `delete` keeps the trait's default, which does nothing.
pub data Event : Type 0 where
  equal_at insert_at : ℕ → ℕ → ℕ → Event
  delete_at : ℕ → ℕ → Event

pub handle : DeltaDiff → Event → DeltaDiff
handle d (equal_at old new len) = equal d old new len
handle d (insert_at old new len) = insert d old new len
handle d (delete_at old len) = d

pub handle_all : DeltaDiff → List Event → DeltaDiff
handle_all d [] = d
handle_all d (e ∷ es) = handle_all (handle d e) es

-- `DeltaDiff::new`, given the calls that the crate makes.
unfoldable pub new : Bytes → Bytes → List Event → DeltaDiff
unfolding handle_all handle equal insert push_equal push_chunks push_insert
new old_data new_data =
    handle_all (record { ops = []; old_data = old_data; new_data = new_data; ssam = 0 })

pub encode_ins : Optype → Bytes → ℕ → ℕ → Bytes
encode_ins data_ins new_data begin len = (bit_and len 0x7f % 256) ∷ take len (drop begin new_data)
encode_ins copy_ins new_data begin len = copy_op begin len

-- The slice `new_data[begin..begin + len]` is in bounds for every operation that `insert` pushes.
pub encode_op : Bytes → DeltaOp → Bytes
encode_op new_data op = encode_ins op.ins new_data op.begin op.len

pub encode_ops : Bytes → List DeltaOp → Bytes
encode_ops new_data [] = []
encode_ops new_data (op ∷ ops) = encode_op new_data op ++ encode_ops new_data ops

unfoldable pub encode : DeltaDiff → Bytes
unfolding encode_ops encode_op encode_ins write_size_encoding copy_op
encode d =
    write_size_encoding (length d.old_data)
    ++ (write_size_encoding (length d.new_data) ++ encode_ops d.new_data d.ops)
