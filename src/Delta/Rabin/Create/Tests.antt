-- ===== src/Delta/Rabin/Create/Tests.antt =====
-- Runs of `create_delta`, and its theorems at them.
use git_internal.Base.{◌≤◌, [], ◌∷◌, Bytes, none, some, ok, err, length, ◌≡◌, refl, arith}
use git_internal.Delta.Samples.{old_bytes, new_bytes, old_index, always, always-Allocates}
use git_internal.Delta.Decode.{delta_decode}
use git_internal.Delta.Size.{write_varint}
use git_internal.Delta.Copy.{push_copy_op}
use git_internal.Delta.Rabin.Match.{extend_match}
use git_internal.Delta.Rabin.Hash.{push_hash, hash_bytes}
use git_internal.Delta.Rabin.Tables.{table_u}
use git_internal.Delta.Rabin.Create.{
  create_delta, main_loop, body, emit, first_state, find_match, bucket_entries, scan_bucket,
  too_long, panicked, roll, back_extend, absorb, open_run, close_run, emit_literal, emit_copy,
}
use git_internal.Delta.Rabin.Index.{create_delta_index}
use git_internal.Delta.Rabin.Index.Lookup.{IsSearchable}
use git_internal.Delta.Rabin.Index.Sound.{create_delta_index-IsSound}
use git_internal.Delta.Rabin.Create.Run.{delta_decode-create_delta}
use git_internal.Delta.Rabin.Create.Limit.{create_delta_max_size}

abbrev delta_bytes : Bytes
delta_bytes = 24 ∷ 25 ∷ 1 ∷ 99 ∷ 0x90 ∷ 24 ∷ []

create_delta_test : create_delta old_index new_bytes (some 20) ≡ ok delta_bytes
unfolding create_delta main_loop body emit first_state find_match bucket_entries scan_bucket roll
    back_extend absorb open_run close_run emit_literal emit_copy extend_match push_copy_op
    write_varint hash_bytes push_hash table_u
create_delta_test = refl

-- The literal bytes that the next match absorbs count while they are pending.
create_delta_short : create_delta old_index new_bytes (some 19) ≡ err too_long
unfolding create_delta main_loop body emit first_state find_match bucket_entries scan_bucket roll
    back_extend absorb open_run close_run emit_literal emit_copy extend_match push_copy_op
    write_varint hash_bytes push_hash table_u
create_delta_short = refl

old_indexed : create_delta_index old_bytes ≡ some old_index
unfolding create_delta_index
old_indexed = refl

old_index-IsSearchable : IsSearchable old_index
old_index-IsSearchable =
    (create_delta_index-IsSound old_bytes {index = old_index} (omega arith) old_indexed).2

-- An index without buckets panics.
create_delta_no_buckets :
    create_delta (record old_index { buckets = [] }) new_bytes none ≡ err panicked
unfolding create_delta main_loop body emit first_state find_match bucket_entries scan_bucket roll
    back_extend absorb open_run close_run emit_literal emit_copy extend_match push_copy_op
    write_varint hash_bytes push_hash table_u
create_delta_no_buckets = refl

-- An entry beyond the source.
scan_bucket_beyond :
    scan_bucket old_bytes new_bytes 5 0
      (record { offset = 25; hash = 5 } ∷ [])
      (record { msize = 0; moff = 0 })
    ≡ err panicked
unfolding scan_bucket
scan_bucket_beyond = refl

delta_decode-create_delta_example :
    (delta : Bytes) × (create_delta old_index new_bytes none ≡ ok delta)
    × (delta_decode always delta old_bytes ≡ ok new_bytes)
delta_decode-create_delta_example =
    delta_decode-create_delta always old_index new_bytes old_index-IsSearchable (omega arith)
      (omega arith) (omega arith) (omega arith) (always-Allocates 25)

create_delta_max_size_example :
    (create_delta old_index new_bytes none ≡ ok delta_bytes) × (length delta_bytes ≤ 20)
create_delta_max_size_example =
    create_delta_max_size old_index new_bytes 20 delta_bytes (omega arith) create_delta_test
