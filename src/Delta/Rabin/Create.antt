-- ===== src/Delta/Rabin/Create.antt =====
-- `create_delta_inner` of src/delta/encode/rabin/mod.rs, and the public functions over it. The
-- counters of `DeltaStats` are left out: no result depends on them.
pub mod Scan
pub mod Steps
pub mod Emit
pub mod Run
pub mod Limit
pub mod Tests
use git_internal.Base.{
  ℕ, zero, suc, ◌+◌, ◌-◌, ◌*◌, ◌/◌, ◌%◌, ◌^◌, min, bit_and, bit_or, bit_xor, Bool, true, false, not,
  ◌&&◌, ◌||◌, List, [], ◌∷◌, ◌++◌, Bytes, Option, none, some, leb, ltb, ◌==◌, if◌then◌else◌, length,
  take, drop, get_or, get_elem?, set, Result, ok, err, ◌>>=◌,
}
use git_internal.Delta.Size.{write_varint}
use git_internal.Delta.Copy.{push_copy_op}
use git_internal.Delta.Rabin.Tables.{rabin_window, rabin_shift, data_ins_len, table_t, table_u}
use git_internal.Delta.Rabin.Hash.{u32, push_hash, hash_bytes}
use git_internal.Delta.Rabin.Index.{IndexEntry, RabinDeltaIndex}
use git_internal.Delta.Rabin.Match.{extend_match}

-- The encoder's variables. `out` holds the header too; where `inscnt` is not 0, `data_len_pos` is
-- the place in `out` of the length byte that is still to be written.
pub record State : Type 0 where
  pub out : Bytes
  pub data_len_pos : ℕ
  pub val : ℕ
  pub data_pos : ℕ
  pub inscnt : ℕ
  pub moff : ℕ
  pub msize : ℕ

-- The best match so far: its length and its place in the source.
pub record Best : Type 0 where
  pub msize : ℕ
  pub moff : ℕ

-- How a run ends without a delta: a panic, of an index or a subtraction that is out of range, or an
-- output that is longer than the limit.
pub data Stop : Type 0 where
  panicked too_long : Stop

abbrev pub some_or_panic : {A : Type 0} → Option A → Result Stop A
some_or_panic none = err panicked
some_or_panic (some a) = ok a

module _ (src_data target : Bytes) where
  -- The scan of a bucket, with its `continue` and its two `break`s. Where an entry beyond the source
  -- is taken from the source's length a debug build panics.
  pub scan_bucket : ℕ → ℕ → List IndexEntry → Best → Result Stop Best
  scan_bucket val data_pos [] best = ok best
  scan_bucket val data_pos (entry ∷ es) best =
      let max_match = min (length src_data - entry.offset) (length target - data_pos) in
      let match_len = extend_match src_data target entry.offset data_pos max_match in
      let longer : Best = record { msize = u32 match_len; moff = u32 entry.offset } in
      let skip = scan_bucket val data_pos es best in
      let go_on = scan_bucket val data_pos es longer in
      if not (entry.hash == val)
      then skip
      else if ltb (length src_data) entry.offset
      then err panicked
      else if leb max_match best.msize
      then ok best
      else if ltb best.msize match_len
      then (if leb 4096 (u32 match_len) then ok longer else go_on)
      else skip

  -- The rolling hash after the byte at `data_pos`.
  pub roll : ℕ → ℕ → ℕ
  roll val data_pos =
      push_hash
        (if leb rabin_window data_pos
          then bit_xor val (get_or table_u (get_or target (data_pos - rabin_window) 0) 0)
          else val)
        (get_or target data_pos 0)

  -- How many bytes before the match agree too.
  pub back_extend : ℕ → ℕ → ℕ → ℕ → ℕ
  back_extend zero match_off data_pos cnt = cnt
  back_extend (suc left) match_off data_pos cnt =
      let more = back_extend left match_off data_pos (cnt + 1) in
      if get_or src_data (match_off - 1 - cnt) 0 == get_or target (data_pos - 1 - cnt) 0
      then more
      else cnt

-- The placeholder of a literal run's length byte, where no run is open.
pub open_run : State → State
open_run s =
    if s.inscnt == 0 then record s { out = s.out ++ 0 ∷ []; data_len_pos = length s.out } else s

-- The match grown backwards by `back` bytes, which leave the literal run.
pub absorb : ℕ → State → State
absorb back s =
    if ltb 0 back
    then record s {
      out = take (if s.inscnt - back == 0 then s.data_len_pos else length s.out - back) s.out;
      data_pos = s.data_pos - back;
      inscnt = s.inscnt - back;
      moff = s.moff - back;
      msize = s.msize + back;
    }
    else s

-- The length byte of the pending literal run.
pub close_run : State → State
close_run s = record s {
  out = if ltb 0 s.inscnt then set s.out s.data_len_pos (s.inscnt % 256) else s.out;
  inscnt = 0;
}

module _ (target : Bytes) where
  -- A short match: the byte at `data_pos` joins the literal run, and a full run is flushed.
  pub emit_literal : State → State
  emit_literal s =
      let opened = open_run s in
      let out = opened.out ++ get_or target s.data_pos 0 ∷ [] in
      let full = s.inscnt + 1 == data_ins_len in
      record opened {
        out = if full then set out opened.data_len_pos data_ins_len else out;
        data_pos = s.data_pos + 1;
        inscnt = if full then 0 else s.inscnt + 1;
        msize = 0;
      }

  -- The copy instruction, of 64 KiB at most, and what is left of the match.
  pub emit_copy : State → State
  emit_copy s =
      let left = u32 s.msize - 0x10000 in
      let remaining = u32 s.msize - left in
      let data_pos = s.data_pos + remaining in
      record s {
        out = push_copy_op s.out (u32 s.moff) remaining;
        data_pos = data_pos;
        moff = u32 (u32 s.moff + remaining);
        msize = left;
        val =
            if ltb left 4096 && leb rabin_window data_pos
            then hash_bytes 0 (take rabin_window (drop (data_pos - rabin_window) target))
            else s.val;
      }

abbrev pub exceeds : Option ℕ → Bytes → Bool
exceeds none out = false
exceeds (some max) out = ltb max (length out)

module _ (index : RabinDeltaIndex) where
  -- `&entries[buckets[bi]..buckets[bi + 1]]`
  pub bucket_entries : ℕ → Result Stop (List IndexEntry)
  bucket_entries bi = do
    bucket_start ← some_or_panic (get_elem? index.buckets bi)
    bucket_end ← some_or_panic (get_elem? index.buckets (bi + 1))
    if ltb bucket_end bucket_start || ltb (length index.entries) bucket_end
        then err panicked
        else ok (take (bucket_end - bucket_start) (drop bucket_start index.entries))

module _ (index : RabinDeltaIndex) (target : Bytes) where
  pub find_match : State → Result Stop State
  find_match s =
      let val = roll index.source target s.val s.data_pos in
      if ltb s.msize 4096
      then (do
        bucket ← bucket_entries index (bit_and val index.hash_mask)
        best ←
            scan_bucket index.source target val s.data_pos bucket
              (record { msize = s.msize; moff = s.moff })
        ok (record s { val = val; moff = best.moff; msize = best.msize }))
      else ok (record s { val = val })

  -- What a round emits, behind its search.
  pub emit : State → State
  emit found =
      let back =
        back_extend index.source target (min found.inscnt found.moff) found.moff found.data_pos 0 in
      if ltb found.msize 4
      then emit_literal target found
      else emit_copy target (close_run (absorb back found))

  -- The body of the main loop, up to the test of `max_size`.
  pub body : State → Result Stop State
  body s = do found ← find_match s; ok (emit found)

  -- The main loop. Every round moves `data_pos` on, so `trg_len` rounds are enough; a loop that
  -- ran out of them would return what it has.
  pub main_loop : ℕ → Option ℕ → State → Result Stop State
  main_loop zero max_size s = ok s
  main_loop (suc fuel) max_size s =
      if ltb s.data_pos (length target)
      then (do
        next ← body s
        if exceeds max_size next.out then err too_long else main_loop fuel max_size next)
      else ok s

  unfoldable pub first_state : State
  first_state =
      let header = write_varint (length index.source) ++ write_varint (length target) in
      let init_count = min rabin_window (length target) in
      record {
        out = (header ++ 0 ∷ []) ++ take init_count target;
        data_len_pos = length header;
        val = hash_bytes 0 (take init_count target);
        data_pos = init_count;
        inscnt = init_count;
        moff = 0;
        msize = 0;
      }

  -- `create_delta`: its `None` is the early end where the output is longer than `max_size`.
  unfoldable pub create_delta : Option ℕ → Result Stop Bytes
  create_delta max_size =
      if length target == 0
      then ok (write_varint (length index.source) ++ write_varint (length target))
      else (do
        s ← main_loop (length target) max_size first_state
        let out = (close_run s).out
        if exceeds max_size out then err too_long else ok out)
