-- ===== src/Delta/Rabin/Create/Run.antt =====
-- The whole run of `create_delta_inner`, src/delta/encode/rabin/mod.rs.
use git_internal.Base.{
  ℕ, bit_and, List, ◌||◌, false, All-take, All-drop, zero, suc, ◌+◌, ◌-◌, ◌^◌, ◌≤◌, ◌<◌, min, Bool,
  [], ◌∷◌, ◌++◌, Bytes, IsByte, All, none, ok, ltb, ◌==◌, length, take, drop, ◌≡◌, refl, arith, ap,
  ap₂, sym, ◌∙◌, Bool-cases, inl, inr, if_elim, ltb→lt, ltb→le, append_assoc, append-nil, subst,
  take_all,
}
use git_internal.Delta.Size.{write_varint}
use git_internal.Delta.Size.RoundTrip.{write_varint-eq-write_size_encoding}
use git_internal.Delta.Decode.{delta_decode}
use git_internal.Delta.Decode.Stream.{Rebuilds, done, Allocates, delta_decode-Rebuilds}
use git_internal.Delta.Rabin.Create.{
  State, bucket_entries, find_match, roll, emit, body, first_state, main_loop, create_delta, absorb,
  close_run, back_extend,
}
use git_internal.Delta.Rabin.Index.{IndexEntry, RabinDeltaIndex}
use git_internal.Delta.Rabin.Index.Lookup.{IsSearchable}
use git_internal.Delta.Rabin.Create.Scan.{scan_bucket-IsMatch, back_extend-Matches, back_extend-le}
use git_internal.Delta.Rabin.Create.Steps.{
  Inv, pending-open, absorb-Inv, close_run-Inv, close_run_out,
}
use git_internal.Delta.Rabin.Create.Emit.{emit_copy-Inv, emit_literal-Inv}

module _ (index : RabinDeltaIndex) (target header : Bytes) (searchable : IsSearchable index)
    (src_bytes : All IsByte index.source) (target_bytes : All IsByte target)
    (hs : length index.source < 2 ^ 32) (ht : length target < 2 ^ 32) where
  abbrev Good : State → Type 0
  Good = Inv index.source target header

  -- No lookup of a bucket is out of range.
  bucket_entries-inside :
      (val : ℕ)
      → (bucket : List IndexEntry) × (bucket_entries index (bit_and val index.hash_mask)
          ≡ ok bucket)
        × All (λ e. e.offset ≤ length index.source) bucket
  unfolding bucket_entries
  bucket_entries-inside val =
      let b = searchable.buckets val in
      let inside = λ (e : IndexEntry). e.offset ≤ length index.source in
      let in_range : (ltb b.bucket_end b.bucket_start || ltb (length index.entries) b.bucket_end)
          ≡ false =
        ground (arith, b.ordered, b.inside) in
      (
        take (b.bucket_end - b.bucket_start) (drop b.bucket_start index.entries),
        rw (b.starts, b.ends, in_range) refl,
        All-take inside (b.bucket_end - b.bucket_start) _
            (All-drop inside b.bucket_start index.entries searchable.entries),
      )

  -- The search does not panic, and changes the hash and the match only.
  find_match-Good :
      (s : State)
      → Good s
      → (t : State) × (find_match index target s ≡ ok t)
        × Good t
        × (t.data_pos ≡ s.data_pos)
        × (t.inscnt ≡ s.inscnt)
  unfolding find_match
  find_match-Good s v =
      let val : ℕ = roll index.source target s.val s.data_pos in
      let (bucket, looked_up, inside) = bucket_entries-inside val in
      let (best, scanned, m) =
        scan_bucket-IsMatch index.source target src_bytes target_bytes val s.data_pos bucket
          (record { msize = s.msize; moff = s.moff }) hs v.within inside v.found in
      elim (Bool-cases (ltb s.msize 4096)) [
        | inl short ↦ (
          record s { val = val; moff = best.moff; msize = best.msize },
          rw (short, looked_up, scanned) refl,
          record {
            front = v.front;
            rebuilt = v.rebuilt;
            out_is = v.out_is;
            run_at = v.run_at;
            short = v.short;
            behind = v.behind;
            within = v.within;
            found = m;
          },
          refl,
          refl,
        )
        | inr long ↦ (
          record s { val = val },
          rw long refl,
          record {
            front = v.front;
            rebuilt = v.rebuilt;
            out_is = v.out_is;
            run_at = v.run_at;
            short = v.short;
            behind = v.behind;
            within = v.within;
            found = v.found;
          },
          refl,
          refl,
        )
      ]

  -- A round keeps the invariant, and moves on in the target.
  abbrev Round : State → State → Type 0
  Round s t = Good t × (s.data_pos < t.data_pos)

  absorb_data_pos :
      (back : ℕ) (s : State)
      → ((absorb back s).data_pos ≡ s.data_pos - back) × ((absorb back s).msize ≡ s.msize + back)
  unfolding absorb
  absorb_data_pos back s = ground arith

  close_run_keeps :
      (s : State) → ((close_run s).data_pos ≡ s.data_pos) × ((close_run s).msize ≡ s.msize)
  unfolding close_run
  close_run_keeps s = (refl, refl)

  emit-Round : (f : State) → f.data_pos < length target → Good f → Round f (emit index target f)
  unfolding emit
  emit-Round f room g =
      let left : ℕ = min f.inscnt f.moff in
      let back : ℕ = back_extend index.source target left f.moff f.data_pos 0 in
      let back_le : back ≤ left = back_extend-le index.source target left f.moff f.data_pos in
      if_elim (Round f) (ltb f.msize 4)
        (λ _.
          let (ok', moved) = emit_literal-Inv index.source target header (omega arith) g in
          (ok', omega arith))
        (λ big.
          let grown =
            back_extend-Matches index.source target left (omega arith) (omega (arith, g.behind))
              g.found in
          let absorbed = absorb-Inv index.source target header back (omega arith) grown g in
          let (closed, none_open) = close_run-Inv index.source target header absorbed in
          let (p, n) = absorb_data_pos back f in
          let (p', n') = close_run_keeps (absorb back f) in
          let (copied, moved) =
            emit_copy-Inv index.source target header hs ht closed none_open
              (omega (arith, ltb→le f.msize 4 big)) in
          (copied, omega (arith, g.short, g.behind, ltb→le f.msize 4 big)))

  body-Round :
      (s : State)
      → s.data_pos < length target
      → Good s
      → (t : State) × (body index target s ≡ ok t) × Round s t
  unfolding body
  body-Round s room v =
      let (f, found, g, same_pos, same_cnt) = find_match-Good s v in
      let (v', moved) = emit-Round f (omega (arith, room, same_pos)) g in
      (emit index target f, rw found refl, (v', omega (arith, moved, same_pos)))

  -- With no limit on the size the loop ends at the end of the target.
  main_loop-Good :
      (fuel : ℕ) (s : State)
      → length target ≤ fuel + s.data_pos
      → Good s
      → (t : State) × (main_loop index target fuel none s ≡ ok t)
        × Good t
        × (t.data_pos ≡ length target)
  unfolding main_loop
  main_loop-Good zero s h v = (s, refl, v, omega (arith, v.within))
  main_loop-Good (suc fuel) s h v = elim (Bool-cases (ltb s.data_pos (length target))) [
    | inl room ↦
        let (next, emitted, (v', moved)) =
          body-Round s (ltb→lt s.data_pos (length target) room) v in
        rw (room, emitted) (main_loop-Good fuel next (omega (arith, h, moved)) v')
    | inr at_end ↦
        rw at_end (s, refl, v, omega (arith, v.within, ltb→le s.data_pos (length target) at_end))
  ]

module _ (index : RabinDeltaIndex) (target : Bytes) where
  abbrev header_of : Bytes
  header_of = write_varint (length index.source) ++ write_varint (length target)

  first_state-Inv : 0 < length target → Inv index.source target header_of (first_state index target)
  unfolding first_state
  first_state-Inv lo =
      let n : ℕ = min 16 (length target) in
      let zero_at : n - n ≡ 0 = omega arith in
      record {
        front = [];
        rebuilt = subst (λ k. Rebuilds index.source [] (take k target)) (sym zero_at) done;
        out_is =
            append_assoc header_of (0 ∷ []) (take n target)
            ∙ ap₂ ◌++◌ (sym (append-nil header_of)) (
                ap (λ z. 0 ∷ take n (drop z target)) (sym zero_at)
                ∙ sym (pending-open index.source target header_of n (n - n) (omega arith)));
        run_at = λ h. ap length (sym (append-nil header_of));
        short = omega arith;
        behind = omega arith;
        within = omega arith;
        found = record {
          src_fits = omega arith;
          target_fits = omega arith;
          agrees = λ k h. absurd (omega arith);
        };
      }

  decodes :
      (reserves : ℕ → ℕ → Bool) (front : Bytes)
      → length index.source < 2 ^ 32
      → length target < 2 ^ 32
      → Allocates reserves (length target)
      → Rebuilds index.source front target
      → delta_decode reserves (header_of ++ front) index.source ≡ ok target
  decodes reserves front hs ht alloc r =
      rw
        (
          write_varint-eq-write_size_encoding (length index.source),
          write_varint-eq-write_size_encoding (length target),
          append_assoc,
        )
        (delta_decode-Rebuilds reserves index.source target front (omega arith) (omega arith) alloc
          r)

-- `create_delta` with no limit on the size gives a delta without a panic, and the decoder rebuilds the
-- target from it: for sources and targets below 4 GiB whose members are bytes, an index with a bucket
-- in range for every hash and no entry beyond the source, whatever else it holds, and an allocator
-- that gives what the target's size allows.
pub delta_decode-create_delta :
    (reserves : ℕ → ℕ → Bool) (index : RabinDeltaIndex) (target : Bytes)
    → IsSearchable index
    → All IsByte index.source
    → All IsByte target
    → length index.source < 2 ^ 32
    → length target < 2 ^ 32
    → Allocates reserves (length target)
    → (delta : Bytes) × (create_delta index target none ≡ ok delta)
      × (delta_decode reserves delta index.source ≡ ok target)
unfolding create_delta
delta_decode-create_delta reserves index target searchable bs bt hs ht alloc =
    elim (Bool-cases (length target == 0)) [
      | inl empty ↦ rw empty (
        header_of index target,
        refl,
        let none : [] ≡ target = take_all 0 target (ground arith) in
            let d : delta_decode reserves (header_of index target ++ []) index.source ≡ ok target =
              decodes index target reserves [] hs ht alloc
                (subst (Rebuilds index.source []) none done) in
            rw append-nil at d,
      )
      | inr some_bytes ↦
          let lo : 0 < length target = ground arith in
          let (t, run, v, at_end) =
            main_loop-Good index target (header_of index target) searchable bs bt hs ht
              (length target) (first_state index target) (omega arith)
              (first_state-Inv index target lo) in
          let (front', rebuilt, out) =
            close_run_out index.source target (header_of index target) v in
          rw (some_bytes, run)
            (
              (close_run t).out,
              refl,
              rw out (
                  decodes index target reserves front' hs ht alloc (
                    subst (Rebuilds index.source front')
                      (ap (λ k. take k target) at_end
                        ∙ take_all (length target) target (omega arith))
                      rebuilt)),
            )
    ]
