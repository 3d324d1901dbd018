-- ===== src/Delta/Rabin/Create/Emit.antt =====
-- The invariant of the main loop through its two ends: a literal byte, or a copy instruction.
use git_internal.Base.{
  ℕ, ◌+◌, ◌-◌, ◌^◌, ◌≤◌, ◌<◌, min, [], ◌∷◌, ◌++◌, Bytes, ◌==◌, length, take, drop, get_or, ◌≡◌,
  refl, arith, ap, ap₂, sym, ◌∙◌, Bool-cases, inl, inr, get_or-drop, length-drop, ==_iff, take-add,
  take-add-one, append_assoc, append-nil, subst, subst₂,
}
use git_internal.Delta.Copy.{copy_op}
use git_internal.Delta.Copy.RoundTrip.{push_copy_op_lem}
use git_internal.Delta.Decode.Stream.{Rebuilds, Rebuilds-copy, Rebuilds-append}
use git_internal.Delta.Rabin.Create.{State, open_run, emit_literal, emit_copy}
use git_internal.Delta.Rabin.Hash.{u32}
use git_internal.Delta.Rabin.Create.Scan.{Matches, Matches-slice, Matches-rest}
use git_internal.Delta.Rabin.Create.Steps.{Inv, pending, pending-open, flush_run}

module _ (src target header : Bytes) where
  abbrev Good : State → Type 0
  Good = Inv src target header

  abbrev open_bytes : ℕ → ℕ → Bytes
  open_bytes = pending src target header

  -- The copy instruction adds the bytes that the match has in the target.
  pub emit_copy-Inv :
      {s : State}
      → length src < 2 ^ 32
      → length target < 2 ^ 32
      → Good s
      → s.inscnt ≡ 0
      → 4 ≤ s.msize
      → Good (emit_copy target s)
        × (s.data_pos + min s.msize 0x10000 ≡ (emit_copy target s).data_pos)
  unfolding emit_copy
  emit_copy-Inv {s} hs ht v none_open big =
      let left : ℕ = u32 s.msize - 0x10000 in
      let r : ℕ = u32 s.msize - left in
      let whole : u32 s.msize ≡ s.msize = omega (arith, v.found.src_fits) in
      let off : u32 s.moff ≡ s.moff = omega (arith, v.found.src_fits) in
      let small : r ≤ s.msize = omega arith in
      let cop : Bytes = copy_op (u32 s.moff) r in
      let copied : Rebuilds src cop (take r (drop s.data_pos target)) =
        subst (Rebuilds src cop)
          (ap (λ o. take r (drop o src)) off ∙ Matches-slice src target r small v.found)
          (Rebuilds-copy src (u32 s.moff) r (omega arith) (omega arith)
            (omega (arith, v.found.src_fits)) (omega (arith, v.found.src_fits))) in
      let reopened : (xs : Bytes)
          → (header ++ xs) ++ open_bytes s.inscnt (s.data_pos + r - s.inscnt) ≡ header ++ xs =
        λ xs.
          ap (λ k. (header ++ xs) ++ open_bytes k (s.data_pos + r - s.inscnt)) none_open
          ∙ append-nil (header ++ xs) in
      let closed : (header ++ v.front) ++ open_bytes s.inscnt (s.data_pos - s.inscnt)
          ≡ header ++ v.front =
        ap (λ k. (header ++ v.front) ++ open_bytes k (s.data_pos - s.inscnt)) none_open
        ∙ append-nil (header ++ v.front) in
      let before : Rebuilds src v.front (take s.data_pos target) =
        subst (λ k. Rebuilds src v.front (take k target)) {x = s.data_pos - s.inscnt}
          {y = s.data_pos} (omega arith) v.rebuilt in
      (
        record {
          front = v.front ++ cop;
          rebuilt =
              subst (Rebuilds src (v.front ++ cop))
                (sym (take-add s.data_pos r (s.data_pos + r - s.inscnt) target (omega arith)))
                (Rebuilds-append before copied);
          out_is =
              push_copy_op_lem s.out (u32 s.moff) r
              ∙ ap (λ t. t ++ cop) (v.out_is ∙ closed)
              ∙ append_assoc header v.front cop
              ∙ sym (reopened (v.front ++ cop));
          run_at = λ h. absurd (omega arith);
          short = v.short;
          behind = omega arith;
          within = omega (arith, v.found.target_fits);
          found =
              subst₂ (λ o n. Matches src target o (s.data_pos + r) n) {x = s.moff + r}
                {y = u32 (u32 s.moff + r)} {u = s.msize - r} {v = left}
                (omega (arith, v.found.src_fits)) (omega arith)
                (Matches-rest src target r small v.found);
        },
        omega arith,
      )

  -- An open run, with the place of its length byte.
  open_run_out :
      {s : State} (v : Good s)
      → ((open_run s).out
          ≡ (header ++ v.front) ++ 0 ∷ take s.inscnt (drop (s.data_pos - s.inscnt) target))
        × ((open_run s).data_len_pos ≡ length (header ++ v.front))
  unfolding open_run
  open_run_out {s} v = elim (Bool-cases (s.inscnt == 0)) [
    | inl none_open ↦
        let none : s.inscnt ≡ 0 = (==_iff s.inscnt 0).0 none_open in
        let closed : s.out ≡ header ++ v.front =
          v.out_is
          ∙ ap (λ k. (header ++ v.front) ++ open_bytes k (s.data_pos - s.inscnt)) none
          ∙ append-nil (header ++ v.front) in
        rw none_open (
          ap (λ t. t ++ 0 ∷ []) closed
              ∙ ap (λ k. (header ++ v.front) ++ 0 ∷ take k (drop (s.data_pos - s.inscnt) target))
                  {x = 0} {y = s.inscnt} (sym none),
          ap length closed,
        )
    | inr some_open ↦
        let lo : 0 < s.inscnt = ground arith in
        rw some_open (
          v.out_is
              ∙ ap (λ t. (header ++ v.front) ++ t)
                  (pending-open src target header s.inscnt (s.data_pos - s.inscnt) lo),
          v.run_at lo,
        )
  ]

  open_run_moff : (s : State) → (open_run s).moff ≡ s.moff
  unfolding open_run
  open_run_moff s = ground arith

  no_match :
      {s : State} (p : ℕ) → p ≤ length target → Good s → Matches src target (open_run s).moff p 0
  no_match {s} p hp v = record {
    src_fits = omega (arith, open_run_moff s, v.found.src_fits);
    target_fits = omega arith;
    agrees = λ k h. absurd (omega arith);
  }

  -- A literal byte joins the run, which is flushed when it is full.
  pub emit_literal-Inv :
      {s : State}
      → s.data_pos < length target
      → Good s
      → Good (emit_literal target s) × ((emit_literal target s).data_pos ≡ s.data_pos + 1)
  unfolding emit_literal
  emit_literal-Inv {s} room v =
      let start : ℕ = s.data_pos - s.inscnt in
      let opened = open_run_out v in
      let next : Bytes = take (s.inscnt + 1) (drop start target) in
      let run : next ≡ take s.inscnt (drop start target) ++ get_or target s.data_pos 0 ∷ [] =
        take-add-one s.inscnt 0 (drop start target)
          (omega (arith, length-drop start target, v.behind))
        ∙ ap (λ b. take s.inscnt (drop start target) ++ b ∷ [])
            (get_or-drop start s.inscnt 0 target
              ∙ ap (λ k. get_or target k 0) (omega (arith, v.behind))) in
      let out_is : (open_run s).out ++ get_or target s.data_pos 0 ∷ []
          ≡ (header ++ v.front) ++ 0 ∷ next =
        ap (λ t. t ++ get_or target s.data_pos 0 ∷ []) opened.0
        ∙ append_assoc (header ++ v.front) _ _
        ∙ ap (λ t. (header ++ v.front) ++ 0 ∷ t) (sym run) in
      elim (Bool-cases (s.inscnt + 1 == 127)) [
        | inl full ↦ rw full (
          let n : s.inscnt + 1 ≡ 127 = (==_iff (s.inscnt + 1) 127).0 full in
              let at : start ≡ s.data_pos + 1 - 127 = omega arith in
              let (front', rebuilt', out') =
                flush_run src target header v.front
                  ((open_run s).out ++ get_or target s.data_pos 0 ∷ []) 127 (s.data_pos + 1)
                  (open_run s).data_len_pos (omega arith) (omega arith) (omega (arith, v.behind))
                  (omega arith) (subst (λ k. Rebuilds src v.front (take k target)) at v.rebuilt)
                  (out_is ∙ ap₂ (λ k a. (header ++ v.front) ++ 0 ∷ take k (drop a target)) n at)
                  opened.1 in
              record {
                front = front';
                rebuilt =
                    subst (λ k. Rebuilds src front' (take k target)) {x = s.data_pos + 1}
                      {y = s.data_pos + 1 - 0} (omega arith) rebuilt';
                out_is = out' ∙ sym (append-nil (header ++ front'));
                run_at = λ h. absurd (omega arith);
                short = omega arith;
                behind = omega arith;
                within = omega arith;
                found = no_match (s.data_pos + 1) (omega arith) v;
              },
          refl,
        )
        | inr open' ↦ rw open' (
          let at : start ≡ s.data_pos + 1 - (s.inscnt + 1) = omega arith in
              record {
                front = v.front;
                rebuilt = subst (λ k. Rebuilds src v.front (take k target)) at v.rebuilt;
                out_is =
                    out_is
                    ∙ ap (λ a. (header ++ v.front) ++ 0 ∷ take (s.inscnt + 1) (drop a target)) at
                    ∙ ap (λ t. (header ++ v.front) ++ t)
                        (sym (
                          pending-open src target header (s.inscnt + 1)
                            (s.data_pos + 1 - (s.inscnt + 1)) (omega arith)));
                run_at = λ h. opened.1;
                short = ground (arith, v.short);
                behind = omega (arith, v.behind);
                within = omega arith;
                found = no_match (s.data_pos + 1) (omega arith) v;
              },
          refl,
        )
      ]
