-- ===== src/Delta/Rabin/Create/Steps.antt =====
-- The invariant of the main loop of `create_delta_inner`.
use git_internal.Base.{
  ℕ, zero, suc, ◌+◌, ◌-◌, ◌%◌, ◌≤◌, ◌<◌, [], ◌∷◌, ◌++◌, Bytes, ltb, ◌==◌, if◌then◌else◌, length,
  take, drop, set, ◌≡◌, refl, arith, ap, sym, ◌∙◌, Bool-cases, inl, inr, length-take, length-drop,
  length-append, ==_iff, if_elim, ltb→lt, ltb→le, set-append, take-append_add, take-append,
  take-take, take-add, append_assoc, append-nil, subst,
}
use git_internal.Delta.Decode.Stream.{Rebuilds, Rebuilds-literal, Rebuilds-append}
use git_internal.Delta.Rabin.Create.{State, absorb, close_run}
use git_internal.Delta.Rabin.Create.Scan.{Matches}

module _ (src target header : Bytes) where
  -- The literal run that is open: its length byte, still 0, and its bytes.
  abbrev pub pending : ℕ → ℕ → Bytes
  pending zero start = []
  pending (suc n) start = 0 ∷ take (suc n) (drop start target)

  -- The instructions in `out` rebuild the target up to the open run, and what is found is a match.
  pub record Inv (s : State) : Type 0 where
    pub front : Bytes
    pub rebuilt : Rebuilds src front (take (s.data_pos - s.inscnt) target)
    pub out_is : s.out ≡ (header ++ front) ++ pending s.inscnt (s.data_pos - s.inscnt)
    pub run_at : 0 < s.inscnt → s.data_len_pos ≡ length (header ++ front)
    pub short : s.inscnt < 127
    pub behind : s.inscnt ≤ s.data_pos
    pub within : s.data_pos ≤ length target
    pub found : Matches src target s.moff s.data_pos s.msize

  -- A run that is given its length byte is a literal instruction.
  pub flush_run :
      (front out : Bytes) (n p at : ℕ)
      → 0 < n
      → n < 128
      → n ≤ p
      → p ≤ length target
      → Rebuilds src front (take (p - n) target)
      → out ≡ (header ++ front) ++ 0 ∷ take n (drop (p - n) target)
      → at ≡ length (header ++ front)
      → (front' : Bytes) × Rebuilds src front' (take p target) × (set out at n ≡ header ++ front')
  flush_run front out n p at lo hi hn hp r e a =
      let run : Bytes = take n (drop (p - n) target) in
      let len : length run ≡ n =
        omega (arith, length-take n (drop (p - n) target), length-drop (p - n) target) in
      let whole : take p target ≡ take (p - n) target ++ run =
        take-add (p - n) n p target (omega arith) in
      let lit : Rebuilds src (n ∷ run) run =
        rw len at (Rebuilds-literal src run (omega arith) (omega arith)) in
      (front ++ n ∷ run, rw whole (Rebuilds-append r lit), rw (e, a, set-append, append_assoc))

  pub pending-open : (n start : ℕ) → 0 < n → pending n start ≡ 0 ∷ take n (drop start target)
  pending-open zero start h = absurd (omega arith)
  pending-open (suc n) start h = refl

  pub close_run_out :
      {s : State}
      → Inv s
      → (front' : Bytes) × Rebuilds src front' (take s.data_pos target)
        × ((close_run s).out ≡ header ++ front')
  unfolding close_run
  close_run_out {s} v = elim (Bool-cases (ltb 0 s.inscnt)) [
    | inl some_open ↦
        let lo : 0 < s.inscnt = ltb→lt 0 s.inscnt some_open in
        let byte : s.inscnt % 256 ≡ s.inscnt = omega (arith, v.short) in
        rw (some_open, byte)
          (flush_run v.front s.out s.inscnt s.data_pos s.data_len_pos lo (omega (arith, v.short))
            v.behind v.within v.rebuilt
            (v.out_is
              ∙ ap (λ t. (header ++ v.front) ++ t)
                  (pending-open s.inscnt (s.data_pos - s.inscnt) lo))
            (v.run_at lo))
    | inr none_open ↦
        let none : s.inscnt ≡ 0 = omega (arith, ltb→le 0 s.inscnt none_open) in
        let at : s.data_pos - s.inscnt ≡ s.data_pos = omega arith in
        rw none_open (
          v.front,
          subst (λ k. Rebuilds src v.front (take k target)) at v.rebuilt,
          v.out_is
              ∙ ap (λ k. (header ++ v.front) ++ pending k (s.data_pos - s.inscnt)) none
              ∙ append-nil (header ++ v.front),
        )
  ]

  -- No run is open behind `close_run`.
  pub close_run-Inv : {s : State} → Inv s → Inv (close_run s) × ((close_run s).inscnt ≡ 0)
  close_run-Inv {s} v =
      let (front', rebuilt', out') = close_run_out v in
      (
        unfold close_run in
            record {
              front = front';
              rebuilt =
                  subst (λ k. Rebuilds src front' (take k target)) {x = s.data_pos}
                    {y = s.data_pos - 0} (omega arith) rebuilt';
              out_is = unfold close_run in (out' ∙ sym (append-nil (header ++ front')));
              run_at = λ h. absurd (omega arith);
              short = omega arith;
              behind = omega arith;
              within = v.within;
              found = v.found;
            },
        unfold close_run in refl,
      )

  -- The output cut to a shorter run, or to no run.
  pending_cut :
      (xs out : Bytes) (n b start at : ℕ)
      → 0 < b
      → b ≤ n
      → start + n ≤ length target
      → out ≡ xs ++ pending n start
      → at ≡ length xs
      → take (if n - b == 0 then at else length out - b) out ≡ xs ++ pending (n - b) start
  pending_cut xs out n b start at hb hn fits e a =
      let opened : pending n start ≡ 0 ∷ take n (drop start target) =
        pending-open n start (omega arith) in
      let e' : out ≡ xs ++ 0 ∷ take n (drop start target) = e ∙ ap (λ t. xs ++ t) opened in
      elim (Bool-cases (n - b == 0)) [
        | inl none ↦
            let z : n - b ≡ 0 = (==_iff (n - b) 0).0 none in
            rw none (
              rw (a, z, e') (take-append xs (0 ∷ take n (drop start target)) ∙ sym (append-nil xs)))
        | inr some_left ↦
            let lo : 0 < n - b = ground arith in
            let len : length out ≡ length xs + suc n =
              ap length e'
              ∙ length-append xs (0 ∷ take n (drop start target))
              ∙ omega (arith, length-take n (drop start target), length-drop start target) in
            rw (some_left, pending-open (n - b) start lo, e')
              (take-append_add xs (0 ∷ take n (drop start target)) (suc (n - b))
                  (length (xs ++ 0 ∷ take n (drop start target)) - b)
                  (omega (arith, len, ap length e'))
                ∙ ap (λ t. xs ++ 0 ∷ t) (take-take (n - b) n (drop start target) (omega arith)))
      ]

  -- Bytes that a match absorbs leave the open run.
  pub absorb-Inv :
      {s : State} (back : ℕ)
      → back ≤ s.inscnt
      → Matches src target (s.moff - back) (s.data_pos - back) (s.msize + back)
      → Inv s
      → Inv (absorb back s)
  unfolding absorb
  absorb-Inv {s} back h m v =
      if_elim Inv (ltb 0 back)
        (λ some_back.
          let lo : 0 < back = ltb→lt 0 back some_back in
          let start : s.data_pos - back - (s.inscnt - back) ≡ s.data_pos - s.inscnt =
            omega (arith, v.behind) in
          record {
            front = v.front;
            rebuilt = subst (λ k. Rebuilds src v.front (take k target)) (sym start) v.rebuilt;
            out_is =
                pending_cut (header ++ v.front) s.out s.inscnt back (s.data_pos - s.inscnt)
                  s.data_len_pos lo h (omega (arith, v.behind, v.within)) v.out_is
                  (v.run_at (omega arith))
                ∙ ap (λ k. (header ++ v.front) ++ pending (s.inscnt - back) k) (sym start);
            run_at = λ hr. v.run_at (omega arith);
            short = omega (arith, v.short);
            behind = omega (arith, v.behind);
            within = omega (arith, v.within);
            found = m;
          })
        (λ _. v)
