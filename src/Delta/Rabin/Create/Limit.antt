-- ===== src/Delta/Rabin/Create/Limit.antt =====
-- The `max_size` of `create_delta_inner`.
use git_internal.Base.{
  ℕ, zero, suc, ◌≤◌, ◌<◌, false, Bytes, none, some, ltb, ◌==◌, length, ◌≡◌, arith, Bool-cases, inl,
  inr, ltb→le, if_elim, Result-cases, Result, ok, ap,
}
use git_internal.Delta.Rabin.Index.{RabinDeltaIndex}
use git_internal.Delta.Rabin.Create.{
  Stop, State, body, main_loop, first_state, create_delta, close_run,
}

module _ (index : RabinDeltaIndex) (target : Bytes) (max : ℕ) where
  -- A run of the loop under a limit is the run with none.
  main_loop_no_limit :
      (fuel : ℕ) (s t : State)
      → main_loop index target fuel (some max) s ≡ ok t
      → main_loop index target fuel none s ≡ ok t
  unfolding main_loop
  main_loop_no_limit zero s t = λ e. e
  main_loop_no_limit (suc fuel) s t = elim (Bool-cases (ltb s.data_pos (length target))) [
    | inr at_end ↦ rw at_end (λ e. e)
    | inl room ↦ rw room (elim (Result-cases (body index target s)) [
      | inr (x, stopped) ↦ rw stopped (λ e. e)
      | inl (next, emitted) ↦ rw emitted (
          if_elim (λ o. o ≡ ok t → main_loop index target fuel none next ≡ ok t)
            (ltb max (length next.out)) (λ over e. cc)
            (λ within e. main_loop_no_limit fuel next t e))
    ])
  ]

-- A limit on the size changes nothing but that there may be no delta: what is returned under a
-- limit for a target that is not empty is within it, and is what `create_delta` returns with no limit.
pub create_delta_max_size :
    (index : RabinDeltaIndex) (target : Bytes) (max : ℕ) (delta : Bytes)
    → 0 < length target
    → create_delta index target (some max) ≡ ok delta
    → (create_delta index target none ≡ ok delta) × (length delta ≤ max)
unfolding create_delta
create_delta_max_size index target max delta lo =
    let some_bytes : (length target == 0) ≡ false = ground arith in
    rw some_bytes
      (elim (Result-cases
        (main_loop index target (length target) (some max) (first_state index target))) [
          | inr (x, stopped) ↦ rw stopped (λ e. cc)
          | inl (t, run) ↦
              let out : Bytes = (close_run t).out in
              let whole : Result Stop Bytes = ok out in
              rw
                (
                  run,
                  main_loop_no_limit index target max (length target) (first_state index target) t
                      run,
                )
                (if_elim (λ o. o ≡ ok delta → (whole ≡ ok delta) × (length delta ≤ max))
                  (ltb max (length out)) (λ over e. cc)
                  (λ within e.
                    let same : out ≡ delta = cc in
                    (e, omega (arith, ap length same, ltb→le max (length out) within))))
        ])
