-- ===== src/Pack/Resolve/Attended/Kept.antt =====
-- In every run of the tasks each delta that waits is attended, src/internal/pack/decode.rs.
use git_internal.Base.{
  ℕ, Bool, true, false, List, [], ◌∷◌, ◌++◌, Bytes, Result, ok, err, Option, none, ◌≡◌, refl, sym,
  subst, All-map, inl, inr, Option-cases, Result-cases, All, All-append,
}
use git_internal.Hash.Digest.{Digests}
use git_internal.Pack.Resolve.{
  CacheObject, is_base_for, lookup, Task, check, wait, recheck, rebuild, keep, wake, Shared,
  rebuilt, rebuild_with_hash, run_task, DecodeError, step, Run, stay, go,
}
use git_internal.Pack.Resolve.Lookup.{
  same_base, same_base_refl, same_base→eq, lookup-is_base_for, HasDistinctNames,
}
use git_internal.Pack.Resolve.Attended.{
  Attended, any_wakes, wakes_right, or_left, Attended-replace, All-replace, Attended-keep,
  All-left_in,
}

rebuilt-caches :
    {X : Type 0} (s : Shared X) (r : Result (DecodeError X) CacheObject)
    → HasDistinctNames (rebuilt s r).1.caches
    → HasDistinctNames s.caches
rebuilt-caches s (ok new_obj) h = h
rebuilt-caches s (err e) h = h

module _ {X : Type 0} (d : Digests) (reserves : ℕ → ℕ → Bool)
    (zstd : Bytes → Bytes → Option Bytes) where
  abbrev AllAttended : List Task × Shared X → Type 0
  AllAttended p = All (Attended p.1.caches p.0) p.1.waitlist

  run_task-AllAttended :
      (front : List Task) (t : Task) (back : List Task) (s : Shared X)
      → HasDistinctNames s.caches
      → AllAttended (front ++ t ∷ back, s)
      → AllAttended
          (front ++ ((run_task d reserves zstd t s).0 ++ back), (run_task d reserves zstd t s).1)
  unfolding run_task
  run_task-AllAttended front (check b obj) back s distinct h =
      All-replace s.caches front (check b obj) _ back s.waitlist (λ c. refl) h
  run_task-AllAttended front (wait b obj) back s distinct h =
      All-append (Attended s.caches (front ++ recheck b ∷ back)) s.waitlist ((b, obj) ∷ [])
        (All-replace s.caches front (wait b obj) (recheck b ∷ []) back s.waitlist (λ c. refl) h)
        (
          inr (
              wakes_right b front (recheck b ∷ back)
                (or_left (same_base b b) (any_wakes b back) (same_base_refl b))),
          tt,
        )
  run_task-AllAttended front (recheck b) back s distinct h =
      elim (Option-cases (lookup b s.caches)) [
        | inl missing ↦ rw missing (
            All-map
              (λ e. Attended-replace s.caches front (recheck b) [] back e (λ task.
                inl
                  (subst (λ c. lookup c s.caches ≡ none) (sym (same_base→eq e.0 b task)) missing)))
              s.waitlist h)
        | inr (base_obj, found) ↦ rw found (
            All-map
              (λ e. Attended-replace s.caches front (recheck b) (wake base_obj ∷ []) back e (λ task.
                inr (
                  or_left (is_base_for e.0 base_obj) false (
                    subst (λ c. is_base_for c base_obj ≡ true) (sym (same_base→eq e.0 b task))
                      (lookup-is_base_for b s.caches base_obj distinct found)))))
              s.waitlist h)
      ]
  run_task-AllAttended front (rebuild obj base_obj) back s distinct h =
      elim (Result-cases (rebuild_with_hash {X = X} d reserves zstd obj base_obj obj.known_hash)) [
        | inl (new_obj, done) ↦ rw done (
            All-replace s.caches front (rebuild obj base_obj) (keep new_obj ∷ []) back s.waitlist
              (λ c. refl) h)
        | inr (e, failed) ↦
            rw failed
              (All-replace s.caches front (rebuild obj base_obj) [] back s.waitlist (λ c. refl) h)
      ]
  run_task-AllAttended front (keep obj) back s distinct h =
      All-map (Attended-keep s.caches obj front back) s.waitlist h
  run_task-AllAttended front (wake base_obj) back s distinct h =
      All-left_in s.caches base_obj front _ back s.waitlist h

  run_task-HasDistinctNames :
      (t : Task) (s : Shared X)
      → HasDistinctNames (run_task d reserves zstd t s).1.caches
      → HasDistinctNames s.caches
  unfolding run_task
  run_task-HasDistinctNames (check b obj) s h = h
  run_task-HasDistinctNames (wait b obj) s h = h
  run_task-HasDistinctNames (recheck b) s h = h
  run_task-HasDistinctNames (rebuild obj base_obj) s h =
      rebuilt-caches s (rebuild_with_hash {X = X} d reserves zstd obj base_obj obj.known_hash) h
  run_task-HasDistinctNames (keep obj) s (new, h) = h
  run_task-HasDistinctNames (wake base_obj) s h = h

  Run-HasDistinctNames :
      (n : ℕ) (p r : List Task × Shared X)
      → Run d reserves zstd n p r
      → HasDistinctNames r.1.caches
      → HasDistinctNames p.1.caches
  Run-HasDistinctNames n _ _ (stay p) h = h
  Run-HasDistinctNames n _ _ (go {n = m} _ _ r (step front t back s) rest) h =
      run_task-HasDistinctNames t s (Run-HasDistinctNames m _ r rest h)

  pub Run-AllAttended :
      (n : ℕ) (p r : List Task × Shared X)
      → Run d reserves zstd n p r
      → HasDistinctNames r.1.caches
      → AllAttended p
      → AllAttended r
  Run-AllAttended n _ _ (stay p) distinct h = h
  Run-AllAttended n _ _ (go {n = m} _ _ r (step front t back s) rest) distinct h =
      Run-AllAttended m _ r rest distinct (
        run_task-AllAttended front t back s
          (run_task-HasDistinctNames t s (Run-HasDistinctNames m _ r rest distinct)) h)
