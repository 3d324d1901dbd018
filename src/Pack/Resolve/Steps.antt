-- ===== src/Pack/Resolve/Steps.antt =====
-- The steps of the tasks that resolve deltas, src/internal/pack/decode.rs, and their number.
use git_internal.Base.{
  ℕ, ◌+◌, ◌*◌, ◌<◌, ◌≤◌, Bool, List, [], ◌∷◌, ◌++◌, Bytes, length, map, Option, ◌≡◌, refl, arith,
  Bool-cases, ◌⊎◌, inl, inr, Option-cases, Result-cases, length-append,
}
use git_internal.Hash.Digest.{Digests}
use git_internal.Pack.Resolve.{
  CacheObject, Base, base_of, is_base_for, lookup, taken, left, Task, check, wait, recheck, rebuild,
  keep, wake, Shared, dispatch, rebuild_with_hash, run_task, Step, step, Run, stay, go, start,
}

-- How many steps a task can lead to, with those of the tasks that it starts.
abbrev weight : Task → ℕ
weight (check b obj) = 8
weight (wait b obj) = 7
weight (recheck b) = 2
weight (rebuild obj base_obj) = 3
weight (keep obj) = 2
weight (wake base_obj) = 1

abbrev tasks_weight : List Task → ℕ
tasks_weight [] = 0
tasks_weight (t ∷ ts) = weight t + tasks_weight ts

-- A delta that waits has four steps left.
abbrev pub pool_weight : {X : Type 0} → List Task × Shared X → ℕ
pool_weight p = tasks_weight p.0 + 4 * length p.1.waitlist

tasks_weight-append : (a b : List Task) → tasks_weight (a ++ b) ≡ tasks_weight a + tasks_weight b
tasks_weight-append [] b = omega arith
tasks_weight-append (t ∷ a) b = omega (arith, tasks_weight-append a b)

rebuilds_weight :
    (base_obj : CacheObject) (objs : List CacheObject)
    → tasks_weight (map (λ obj. rebuild obj base_obj) objs) ≡ 3 * length objs
rebuilds_weight base_obj [] = omega arith
rebuilds_weight base_obj (obj ∷ objs) = omega (arith, rebuilds_weight base_obj objs)

pub length-taken-left :
    (base_obj : CacheObject) (waitlist : List (Base × CacheObject))
    → length (taken base_obj waitlist) + length (left base_obj waitlist) ≡ length waitlist
length-taken-left base_obj [] = omega arith
length-taken-left base_obj (e ∷ waitlist) = elim (Bool-cases (is_base_for e.0 base_obj)) [
  | inl hit ↦ rw hit (omega (arith, length-taken-left base_obj waitlist))
  | inr miss ↦ rw miss (omega (arith, length-taken-left base_obj waitlist))
]

start_weight : (objs : List CacheObject) → tasks_weight (map dispatch objs) ≤ 8 * length objs
start_weight [] = omega arith
start_weight (obj ∷ objs) = elim (Option-cases (base_of obj)) [
  | inl complete ↦ rw complete (omega (arith, start_weight objs))
  | inr (b, delta) ↦ rw delta (omega (arith, start_weight objs))
]

module _ {X : Type 0} (d : Digests) (reserves : ℕ → ℕ → Bool)
    (zstd : Bytes → Bytes → Option Bytes) where
  -- The tasks that follow and the waitlist weigh less than the task and the waitlist before.
  abbrev Lighter : Task → Shared X → List Task × Shared X → Type 0
  Lighter t s p = pool_weight p < weight t + 4 * length s.waitlist

  run_task-Lighter : (t : Task) (s : Shared X) → Lighter t s (run_task d reserves zstd t s)
  unfolding run_task
  run_task-Lighter (check b obj) s = elim (Option-cases (lookup b s.caches)) [
    | inl missing ↦ rw missing (omega arith)
    | inr (base_obj, found) ↦ rw found (omega arith)
  ]
  run_task-Lighter (wait b obj) s = omega (arith, length-append s.waitlist ((b, obj) ∷ []))
  run_task-Lighter (recheck b) s = elim (Option-cases (lookup b s.caches)) [
    | inl missing ↦ rw missing (omega arith)
    | inr (base_obj, found) ↦ rw found (omega arith)
  ]
  run_task-Lighter (rebuild obj base_obj) s =
      elim (Result-cases (rebuild_with_hash {X = X} d reserves zstd obj base_obj obj.known_hash)) [
        | inl (new_obj, done) ↦ rw done (omega arith)
        | inr (e, failed) ↦ rw failed (omega arith)
      ]
  run_task-Lighter (keep obj) s = omega arith
  run_task-Lighter (wake base_obj) s = omega (
    arith,
    rebuilds_weight base_obj (taken base_obj s.waitlist),
    length-taken-left base_obj s.waitlist,
  )

  Step-pool_weight :
      (p q : List Task × Shared X) → Step d reserves zstd p q → pool_weight q < pool_weight p
  Step-pool_weight p q (step front t back s) =
      let next = run_task d reserves zstd t s in
      omega (
        arith,
        run_task-Lighter t s,
        tasks_weight-append front (t ∷ back),
        tasks_weight-append front (next.0 ++ back),
        tasks_weight-append next.0 back,
      )

  done_or_next :
      (tasks : List Task) (s : Shared X)
      → (tasks ≡ []) ⊎ ((q : List Task × Shared X) × Step d reserves zstd (tasks, s) q)
  done_or_next [] s = inl refl
  done_or_next (t ∷ back) s = inr (_, step [] t back s)

  Run-pool_weight :
      (n : ℕ) (p r : List Task × Shared X)
      → Run d reserves zstd n p r
      → n + pool_weight r ≤ pool_weight p
  Run-pool_weight n _ _ (stay p) = omega arith
  Run-pool_weight n _ _ (go {n = m} p q r first rest) =
      omega (arith, Step-pool_weight p q first, Run-pool_weight m q r rest)

  -- Every run of the tasks from the objects of a pack takes at most eight steps for each object, and
  -- as long as there is a task there is a step: the tasks come to an end, in whatever order they run.
  pub Run-bounded :
      (n : ℕ) (objs : List CacheObject) (p : List Task × Shared X)
      → Run d reserves zstd n (start objs) p
      → (n ≤ 8 * length objs)
        × ((p.0 ≡ []) ⊎ ((q : List Task × Shared X) × Step d reserves zstd p q))
  Run-bounded n objs p run =
      (omega (arith, Run-pool_weight n (start objs) p run, start_weight objs), done_or_next p.0 p.1)
