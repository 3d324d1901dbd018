-- ===== src/Pack/Resolve/Objects.antt =====
-- No object is lost by the tasks that resolve deltas, src/internal/pack/decode.rs.
use git_internal.Base.{
  ℕ, ◌+◌, Bool, List, [], ◌∷◌, ◌++◌, Bytes, length, map, Result, ok, err, Option, none, some, ◌≡◌,
  ◌≢◌, refl, arith, inl, inr, Option-cases, length-append,
}
use git_internal.Hash.Digest.{Digests}
use git_internal.Pack.Resolve.{
  CacheObject, base_of, lookup, taken, Task, check, wait, recheck, rebuild, keep, wake, Shared,
  dispatch, rebuilt, rebuild_with_hash, run_task, DecodeError, step, Run, stay, go, first_error,
}
use git_internal.Pack.Resolve.Steps.{length-taken-left}

-- The objects that tasks carry, that wait and that are cached.
abbrev carries : Task → ℕ
carries (check b obj) = 1
carries (wait b obj) = 1
carries (recheck b) = 0
carries (rebuild obj base_obj) = 1
carries (keep obj) = 1
carries (wake base_obj) = 0

abbrev carried : List Task → ℕ
carried [] = 0
carried (t ∷ ts) = carries t + carried ts

abbrev pool_objects : {X : Type 0} → List Task × Shared X → ℕ
pool_objects p = carried p.0 + length p.1.waitlist + length p.1.caches

carried-append : (a b : List Task) → carried (a ++ b) ≡ carried a + carried b
carried-append [] b = omega arith
carried-append (t ∷ a) b = omega (arith, carried-append a b)

rebuilds_carried :
    (base_obj : CacheObject) (objs : List CacheObject)
    → carried (map (λ obj. rebuild obj base_obj) objs) ≡ length objs
rebuilds_carried base_obj [] = omega arith
rebuilds_carried base_obj (obj ∷ objs) = omega (arith, rebuilds_carried base_obj objs)

pub start_carried : (objs : List CacheObject) → carried (map dispatch objs) ≡ length objs
start_carried [] = omega arith
start_carried (obj ∷ objs) = elim (Option-cases (base_of obj)) [
  | inl complete ↦ rw complete (omega (arith, start_carried objs))
  | inr (b, delta) ↦ rw delta (omega (arith, start_carried objs))
]

first_error-some {ℓ} : {E : Type ℓ} (o : Option E) (e : E) → first_error o e ≢ none
first_error-some none e h = cc
first_error-some (some first) e h = cc

rebuilt-carried :
    {X : Type 0} (s : Shared X) (r : Result (DecodeError X) CacheObject)
    → (rebuilt s r).1.error ≡ none
    → (s.error ≡ none) × (pool_objects (rebuilt s r) ≡ 1 + length s.waitlist + length s.caches)
rebuilt-carried s (ok new_obj) e = (e, omega arith)
rebuilt-carried s (err x) e = absurd (first_error-some s.error x e)

module _ {X : Type 0} (d : Digests) (reserves : ℕ → ℕ → Bool)
    (zstd : Bytes → Bytes → Option Bytes) where
  run_task-carried :
      (t : Task) (s : Shared X)
      → (run_task d reserves zstd t s).1.error ≡ none
      → (s.error ≡ none)
        × (pool_objects (run_task d reserves zstd t s)
            ≡ carries t + length s.waitlist + length s.caches)
  unfolding run_task
  run_task-carried (check b obj) s e = elim (Option-cases (lookup b s.caches)) [
    | inl missing ↦ (e, rw missing (omega arith))
    | inr (base_obj, found) ↦ (e, rw found (omega arith))
  ]
  run_task-carried (wait b obj) s e = (e, omega (arith, length-append s.waitlist ((b, obj) ∷ [])))
  run_task-carried (recheck b) s e = elim (Option-cases (lookup b s.caches)) [
    | inl missing ↦ (e, rw missing (omega arith))
    | inr (base_obj, found) ↦ (e, rw found (omega arith))
  ]
  run_task-carried (rebuild obj base_obj) s e =
      rebuilt-carried s (rebuild_with_hash d reserves zstd obj base_obj obj.known_hash) e
  run_task-carried (keep obj) s e = (e, omega arith)
  run_task-carried (wake base_obj) s e = (
    e,
    omega (
      arith,
      rebuilds_carried base_obj (taken base_obj s.waitlist),
      length-taken-left base_obj s.waitlist,
    ),
  )

  pub Run-carried :
      (n : ℕ) (p r : List Task × Shared X)
      → Run d reserves zstd n p r
      → r.1.error ≡ none
      → (p.1.error ≡ none) × (pool_objects r ≡ pool_objects p)
  Run-carried n _ _ (stay p) e = (e, refl)
  Run-carried n _ _ (go {n = m} _ _ r (step front t back s) rest) e =
      let next = run_task d reserves zstd t s in
      let (e', later) = Run-carried m _ r rest e in
      let (e'', now) = run_task-carried t s e' in
      (
        e'',
        omega (
          arith,
          later,
          now,
          carried-append front (t ∷ back),
          carried-append front (next.0 ++ back),
          carried-append next.0 back,
        ),
      )
