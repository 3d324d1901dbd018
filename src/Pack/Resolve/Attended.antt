-- ===== src/Pack/Resolve/Attended.antt =====
-- Deltas that wait and tasks that are about to wake them, src/internal/pack/decode.rs.
pub mod Kept
use git_internal.Base.{
  ℕ, suc, ◌+◌, ◌*◌, ◌<◌, ◌≤◌, Bool, true, false, ◌||◌, ◌==◌, List, [], ◌∷◌, ◌++◌, Bytes, length,
  map, Result, ok, err, Option, none, some, ◌≡◌, ◌≢◌, refl, sym, ap, ap₂, ◌∙◌, subst, arith,
  if◌then◌else◌, Bool-cases, if_elim, ==→eq, All-map, ◌⊎◌, inl, inr, Option-cases, Result-cases,
  length-append, All, All-append, All-left, append_assoc, append-nil,
}
use git_internal.Hash.{ObjectHash, same_hash}
use git_internal.Hash.Digest.{Digests}
use git_internal.Hash.Kinds.{same_hash_refl, same_hash→eq}
use git_internal.Pack.Resolve.{
  CacheObject, Base, by_offset, by_hash, base_of, is_base_for, base_object_hash, same_option,
  get_by_hash, get_hash, by_name, lookup, taken, left, Task, check, wait, recheck, rebuild, keep,
  wake, Shared, dispatch, checked, rechecked, rebuilt, rebuild_with_hash, run_task, DecodeError,
  Step, step, Run, stay, go, start, first_error,
}
use git_internal.Pack.Resolve.Steps.{length-taken-left}
use git_internal.Pack.Resolve.Lookup.{
  same_base, same_base_refl, same_base→eq, lookup-is_base_for, lookup-other, HasDistinctNames,
}

-- Whether a task is about to look at what waits for a base.
abbrev pub wakes : Base → Task → Bool
wakes b (recheck c) = same_base b c
wakes b (wake base_obj) = is_base_for b base_obj
wakes b (check c obj) = false
wakes b (wait c obj) = false
wakes b (rebuild obj base_obj) = false
wakes b (keep obj) = false

abbrev pub any_wakes : Base → List Task → Bool
any_wakes b [] = false
any_wakes b (t ∷ ts) = wakes b t || any_wakes b ts

pub or_left : (a b : Bool) → a ≡ true → (a || b) ≡ true
or_left true b h = refl
or_left false b h = cc

or_right : (a b : Bool) → b ≡ true → (a || b) ≡ true
or_right true b h = refl
or_right false b h = h

or_cases : (a b : Bool) → (a || b) ≡ true → (a ≡ true) ⊎ (b ≡ true)
or_cases true b h = inl refl
or_cases false b h = inr h

pub wakes_left :
    (b : Base) (new back : List Task) → any_wakes b new ≡ true → any_wakes b (new ++ back) ≡ true
wakes_left b [] back h = cc
wakes_left b (t ∷ new) back h = elim (or_cases (wakes b t) (any_wakes b new) h) [
  | inl here ↦ or_left (wakes b t) (any_wakes b (new ++ back)) here
  | inr later ↦ or_right (wakes b t) (any_wakes b (new ++ back)) (wakes_left b new back later)
]

pub wakes_right :
    (b : Base) (front back : List Task)
    → any_wakes b back ≡ true
    → any_wakes b (front ++ back) ≡ true
wakes_right b [] back h = h
wakes_right b (t ∷ front) back h =
    or_right (wakes b t) (any_wakes b (front ++ back)) (wakes_right b front back h)

-- A task gives way to those that follow it: what was awake stays so, unless the task did it.
pub wakes_replace :
    (b : Base) (front : List Task) (t : Task) (new back : List Task)
    → any_wakes b (front ++ t ∷ back) ≡ true
    → (wakes b t ≡ true) ⊎ (any_wakes b (front ++ (new ++ back)) ≡ true)
wakes_replace b [] t new back h = elim (or_cases (wakes b t) (any_wakes b back) h) [
  | inl here ↦ inl here
  | inr later ↦ inr (wakes_right b new back later)
]
wakes_replace b (u ∷ front) t new back h =
    elim (or_cases (wakes b u) (any_wakes b (front ++ t ∷ back)) h) [
      | inl here ↦ inr (or_left (wakes b u) (any_wakes b (front ++ (new ++ back))) here)
      | inr later ↦ elim (wakes_replace b front t new back later) [
        | inl task ↦ inl task
        | inr rest ↦ inr (or_right (wakes b u) (any_wakes b (front ++ (new ++ back))) rest)
      ]
    ]

-- No delta waits in vain: its base is not cached, or a task is about to wake it.
abbrev pub Attended : List CacheObject → List Task → Base × CacheObject → Type 0
Attended caches tasks e = (lookup e.0 caches ≡ none) ⊎ (any_wakes e.0 tasks ≡ true)

pub Attended-replace :
    (caches : List CacheObject) (front : List Task) (t : Task) (new back : List Task)
    (e : Base × CacheObject)
    → (wakes e.0 t ≡ true → (lookup e.0 caches ≡ none) ⊎ (any_wakes e.0 new ≡ true))
    → Attended caches (front ++ t ∷ back) e
    → Attended caches (front ++ (new ++ back)) e
Attended-replace caches front t new back e by_task (inl missing) = inl missing
Attended-replace caches front t new back e by_task (inr awake) =
    elim (wakes_replace e.0 front t new back awake) [
      | inr rest ↦ inr rest
      | inl task ↦ elim (by_task task) [
        | inl missing ↦ inl missing
        | inr new_wakes ↦
            inr (wakes_right e.0 front (new ++ back) (wakes_left e.0 new back new_wakes))
      ]
    ]

-- A task that wakes nothing leaves every delta attended.
pub All-replace :
    (caches : List CacheObject) (front : List Task) (t : Task) (new back : List Task)
    (waitlist : List (Base × CacheObject))
    → ((b : Base) → wakes b t ≡ false)
    → All (Attended caches (front ++ t ∷ back)) waitlist
    → All (Attended caches (front ++ (new ++ back))) waitlist
All-replace caches front t new back waitlist asleep =
    All-map (λ e. Attended-replace caches front t new back e (λ task. let clash = asleep e.0 in cc))
      waitlist

-- A new object in the cache, which is about to wake what waits for it.
pub Attended-keep :
    (caches : List CacheObject) (obj : CacheObject) (front back : List Task)
    (e : Base × CacheObject)
    → Attended caches (front ++ keep obj ∷ back) e
    → Attended (obj ∷ caches) (front ++ wake obj ∷ back) e
Attended-keep caches obj front back e h = elim (Bool-cases (is_base_for e.0 obj)) [
  | inl hit ↦ inr (
      wakes_right e.0 front (wake obj ∷ back)
        (or_left (is_base_for e.0 obj) (any_wakes e.0 back) hit))
  | inr miss ↦
      elim (Attended-replace caches front (keep obj) (wake obj ∷ []) back e (λ task. cc) h) [
        | inl missing ↦ inl (lookup-other e.0 obj caches miss missing)
        | inr awake ↦ inr awake
      ]
]

-- What is left in the waitlist does not wait for the object that took its deltas.
pub All-left_in :
    (caches : List CacheObject) (base_obj : CacheObject) (front new back : List Task)
    (waitlist : List (Base × CacheObject))
    → All (Attended caches (front ++ wake base_obj ∷ back)) waitlist
    → All (Attended caches (front ++ (new ++ back))) (left base_obj waitlist)
All-left_in caches base_obj front new back [] h = tt
All-left_in caches base_obj front new back (e ∷ waitlist) (h, hs) =
    elim (Bool-cases (is_base_for e.0 base_obj)) [
      | inl hit ↦ rw hit (All-left_in caches base_obj front new back waitlist hs)
      | inr miss ↦ rw miss (
        Attended-replace caches front (wake base_obj) new back e (λ task. cc) h,
        All-left_in caches base_obj front new back waitlist hs,
      )
    ]
