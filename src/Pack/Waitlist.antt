-- ===== src/Pack/Waitlist.antt =====
-- src/internal/pack/waitlist.rs: the delta objects that wait for their base. A concurrent map is a
-- function to what it holds, and calls of the waitlist happen one after another. The object's type and the hash's are parameters, with the hash's equality test.
pub mod Refinement
pub mod Tests
use git_internal.Base.{
  ℕ, Bool, true, false, ◌||◌, List, [], ◌∷◌, ◌++◌, Option, none, some, ◌==◌, if◌then◌else◌,
}

-- What a key without an entry gives: `or_default`, and the empty result of `take`.
abbrev pub held {ℓ} : {A : Type ℓ} → Option (List A) → List A
held none = []
held (some vec) = vec

abbrev pub is_some {ℓ} : {A : Type ℓ} → Option A → Bool
is_some none = false
is_some (some a) = true

-- The operations of one map, whose keys are compared by `same`.
module _ {K A : Type 0} (same : K → K → Bool) where
  pub push_entry : (K → Option (List A)) → K → A → K → Option (List A)
  push_entry map k obj j = if same j k then some (held (map j) ++ obj ∷ []) else map j

  pub remove_entry : (K → Option (List A)) → K → K → Option (List A)
  remove_entry map k j = if same j k then none else map j

pub record Waitlist (H A : Type 0) : Type 0 where
  pub map_offset : ℕ → Option (List A)
  pub map_ref : H → Option (List A)

-- `Waitlist::new`, with both maps empty.
pub new : {H A : Type 0} → Waitlist H A
new = record { map_offset = λ _. none; map_ref = λ _. none }

module _ {H A : Type 0} (same_hash : H → H → Bool) where
  pub insert_offset : Waitlist H A → ℕ → A → Waitlist H A
  insert_offset w offset obj = record w { map_offset = push_entry ◌==◌ w.map_offset offset obj }

  pub insert_ref : Waitlist H A → H → A → Waitlist H A
  insert_ref w hash obj = record w { map_ref = push_entry same_hash w.map_ref hash obj }

  -- The objects that waited, and the waitlist without them.
  pub take_waiting : Waitlist H A → ℕ → H → List A × Waitlist H A
  take_waiting w offset hash = (
    held (w.map_offset offset) ++ held (w.map_ref hash),
    record {
      map_offset = remove_entry ◌==◌ w.map_offset offset;
      map_ref = remove_entry same_hash w.map_ref hash;
    },
  )

  pub has_waiters : Waitlist H A → ℕ → H → Bool
  has_waiters w offset hash = is_some (w.map_offset offset) || is_some (w.map_ref hash)

-- A call of the waitlist, and what it returns.
pub data Call (H A : Type 0) : Type 0 where
  on_offset : ℕ → A → Call H A
  on_ref : H → A → Call H A
  taking : ℕ → H → Call H A
  asking : ℕ → H → Call H A

pub data Answer (A : Type 0) : Type 0 where
  inserted : Answer A
  taken : List A → Answer A
  waiting : Bool → Answer A

module _ {H A : Type 0} (same_hash : H → H → Bool) where
  pub call : Waitlist H A → Call H A → Answer A × Waitlist H A
  call w (on_offset offset obj) = (inserted, insert_offset same_hash w offset obj)
  call w (on_ref hash obj) = (inserted, insert_ref same_hash w hash obj)
  call w (taking offset hash) =
      let (objs, rest) = take_waiting same_hash w offset hash in (taken objs, rest)
  call w (asking offset hash) = (waiting (has_waiters same_hash w offset hash), w)

  pub answers : Waitlist H A → List (Call H A) → List (Answer A)
  answers w [] = []
  answers w (c ∷ cs) = let (answer, next) = call w c in answer ∷ answers next cs
