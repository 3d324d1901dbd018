-- ===== src/Pack/Waitlist/Refinement.antt =====
-- The waitlist against a log of what was inserted and not yet taken.
use git_internal.Base.{
  ℕ, Bool, true, false, ◌||◌, List, [], ◌∷◌, ◌++◌, Option, none, some, ◌==◌, if◌then◌else◌, ◌≡◌,
  refl, arith, ap, ap₂, sym, ◌∙◌, subst, Bool-cases, inl, inr, ==→eq,
}
use git_internal.Pack.Waitlist.{
  held, is_some, push_entry, remove_entry, Waitlist, new, insert_offset, insert_ref, take_waiting,
  has_waiters, Call, on_offset, on_ref, taking, asking, Answer, inserted, taken, waiting, call,
  answers,
}

-- The log of one map: the keys and objects in the order of their insertion.
module _ {K A : Type 0} (same : K → K → Bool) where
  pub logged : K → List (K × A) → Option (List A)
  logged k [] = none
  logged k (e ∷ log) = if same k e.0 then some (e.1 ∷ held (logged k log)) else logged k log

  pub without : K → List (K × A) → List (K × A)
  without k [] = []
  without k (e ∷ log) = let rest = without k log in if same k e.0 then rest else e ∷ rest

-- `same` decides equality.
abbrev pub Decides : {K : Type 0} → (K → K → Bool) → Type 0
Decides {K} same = ((a b : K) → same a b ≡ true → a ≡ b) × ((a : K) → same a a ≡ true)

module _ {K A : Type 0} (same : K → K → Bool) (decides : Decides same) where
  logged-push :
      (j k : K) (obj : A) (log : List (K × A))
      → logged same j (log ++ (k, obj) ∷ [])
        ≡ (if same j k then some (held (logged same j log) ++ obj ∷ []) else logged same j log)
  unfolding logged
  logged-push j k obj [] = refl
  logged-push j k obj (e ∷ log) = elim (Bool-cases (same j k)) [
    | inl here ↦ elim (Bool-cases (same j e.0)) [
      | inl hit ↦ rw (logged-push j k obj log, here, hit) refl
      | inr miss ↦ rw (logged-push j k obj log, here, miss) refl
    ]
    | inr elsewhere ↦ rw (logged-push j k obj log, elsewhere) refl
  ]

  logged-without :
      (j k : K) (log : List (K × A))
      → logged same j (without same k log) ≡ (if same j k then none else logged same j log)
  unfolding logged without
  logged-without j k [] = elim (Bool-cases (same j k)) [
    | inl here ↦ rw here refl
    | inr elsewhere ↦ rw elsewhere refl
  ]
  logged-without j k (e ∷ log) = elim (Bool-cases (same k e.0)) [
    | inl gone ↦ elim (Bool-cases (same j k)) [
      | inl here ↦ rw (gone, logged-without j k log, here) refl
      | inr elsewhere ↦
          let other : same j e.0 ≡ false =
            subst (λ x. same j x ≡ false) (decides.0 k e.0 gone) elsewhere in
          rw (gone, logged-without j k log, elsewhere, other) refl
    ]
    | inr kept ↦ elim (Bool-cases (same j k)) [
      | inl here ↦
          let other : same j e.0 ≡ false =
            subst (λ x. same x e.0 ≡ false) (sym (decides.0 j k here)) kept in
          rw (kept, other, logged-without j k log, here) refl
      | inr elsewhere ↦ rw (kept, logged-without j k log, elsewhere) refl
    ]
  ]

-- The specification: the objects of a key in their order, and whether there are any.
module _ {K A : Type 0} (same : K → K → Bool) where
  pub objects_at : K → List (K × A) → List A
  objects_at k [] = []
  objects_at k (e ∷ log) = let rest = objects_at k log in if same k e.0 then e.1 ∷ rest else rest

  pub has_key : K → List (K × A) → Bool
  has_key k [] = false
  has_key k (e ∷ log) = same k e.0 || has_key k log

  held-logged : (k : K) (log : List (K × A)) → held (logged same k log) ≡ objects_at k log
  unfolding logged objects_at
  held-logged k [] = refl
  held-logged k (e ∷ log) = elim (Bool-cases (same k e.0)) [
    | inl hit ↦ rw hit (ap (λ t. e.1 ∷ t) (held-logged k log))
    | inr miss ↦ rw miss (held-logged k log)
  ]

  is_some-logged : (k : K) (log : List (K × A)) → is_some (logged same k log) ≡ has_key k log
  unfolding logged has_key
  is_some-logged k [] = refl
  is_some-logged k (e ∷ log) = elim (Bool-cases (same k e.0)) [
    | inl hit ↦ rw hit refl
    | inr miss ↦ rw miss (is_some-logged k log)
  ]

-- The two logs, and what a call answers and leaves by them.
pub record Logs (H A : Type 0) : Type 0 where
  pub by_offset : List (ℕ × A)
  pub by_ref : List (H × A)

module _ {H A : Type 0} (same_hash : H → H → Bool) where
  pub log_call : Logs H A → Call H A → Answer A × Logs H A
  log_call l (on_offset offset obj) =
      (inserted, record l { by_offset = l.by_offset ++ (offset, obj) ∷ [] })
  log_call l (on_ref hash obj) = (inserted, record l { by_ref = l.by_ref ++ (hash, obj) ∷ [] })
  log_call l (taking offset hash) = (
    taken (objects_at ◌==◌ offset l.by_offset ++ objects_at same_hash hash l.by_ref),
    record {
      by_offset = without ◌==◌ offset l.by_offset;
      by_ref = without same_hash hash l.by_ref;
    },
  )
  log_call l (asking offset hash) =
      (waiting (has_key ◌==◌ offset l.by_offset || has_key same_hash hash l.by_ref), l)

  pub log_answers : Logs H A → List (Call H A) → List (Answer A)
  log_answers l [] = []
  log_answers l (c ∷ cs) = let (answer, next) = log_call l c in answer ∷ log_answers next cs

ℕ-Decides : Decides ◌==◌
ℕ-Decides = (λ a b h. ==→eq a b h, λ a. ground arith)

module _ {H A : Type 0} (same_hash : H → H → Bool) (decides : Decides same_hash) where
  record Agrees (w : Waitlist H A) (l : Logs H A) : Type 0 where
    offsets : (o : ℕ) → w.map_offset o ≡ logged ◌==◌ o l.by_offset
    refs : (h : H) → w.map_ref h ≡ logged same_hash h l.by_ref

  call-Agrees :
      (w : Waitlist H A) (l : Logs H A) (c : Call H A)
      → Agrees w l
      → ((call same_hash w c).0 ≡ (log_call same_hash l c).0)
        × Agrees (call same_hash w c).1 (log_call same_hash l c).1
  unfolding call log_call insert_offset insert_ref take_waiting has_waiters push_entry remove_entry
  call-Agrees w l (on_offset offset obj) g = (
    refl,
    record {
      offsets = λ o.
          ap (λ m. if o == offset then some (held m ++ obj ∷ []) else m) (g.offsets o)
          ∙ sym (logged-push ◌==◌ ℕ-Decides o offset obj l.by_offset);
      refs = g.refs;
    },
  )
  call-Agrees w l (on_ref hash obj) g = (
    refl,
    record {
      offsets = g.offsets;
      refs = λ h.
          ap (λ m. if same_hash h hash then some (held m ++ obj ∷ []) else m) (g.refs h)
          ∙ sym (logged-push same_hash decides h hash obj l.by_ref);
    },
  )
  call-Agrees w l (taking offset hash) g = (
    ap taken (
        ap₂ ◌++◌ (ap held (g.offsets offset) ∙ held-logged ◌==◌ offset l.by_offset)
          (ap held (g.refs hash) ∙ held-logged same_hash hash l.by_ref)),
    record {
      offsets = λ o.
          ap (λ m. if o == offset then none else m) (g.offsets o)
          ∙ sym (logged-without ◌==◌ ℕ-Decides o offset l.by_offset);
      refs = λ h.
          ap (λ m. if same_hash h hash then none else m) (g.refs h)
          ∙ sym (logged-without same_hash decides h hash l.by_ref);
    },
  )
  call-Agrees w l (asking offset hash) g = (
    ap waiting (
        ap₂ ◌||◌ (ap is_some (g.offsets offset) ∙ is_some-logged ◌==◌ offset l.by_offset)
          (ap is_some (g.refs hash) ∙ is_some-logged same_hash hash l.by_ref)),
    g,
  )

  answers-Agrees :
      (w : Waitlist H A) (l : Logs H A) (cs : List (Call H A))
      → Agrees w l
      → answers same_hash w cs ≡ log_answers same_hash l cs
  unfolding answers log_answers
  answers-Agrees w l [] g = refl
  answers-Agrees w l (c ∷ cs) g =
      let (answer, next) = call-Agrees w l c g in
      ap₂ (λ a rest. a ∷ rest) answer
        (answers-Agrees (call same_hash w c).1 (log_call same_hash l c).1 cs next)

-- On every sequence of calls, a new waitlist answers as the log of the insertions does: `take` gives
-- what was inserted under the offset and then what was inserted under the hash, each in the order of
-- insertion, and not yet taken, and `has_waiters` says whether there is any. The test on hashes
-- decides their equality.
pub answers-log_answers :
    {H A : Type 0} (same_hash : H → H → Bool) (cs : List (Call H A))
    → Decides same_hash
    → answers same_hash new cs ≡ log_answers same_hash (record { by_offset = []; by_ref = [] }) cs
unfolding new
answers-log_answers same_hash cs decides =
    answers-Agrees same_hash decides new (record { by_offset = []; by_ref = [] }) cs
      (unfold logged in record { offsets = λ o. refl; refs = λ h. refl })
