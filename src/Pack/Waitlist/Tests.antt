-- ===== src/Pack/Waitlist/Tests.antt =====
-- A run of the waitlist, with numbers for hashes and objects, and the theorem at it.
use git_internal.Base.{ℕ, false, List, [], ◌∷◌, ◌==◌, ==→eq, ◌≡◌, refl, arith}
use git_internal.Pack.Waitlist.{
  Call, on_offset, on_ref, taking, asking, inserted, taken, waiting, new, answers, call,
  insert_offset, insert_ref, take_waiting, has_waiters, push_entry, remove_entry,
}
use git_internal.Pack.Waitlist.Refinement.{answers-log_answers, log_answers, Decides}

-- Two objects wait on the offset 200 and one on the hash 9; they are taken together, once.
abbrev some_calls : List (Call ℕ ℕ)
some_calls = on_offset 200 1 ∷ on_ref 9 2 ∷ on_offset 200 3 ∷ taking 200 9 ∷ asking 200 9 ∷ []

answers_test :
    answers ◌==◌ new some_calls
    ≡ inserted ∷ inserted ∷ inserted ∷ taken (1 ∷ 3 ∷ 2 ∷ []) ∷ waiting false ∷ []
unfolding answers new call insert_offset insert_ref take_waiting has_waiters push_entry remove_entry
answers_test = refl

ℕ-Decides_here : Decides ◌==◌
ℕ-Decides_here = (λ a b h. ==→eq a b h, λ a. ground arith)

answers-log_answers_example :
    answers ◌==◌ new some_calls
    ≡ log_answers ◌==◌ (record { by_offset = []; by_ref = [] }) some_calls
answers-log_answers_example = answers-log_answers ◌==◌ some_calls ℕ-Decides_here
