-- ===== src/Object/Types/RoundTrip.antt =====
-- The numbers of object types in src/internal/object/types.rs, both ways.
use git_internal.Base.{
  ℕ, ◌≤◌, ◌<◌, Bool, true, false, Option, none, some, ◌≡◌, refl, ◌==◌, arith, ap, ◌∙◌, sym, subst,
  ==→eq, ◌↔◌, ltb, Bool-cases, inl, inr, ltb→le, ltb→lt,
}
use git_internal.Base.Tables.{all_below, all_below_sound}
use git_internal.Object.Types.{
  ObjectType, commit, tree, blob, tag, offset_zstdelta, offset_delta, hash_delta, context_snapshot,
  decision, evidence, patch_set, plan, provenance, run, task, intent, tool_invocation,
  context_frame, intent_event, task_event, run_event, plan_step_event, run_usage, to_pack_type_u8,
  from_pack_type_u8, to_u8, from_u8,
}

from_u8-to_u8 : (o : ObjectType) → from_u8 (to_u8 o) ≡ some o
unfolding from_u8 to_u8
from_u8-to_u8 commit = refl
from_u8-to_u8 tree = refl
from_u8-to_u8 blob = refl
from_u8-to_u8 tag = refl
from_u8-to_u8 offset_zstdelta = refl
from_u8-to_u8 offset_delta = refl
from_u8-to_u8 hash_delta = refl
from_u8-to_u8 context_snapshot = refl
from_u8-to_u8 decision = refl
from_u8-to_u8 evidence = refl
from_u8-to_u8 patch_set = refl
from_u8-to_u8 plan = refl
from_u8-to_u8 provenance = refl
from_u8-to_u8 run = refl
from_u8-to_u8 task = refl
from_u8-to_u8 intent = refl
from_u8-to_u8 tool_invocation = refl
from_u8-to_u8 context_frame = refl
from_u8-to_u8 intent_event = refl
from_u8-to_u8 task_event = refl
from_u8-to_u8 run_event = refl
from_u8-to_u8 plan_step_event = refl
from_u8-to_u8 run_usage = refl

-- What a parsed number says, checked for each number below 24; no other number is parsed.
number_fits : Option ObjectType → ℕ → Bool
number_fits none number = true
number_fits (some o) number = to_u8 o == number

from_u8-above : (number : ℕ) → 24 ≤ number → from_u8 number ≡ none
unfolding from_u8
from_u8-above number h = ground arith

from_u8-fits : (number : ℕ) → number < 24 → number_fits (from_u8 number) number ≡ true
unfolding all_below number_fits from_u8 to_u8
from_u8-fits number h = all_below_sound 24 (λ n. number_fits (from_u8 n) n) number refl h

to_u8-from_u8 : (o : ObjectType) (number : ℕ) → from_u8 number ≡ some o → to_u8 o ≡ number
unfolding number_fits
to_u8-from_u8 o number e = elim (Bool-cases (ltb number 24)) [
  | inr large ↦
      let nothing : none ≡ some o = sym (from_u8-above number (ltb→le number 24 large)) ∙ e in cc
  | inl small ↦
      ==→eq (to_u8 o) number
        (subst (λ r. number_fits r number ≡ true) e (from_u8-fits number (ltb→lt number 24 small)))
]

-- The crate's numbers and the object types stand for one another: a type's number is parsed to the
-- type, and a number that is parsed to a type is the number of that type.
pub from_u8_iff : (o : ObjectType) (number : ℕ) → (from_u8 number ≡ some o) ↔ (to_u8 o ≡ number)
from_u8_iff o number = (to_u8-from_u8 o number, λ e. ap from_u8 (sym e) ∙ from_u8-to_u8 o)

same_number : Option ℕ → ℕ → Bool
same_number none number = false
same_number (some n) number = n == number

same_number→eq : (m : Option ℕ) (number : ℕ) → same_number m number ≡ true → m ≡ some number
unfolding same_number
same_number→eq none number e = cc
same_number→eq (some n) number e = ap some (==→eq n number e)

type_fits : Option ObjectType → ℕ → Bool
type_fits none number = true
type_fits (some o) number = same_number (to_pack_type_u8 o) number

from_pack_type_u8-above : (number : ℕ) → 8 ≤ number → from_pack_type_u8 number ≡ none
unfolding from_pack_type_u8
from_pack_type_u8-above number h = ground arith

from_pack_type_u8-fits :
    (number : ℕ) → number < 8 → type_fits (from_pack_type_u8 number) number ≡ true
unfolding all_below type_fits from_pack_type_u8 to_pack_type_u8 same_number
from_pack_type_u8-fits number h =
    all_below_sound 8 (λ n. type_fits (from_pack_type_u8 n) n) number refl h

to_pack_type_u8-from_pack_type_u8 :
    (o : ObjectType) (number : ℕ)
    → from_pack_type_u8 number ≡ some o
    → to_pack_type_u8 o ≡ some number
unfolding type_fits
to_pack_type_u8-from_pack_type_u8 o number e = elim (Bool-cases (ltb number 8)) [
  | inr large ↦
      let nothing : none ≡ some o =
        sym (from_pack_type_u8-above number (ltb→le number 8 large)) ∙ e in
      cc
  | inl small ↦ same_number→eq (to_pack_type_u8 o) number (
      subst (λ r. type_fits r number ≡ true) e
        (from_pack_type_u8-fits number (ltb→lt number 8 small)))
]

parsed_type :
    (o : ObjectType) (k number : ℕ)
    → from_pack_type_u8 k ≡ some o
    → some k ≡ some number
    → from_pack_type_u8 number ≡ some o
parsed_type o k number f e =
    let same : k ≡ number = cc in subst (λ n. from_pack_type_u8 n ≡ some o) same f

from_pack_type_u8-to_pack_type_u8 :
    (o : ObjectType) (number : ℕ)
    → to_pack_type_u8 o ≡ some number
    → from_pack_type_u8 number ≡ some o
unfolding from_pack_type_u8 to_pack_type_u8
from_pack_type_u8-to_pack_type_u8 commit number e = parsed_type commit 1 number refl e
from_pack_type_u8-to_pack_type_u8 tree number e = parsed_type tree 2 number refl e
from_pack_type_u8-to_pack_type_u8 blob number e = parsed_type blob 3 number refl e
from_pack_type_u8-to_pack_type_u8 tag number e = parsed_type tag 4 number refl e
from_pack_type_u8-to_pack_type_u8 offset_zstdelta number e =
    parsed_type offset_zstdelta 5 number refl e
from_pack_type_u8-to_pack_type_u8 offset_delta number e = parsed_type offset_delta 6 number refl e
from_pack_type_u8-to_pack_type_u8 hash_delta number e = parsed_type hash_delta 7 number refl e
from_pack_type_u8-to_pack_type_u8 context_snapshot number e = cc
from_pack_type_u8-to_pack_type_u8 decision number e = cc
from_pack_type_u8-to_pack_type_u8 evidence number e = cc
from_pack_type_u8-to_pack_type_u8 patch_set number e = cc
from_pack_type_u8-to_pack_type_u8 plan number e = cc
from_pack_type_u8-to_pack_type_u8 provenance number e = cc
from_pack_type_u8-to_pack_type_u8 run number e = cc
from_pack_type_u8-to_pack_type_u8 task number e = cc
from_pack_type_u8-to_pack_type_u8 intent number e = cc
from_pack_type_u8-to_pack_type_u8 tool_invocation number e = cc
from_pack_type_u8-to_pack_type_u8 context_frame number e = cc
from_pack_type_u8-to_pack_type_u8 intent_event number e = cc
from_pack_type_u8-to_pack_type_u8 task_event number e = cc
from_pack_type_u8-to_pack_type_u8 run_event number e = cc
from_pack_type_u8-to_pack_type_u8 plan_step_event number e = cc
from_pack_type_u8-to_pack_type_u8 run_usage number e = cc

-- The type bits of a pack entry and the object types that have some, the base objects and the
-- deltas, stand for one another: a type's bits are parsed to it, and bits that are parsed to a type
-- are the bits of that type.
pub from_pack_type_u8_iff :
    (o : ObjectType) (number : ℕ)
    → (from_pack_type_u8 number ≡ some o) ↔ (to_pack_type_u8 o ≡ some number)
from_pack_type_u8_iff o number =
    (to_pack_type_u8-from_pack_type_u8 o number, from_pack_type_u8-to_pack_type_u8 o number)

-- Type bits are three bits.
pub pack_type-lt : (o : ObjectType) (number : ℕ) → to_pack_type_u8 o ≡ some number → number < 8
pack_type-lt o number e = elim (Bool-cases (ltb number 8)) [
  | inl small ↦ ltb→lt number 8 small
  | inr large ↦
      let nothing : none ≡ some o =
        sym (from_pack_type_u8-above number (ltb→le number 8 large))
        ∙ from_pack_type_u8-to_pack_type_u8 o number e in
      cc
]
