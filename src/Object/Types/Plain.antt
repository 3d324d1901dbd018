-- ===== src/Object/Types/Plain.antt =====
-- The four types of objects that stand in a pack as they are, src/internal/object/types.rs.
use git_internal.Base.{ℕ, ◌<◌, true, false, some, ◌≡◌, refl, arith}
use git_internal.Object.Types.{
  ObjectType, commit, tree, blob, tag, offset_zstdelta, offset_delta, hash_delta, context_snapshot,
  decision, evidence, patch_set, plan, provenance, run, task, intent, tool_invocation,
  context_frame, intent_event, task_event, run_event, plan_step_event, run_usage, to_pack_type_u8,
  from_pack_type_u8, is_base, is_ai_object,
}
use git_internal.Pack.Entry.{has_base_offset, is_hash_delta}

-- What the encoder and the decoder of a pack entry ask of a type.
pub record IsPlain (t : ObjectType) : Type 0 where
  pub number : ℕ
  pub bits : to_pack_type_u8 t ≡ some number
  pub small : number < 8
  pub parsed : from_pack_type_u8 number ≡ some t
  pub not_ai : is_ai_object t ≡ false
  pub no_offset : has_base_offset t ≡ false
  pub no_hash : is_hash_delta t ≡ false

pub is_base-IsPlain : (t : ObjectType) → is_base t ≡ true → IsPlain t
unfolding is_base to_pack_type_u8 from_pack_type_u8 is_ai_object
is_base-IsPlain commit e = record {
  number = 1;
  bits = refl;
  small = omega arith;
  parsed = refl;
  not_ai = refl;
  no_offset = refl;
  no_hash = refl;
}
is_base-IsPlain tree e = record {
  number = 2;
  bits = refl;
  small = omega arith;
  parsed = refl;
  not_ai = refl;
  no_offset = refl;
  no_hash = refl;
}
is_base-IsPlain blob e = record {
  number = 3;
  bits = refl;
  small = omega arith;
  parsed = refl;
  not_ai = refl;
  no_offset = refl;
  no_hash = refl;
}
is_base-IsPlain tag e = record {
  number = 4;
  bits = refl;
  small = omega arith;
  parsed = refl;
  not_ai = refl;
  no_offset = refl;
  no_hash = refl;
}
is_base-IsPlain offset_zstdelta e = cc
is_base-IsPlain offset_delta e = cc
is_base-IsPlain hash_delta e = cc
is_base-IsPlain context_snapshot e = cc
is_base-IsPlain decision e = cc
is_base-IsPlain evidence e = cc
is_base-IsPlain patch_set e = cc
is_base-IsPlain plan e = cc
is_base-IsPlain provenance e = cc
is_base-IsPlain run e = cc
is_base-IsPlain task e = cc
is_base-IsPlain intent e = cc
is_base-IsPlain tool_invocation e = cc
is_base-IsPlain context_frame e = cc
is_base-IsPlain intent_event e = cc
is_base-IsPlain task_event e = cc
is_base-IsPlain run_event e = cc
is_base-IsPlain plan_step_event e = cc
is_base-IsPlain run_usage e = cc
