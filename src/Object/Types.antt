-- ===== src/Object/Types.antt =====
-- src/internal/object/types.rs: the kinds of objects, and the spaces of identifiers that they live
-- in. An error is `none`, as each function has one.
pub mod RoundTrip
pub mod Plain
pub mod Tests
use git_internal.Base.{
  ℕ, same_bytes, Bool, true, false, List, [], ◌∷◌, Bytes, Option, none, some, ◌==◌, if◌then◌else◌,
}

pub data ObjectType : Type 0 where
  commit tree blob tag offset_zstdelta offset_delta hash_delta : ObjectType
  context_snapshot decision evidence patch_set plan provenance run : ObjectType
  task intent tool_invocation context_frame intent_event task_event run_event : ObjectType
  plan_step_event run_usage : ObjectType

unfoldable pub to_pack_type_u8 : ObjectType → Option ℕ
to_pack_type_u8 commit = some 1
to_pack_type_u8 tree = some 2
to_pack_type_u8 blob = some 3
to_pack_type_u8 tag = some 4
to_pack_type_u8 offset_zstdelta = some 5
to_pack_type_u8 offset_delta = some 6
to_pack_type_u8 hash_delta = some 7
to_pack_type_u8 context_snapshot = none
to_pack_type_u8 decision = none
to_pack_type_u8 evidence = none
to_pack_type_u8 patch_set = none
to_pack_type_u8 plan = none
to_pack_type_u8 provenance = none
to_pack_type_u8 run = none
to_pack_type_u8 task = none
to_pack_type_u8 intent = none
to_pack_type_u8 tool_invocation = none
to_pack_type_u8 context_frame = none
to_pack_type_u8 intent_event = none
to_pack_type_u8 task_event = none
to_pack_type_u8 run_event = none
to_pack_type_u8 plan_step_event = none
to_pack_type_u8 run_usage = none

pub to_u8 : ObjectType → ℕ
to_u8 commit = 1
to_u8 tree = 2
to_u8 blob = 3
to_u8 tag = 4
to_u8 offset_zstdelta = 5
to_u8 offset_delta = 6
to_u8 hash_delta = 7
to_u8 context_snapshot = 8
to_u8 decision = 9
to_u8 evidence = 10
to_u8 patch_set = 11
to_u8 plan = 12
to_u8 provenance = 13
to_u8 run = 14
to_u8 task = 15
to_u8 intent = 16
to_u8 tool_invocation = 17
to_u8 context_frame = 18
to_u8 intent_event = 19
to_u8 task_event = 20
to_u8 run_event = 21
to_u8 plan_step_event = 22
to_u8 run_usage = 23

unfoldable pub is_base : ObjectType → Bool
is_base commit = true
is_base tree = true
is_base blob = true
is_base tag = true
is_base offset_zstdelta = false
is_base offset_delta = false
is_base hash_delta = false
is_base context_snapshot = false
is_base decision = false
is_base evidence = false
is_base patch_set = false
is_base plan = false
is_base provenance = false
is_base run = false
is_base task = false
is_base intent = false
is_base tool_invocation = false
is_base context_frame = false
is_base intent_event = false
is_base task_event = false
is_base run_event = false
is_base plan_step_event = false
is_base run_usage = false

unfoldable pub is_ai_object : ObjectType → Bool
is_ai_object commit = false
is_ai_object tree = false
is_ai_object blob = false
is_ai_object tag = false
is_ai_object offset_zstdelta = false
is_ai_object offset_delta = false
is_ai_object hash_delta = false
is_ai_object context_snapshot = true
is_ai_object decision = true
is_ai_object evidence = true
is_ai_object patch_set = true
is_ai_object plan = true
is_ai_object provenance = true
is_ai_object run = true
is_ai_object task = true
is_ai_object intent = true
is_ai_object tool_invocation = true
is_ai_object context_frame = true
is_ai_object intent_event = true
is_ai_object task_event = true
is_ai_object run_event = true
is_ai_object plan_step_event = true
is_ai_object run_usage = true

-- The `match` on the number.
unfoldable pub from_pack_type_u8 : ℕ → Option ObjectType
from_pack_type_u8 number =
    if number == 1
    then some commit
    else if number == 2
    then some tree
    else if number == 3
    then some blob
    else if number == 4
    then some tag
    else if number == 5
    then some offset_zstdelta
    else if number == 6
    then some offset_delta
    else if number == 7
    then some hash_delta
    else none

-- The `match` on the number.
pub from_u8 : ℕ → Option ObjectType
from_u8 number =
    if number == 1
    then some commit
    else if number == 2
    then some tree
    else if number == 3
    then some blob
    else if number == 4
    then some tag
    else if number == 5
    then some offset_zstdelta
    else if number == 6
    then some offset_delta
    else if number == 7
    then some hash_delta
    else if number == 8
    then some context_snapshot
    else if number == 9
    then some decision
    else if number == 10
    then some evidence
    else if number == 11
    then some patch_set
    else if number == 12
    then some plan
    else if number == 13
    then some provenance
    else if number == 14
    then some run
    else if number == 15
    then some task
    else if number == 16
    then some intent
    else if number == 17
    then some tool_invocation
    else if number == 18
    then some context_frame
    else if number == 19
    then some intent_event
    else if number == 20
    then some task_event
    else if number == 21
    then some run_event
    else if number == 22
    then some plan_step_event
    else if number == 23
    then some run_usage
    else none
