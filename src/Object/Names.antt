-- ===== src/Object/Names.antt =====
-- The textual names of object types, src/internal/object/types.rs: each is the list of its ASCII
-- bytes. An error is `none`, as each function has one.
pub mod RoundTrip
pub mod Tests
use git_internal.Base.{[], ◌∷◌, same_bytes, Bytes, Option, none, some, if◌then◌else◌}
use git_internal.Object.Types.{
  ObjectType, commit, tree, blob, tag, offset_zstdelta, offset_delta, hash_delta, context_snapshot,
  decision, evidence, patch_set, plan, provenance, run, task, intent, tool_invocation,
  context_frame, intent_event, task_event, run_event, plan_step_event, run_usage,
}

-- The `&[u8]` constants.
abbrev pub commit_object_type : Bytes
commit_object_type = 99 ∷ 111 ∷ 109 ∷ 109 ∷ 105 ∷ 116 ∷ []  -- commit

abbrev pub tree_object_type : Bytes
tree_object_type = 116 ∷ 114 ∷ 101 ∷ 101 ∷ []  -- tree

abbrev pub blob_object_type : Bytes
blob_object_type = 98 ∷ 108 ∷ 111 ∷ 98 ∷ []  -- blob

abbrev pub tag_object_type : Bytes
tag_object_type = 116 ∷ 97 ∷ 103 ∷ []  -- tag

abbrev pub context_snapshot_object_type : Bytes
context_snapshot_object_type = 115 ∷ 110 ∷ 97 ∷ 112 ∷ 115 ∷ 104 ∷ 111 ∷ 116 ∷ []  -- snapshot

abbrev pub decision_object_type : Bytes
decision_object_type = 100 ∷ 101 ∷ 99 ∷ 105 ∷ 115 ∷ 105 ∷ 111 ∷ 110 ∷ []  -- decision

abbrev pub evidence_object_type : Bytes
evidence_object_type = 101 ∷ 118 ∷ 105 ∷ 100 ∷ 101 ∷ 110 ∷ 99 ∷ 101 ∷ []  -- evidence

abbrev pub patch_set_object_type : Bytes
patch_set_object_type = 112 ∷ 97 ∷ 116 ∷ 99 ∷ 104 ∷ 115 ∷ 101 ∷ 116 ∷ []  -- patchset

abbrev pub plan_object_type : Bytes
plan_object_type = 112 ∷ 108 ∷ 97 ∷ 110 ∷ []  -- plan

abbrev pub provenance_object_type : Bytes
provenance_object_type = 112 ∷ 114 ∷ 111 ∷ 118 ∷ 101 ∷ 110 ∷ 97 ∷ 110 ∷ 99 ∷ 101 ∷ []  -- provenance

abbrev pub run_object_type : Bytes
run_object_type = 114 ∷ 117 ∷ 110 ∷ []  -- run

abbrev pub task_object_type : Bytes
task_object_type = 116 ∷ 97 ∷ 115 ∷ 107 ∷ []  -- task

abbrev pub intent_object_type : Bytes
intent_object_type = 105 ∷ 110 ∷ 116 ∷ 101 ∷ 110 ∷ 116 ∷ []  -- intent

abbrev pub tool_invocation_object_type : Bytes
tool_invocation_object_type = 105 ∷ 110 ∷ 118 ∷ 111 ∷ 99 ∷ 97 ∷ 116 ∷ 105 ∷ 111 ∷ 110 ∷ []  -- invocation

abbrev pub context_frame_object_type : Bytes
context_frame_object_type =
    99 ∷ 111 ∷ 110 ∷ 116 ∷ 101 ∷ 120 ∷ 116 ∷ 95 ∷ 102 ∷ 114 ∷ 97 ∷ 109 ∷ 101 ∷ []  -- context_frame

abbrev pub intent_event_object_type : Bytes
intent_event_object_type = 105 ∷ 110 ∷ 116 ∷ 101 ∷ 110 ∷ 116 ∷ 95 ∷ 101 ∷ 118 ∷ 101 ∷ 110 ∷ 116 ∷ []  -- intent_event

abbrev pub task_event_object_type : Bytes
task_event_object_type = 116 ∷ 97 ∷ 115 ∷ 107 ∷ 95 ∷ 101 ∷ 118 ∷ 101 ∷ 110 ∷ 116 ∷ []  -- task_event

abbrev pub run_event_object_type : Bytes
run_event_object_type = 114 ∷ 117 ∷ 110 ∷ 95 ∷ 101 ∷ 118 ∷ 101 ∷ 110 ∷ 116 ∷ []  -- run_event

abbrev pub plan_step_event_object_type : Bytes
plan_step_event_object_type =
    112 ∷ 108 ∷ 97 ∷ 110 ∷ 95 ∷ 115 ∷ 116 ∷ 101 ∷ 112 ∷ 95 ∷ 101 ∷ 118 ∷ 101 ∷ 110 ∷ 116 ∷ []  -- plan_step_event

abbrev pub run_usage_object_type : Bytes
run_usage_object_type = 114 ∷ 117 ∷ 110 ∷ 95 ∷ 117 ∷ 115 ∷ 97 ∷ 103 ∷ 101 ∷ []  -- run_usage

unfoldable pub to_bytes : ObjectType → Option Bytes
to_bytes commit = some commit_object_type
to_bytes tree = some tree_object_type
to_bytes blob = some blob_object_type
to_bytes tag = some tag_object_type
to_bytes offset_zstdelta = none
to_bytes offset_delta = none
to_bytes hash_delta = none
to_bytes context_snapshot = some context_snapshot_object_type
to_bytes decision = some decision_object_type
to_bytes evidence = some evidence_object_type
to_bytes patch_set = some patch_set_object_type
to_bytes plan = some plan_object_type
to_bytes provenance = some provenance_object_type
to_bytes run = some run_object_type
to_bytes task = some task_object_type
to_bytes intent = some intent_object_type
to_bytes tool_invocation = some tool_invocation_object_type
to_bytes context_frame = some context_frame_object_type
to_bytes intent_event = some intent_event_object_type
to_bytes task_event = some task_event_object_type
to_bytes run_event = some run_event_object_type
to_bytes plan_step_event = some plan_step_event_object_type
to_bytes run_usage = some run_usage_object_type

-- The owned bytes, spelled out once more in the source.
pub to_data : ObjectType → Option Bytes
to_data commit = some (99 ∷ 111 ∷ 109 ∷ 109 ∷ 105 ∷ 116 ∷ [])
to_data tree = some (116 ∷ 114 ∷ 101 ∷ 101 ∷ [])
to_data blob = some (98 ∷ 108 ∷ 111 ∷ 98 ∷ [])
to_data tag = some (116 ∷ 97 ∷ 103 ∷ [])
to_data offset_zstdelta = none
to_data offset_delta = none
to_data hash_delta = none
to_data context_snapshot = some (115 ∷ 110 ∷ 97 ∷ 112 ∷ 115 ∷ 104 ∷ 111 ∷ 116 ∷ [])
to_data decision = some (100 ∷ 101 ∷ 99 ∷ 105 ∷ 115 ∷ 105 ∷ 111 ∷ 110 ∷ [])
to_data evidence = some (101 ∷ 118 ∷ 105 ∷ 100 ∷ 101 ∷ 110 ∷ 99 ∷ 101 ∷ [])
to_data patch_set = some (112 ∷ 97 ∷ 116 ∷ 99 ∷ 104 ∷ 115 ∷ 101 ∷ 116 ∷ [])
to_data plan = some (112 ∷ 108 ∷ 97 ∷ 110 ∷ [])
to_data provenance = some (112 ∷ 114 ∷ 111 ∷ 118 ∷ 101 ∷ 110 ∷ 97 ∷ 110 ∷ 99 ∷ 101 ∷ [])
to_data run = some (114 ∷ 117 ∷ 110 ∷ [])
to_data task = some (116 ∷ 97 ∷ 115 ∷ 107 ∷ [])
to_data intent = some (105 ∷ 110 ∷ 116 ∷ 101 ∷ 110 ∷ 116 ∷ [])
to_data tool_invocation = some (105 ∷ 110 ∷ 118 ∷ 111 ∷ 99 ∷ 97 ∷ 116 ∷ 105 ∷ 111 ∷ 110 ∷ [])
to_data context_frame =
    some (99 ∷ 111 ∷ 110 ∷ 116 ∷ 101 ∷ 120 ∷ 116 ∷ 95 ∷ 102 ∷ 114 ∷ 97 ∷ 109 ∷ 101 ∷ [])
to_data intent_event =
    some (105 ∷ 110 ∷ 116 ∷ 101 ∷ 110 ∷ 116 ∷ 95 ∷ 101 ∷ 118 ∷ 101 ∷ 110 ∷ 116 ∷ [])
to_data task_event = some (116 ∷ 97 ∷ 115 ∷ 107 ∷ 95 ∷ 101 ∷ 118 ∷ 101 ∷ 110 ∷ 116 ∷ [])
to_data run_event = some (114 ∷ 117 ∷ 110 ∷ 95 ∷ 101 ∷ 118 ∷ 101 ∷ 110 ∷ 116 ∷ [])
to_data plan_step_event =
    some (112 ∷ 108 ∷ 97 ∷ 110 ∷ 95 ∷ 115 ∷ 116 ∷ 101 ∷ 112 ∷ 95 ∷ 101 ∷ 118 ∷ 101 ∷ 110 ∷ 116 ∷ [])
to_data run_usage = some (114 ∷ 117 ∷ 110 ∷ 95 ∷ 117 ∷ 115 ∷ 97 ∷ 103 ∷ 101 ∷ [])

pub from_string : Bytes → Option ObjectType
from_string s =
    if same_bytes s (98 ∷ 108 ∷ 111 ∷ 98 ∷ [])
    then some blob
    else if same_bytes s (116 ∷ 114 ∷ 101 ∷ 101 ∷ [])
    then some tree
    else if same_bytes s (99 ∷ 111 ∷ 109 ∷ 109 ∷ 105 ∷ 116 ∷ [])
    then some commit
    else if same_bytes s (116 ∷ 97 ∷ 103 ∷ [])
    then some tag
    else if same_bytes s (115 ∷ 110 ∷ 97 ∷ 112 ∷ 115 ∷ 104 ∷ 111 ∷ 116 ∷ [])
    then some context_snapshot
    else if same_bytes s (100 ∷ 101 ∷ 99 ∷ 105 ∷ 115 ∷ 105 ∷ 111 ∷ 110 ∷ [])
    then some decision
    else if same_bytes s (101 ∷ 118 ∷ 105 ∷ 100 ∷ 101 ∷ 110 ∷ 99 ∷ 101 ∷ [])
    then some evidence
    else if same_bytes s (112 ∷ 97 ∷ 116 ∷ 99 ∷ 104 ∷ 115 ∷ 101 ∷ 116 ∷ [])
    then some patch_set
    else if same_bytes s (112 ∷ 108 ∷ 97 ∷ 110 ∷ [])
    then some plan
    else if same_bytes s (112 ∷ 114 ∷ 111 ∷ 118 ∷ 101 ∷ 110 ∷ 97 ∷ 110 ∷ 99 ∷ 101 ∷ [])
    then some provenance
    else if same_bytes s (114 ∷ 117 ∷ 110 ∷ [])
    then some run
    else if same_bytes s (116 ∷ 97 ∷ 115 ∷ 107 ∷ [])
    then some task
    else if same_bytes s (105 ∷ 110 ∷ 116 ∷ 101 ∷ 110 ∷ 116 ∷ [])
    then some intent
    else if same_bytes s (105 ∷ 110 ∷ 118 ∷ 111 ∷ 99 ∷ 97 ∷ 116 ∷ 105 ∷ 111 ∷ 110 ∷ [])
    then some tool_invocation
    else if same_bytes s
        (99 ∷ 111 ∷ 110 ∷ 116 ∷ 101 ∷ 120 ∷ 116 ∷ 95 ∷ 102 ∷ 114 ∷ 97 ∷ 109 ∷ 101 ∷ [])
    then some context_frame
    else if same_bytes s (105 ∷ 110 ∷ 116 ∷ 101 ∷ 110 ∷ 116 ∷ 95 ∷ 101 ∷ 118 ∷ 101 ∷ 110 ∷ 116 ∷ [])
    then some intent_event
    else if same_bytes s (116 ∷ 97 ∷ 115 ∷ 107 ∷ 95 ∷ 101 ∷ 118 ∷ 101 ∷ 110 ∷ 116 ∷ [])
    then some task_event
    else if same_bytes s (114 ∷ 117 ∷ 110 ∷ 95 ∷ 101 ∷ 118 ∷ 101 ∷ 110 ∷ 116 ∷ [])
    then some run_event
    else if same_bytes s
        (112 ∷ 108 ∷ 97 ∷ 110 ∷ 95 ∷ 115 ∷ 116 ∷ 101 ∷ 112 ∷ 95 ∷ 101 ∷ 118 ∷ 101 ∷ 110 ∷ 116 ∷ [])
    then some plan_step_event
    else if same_bytes s (114 ∷ 117 ∷ 110 ∷ 95 ∷ 117 ∷ 115 ∷ 97 ∷ 103 ∷ 101 ∷ [])
    then some run_usage
    else none
