-- ===== src/Object/Names/RoundTrip.antt =====
-- The textual names of object types in src/internal/object/types.rs, both ways.
use git_internal.Base.{true, false, ◌||◌, [], ◌∷◌, Bytes, none, some, ◌≡◌, refl, ◌∙◌, sym, subst}
use git_internal.Object.Types.{
  ObjectType, commit, tree, blob, tag, offset_zstdelta, offset_delta, hash_delta, context_snapshot,
  decision, evidence, patch_set, plan, provenance, run, task, intent, tool_invocation,
  context_frame, intent_event, task_event, run_event, plan_step_event, run_usage, is_base,
  is_ai_object,
}
use git_internal.Object.Names.{to_bytes, to_data, from_string}

-- An object type has a textual name exactly where it is a base object or an AI object, the two ways
-- to get the name agree, and the name is parsed to the type again.
pub record Named (o : ObjectType) : Type 0 where
  pub same_name : to_data o ≡ to_bytes o
  pub parsed : (name : Bytes) → to_bytes o ≡ some name → from_string name ≡ some o
  pub base_or_ai : (is_base o || is_ai_object o) ≡ true → (name : Bytes) × (to_bytes o ≡ some name)
  pub delta : (is_base o || is_ai_object o) ≡ false → to_bytes o ≡ none

named :
    (o : ObjectType) (name : Bytes)
    → to_bytes o ≡ some name
    → to_data o ≡ some name
    → from_string name ≡ some o
    → (is_base o || is_ai_object o) ≡ true
    → Named o
named o name b d f k = record {
  same_name = d ∙ sym b;
  parsed = λ name' b'. let same : name ≡ name' = cc in subst (λ s. from_string s ≡ some o) same f;
  base_or_ai = λ _. (name, b);
  delta = λ k'. cc;
}

unnamed :
    (o : ObjectType)
    → to_bytes o ≡ none
    → to_data o ≡ none
    → (is_base o || is_ai_object o) ≡ false
    → Named o
unnamed o b d k = record {
  same_name = d ∙ sym b;
  parsed = λ name b'. cc;
  base_or_ai = λ k'. cc;
  delta = λ _. b;
}

-- Each object type that has a textual name, which are the base objects and the AI objects, has one
-- name, which `to_bytes` and `to_data` give and which `from_string` turns back into the type.
pub ObjectType-Named : (o : ObjectType) → Named o
unfolding to_bytes to_data from_string is_base is_ai_object
ObjectType-Named commit = named commit (99 ∷ 111 ∷ 109 ∷ 109 ∷ 105 ∷ 116 ∷ []) refl refl refl refl
ObjectType-Named tree = named tree (116 ∷ 114 ∷ 101 ∷ 101 ∷ []) refl refl refl refl
ObjectType-Named blob = named blob (98 ∷ 108 ∷ 111 ∷ 98 ∷ []) refl refl refl refl
ObjectType-Named tag = named tag (116 ∷ 97 ∷ 103 ∷ []) refl refl refl refl
ObjectType-Named offset_zstdelta = unnamed offset_zstdelta refl refl refl
ObjectType-Named offset_delta = unnamed offset_delta refl refl refl
ObjectType-Named hash_delta = unnamed hash_delta refl refl refl
ObjectType-Named context_snapshot =
    named context_snapshot (115 ∷ 110 ∷ 97 ∷ 112 ∷ 115 ∷ 104 ∷ 111 ∷ 116 ∷ []) refl refl refl refl
ObjectType-Named decision =
    named decision (100 ∷ 101 ∷ 99 ∷ 105 ∷ 115 ∷ 105 ∷ 111 ∷ 110 ∷ []) refl refl refl refl
ObjectType-Named evidence =
    named evidence (101 ∷ 118 ∷ 105 ∷ 100 ∷ 101 ∷ 110 ∷ 99 ∷ 101 ∷ []) refl refl refl refl
ObjectType-Named patch_set =
    named patch_set (112 ∷ 97 ∷ 116 ∷ 99 ∷ 104 ∷ 115 ∷ 101 ∷ 116 ∷ []) refl refl refl refl
ObjectType-Named plan = named plan (112 ∷ 108 ∷ 97 ∷ 110 ∷ []) refl refl refl refl
ObjectType-Named provenance =
    named provenance (112 ∷ 114 ∷ 111 ∷ 118 ∷ 101 ∷ 110 ∷ 97 ∷ 110 ∷ 99 ∷ 101 ∷ []) refl refl refl
      refl
ObjectType-Named run = named run (114 ∷ 117 ∷ 110 ∷ []) refl refl refl refl
ObjectType-Named task = named task (116 ∷ 97 ∷ 115 ∷ 107 ∷ []) refl refl refl refl
ObjectType-Named intent = named intent (105 ∷ 110 ∷ 116 ∷ 101 ∷ 110 ∷ 116 ∷ []) refl refl refl refl
ObjectType-Named tool_invocation =
    named tool_invocation (105 ∷ 110 ∷ 118 ∷ 111 ∷ 99 ∷ 97 ∷ 116 ∷ 105 ∷ 111 ∷ 110 ∷ []) refl refl
      refl refl
ObjectType-Named context_frame =
    named context_frame
      (99 ∷ 111 ∷ 110 ∷ 116 ∷ 101 ∷ 120 ∷ 116 ∷ 95 ∷ 102 ∷ 114 ∷ 97 ∷ 109 ∷ 101 ∷ []) refl refl refl
      refl
ObjectType-Named intent_event =
    named intent_event (105 ∷ 110 ∷ 116 ∷ 101 ∷ 110 ∷ 116 ∷ 95 ∷ 101 ∷ 118 ∷ 101 ∷ 110 ∷ 116 ∷ [])
      refl refl refl refl
ObjectType-Named task_event =
    named task_event (116 ∷ 97 ∷ 115 ∷ 107 ∷ 95 ∷ 101 ∷ 118 ∷ 101 ∷ 110 ∷ 116 ∷ []) refl refl refl
      refl
ObjectType-Named run_event =
    named run_event (114 ∷ 117 ∷ 110 ∷ 95 ∷ 101 ∷ 118 ∷ 101 ∷ 110 ∷ 116 ∷ []) refl refl refl refl
ObjectType-Named plan_step_event =
    named plan_step_event
      (112 ∷ 108 ∷ 97 ∷ 110 ∷ 95 ∷ 115 ∷ 116 ∷ 101 ∷ 112 ∷ 95 ∷ 101 ∷ 118 ∷ 101 ∷ 110 ∷ 116 ∷ [])
      refl refl refl refl
ObjectType-Named run_usage =
    named run_usage (114 ∷ 117 ∷ 110 ∷ 95 ∷ 117 ∷ 115 ∷ 97 ∷ 103 ∷ 101 ∷ []) refl refl refl refl
