-- ===== src/Index/Flags.antt =====
-- The flags of an index entry, src/internal/index.rs, as a record and as their words on disk.
pub mod RoundTrip
use git_internal.Base.{
  ℕ, ◌*◌, ◌/◌, ◌%◌, ◌^◌, ◌-◌, bit_and, bit_or, Bool, true, false, not, ◌==◌, ltb, if◌then◌else◌,
  Option, none, some, Result, ok, err,
}

pub record Flags : Type 0 where
  pub assume_valid : Bool
  pub extended : Bool
  pub stage : ℕ
  pub name_length : ℕ
  pub skip_worktree : Bool
  pub intent_to_add : Bool

-- `From<u16>`.
unfoldable pub from_u16 : ℕ → Flags
from_u16 flags = record {
  assume_valid = not (bit_and flags 0x8000 == 0);
  extended = not (bit_and flags 0x4000 == 0);
  stage = bit_and flags 0x3000 / 2 ^ 12 % 256;
  name_length = bit_and flags 0xfff;
  skip_worktree = false;
  intent_to_add = false;
}

-- The three steps before the length is added.
abbrev pub high_flags : Bool → Bool → ℕ → ℕ
high_flags assume_valid extended stage =
    let flags = if assume_valid then bit_or 0 0x8000 else 0 in
    let flags' = if extended then bit_or flags 0x4000 else flags in
    bit_or flags' (stage * 2 ^ 12 % 2 ^ 16)

-- `TryInto<u16>`; its one error is that the length of the name is too long.
unfoldable pub to_u16 : Flags → Option ℕ
to_u16 flags =
    if ltb 0xfff flags.name_length
    then none
    else some (bit_or (high_flags flags.assume_valid flags.extended flags.stage) flags.name_length)

abbrev pub new : ℕ → Flags
new name_len = record {
  assume_valid = false;
  extended = false;
  stage = 0;
  name_length = name_len;
  skip_worktree = false;
  intent_to_add = false;
}

abbrev pub extended_flag_skip_worktree : ℕ
extended_flag_skip_worktree = 0x4000

abbrev pub extended_flag_intent_to_add : ℕ
extended_flag_intent_to_add = 0x2000

-- The bits of a word outside the known two, by the complement on sixteen bits; an error holds the
-- word.
unfoldable pub from_extended_word : ℕ → Result ℕ (Bool × Bool)
from_extended_word word =
    if bit_and word (2 ^ 16 - 1 - bit_or extended_flag_skip_worktree extended_flag_intent_to_add)
      == 0
    then ok (
      not (bit_and word extended_flag_skip_worktree == 0),
      not (bit_and word extended_flag_intent_to_add == 0),
    )
    else err word

abbrev pub extended_bits : Bool → Bool → ℕ
extended_bits skip_worktree intent_to_add =
    let word = if skip_worktree then bit_or 0 extended_flag_skip_worktree else 0 in
    if intent_to_add then bit_or word extended_flag_intent_to_add else word

abbrev pub extended_word : Flags → Option ℕ
extended_word flags =
    let word = extended_bits flags.skip_worktree flags.intent_to_add in
    if word == 0 then none else some word

-- The word that is written for flags, with the bit for the extended word set where one follows.
abbrev pub packed : Bool → ℕ → ℕ
packed has_word word = if has_word then bit_or word 0x4000 else word
