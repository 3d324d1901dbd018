-- ===== src/Index/Tests.antt =====
-- The index on concrete entries.
use git_internal.Base.{true, false, [], ◌∷◌, replicate, All-replicate, IsByte, refl, arith}
use git_internal.Base.Utf8.{is_utf8}
use git_internal.Hash.{HashKind, ObjectHash}
use git_internal.Hash.Kinds.{OfKind}
use git_internal.Index.Entry.{IndexEntry, new_from_blob}
use git_internal.Index.Entry.RoundTrip.{IsIndexEntry}
use git_internal.Index.Map.{Index}
use git_internal.Index.Map.Order.{Edits, Index-Edits}
use git_internal.Index.File.RoundTrip.{IsIndex}

abbrev some_hash : ObjectHash
some_hash = ObjectHash.sha1 (replicate 20 3)

some_hash-OfKind : OfKind HashKind.sha1 some_hash
some_hash-OfKind = record {
  of_kind = refl;
  well_formed = record { sized = refl; bytes = All-replicate IsByte 20 3 (omega arith) };
}

abbrev a_file : IndexEntry
a_file = new_from_blob (97 ∷ []) some_hash 12

-- A file that is not checked out, whose flags take two words.
abbrev skipped : IndexEntry
skipped = record {
  ctime = record { seconds = 1700000000; nanos = 5 };
  mtime = record { seconds = 1700000001; nanos = 6 };
  dev = 1;
  ino = 2;
  mode = 0o100755;
  uid = 3;
  gid = 4;
  file_size = 5;
  hash = some_hash;
  flags = record {
    assume_valid = false;
    extended = false;
    stage = 1;
    name_length = 2;
    skip_worktree = true;
    intent_to_add = false;
  };
  name = 97 ∷ 98 ∷ [];
}

a_file-IsIndexEntry : IsIndexEntry HashKind.sha1 a_file
unfolding is_utf8
a_file-IsIndexEntry = record {
  times = (omega arith, omega arith, omega arith, omega arith);
  numbers = (omega arith, omega arith, omega arith, omega arith, omega arith, omega arith);
  hash = some_hash-OfKind;
  stage = omega arith;
  name_length = refl;
  short_name = omega arith;
  utf8 = refl;
}

skipped-IsIndexEntry : IsIndexEntry HashKind.sha1 skipped
unfolding is_utf8
skipped-IsIndexEntry = record {
  times = (omega arith, omega arith, omega arith, omega arith);
  numbers = (omega arith, omega arith, omega arith, omega arith, omega arith, omega arith);
  hash = some_hash-OfKind;
  stage = omega arith;
  name_length = refl;
  short_name = omega arith;
  utf8 = refl;
}

abbrev two_entries : Index
two_entries = ((97 ∷ [], 0), a_file) ∷ ((97 ∷ 98 ∷ [], 1), skipped) ∷ []

two_entries-IsIndex : IsIndex HashKind.sha1 two_entries
two_entries-IsIndex = record {
  entries = (a_file-IsIndexEntry, (skipped-IsIndexEntry, tt));
  keys = (refl, (refl, tt));
  ordered = ((refl, tt), (tt, tt));
  counted = omega arith;
}

Index-Edits_example : Edits two_entries skipped (97 ∷ []) 0
Index-Edits_example = Index-Edits two_entries skipped (97 ∷ []) 0 two_entries-IsIndex.ordered
