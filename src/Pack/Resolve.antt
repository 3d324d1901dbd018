-- ===== src/Pack/Resolve.antt =====
-- The resolution of deltas, src/internal/pack/decode.rs, without a retention plan, and the cache's
-- lookups, src/internal/pack/cache.rs: what the tasks of the thread pool do to the shared cache and
-- waitlist. A task is cut at its accesses to what is shared, each of which is one step, and any task
-- may run next. The reader's tasks are there from the start: one that is not sent yet is one that has
-- not run yet. The cache is the list of what was inserted, the last first: an object that was moved to
-- disk is read back. The waitlist is the log of what was inserted and not yet taken. The zstd library
-- is a parameter.
pub mod Steps
pub mod Lookup
pub mod Attended
pub mod Objects
pub mod Settled
pub mod Tests
use git_internal.Base.{
  ℕ, ◌+◌, Bool, true, false, not, ◌&&◌, ◌||◌, List, [], ◌∷◌, ◌++◌, Bytes, ◌==◌, if◌then◌else◌, map,
  Result, ok, err, map_err, ◌>>=◌, Option, none, some, same_bytes,
}
use git_internal.Object.Types.{ObjectType, commit}
use git_internal.Hash.{HashKind, ObjectHash, HashError, kind, same_hash}
use git_internal.Hash.Parse.{ok_or}
use git_internal.Hash.Digest.{Digests}
use git_internal.Hash.Digest.Loose.{calculate_object_hash_for_kind}
use git_internal.Delta.Decode.{DeltaError, delta_decode}

pub data CacheObjectInfo : Type 0 where
  base_object : ObjectType → ObjectHash → CacheObjectInfo
  offset_delta offset_zstdelta : ℕ → ℕ → CacheObjectInfo
  hash_delta : ObjectHash → ℕ → CacheObjectInfo

pub record CacheObject : Type 0 where
  pub info : CacheObjectInfo
  pub offset : ℕ
  pub crc32 : ℕ
  pub data_decompressed : Bytes
  pub is_delta_in_pack : Bool
  pub known_hash : Option ObjectHash

-- The first error of a worker, by what it reports.
pub data DecodeError (X : Type 0) : Type 0 where
  delta_object_error : DeltaError → DecodeError X
  zstdelta_error not_a_base : DecodeError X
  invalid_hash_value : HashError X → DecodeError X
  wrong_name : ℕ → ObjectHash → ObjectHash → DecodeError X

-- What a delta waits for.
pub data Base : Type 0 where
  by_offset : ℕ → Base
  by_hash : ObjectHash → Base

abbrev pub base_object_hash : CacheObject → Option ObjectHash
base_object_hash obj = elim obj.info [ base_object t hash ↦ some hash | _ ↦ none ]

-- The type of a base object; a rebuild has made sure that its base is one.
abbrev pub object_type : CacheObject → Option ObjectType
object_type obj = elim obj.info [ base_object t hash ↦ some t | _ ↦ none ]

abbrev pub base_of : CacheObject → Option Base
base_of obj = elim obj.info [
  | base_object t hash ↦ none
  | offset_delta base size ↦ some (by_offset base)
  | offset_zstdelta base size ↦ some (by_offset base)
  | hash_delta hash size ↦ some (by_hash hash)
]

abbrev pub same_option : Option ObjectHash → ObjectHash → Bool
same_option none h = false
same_option (some g) h = same_hash g h

abbrev pub is_base_for : Base → CacheObject → Bool
is_base_for (by_offset o) obj = obj.offset == o
is_base_for (by_hash h) obj = same_option (base_object_hash obj) h

-- `get_by_hash` of the cache: the last object that was inserted under the hash.
abbrev pub get_by_hash : ObjectHash → List CacheObject → Option CacheObject
get_by_hash h [] = none
get_by_hash h (obj ∷ caches) =
    let older = get_by_hash h caches in
    if same_option (base_object_hash obj) h then some obj else older

-- The hash that was last inserted at an offset.
abbrev pub get_hash : ℕ → List CacheObject → Option ObjectHash
get_hash offset [] = none
get_hash offset (obj ∷ caches) =
    let older = get_hash offset caches in
    if obj.offset == offset then base_object_hash obj else older

abbrev pub by_name : Option ObjectHash → List CacheObject → Option CacheObject
by_name none caches = none
by_name (some h) caches = get_by_hash h caches

abbrev pub get_by_offset : ℕ → List CacheObject → Option CacheObject
get_by_offset offset caches = by_name (get_hash offset caches) caches

abbrev pub lookup : Base → List CacheObject → Option CacheObject
lookup (by_offset offset) caches = get_by_offset offset caches
lookup (by_hash h) caches = get_by_hash h caches

-- What `take` removes, and what it leaves.
abbrev pub taken : CacheObject → List (Base × CacheObject) → List CacheObject
taken base [] = []
taken base (e ∷ waitlist) =
    let later = taken base waitlist in if is_base_for e.0 base then e.1 ∷ later else later

abbrev pub left : CacheObject → List (Base × CacheObject) → List (Base × CacheObject)
left base [] = []
left base (e ∷ waitlist) =
    let later = left base waitlist in if is_base_for e.0 base then later else e ∷ later

-- The tasks, each by what it does next: look its base up, enter the waitlist, look its base up once
-- more, rebuild, enter the cache, and take what waits.
pub data Task : Type 0 where
  check wait : Base → CacheObject → Task
  recheck : Base → Task
  rebuild : CacheObject → CacheObject → Task
  keep wake : CacheObject → Task

pub record Shared (X : Type 0) : Type 0 where
  pub caches : List CacheObject
  pub waitlist : List (Base × CacheObject)
  pub callbacks : List CacheObject
  pub error : Option (DecodeError X)

abbrev pub first_error {ℓ} : {E : Type ℓ} → Option E → E → Option E
first_error none e = some e
first_error (some first) e = some first

-- Where the reader sends an object that it has read.
abbrev pub dispatch_by : Option Base → CacheObject → Task
dispatch_by none obj = keep obj
dispatch_by (some b) obj = check b obj

abbrev pub dispatch : CacheObject → Task
dispatch obj = dispatch_by (base_of obj) obj

-- What follows a lookup.
abbrev pub checked : Base → CacheObject → Option CacheObject → List Task
checked b obj none = wait b obj ∷ []
checked b obj (some base_obj) = rebuild obj base_obj ∷ []

abbrev pub rechecked : Option CacheObject → List Task
rechecked none = []
rechecked (some base_obj) = wake base_obj ∷ []

-- The end of a rebuild: the object goes on, or its error is the first.
abbrev pub rebuilt :
    {X : Type 0} → Shared X → Result (DecodeError X) CacheObject → List Task × Shared X
rebuilt s (ok new_obj) = (keep new_obj ∷ [], s)
rebuilt s (err e) = ([], record s { error = first_error s.error e })

-- The pool once the reader has sent off each object of the pack.
abbrev pub start : {X : Type 0} → List CacheObject → List Task × Shared X
start objs =
    (map dispatch objs, record { caches = []; waitlist = []; callbacks = []; error = none })

abbrev pub verify_known_hash :
    {X : Type 0} → ℕ → ObjectHash → Option ObjectHash → Result (DecodeError X) (Unit {0})
verify_known_hash offset computed none = ok tt
verify_known_hash offset computed (some expected) =
    if same_hash expected computed then ok tt else err (wrong_name offset computed expected)

module _ {X : Type 0} (d : Digests) (reserves : ℕ → ℕ → Bool)
    (zstd_apply : Bytes → Bytes → Option Bytes) where
  -- The content of the object by the kind of its delta.
  abbrev pub rebuilt_data : CacheObject → CacheObject → Result (DecodeError X) Bytes
  rebuilt_data delta_obj base_obj = elim delta_obj.info [
    | offset_zstdelta base size ↦
        ok_or (zstd_apply base_obj.data_decompressed delta_obj.data_decompressed) zstdelta_error
    | _ ↦
        map_err delta_object_error
          (delta_decode reserves delta_obj.data_decompressed base_obj.data_decompressed)
  ]

  -- `rebuild_delta_with_hash` and `rebuild_zstdelta_with_hash`.
  unfoldable pub rebuild_with_hash :
      CacheObject → CacheObject → Option ObjectHash → Result (DecodeError X) CacheObject
  rebuild_with_hash delta_obj base_obj known_hash = do
    result ← rebuilt_data delta_obj base_obj
    base_hash ← ok_or (base_object_hash base_obj) not_a_base
    t ← ok_or (object_type base_obj) not_a_base
    hash ← map_err invalid_hash_value (calculate_object_hash_for_kind d (kind base_hash) t result)
    _ ← verify_known_hash delta_obj.offset hash known_hash
    ok (record {
      info = base_object t hash;
      offset = delta_obj.offset;
      crc32 = delta_obj.crc32;
      data_decompressed = result;
      is_delta_in_pack = delta_obj.is_delta_in_pack;
      known_hash = none;
    })

  -- One access of a task: the tasks that follow it, and the shared state. The maps that one call reads or
  -- writes, of the cache or of the waitlist, are accessed together.
  unfoldable pub run_task : Task → Shared X → List Task × Shared X
  run_task (check b obj) s = (checked b obj (lookup b s.caches), s)
  run_task (wait b obj) s = (recheck b ∷ [], record s { waitlist = s.waitlist ++ (b, obj) ∷ [] })
  run_task (recheck b) s = (rechecked (lookup b s.caches), s)
  run_task (rebuild obj base_obj) s = rebuilt s (rebuild_with_hash obj base_obj obj.known_hash)
  run_task (keep obj) s =
      (wake obj ∷ [], record s { caches = obj ∷ s.caches; callbacks = s.callbacks ++ obj ∷ [] })
  run_task (wake base_obj) s = (
    map (λ obj. rebuild obj base_obj) (taken base_obj s.waitlist),
    record s { waitlist = left base_obj s.waitlist },
  )

  -- The pool with its tasks, and a step of any one of them.
  pub data Step : List Task × Shared X → List Task × Shared X → Type 0 where
    step :
        (front : List Task) (t : Task) (back : List Task) (s : Shared X)
        → Step (front ++ t ∷ back, s) (front ++ ((run_task t s).0 ++ back), (run_task t s).1)

  -- A number of steps.
  pub data Run : ℕ → List Task × Shared X → List Task × Shared X → Type 0 where
    stay : (p : List Task × Shared X) → Run 0 p p
    go : {n : ℕ} (p q r : List Task × Shared X) → Step p q → Run n q r → Run (1 + n) p r
