-- ===== src/Delta/Diff/Script.antt =====
-- The calls that a diff makes, and the round trip through the decoder.
use git_internal.Base.{
  ℕ, zero, suc, ◌+◌, ◌-◌, ◌^◌, ◌≤◌, ◌<◌, Bool, true, ◌&&◌, List, [], ◌∷◌, ◌++◌, Bytes, ok, Option,
  none, some, ltb, ltb→lt, ◌==◌, length, take, drop, last?, ◌≡◌, refl, subst, ◌∙◌, arith,
  Bool-cases, inl, inr, take_all,
}
use git_internal.Delta.Decode.{delta_decode}
use git_internal.Delta.Decode.Stream.{Rebuilds, delta_decode-Rebuilds, Allocates}
use git_internal.Delta.Diff.{
  Optype, data_ins, copy_ins, is_copy, is_data, DeltaOp, DeltaDiff, copied, inserted, data_ins_len,
  push_equal, equal, push_chunks, push_insert, insert, Event, equal_at, insert_at, delete_at,
  handle, handle_all, new, encode,
}
use git_internal.Delta.Diff.Encode.{Covers, Covers-push, Covers-grow, encode_ops-Rebuilds}

-- What a diff of `old` and `new` reports from the positions `i` and `j` on: it walks both to the
-- end of `new`, and what it calls equal is equal.
pub data Script (old new : Bytes) : ℕ → ℕ → List Event → Type 0 where
  finished : {i j : ℕ} → j ≡ length new → Script old new i j []
  equal_step :
      {i j : ℕ} {es : List Event} (len : ℕ)
      → 0 < len
      → i + len ≤ length old
      → take len (drop i old) ≡ take len (drop j new)
      → Script old new (i + len) (j + len) es
      → Script old new i j (equal_at i j len ∷ es)
  insert_step :
      {i j : ℕ} {es : List Event} (len : ℕ)
      → 0 < len
      → j + len ≤ length new
      → Script old new i (j + len) es
      → Script old new i j (insert_at i j len ∷ es)
  delete_step :
      {i j : ℕ} {es : List Event} (len : ℕ)
      → Script old new (i + len) j es
      → Script old new i j (delete_at i len ∷ es)

is_copy→eq : (o : Optype) → is_copy o ≡ true → o ≡ copy_ins
is_copy→eq copy_ins h = refl
is_copy→eq data_ins h = cc

is_data→eq : (o : Optype) → is_data o ≡ true → o ≡ data_ins
is_data→eq data_ins h = refl
is_data→eq copy_ins h = cc

module _ (old_data new_data : Bytes) where
  push_equal-Covers :
      (t : Option DeltaOp) (ops : List DeltaOp) (i j len : ℕ)
      → last? ops ≡ t
      → Covers old_data new_data ops j
      → 0 < len
      → i + len ≤ length old_data
      → take len (drop i old_data) ≡ take len (drop j new_data)
      → Covers old_data new_data (push_equal t ops i len) (j + len)
  unfolding push_equal
  push_equal-Covers none ops i j len l c lo fits e =
      Covers-push old_data new_data (copied i len) c (lo, fits) e
  push_equal-Covers (some tail) ops i j len l c lo fits e =
      elim (Bool-cases (tail.begin + tail.len == i && is_copy tail.ins)) [
        | inl both ↦ rw both (
            let kind : tail.ins ≡ copy_ins = is_copy→eq tail.ins (ground arith) in
            let next : tail.begin + tail.len ≡ i = ground arith in
            Covers-grow old_data new_data len l c (rw kind (omega arith)) (rw (kind, next) e))
        | inr neither ↦ rw neither (Covers-push old_data new_data (copied i len) c (lo, fits) e)
      ]

  push_chunks-Covers :
      (fuel : ℕ) (ops : List DeltaOp) (j len : ℕ)
      → len < fuel
      → Covers old_data new_data ops j
      → 0 < len
      → j + len ≤ length new_data
      → Covers old_data new_data (push_chunks fuel ops j len) (j + len)
  unfolding push_chunks
  push_chunks-Covers zero ops j len hf c lo fits = absurd (omega arith)
  push_chunks-Covers (suc fuel) ops j len hf c lo fits = elim (Bool-cases (ltb data_ins_len len)) [
    | inl more ↦ rw more (
        let long : 127 < len = ltb→lt 127 len more in
        subst
          (Covers old_data new_data
            (push_chunks fuel (ops ++ inserted j 127 ∷ []) (j + 127) (len - 127)))
          (omega arith)
          (push_chunks-Covers fuel (ops ++ inserted j 127 ∷ []) (j + 127) (len - 127) (omega arith)
            (Covers-push old_data new_data (inserted j 127) c (omega arith) refl) (omega arith)
            (omega arith)))
    | inr last ↦ rw last (Covers-push old_data new_data (inserted j len) c (ground arith) refl)
  ]

  push_insert-Covers :
      (t : Option DeltaOp) (ops : List DeltaOp) (j len : ℕ)
      → last? ops ≡ t
      → Covers old_data new_data ops j
      → 0 < len
      → len < 128
      → j + len ≤ length new_data
      → Covers old_data new_data (push_insert t ops j len) (j + len)
  unfolding push_insert
  push_insert-Covers none ops j len l c lo hi fits =
      Covers-push old_data new_data (inserted j len) c (lo, hi, fits) refl
  push_insert-Covers (some tail) ops j len l c lo hi fits =
      elim (Bool-cases
        (tail.begin + tail.len == j && (is_data tail.ins && ltb (tail.len + len) data_ins_len))) [
          | inl all ↦ rw all (
              let kind : tail.ins ≡ data_ins = is_data→eq tail.ins (ground arith) in
              let next : tail.begin + tail.len ≡ j = ground arith in
              let short : tail.len + len < 127 = ground arith in
              Covers-grow old_data new_data len l c (rw kind (omega arith)) (rw (kind, next)))
          | inr some_fails ↦
              rw some_fails (Covers-push old_data new_data (inserted j len) c (lo, hi, fits) refl)
        ]

  -- `equal` and `insert` keep what they are given, and cover the bytes that they are called for.
  insert-Covers :
      (d : DeltaDiff) (i j len : ℕ)
      → Covers old_data new_data d.ops j
      → 0 < len
      → j + len ≤ length new_data
      → Covers old_data new_data (insert d i j len).ops (j + len)
  unfolding insert
  insert-Covers d i j len c lo fits = elim (Bool-cases (ltb data_ins_len len)) [
    | inl long ↦ rw long (push_chunks-Covers (suc len) d.ops j len (omega arith) c lo fits)
    | inr short ↦
        rw short (push_insert-Covers (last? d.ops) d.ops j len refl c lo (ground arith) fits)
  ]

  handle_all-Covers :
      {i j : ℕ} {es : List Event} (d : DeltaDiff)
      → Script old_data new_data i j es
      → Covers old_data new_data d.ops j
      → Covers old_data new_data (handle_all d es).ops (length new_data)
  unfolding handle_all handle
  handle_all-Covers d (finished e) c = subst (Covers old_data new_data d.ops) e c
  handle_all-Covers d (equal_step {i} {j} len lo fits e s) c =
      handle_all-Covers (equal d i j len) s
        (unfold equal in push_equal-Covers (last? d.ops) d.ops i j len refl c lo fits e)
  handle_all-Covers d (insert_step {i} {j} len lo fits s) c =
      handle_all-Covers (insert d i j len) s (insert-Covers d i j len c lo fits)
  handle_all-Covers d (delete_step len s) c = handle_all-Covers d s c

  handle_all_keeps :
      (d : DeltaDiff) (es : List Event)
      → ((handle_all d es).old_data ≡ d.old_data) × ((handle_all d es).new_data ≡ d.new_data)
  unfolding handle_all handle equal insert
  handle_all_keeps d [] = (refl, refl)
  handle_all_keeps d (equal_at i j len ∷ es) = handle_all_keeps (equal d i j len) es
  handle_all_keeps d (insert_at i j len ∷ es) = handle_all_keeps (insert d i j len) es
  handle_all_keeps d (delete_at i len ∷ es) = handle_all_keeps d es

-- Decoding the delta that `DeltaDiff` encodes gives back the new data, whatever diff the crate
-- found, for an old object below 16 MiB and a decoder that can allocate the result.
pub delta_decode-encode :
    (reserves : ℕ → ℕ → Bool) (old_data new_data : Bytes) (es : List Event)
    → length old_data < 2 ^ 24
    → length new_data < 2 ^ 64
    → Allocates reserves (length new_data)
    → Script old_data new_data 0 0 es
    → delta_decode reserves (encode (new old_data new_data es)) old_data ≡ ok new_data
unfolding encode new
delta_decode-encode reserves old_data new_data es ho hn alloc s =
    let start : DeltaDiff = record {
      ops = [];
      old_data = old_data;
      new_data = new_data;
      ssam = 0;
    } in
    let keeps = handle_all_keeps old_data new_data start es in
    let c = handle_all-Covers old_data new_data start s (record { valid = tt; covers = refl }) in
    rw (keeps.0, keeps.1)
      (delta_decode-Rebuilds reserves old_data new_data _ (omega arith) hn alloc (
        subst (Rebuilds old_data _) (c.covers ∙ take_all (length new_data) new_data (omega arith))
          (encode_ops-Rebuilds old_data new_data _ ho c.valid)))
