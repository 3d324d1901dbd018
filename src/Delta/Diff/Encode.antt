-- ===== src/Delta/Diff/Encode.antt =====
-- The operations that the events leave, and the delta that they encode to.
use git_internal.Base.{
  ℕ, ◌+◌, ◌%◌, ◌^◌, ◌≤◌, ◌<◌, bit_and, List, [], ◌∷◌, ◌++◌, Bytes, some, length, take, drop, last?,
  set_last, last?-split, drop-add, All, All-append, All-left, ◌≡◌, refl, sym, ◌∙◌, arith,
  append-nil, append_assoc, take-add,
}
use git_internal.Base.Bits.{mask_seven}
use git_internal.Delta.Decode.Stream.{
  length-slice, Rebuilds-literal, Rebuilds-copy, Rebuilds, done, Rebuilds-append,
}
use git_internal.Delta.Diff.{Optype, data_ins, copy_ins, DeltaOp, encode_ins, encode_op, encode_ops}

module _ (old_data new_data : Bytes) where
  -- What one operation adds to the result.
  abbrev pub bytes_of : Optype → ℕ → ℕ → Bytes
  bytes_of data_ins begin len = take len (drop begin new_data)
  bytes_of copy_ins begin len = take len (drop begin old_data)

  abbrev pub result : List DeltaOp → Bytes
  result [] = []
  result (op ∷ ops) = bytes_of op.ins op.begin op.len ++ result ops

  abbrev pub InRange : Optype → ℕ → ℕ → Type 0
  InRange data_ins begin len = (0 < len) × (len < 128) × (begin + len ≤ length new_data)
  InRange copy_ins begin len = (0 < len) × (begin + len ≤ length old_data)

  abbrev pub IsValid : DeltaOp → Type 0
  IsValid op = InRange op.ins op.begin op.len

  result-append : (xs ys : List DeltaOp) → result (xs ++ ys) ≡ result xs ++ result ys
  result-append [] ys = refl
  result-append (x ∷ xs) ys = rw (result-append xs ys, append_assoc)

  encode_op-Rebuilds :
      (ins : Optype) (begin len : ℕ)
      → length old_data < 2 ^ 24
      → InRange ins begin len
      → Rebuilds old_data (encode_ins ins new_data begin len) (bytes_of ins begin len)
  unfolding encode_ins
  encode_op-Rebuilds data_ins begin len h (lo, hi, fits) =
      let run = take len (drop begin new_data) in
      let whole : length run ≡ len = length-slice new_data begin len fits in
      let byte : bit_and len 0x7f % 256 ≡ length run = omega (arith, mask_seven len) in
      rw byte (Rebuilds-literal old_data run (omega arith) (omega arith))
  encode_op-Rebuilds copy_ins begin len h (lo, fits) =
      Rebuilds-copy old_data begin len lo (omega arith) (omega arith) fits

  pub encode_ops-Rebuilds :
      (ops : List DeltaOp)
      → length old_data < 2 ^ 24
      → All IsValid ops
      → Rebuilds old_data (encode_ops new_data ops) (result ops)
  unfolding encode_ops encode_op
  encode_ops-Rebuilds [] h v = done
  encode_ops-Rebuilds (op ∷ ops) h (v, vs) =
      Rebuilds-append (encode_op-Rebuilds op.ins op.begin op.len h v) (encode_ops-Rebuilds ops h vs)

  -- The operations so far are in range, and make up the first `j` bytes of the new data.
  pub record Covers (ops : List DeltaOp) (j : ℕ) : Type 0 where
    pub valid : All IsValid ops
    pub covers : result ops ≡ take j new_data

  -- One more operation behind the others.
  pub Covers-push :
      {ops : List DeltaOp} {j : ℕ} (op : DeltaOp)
      → Covers ops j
      → IsValid op
      → bytes_of op.ins op.begin op.len ≡ take op.len (drop j new_data)
      → Covers (ops ++ op ∷ []) (j + op.len)
  Covers-push {ops} {j} op c v e = record {
    valid = All-append IsValid ops (op ∷ []) c.valid (v, tt);
    covers =
        result-append ops (op ∷ [])
        ∙ rw (c.covers, append-nil, e) (sym (take-add j op.len (j + op.len) new_data refl));
  }

  bytes_of-grow :
      (ins : Optype) (begin len k : ℕ)
      → bytes_of ins begin (len + k) ≡ bytes_of ins begin len ++ bytes_of ins (begin + len) k
  bytes_of-grow data_ins begin len k =
      rw (drop-add begin len (begin + len) new_data refl)
        (take-add len k (len + k) (drop begin new_data) refl)
  bytes_of-grow copy_ins begin len k =
      rw (drop-add begin len (begin + len) old_data refl)
        (take-add len k (len + k) (drop begin old_data) refl)

  -- The last operation grown by `k` bytes.
  pub Covers-grow :
      {ops : List DeltaOp} {j : ℕ} {tail : DeltaOp} (k : ℕ)
      → last? ops ≡ some tail
      → Covers ops j
      → InRange tail.ins tail.begin (tail.len + k)
      → bytes_of tail.ins (tail.begin + tail.len) k ≡ take k (drop j new_data)
      → Covers (set_last ops (record tail { len = tail.len + k })) (j + k)
  Covers-grow {ops} {j} {tail} k l c v e =
      let (front, split, keep) = last?-split ops l in
      let grown : DeltaOp = record tail { len = tail.len + k } in
      let old_valid : All IsValid (front ++ tail ∷ []) = rw split at c.valid in
      let old_covers : result front ++ bytes_of tail.ins tail.begin tail.len ≡ take j new_data =
        let same : result (front ++ tail ∷ []) ≡ take j new_data = rw split at c.covers in
        simp (result-append, append-nil) at same in
      record {
        valid = rw keep (
            All-append IsValid front (grown ∷ []) (All-left IsValid front (tail ∷ []) old_valid)
              (v, tt));
        covers =
            rw (keep, result-append)
              (simp (append-nil, bytes_of-grow, ← append_assoc, old_covers, e)
                (sym (take-add j k (j + k) new_data refl)));
      }
