-- ===== src/Hash/Stream/Whole.antt =====
-- An identifier that a stream begins with, as `from_stream_for_kind` of src/hash.rs reads it.
use git_internal.Base.{
  ◌<◌, [], ◌∷◌, ◌++◌, ◌==◌, Bytes, length, drop, false, ok, ◌≡◌, sym, ap, ◌∙◌, arith, append_assoc,
  length-append, drop-append,
}
use git_internal.Hash.{HashKind, ObjectHash, size, as_ref, variant}
use git_internal.Hash.Kinds.{OfKind, variant-kind}
use git_internal.Hash.Stream.{chunk, from_stream_for_kind, delivered, failure}
use git_internal.Hash.Stream.Chunks.{from_stream_for_kind-whole_read, whole_read, whole_read_full}

size_pos : (k : HashKind) → 0 < size k
size_pos HashKind.sha1 = omega arith
size_pos HashKind.sha256 = omega arith
size_pos HashKind.blake3 = omega arith

pub length-OfKind : (k : HashKind) (h : ObjectHash) → OfKind k h → length (as_ref h) ≡ size k
length-OfKind k h typed = typed.well_formed.sized ∙ ap size typed.of_kind

module _ {X : Type 0} where
  pub from_stream_for_kind-OfKind :
      (k : HashKind) (h : ObjectHash) (rest : Bytes)
      → OfKind k h
      → (from_stream_for_kind {X = X} k (chunk (as_ref h ++ rest) ∷ [])).0 ≡ ok h
  from_stream_for_kind-OfKind k h rest typed =
      let long = length-OfKind k h typed in
      let nonempty : (length (as_ref h ++ rest) == 0) ≡ false =
        ground (arith, long, size_pos k, length-append (as_ref h) rest) in
      let file = chunk (as_ref h ++ rest) ∷ [] in
      let all : delivered file ≡ as_ref h ++ (rest ++ []) =
        rw nonempty (append_assoc (as_ref h) rest []) in
      from_stream_for_kind-whole_read k file
      ∙ ap (λ b. whole_read k b (failure file)) all
      ∙ whole_read_full X k (as_ref h) (rest ++ []) (failure file) long
      ∙ ap ok (ap (λ j. variant j (as_ref h)) (sym typed.of_kind) ∙ variant-kind h)

pub drop-OfKind :
    (k : HashKind) (h : ObjectHash) (rest : Bytes)
    → OfKind k h
    → drop (size k) (as_ref h ++ rest) ≡ rest
drop-OfKind k h rest typed =
    ap (λ n. drop n (as_ref h ++ rest)) (sym (length-OfKind k h typed))
    ∙ drop-append (as_ref h) rest
