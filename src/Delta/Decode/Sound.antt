-- ===== src/Delta/Decode/Sound.antt =====
-- `delta_decode` of src/delta/decode/mod.rs on any input.
use git_internal.Base.{
  ℕ, zero, suc, ◌≤◌, Bool, true, false, not, [], ◌∷◌, ◌++◌, Bytes, Result, ok, err, ◌>>=◌, ◌>>◌,
  map_err, leb, ◌==◌, if◌then◌else◌, length, drop, bit_and, ◌≡◌, ◌≢◌, refl, arith, ap, sym, ◌∙◌,
  subst, ==→eq, if_elim, >>=-eq-ok, length-drop,
}
use git_internal.Delta.Size.{IoError, read_size_encoding}
use git_internal.Delta.Copy.{copy_operands}
use git_internal.Delta.Copy.Shrink.{copy_operands-shrinks}
use git_internal.Delta.Decode.{
  DeltaError, io, out_of_fuel, base_len, result_len, copy_instruction_flag, delta_decode,
  decode_loop, run_instruction, read_exact, copy_range, prepare_result_append,
}

-- A read of the program's that went well, under the decoder's error.
map_err-eq-ok : {A : Type 0} (r : Result IoError A) {a : A} → map_err io r ≡ ok a → r ≡ ok a
map_err-eq-ok (ok b) e = cc
map_err-eq-ok (err x) e = cc

guard-eq-ok :
    {A : Type 0} (b : Bool) (x : DeltaError) {r : Result DeltaError A} {a : A}
    → (if not b then err x else r) ≡ ok a
    → (b ≡ true) × (r ≡ ok a)
guard-eq-ok true x e = (refl, e)
guard-eq-ok false x e = cc

-- A delta that decodes to `result` begins with the size of the base and the size of `result`, as
-- the size encoding reads them.
pub delta_decode-sizes :
    (reserves : ℕ → ℕ → Bool) (stream base result : Bytes)
    → delta_decode reserves stream base ≡ ok result
    → (rest rest' : Bytes) × (read_size_encoding stream ≡ ok (length base, rest))
      × (read_size_encoding rest ≡ ok (length result, rest'))
unfolding delta_decode
delta_decode-sizes reserves stream base result e =
    let ((base_size, rest), first, e1) = >>=-eq-ok (map_err io (read_size_encoding stream)) _ e in
    let (same_base, e2) = guard-eq-ok (length base == base_size) base_len e1 in
    let ((result_size, rest'), second, e3) =
      >>=-eq-ok (map_err io (read_size_encoding rest)) _ e2 in
    let (buffer, run, e4) =
      >>=-eq-ok (decode_loop reserves (length rest') base result_size [] rest') _ e3 in
    let (same_result, e5) = guard-eq-ok (length buffer == result_size) result_len e4 in
    let same : buffer ≡ result = cc in
    let base_is : base_size ≡ length base = sym (==→eq (length base) base_size same_base) in
    let result_is : result_size ≡ length result =
      sym (==→eq (length buffer) result_size same_result) ∙ ap length same in
    (
      rest,
      rest',
      subst (λ k. read_size_encoding stream ≡ ok (k, rest)) base_is
          (map_err-eq-ok (read_size_encoding stream) first),
      subst (λ k. read_size_encoding rest ≡ ok (k, rest')) result_is
          (map_err-eq-ok (read_size_encoding rest) second),
    )

-- The result is none that stands for an exhausted loop.
abbrev pub Ends : {A : Type 0} → Result DeltaError A → Type 0
Ends r = r ≢ err out_of_fuel

Ends->>= :
    {A B : Type 0} (m : Result DeltaError A) (f : A → Result DeltaError B)
    → Ends m
    → ((a : A) → m ≡ ok a → Ends (f a))
    → Ends (m >>= f)
Ends->>= (ok a) f h k = k a refl
Ends->>= (err x) f h k = λ e. h cc

Ends-map_err : {A : Type 0} (r : Result IoError A) → Ends (map_err io r)
Ends-map_err (ok a) = λ e. cc
Ends-map_err (err x) = λ e. cc

copy_range-Ends : (base : Bytes) (offset size : ℕ) → Ends (copy_range base offset size)
unfolding copy_range
copy_range-Ends base offset size = ground arith

read_exact_rest :
    (n : ℕ) (stream : Bytes) (got rest : Bytes)
    → read_exact n stream ≡ ok (got, rest)
    → length rest ≤ length stream
unfolding read_exact
read_exact_rest n stream got rest =
    if_elim (λ r. r ≡ ok (got, rest) → length rest ≤ length stream) (leb n (length stream))
      (λ fits e.
        let same : drop n stream ≡ rest = cc in omega (arith, length-drop n stream, ap length same))
      (λ short e. cc)

module _ (reserves : ℕ → ℕ → Bool) (base : Bytes) (result_size : ℕ) where
  prepare_result_append-Ends :
      (buffer : Bytes) (n : ℕ) → Ends (prepare_result_append reserves buffer n result_size)
  unfolding prepare_result_append
  prepare_result_append-Ends buffer n = ground arith

  append-Ends :
      (buffer more stream : Bytes)
      → Ends {A = Bytes × Bytes} (
          prepare_result_append reserves buffer (length more) result_size
          >> ok (buffer ++ more, stream))
  append-Ends buffer more stream =
      Ends->>= (prepare_result_append reserves buffer (length more) result_size) _
        (prepare_result_append-Ends buffer (length more)) (λ _ _ e. cc)

  run_instruction-Ends :
      (buffer : Bytes) (instruction : ℕ) (stream : Bytes)
      → Ends (run_instruction reserves base result_size buffer instruction stream)
  unfolding run_instruction
  run_instruction-Ends buffer instruction stream =
      if_elim Ends (bit_and instruction copy_instruction_flag == 0)
        (λ _.
          if_elim Ends (instruction == 0) (λ _ e. cc)
            (λ _.
              Ends->>= (map_err io (read_exact instruction stream)) _
                (Ends-map_err (read_exact instruction stream)) (λ a _. append-Ends buffer a.0 a.1)))
        (λ _.
          Ends->>= (map_err io (copy_operands instruction stream)) _
            (Ends-map_err (copy_operands instruction stream))
            (λ a _.
              Ends->>= (copy_range base a.0 a.1) _ (copy_range-Ends base a.0 a.1)
                (λ piece _. append-Ends buffer piece a.2)))

  append_rest :
      (buffer more stream : Bytes) {next : Bytes × Bytes}
      → prepare_result_append reserves buffer (length more) result_size
          >> ok (buffer ++ more, stream)
        ≡ ok next
      → next.1 ≡ stream
  append_rest buffer more stream e =
      let (u, _, last) =
        >>=-eq-ok (prepare_result_append reserves buffer (length more) result_size) _ e in
      cc

  -- An instruction leaves no more of the stream than there was.
  run_instruction-shrinks :
      (buffer : Bytes) (instruction : ℕ) (stream : Bytes) (next : Bytes × Bytes)
      → run_instruction reserves base result_size buffer instruction stream ≡ ok next
      → length next.1 ≤ length stream
  unfolding run_instruction
  run_instruction-shrinks buffer instruction stream next =
      if_elim (λ r. r ≡ ok next → length next.1 ≤ length stream)
        (bit_and instruction copy_instruction_flag == 0)
        (λ _.
          if_elim (λ r. r ≡ ok next → length next.1 ≤ length stream) (instruction == 0) (λ _ e. cc)
            (λ _ e.
              let ((got, rest), read, e') =
                >>=-eq-ok (map_err io (read_exact instruction stream)) _ e in
              omega (
                arith,
                read_exact_rest instruction stream got rest
                    (map_err-eq-ok (read_exact instruction stream) read),
                ap length (append_rest buffer got rest e'),
              )))
        (λ _ e.
          let ((offset, size, rest), read, e') =
            >>=-eq-ok (map_err io (copy_operands instruction stream)) _ e in
          let (piece, _, e'') = >>=-eq-ok (copy_range base offset size) _ e' in
          omega (
            arith,
            copy_operands-shrinks instruction stream offset size rest
                (map_err-eq-ok (copy_operands instruction stream) read),
            ap length (append_rest buffer piece rest e''),
          ))

  decode_loop-Ends :
      (fuel : ℕ) (buffer stream : Bytes)
      → length stream ≤ fuel
      → Ends (decode_loop reserves fuel base result_size buffer stream)
  unfolding decode_loop
  decode_loop-Ends fuel buffer [] h = λ e. cc
  decode_loop-Ends zero buffer (instruction ∷ stream) h = absurd (omega arith)
  decode_loop-Ends (suc fuel) buffer (instruction ∷ stream) h =
      Ends->>= (run_instruction reserves base result_size buffer instruction stream) _
        (run_instruction-Ends buffer instruction stream)
        (λ next e.
          decode_loop-Ends fuel next.0 next.1
            (omega (arith, run_instruction-shrinks buffer instruction stream next e)))

-- The decoder ends on every input, with a result or an error of the program's own: its loop never
-- needs more rounds than the stream has bytes.
pub delta_decode-Ends :
    (reserves : ℕ → ℕ → Bool) (stream base : Bytes) → Ends (delta_decode reserves stream base)
unfolding delta_decode
delta_decode-Ends reserves stream base =
    Ends->>= (map_err io (read_size_encoding stream)) _ (Ends-map_err (read_size_encoding stream))
      (λ a _.
        if_elim Ends (not (length base == a.0)) (λ _ e. cc)
          (λ _.
            Ends->>= (map_err io (read_size_encoding a.1)) _ (Ends-map_err (read_size_encoding a.1))
              (λ b _.
                Ends->>= (decode_loop reserves (length b.1) base b.0 [] b.1) _
                  (decode_loop-Ends reserves base b.0 (length b.1) [] b.1 (omega arith))
                  (λ buffer _. if_elim Ends (not (length buffer == b.0)) (λ _ e. cc) (λ _ e. cc)))))
