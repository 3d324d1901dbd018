-- ===== src/Delta/Decode/Stream.antt =====
-- A description of instruction streams, for the decoder of src/delta/decode/mod.rs.
use git_internal.Base.{
  ℕ, zero, suc, ◌+◌, ◌^◌, ◌≤◌, ◌<◌, Bool, true, false, ◌≡◌, ◌==◌, refl, arith, ◌∙◌, ap, ap₂, subst,
  append_assoc, append-nil, sym, [], ◌∷◌, ◌++◌, Bytes, ok, le→leb, length, take, drop,
  length-append, take-append, drop-append, length-take, length-drop,
}
use git_internal.Base.Tables.{top_bit}
use git_internal.Delta.Size.{write_size_encoding}
use git_internal.Delta.Size.RoundTrip.{read_size_encoding-write_size_encoding}
use git_internal.Delta.Copy.{copy_op}
use git_internal.Delta.Copy.Operands.{
  Operand, IsOperand, present, number, copied, instruction_of, instruction_of-top_bit,
  copy_operands-instruction_of,
}
use git_internal.Delta.Copy.RoundTrip.{
  written, written-IsOperand, copy_op-parts, number-written_four, number-written_three,
}
use git_internal.Delta.Decode.{
  read_exact, copy_range, prepare_result_append, run_instruction, decode_loop, delta_decode,
}

-- `Rebuilds base stream result`: the instructions of `stream` put together `result` from `base`.
-- A literal holds 1 to 127 bytes. A copy names a range of the base by an offset of four bytes and a
-- size of three, any of which may be left out, or be there and 0; the size 0 stands for 65536.
pub data Rebuilds (base : Bytes) : Bytes → Bytes → Type 0 where
  done : Rebuilds base [] []
  literal :
      {stream result : Bytes} (run : Bytes)
      → 0 < length run
      → length run < 128
      → Rebuilds base stream result
      → Rebuilds base (length run ∷ (run ++ stream)) (run ++ result)
  copy :
      {stream result : Bytes} (offset size : Operand)
      → IsOperand 4 offset
      → IsOperand 3 size
      → number offset + copied size ≤ length base
      → Rebuilds base stream result
      → Rebuilds base
          (instruction_of offset size ∷ (present offset ++ (present size ++ stream)))
          (take (copied size) (drop (number offset) base) ++ result)

-- Two streams one after the other rebuild the two results one after the other.
pub Rebuilds-append :
    {base s t r u : Bytes} → Rebuilds base s r → Rebuilds base t u → Rebuilds base (s ++ t) (r ++ u)
Rebuilds-append done q = q
Rebuilds-append {base} {t = t} {u = u} (literal {stream} {result} run lo hi p) q =
    rw (append_assoc run stream t, append_assoc run result u)
      (literal run lo hi (Rebuilds-append p q))
Rebuilds-append {base} {t = t} {u = u} (copy {stream} {result} offset size h1 h2 h3 p) q =
    rw
      (
        append_assoc (present offset) (present size ++ stream) t,
        append_assoc (present size) stream t,
        append_assoc (take (copied size) (drop (number offset) base)) result u,
      )
      (copy offset size h1 h2 h3 (Rebuilds-append p q))

-- One instruction alone.
pub Rebuilds-literal :
    (base run : Bytes) → 0 < length run → length run < 128 → Rebuilds base (length run ∷ run) run
Rebuilds-literal base run lo hi =
    let one : Rebuilds base (length run ∷ (run ++ [])) (run ++ []) = literal run lo hi done in
    simp append-nil at one

Rebuilds-alone :
    (base : Bytes) (offset size : Operand)
    → IsOperand 4 offset
    → IsOperand 3 size
    → number offset + copied size ≤ length base
    → Rebuilds base
        (instruction_of offset size ∷ (present offset ++ present size))
        (take (copied size) (drop (number offset) base))
Rebuilds-alone base offset size ho hs fits =
    let one : Rebuilds base (instruction_of offset size ∷ (present offset ++ (present size ++ [])))
        (take (copied size) (drop (number offset) base) ++ []) =
      copy offset size ho hs fits done in
    simp append-nil at one

pub Rebuilds-copy :
    (base : Bytes) (offset size : ℕ)
    → 0 < size
    → size < 2 ^ 24
    → offset < 2 ^ 32
    → offset + size ≤ length base
    → Rebuilds base (copy_op offset size) (take size (drop offset base))
Rebuilds-copy base offset size h1 h2 h3 h4 =
    let o = written 4 offset in
    let s = written 3 size in
    let place : number o ≡ offset = number-written_four offset ∙ omega arith in
    let amount : number s ≡ size = number-written_three size ∙ omega arith in
    let some_size : (size == 0) ≡ false = ground (arith, h1) in
    let all : copied s ≡ size = rw (amount, some_size) refl in
    let alone =
      Rebuilds-alone base o s (written-IsOperand 4 offset) (written-IsOperand 3 size)
        (omega (arith, h4, place, all)) in
    let same : take (copied s) (drop (number o) base) ≡ take size (drop offset base) =
      ap₂ (λ (m n : ℕ). take n (drop m base)) place all in
    let instruction : Bytes = instruction_of o s ∷ (present o ++ present s) in
    rw copy_op-parts (subst (Rebuilds base instruction) same alone)

pub read_exact-append :
    (run stream : Bytes) → read_exact (length run) (run ++ stream) ≡ ok (run, stream)
unfolding read_exact
read_exact-append run stream = rw (
  le→leb (length run) (length (run ++ stream)) (omega (arith, length-append run stream)),
  take-append,
  drop-append,
)

pub length-slice :
    (base : Bytes) (offset size : ℕ)
    → offset + size ≤ length base
    → length (take size (drop offset base)) ≡ size
length-slice base offset size h =
    omega (arith, length-take size (drop offset base), length-drop offset base)

-- The allocator gives every buffer that the declared size allows.
abbrev pub Allocates : (ℕ → ℕ → Bool) → ℕ → Type 0
Allocates reserves result_size = (n k : ℕ) → n + k ≤ result_size → reserves n k ≡ true

module _ (reserves : ℕ → ℕ → Bool) (base : Bytes) (result_size : ℕ)
    (alloc : Allocates reserves result_size) (word : result_size < 2 ^ 64) where
  copy_range-fits :
      (offset size : ℕ)
      → offset + size ≤ length base
      → length base < 2 ^ 64
      → copy_range base offset size ≡ ok (take size (drop offset base))
  unfolding copy_range
  copy_range-fits offset size h hb = ground arith

  prepare_result_append-fits :
      (buffer : Bytes) (k : ℕ)
      → length buffer + k ≤ result_size
      → prepare_result_append reserves buffer k result_size ≡ ok tt
  unfolding prepare_result_append
  prepare_result_append-fits buffer k h = ground (arith, alloc (length buffer) k h)

  run_instruction-literal :
      (buffer run stream : Bytes)
      → 0 < length run
      → length run < 128
      → length buffer + length run ≤ result_size
      → run_instruction reserves base result_size buffer (length run) (run ++ stream)
        ≡ ok (buffer ++ run, stream)
  unfolding run_instruction
  run_instruction-literal buffer run stream lo hi fits = ground (
    arith,
    top_bit (length run),
    read_exact-append run stream,
    prepare_result_append-fits buffer (length run),
  )

  run_instruction-copy :
      (buffer stream : Bytes) (offset size : Operand)
      → IsOperand 4 offset
      → IsOperand 3 size
      → number offset + copied size ≤ length base
      → length base < 2 ^ 64
      → length buffer + copied size ≤ result_size
      → run_instruction reserves base result_size buffer
          (instruction_of offset size)
          (present offset ++ (present size ++ stream))
        ≡ ok (buffer ++ take (copied size) (drop (number offset) base), stream)
  unfolding run_instruction
  run_instruction-copy buffer stream offset size ho hs h4 h5 fits =
      let (top, byte) = instruction_of-top_bit offset size ho hs in
      rw (copy_operands-instruction_of offset size stream ho hs) (
        ground (
          arith,
          top,
          top_bit (instruction_of offset size) byte,
          copy_range-fits (number offset) (copied size) h4 h5,
          length-slice base (number offset) (copied size) h4,
          prepare_result_append-fits buffer (copied size) fits,
        ))

  decode_loop-Rebuilds :
      (fuel : ℕ) (buffer : Bytes) {stream result : Bytes}
      → length base < 2 ^ 64
      → Rebuilds base stream result
      → length stream ≤ fuel
      → length buffer + length result ≤ result_size
      → decode_loop reserves fuel base result_size buffer stream ≡ ok (buffer ++ result)
  unfolding decode_loop
  decode_loop-Rebuilds fuel buffer hb done hf fits = ap ok (sym (append-nil buffer))
  decode_loop-Rebuilds zero buffer hb (literal run lo hi p) hf fits = absurd (omega arith)
  decode_loop-Rebuilds (suc fuel) buffer hb (literal {stream} {result} run lo hi p) hf fits =
      rw (run_instruction-literal buffer run stream lo hi (omega (arith, length-append run result)))
        (decode_loop-Rebuilds fuel (buffer ++ run) hb p (omega (arith, length-append run stream))
            (omega (arith, length-append run result, length-append buffer run))
          ∙ ap ok (append_assoc buffer run result))
  decode_loop-Rebuilds zero buffer hb (copy {stream} {result} offset size h1 h2 h3 p) hf fits =
      absurd (omega arith)
  decode_loop-Rebuilds (suc fuel) buffer hb (copy {stream} {result} offset size h1 h2 h3 p) hf
        fits =
      let range = take (copied size) (drop (number offset) base) in
      let sized = length-slice base (number offset) (copied size) h3 in
      let whole = length-append range result in
      rw
        (run_instruction-copy buffer stream offset size h1 h2 h3 hb
          (omega (arith, whole, sized, fits)))
        (decode_loop-Rebuilds fuel (buffer ++ range) hb p
            (omega (
              arith,
              hf,
              length-append (present offset) (present size ++ stream),
              length-append (present size) stream,
            ))
            (omega (arith, whole, length-append buffer range))
          ∙ ap ok (append_assoc buffer range result))

-- A stream of valid instructions that put together a target from a base is decoded to the target,
-- behind a header with the two sizes: literals of 1 to 127 bytes, and copies of ranges of the base,
-- whichever of their operand bytes are left out or are 0, where the size 0 copies 65536 bytes. The
-- sizes are below 2^64, and the allocator gives what the target's size allows. No check of the
-- decoder fails on such a stream, and its loop ends by the end of the stream.
pub delta_decode-Rebuilds :
    (reserves : ℕ → ℕ → Bool) (base target stream : Bytes)
    → length base < 2 ^ 64
    → length target < 2 ^ 64
    → Allocates reserves (length target)
    → Rebuilds base stream target
    → delta_decode reserves
        (write_size_encoding (length base) ++ (write_size_encoding (length target) ++ stream))
        base
      ≡ ok target
unfolding delta_decode
delta_decode-Rebuilds reserves base target stream hb ht alloc p =
    rw (read_size_encoding-write_size_encoding (length base) _ hb) (
      rw
        (
          read_size_encoding-write_size_encoding (length target) stream ht,
          decode_loop-Rebuilds reserves base (length target) alloc ht (length stream) [] hb p
              (omega arith) (omega arith),
        )
        (ground arith))
