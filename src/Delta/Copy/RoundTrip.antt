-- ===== src/Delta/Copy/RoundTrip.antt =====
-- Copy instructions of src/delta, written and read.
use git_internal.Base.{
  ℕ, zero, suc, ◌+◌, ◌*◌, ◌/◌, ◌%◌, ◌^◌, ◌≤◌, ◌<◌, [], ◌∷◌, ◌++◌, Bytes, Option, none, some, ok,
  ◌==◌, if◌then◌else◌, length, ◌≡◌, refl, arith, ◌∙◌, ap, append-nil, append_assoc, Bool-cases, inl,
  inr, ==_iff,
}
use git_internal.Base.Bits.{mask_eight, two_pow_add_one}
use git_internal.Base.Tables.{set_flag}
use git_internal.Delta.Copy.{copy_operands, put_operand, copy_op, push_copy_op}
use git_internal.Delta.Copy.Operands.{
  Operand, IsOperand, digit, flags, present, number, copied, instruction_of, flags-lt,
  instruction_of-top_bit, copy_operands-instruction_of,
}

-- The bytes that are written of a number: those of its lowest `n` that are not 0.
abbrev pub written_byte : ℕ → Option ℕ
written_byte b = if b == 0 then none else some b

abbrev pub written : ℕ → ℕ → Operand
written zero v = []
written (suc n) v = written_byte (v % 256) ∷ written n (v / 256)

digit-written_byte : (b : ℕ) → digit (written_byte b) ≡ b
digit-written_byte b = elim (Bool-cases (b == 0)) [
  | inl z ↦ rw z (omega (arith, (==_iff b 0).0 z))
  | inr nz ↦ rw nz refl
]

pub written-IsOperand : (n v : ℕ) → IsOperand n (written n v)
written-IsOperand zero v = record { sized = refl; bytes = tt }
written-IsOperand (suc n) v =
    let rest = written-IsOperand n (v / 256) in
    let here = digit-written_byte (v % 256) in
    record { sized = ap suc rest.sized; bytes = (omega (arith, here), rest.bytes) }

pub number-written_four : (v : ℕ) → number (written 4 v) ≡ v % 2 ^ 32
number-written_four v = omega (
  arith,
  digit-written_byte (v % 256),
  digit-written_byte (v / 256 % 256),
  digit-written_byte (v / 256 / 256 % 256),
  digit-written_byte (v / 256 / 256 / 256 % 256),
)

pub number-written_three : (v : ℕ) → number (written 3 v) ≡ v % 2 ^ 24
number-written_three v = omega (
  arith,
  digit-written_byte (v % 256),
  digit-written_byte (v / 256 % 256),
  digit-written_byte (v / 256 / 256 % 256),
)

put_operand_lem :
    (n bit v c : ℕ) (extra : Bytes)
    → bit + n ≤ 7
    → c < 2 ^ bit
    → put_operand n bit v (128 + c, extra)
      ≡ (128 + (c + 2 ^ bit * flags (written n v)), extra ++ present (written n v))
unfolding put_operand
put_operand_lem zero bit v c extra hb hc = ground (arith, append-nil extra)
put_operand_lem (suc n) bit v c extra hb hc = elim (Bool-cases (v % 256 == 0)) [
  | inl z ↦
      rw (mask_eight v, z)
        (ground (
          arith,
          put_operand_lem n (bit + 1) (v / 256) c extra (omega arith)
              (omega (arith, two_pow_add_one bit)),
          ap (λ (t : ℕ). t * flags (written n (v / 256))) (two_pow_add_one bit),
        ))
  | inr nz ↦
      rw (mask_eight v, nz, set_flag bit c (omega arith) hc)
        (put_operand_lem n (bit + 1) (v / 256) (c + 2 ^ bit) (extra ++ v % 256 ∷ []) (omega arith)
            (omega (arith, two_pow_add_one bit))
          ∙ ground (
            arith,
            append_assoc extra (v % 256 ∷ []) (present (written n (v / 256))),
            ap (λ (t : ℕ). t * flags (written n (v / 256))) (two_pow_add_one bit),
          ))
]

-- The two parts of an encoded copy instruction.
abbrev pub copy_cmd : ℕ → ℕ → ℕ
copy_cmd offset size = instruction_of (written 4 offset) (written 3 size)

abbrev pub copy_args : ℕ → ℕ → Bytes
copy_args offset size = present (written 4 offset) ++ present (written 3 size)

pub copy_op-parts :
    (offset size : ℕ) → copy_op offset size ≡ copy_cmd offset size ∷ copy_args offset size
unfolding copy_op
copy_op-parts offset size =
    let o = written 4 offset in
    let four : 2 ^ length o ≡ 16 = ap (λ n. 2 ^ n) (written-IsOperand 4 offset).sized in
    rw (put_operand_lem 4 0 offset 0 [] (omega arith) (omega arith)) (
      rw
        (put_operand_lem 3 4 size (0 + 1 * flags o) (present o) (omega arith)
          (omega (arith, flags-lt o, four)))
        (ap (λ c. c ∷ (present o ++ present (written 3 size))) (omega arith)))

pub push_copy_op_lem :
    (out : Bytes) (offset size : ℕ) → push_copy_op out offset size ≡ out ++ copy_op offset size
unfolding push_copy_op
push_copy_op_lem out offset size = refl

-- What both encoders write of a copy is one instruction byte with the top bit set, and operand
-- bytes. Whatever the encoder was given, the decoder reads behind that byte the offset modulo 2^32
-- and the size modulo 2^24, where 0 stands for 65536, and nothing of what follows.
pub copy_operands-push_copy_op :
    (out : Bytes) (offset size : ℕ) (rest : Bytes)
    → (instruction : ℕ) × (args : Bytes) × (push_copy_op out offset size
        ≡ out ++ copy_op offset size)
      × (copy_op offset size ≡ instruction ∷ args)
      × (128 ≤ instruction)
      × (instruction < 256)
      × (copy_operands instruction (args ++ rest)
          ≡ ok (offset % 2 ^ 32, (if size % 2 ^ 24 == 0 then 65536 else size % 2 ^ 24), rest))
copy_operands-push_copy_op out offset size rest =
    let o = written 4 offset in
    let s = written 3 size in
    let (top, byte) =
      instruction_of-top_bit o s (written-IsOperand 4 offset) (written-IsOperand 3 size) in
    (
      copy_cmd offset size,
      copy_args offset size,
      push_copy_op_lem out offset size,
      copy_op-parts offset size,
      top,
      byte,
      ap (copy_operands (copy_cmd offset size)) (append_assoc (present o) (present s) rest)
          ∙ copy_operands-instruction_of o s rest (written-IsOperand 4 offset)
              (written-IsOperand 3 size)
          ∙ ap (λ n. ok (n, copied s, rest)) (number-written_four offset)
          ∙ ap (λ n. ok (offset % 2 ^ 32, (if n == 0 then 65536 else n), rest))
              (number-written_three size),
    )
