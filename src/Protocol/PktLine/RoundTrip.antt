-- ===== src/Protocol/PktLine/RoundTrip.antt =====
-- Reading and writing pkt-lines, src/protocol/utils.rs, put together.
use git_internal.Base.{
  ℕ, suc, ◌+◌, ◌-◌, ◌*◌, ◌/◌, ◌%◌, ◌<◌, ◌≤◌, true, false, [], ◌∷◌, ◌++◌, Bytes, Option, none, some,
  ltb, ◌==◌, length, take, drop, ◌≡◌, refl, arith, ap, ap₂, sym, ◌∙◌, if_elim, Bool-cases, inl, inr,
  ltb→le, lt→ltb, take-append, drop-append, append_assoc, length-append, drop-add,
}
use git_internal.Protocol.PktLine.{
  hex_digit, add_digit, hex_value, from_str_radix, Reading, read_with_length, read_pkt_line,
  lower_digit, hex_loop, format_04x, add_pkt_line_string,
}

-- A reading takes its bytes off the front of the buffer, and its line is what stands behind the
-- four digits of what it took.
abbrev pub IsReading : Bytes → Reading → Type 0
IsReading bytes r =
    (r.0.0 ≤ length bytes) × (r.1 ≡ drop r.0.0 bytes) × (r.0.1 ≡ take (r.0.0 - 4) (drop 4 bytes))

read_with_length-IsReading :
    (n : Option ℕ) (bytes : Bytes) → 4 ≤ length bytes → IsReading bytes (read_with_length n bytes)
unfolding read_with_length
read_with_length-IsReading none bytes h = (omega arith, refl, refl)
read_with_length-IsReading (some n) bytes h =
    if_elim (IsReading bytes) (n == 0) (λ _. (h, refl, refl))
      (λ _.
        if_elim (IsReading bytes) (ltb n 4) (λ _. (omega arith, refl, refl))
          (λ four.
            if_elim (IsReading bytes) (ltb (length bytes) n) (λ _. (omega arith, refl, refl))
              (λ fits. (
                ltb→le (length bytes) n fits,
                sym (drop-add 4 (n - 4) n bytes (omega (arith, ltb→le n 4 four))),
                refl,
              ))))

-- On every buffer, `read_pkt_line` consumes the bytes that it counts and no more than there are,
-- also where it finds no line; the data is what follows the four digits of the length.
pub read_pkt_line-IsReading : (bytes : Bytes) → IsReading bytes (read_pkt_line bytes)
unfolding read_pkt_line
read_pkt_line-IsReading bytes =
    if_elim (IsReading bytes) (length bytes == 0) (λ _. (omega arith, refl, refl))
      (λ _.
        if_elim (IsReading bytes) (ltb (length bytes) 4) (λ _. (omega arith, refl, refl))
          (λ four.
            read_with_length-IsReading (from_str_radix (take 4 bytes)) bytes
              (ltb→le (length bytes) 4 four)))

pub hex_digit-lower_digit : (d : ℕ) → d < 16 → hex_digit (lower_digit d) ≡ some d
unfolding hex_digit
hex_digit-lower_digit d h = ground arith

pub hex_digit-lt : (c d : ℕ) → hex_digit c ≡ some d → d < 16
unfolding hex_digit
hex_digit-lt c d e = ground arith

lower_digit-plus : (d : ℕ) → (lower_digit d == 43) ≡ false
lower_digit-plus d = ground arith

-- The four digits of a number below 65536.
four_digits : ℕ → Bytes
four_digits n =
    lower_digit (n / 4096)
    ∷ lower_digit (n / 256 % 16)
    ∷ lower_digit (n / 16 % 16)
    ∷ lower_digit (n % 16)
    ∷ []

hex_value-lower_digit :
    (d n : ℕ) (bs : Bytes)
    → d < 16
    → hex_value (lower_digit d ∷ bs) (some n) ≡ hex_value bs (some (n * 16 + d))
unfolding hex_value add_digit
hex_value-lower_digit d n bs h = ap (λ o. hex_value bs (add_digit o n)) (hex_digit-lower_digit d h)

hex_value-nil : {a b : ℕ} → a ≡ b → hex_value [] (some a) ≡ some b
unfolding hex_value
hex_value-nil e = ap some e

from_str_radix-four_digits : (n : ℕ) → n < 65536 → from_str_radix (four_digits n) ≡ some n
unfolding from_str_radix four_digits
from_str_radix-four_digits n h = rw (lower_digit-plus (n / 4096)) (
    hex_value-lower_digit (n / 4096) 0
      (lower_digit (n / 256 % 16) ∷ lower_digit (n / 16 % 16) ∷ lower_digit (n % 16) ∷ [])
      (omega arith)
    ∙ hex_value-lower_digit (n / 256 % 16) (0 * 16 + n / 4096)
        (lower_digit (n / 16 % 16) ∷ lower_digit (n % 16) ∷ []) (omega arith)
    ∙ hex_value-lower_digit (n / 16 % 16) ((0 * 16 + n / 4096) * 16 + n / 256 % 16)
        (lower_digit (n % 16) ∷ []) (omega arith)
    ∙ hex_value-lower_digit (n % 16) (((0 * 16 + n / 4096) * 16 + n / 256 % 16) * 16 + n / 16 % 16)
        [] (omega arith)
    ∙ hex_value-nil (omega arith))

hex_loop-more :
    (f n : ℕ)
    → ltb n 16 ≡ false
    → hex_loop (suc f) n ≡ hex_loop f (n / 16) ++ lower_digit (n % 16) ∷ []
unfolding hex_loop
hex_loop-more f n h = rw h refl

hex_loop-last : (f n : ℕ) → ltb n 16 ≡ true → hex_loop (suc f) n ≡ lower_digit n ∷ []
unfolding hex_loop
hex_loop-last f n h = rw h refl

four_digits_from :
    (n a b c d : ℕ)
    → n / 4096 ≡ a
    → n / 256 % 16 ≡ b
    → n / 16 % 16 ≡ c
    → n % 16 ≡ d
    → lower_digit a ∷ lower_digit b ∷ lower_digit c ∷ lower_digit d ∷ [] ≡ four_digits n
unfolding four_digits
four_digits_from n a b c d p q r s = rw (sym p, sym q, sym r, sym s) refl

format_04x-four_digits : (n : ℕ) → n < 65536 → format_04x n ≡ four_digits n
unfolding format_04x
format_04x-four_digits n h = elim (Bool-cases (ltb n 16)) [
  | inl one ↦
      rw (hex_loop-last 15 n one)
        (four_digits_from n 0 0 0 n (ground arith) (ground arith) (ground arith) (ground arith))
  | inr more ↦ elim (Bool-cases (ltb (n / 16) 16)) [
    | inl two ↦
        rw (hex_loop-more 15 n more, hex_loop-last 14 (n / 16) two)
          (four_digits_from n 0 0 (n / 16) (n % 16) (ground arith) (ground arith) (ground arith)
            refl)
    | inr more2 ↦ elim (Bool-cases (ltb (n / 16 / 16) 16)) [
      | inl three ↦
          rw
            (
              hex_loop-more 15 n more,
              hex_loop-more 14 (n / 16) more2,
              hex_loop-last 13 (n / 16 / 16) three,
            )
            (four_digits_from n 0 (n / 16 / 16) (n / 16 % 16) (n % 16) (ground arith) (ground arith)
              refl refl)
      | inr more3 ↦
          rw
            (
              hex_loop-more 15 n more,
              hex_loop-more 14 (n / 16) more2,
              hex_loop-more 13 (n / 16 / 16) more3,
              hex_loop-last 12 (n / 16 / 16 / 16) (lt→ltb (n / 16 / 16 / 16) 16 (omega arith)),
            )
            (four_digits_from n (n / 16 / 16 / 16) (n / 16 / 16 % 16) (n / 16 % 16) (n % 16)
              (omega arith) (omega arith) refl refl)
    ]
  ]
]

read_with_length-line :
    (a b c d : ℕ) (line rest : Bytes)
    → read_with_length (some (length line + 4)) (a ∷ b ∷ c ∷ d ∷ (line ++ rest))
      ≡ ((length line + 4, line), rest)
unfolding read_with_length
read_with_length-line a b c d line rest =
    let t1 : (length line + 4 == 0) ≡ false = ground arith in
    let t2 : ltb (length line + 4) 4 ≡ false = ground arith in
    let t3 : ltb (suc (suc (suc (suc (length (line ++ rest)))))) (length line + 4) ≡ false =
      ground (arith, length-append line rest) in
    let cut : length line + 4 - 4 ≡ length line = omega arith in
    rw (t1, t2, t3, cut)
      (ap₂ (λ (x y : Bytes). ((length line + 4, x), y)) (take-append line rest)
        (drop-append line rest))

read_pkt_line-line :
    (line rest : Bytes)
    → length line < 65532
    → read_pkt_line (four_digits (length line + 4) ++ (line ++ rest))
      ≡ ((length line + 4, line), rest)
unfolding read_pkt_line four_digits
read_pkt_line-line line rest h =
    let t1 : (suc (suc (suc (suc (length (line ++ rest))))) == 0) ≡ false = ground arith in
    let t2 : ltb (suc (suc (suc (suc (length (line ++ rest)))))) 4 ≡ false = ground arith in
    let n : ℕ = length line + 4 in
    rw (t1, t2)
      (ap (λ o. read_with_length o (four_digits n ++ (line ++ rest)))
          (from_str_radix-four_digits n (omega arith))
        ∙ read_with_length-line (lower_digit (n / 4096)) (lower_digit (n / 256 % 16))
            (lower_digit (n / 16 % 16)) (lower_digit (n % 16)) line rest)

-- A line of at most 65531 bytes that `add_pkt_line_string` appends to an empty stream is read back,
-- with the bytes behind it left in the buffer.
pub read_pkt_line-add_pkt_line_string :
    (buf_str rest : Bytes)
    → length buf_str < 65532
    → read_pkt_line (add_pkt_line_string [] buf_str ++ rest) ≡ ((length buf_str + 4, buf_str), rest)
unfolding add_pkt_line_string
read_pkt_line-add_pkt_line_string buf_str rest h =
    let digits = four_digits (length buf_str + 4) in
    ap (λ (d : Bytes). read_pkt_line ((d ++ buf_str) ++ rest))
      (format_04x-four_digits (length buf_str + 4) (omega arith))
    ∙ ap read_pkt_line (append_assoc digits buf_str rest)
    ∙ read_pkt_line-line buf_str rest h
