-- ===== src/Protocol/PktLine.antt =====
-- The pkt-lines of src/protocol/utils.rs. A `Bytes` that a read advances is the list of the bytes
-- that are left; the standard library's hexadecimal parser and printer are written out.
pub mod RoundTrip
pub mod Tests
use git_internal.Base.{
  ℕ, zero, suc, ◌+◌, ◌-◌, ◌*◌, ◌/◌, ◌%◌, Bool, true, false, ◌&&◌, [], ◌∷◌, ◌++◌, Bytes, Option,
  none, some, ltb, leb, ◌==◌, if◌then◌else◌, length, take, drop, replicate,
}

-- `char::to_digit(16)`.
pub hex_digit : ℕ → Option ℕ
hex_digit b =
    if leb 48 b && leb b 57
    then some (b - 48)
    else if leb 97 b && leb b 102
    then some (b - 87)
    else if leb 65 b && leb b 70
    then some (b - 55)
    else none

pub add_digit : Option ℕ → ℕ → Option ℕ
add_digit none high = none
add_digit (some d) high = some (high * 16 + d)

-- The digits one by one, from the value of those before.
pub hex_value : Bytes → Option ℕ → Option ℕ
hex_value bs none = none
hex_value [] (some n) = some n
hex_value (b ∷ bs) (some n) = hex_value bs (add_digit (hex_digit b) n)

-- `usize::from_str_radix(s, 16)`: one `+` may stand before the digits, of which there is one.
pub from_str_radix : Bytes → Option ℕ
from_str_radix [] = none
from_str_radix (b ∷ []) = hex_value (b ∷ []) (some 0)
from_str_radix (b ∷ c ∷ bs) =
    if b == 43 then hex_value (c ∷ bs) (some 0) else hex_value (b ∷ c ∷ bs) (some 0)

-- The number of bytes that were consumed, the line's data, and the bytes left.
abbrev pub Reading : Type 0
Reading = (ℕ × Bytes) × Bytes

-- What is done with the length that was parsed; text that is not UTF-8 holds no number either.
pub read_with_length : Option ℕ → Bytes → Reading
read_with_length none bytes = ((0, []), bytes)
read_with_length (some pkt_length) bytes =
    if pkt_length == 0
    then ((4, []), drop 4 bytes)
    else if ltb pkt_length 4
    then ((0, []), bytes)
    else if ltb (length bytes) pkt_length
    then ((0, []), bytes)
    else ((pkt_length, take (pkt_length - 4) (drop 4 bytes)), drop (pkt_length - 4) (drop 4 bytes))

unfoldable pub read_pkt_line : Bytes → Reading
read_pkt_line bytes =
    if length bytes == 0
    then ((0, []), bytes)
    else if ltb (length bytes) 4
    then ((0, []), bytes)
    else read_with_length (from_str_radix (take 4 bytes)) bytes

-- A lowercase hexadecimal digit.
abbrev pub lower_digit : ℕ → ℕ
lower_digit d = if ltb d 10 then 48 + d else 87 + d

-- The digits of `{:x}`. A usize has sixteen of them.
pub hex_loop : ℕ → ℕ → Bytes
hex_loop zero n = []
hex_loop (suc rounds) n =
    let rest = hex_loop rounds (n / 16) in
    if ltb n 16 then lower_digit n ∷ [] else rest ++ lower_digit (n % 16) ∷ []

-- `format!("{n:04x}")`.
pub format_04x : ℕ → Bytes
format_04x n = let digits = hex_loop 16 n in replicate (4 - length digits) 48 ++ digits

unfoldable pub add_pkt_line_string : Bytes → Bytes → Bytes
add_pkt_line_string pkt_line_stream buf_str =
    pkt_line_stream ++ (format_04x (length buf_str + 4) ++ buf_str)
