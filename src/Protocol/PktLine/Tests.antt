-- ===== src/Protocol/PktLine/Tests.antt =====
-- Runs of the pkt-line codec, and the theorems at them.
use git_internal.Base.{[], ◌∷◌, ◌++◌, ◌≡◌, refl, arith}
use git_internal.Protocol.PktLine.{
  read_pkt_line, read_with_length, from_str_radix, hex_value, hex_digit, add_digit,
  add_pkt_line_string, format_04x, hex_loop,
}
use git_internal.Protocol.PktLine.RoundTrip.{
  IsReading, read_pkt_line-IsReading, read_pkt_line-add_pkt_line_string,
}

-- "0006a\n"
add_test : add_pkt_line_string [] (97 ∷ 10 ∷ []) ≡ 48 ∷ 48 ∷ 48 ∷ 54 ∷ 97 ∷ 10 ∷ []
unfolding add_pkt_line_string format_04x hex_loop
add_test = refl

-- A flush packet.
flush_test : read_pkt_line (48 ∷ 48 ∷ 48 ∷ 48 ∷ 7 ∷ []) ≡ ((4, []), 7 ∷ [])
unfolding read_pkt_line read_with_length from_str_radix hex_value hex_digit add_digit
flush_test = refl

-- "00zz" is no length: nothing is consumed.
invalid_test : read_pkt_line (48 ∷ 48 ∷ 122 ∷ 122 ∷ []) ≡ ((0, []), 48 ∷ 48 ∷ 122 ∷ 122 ∷ [])
unfolding read_pkt_line read_with_length from_str_radix hex_value hex_digit add_digit
invalid_test = refl

-- From 65536 on the prefix has five digits.
five_digits_test : format_04x 65536 ≡ 49 ∷ 48 ∷ 48 ∷ 48 ∷ 48 ∷ []
unfolding format_04x hex_loop
five_digits_test = refl

read_pkt_line-IsReading_example :
    IsReading
      (48 ∷ 48 ∷ 48 ∷ 54 ∷ 97 ∷ 10 ∷ 9 ∷ [])
      (read_pkt_line (48 ∷ 48 ∷ 48 ∷ 54 ∷ 97 ∷ 10 ∷ 9 ∷ []))
read_pkt_line-IsReading_example = read_pkt_line-IsReading (48 ∷ 48 ∷ 48 ∷ 54 ∷ 97 ∷ 10 ∷ 9 ∷ [])

read_pkt_line-add_pkt_line_string_example :
    read_pkt_line (add_pkt_line_string [] (97 ∷ 10 ∷ []) ++ 9 ∷ []) ≡ ((6, 97 ∷ 10 ∷ []), 9 ∷ [])
read_pkt_line-add_pkt_line_string_example =
    read_pkt_line-add_pkt_line_string (97 ∷ 10 ∷ []) (9 ∷ []) (omega arith)
