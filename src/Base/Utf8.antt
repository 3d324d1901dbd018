-- ===== src/Base/Utf8.antt =====
-- The standard library's test for UTF-8: a Rust `String` is a list of bytes that passes it.
use Prim.Native.Nat.{ℕ, zero, suc}
use mathlib.Core.Bool.{Bool, false, ◌&&◌}
use mathlib.Core.List.{[], ◌∷◌}
use mathlib.Core.Option.{Option, none, some}
use git_internal.Base.Tests.{leb, ◌==◌, if◌then◌else◌}
use git_internal.Base.Lists.{Bytes}

-- The number of continuation bytes that are due, and the range of the next one.
abbrev pub Due : Type 0
Due = ℕ × ℕ × ℕ

abbrev pub within : ℕ → ℕ → ℕ → Bool
within low high b = leb low b && leb b high

-- What follows a first byte.
abbrev pub first_byte : ℕ → Option Due
first_byte b =
    if leb b 0x7f
    then some (0, 0x80, 0xbf)
    else if within 0xc2 0xdf b
    then some (1, 0x80, 0xbf)
    else if b == 0xe0
    then some (2, 0xa0, 0xbf)
    else if b == 0xed
    then some (2, 0x80, 0x9f)
    else if within 0xe1 0xef b
    then some (2, 0x80, 0xbf)
    else if b == 0xf0
    then some (3, 0x90, 0xbf)
    else if within 0xf1 0xf3 b
    then some (3, 0x80, 0xbf)
    else if b == 0xf4
    then some (3, 0x80, 0x8f)
    else none

abbrev pub next_byte : Due → ℕ → Option Due
next_byte (zero, low, high) b = first_byte b
next_byte (suc due, low, high) b = if within low high b then some (due, 0x80, 0xbf) else none

abbrev pub utf8_loop : Option Due → Bytes → Bool
utf8_loop none bs = false
utf8_loop (some (due, low, high)) [] = due == 0
utf8_loop (some due) (b ∷ bs) = utf8_loop (next_byte due b) bs

unfoldable pub is_utf8 : Bytes → Bool
is_utf8 bs = utf8_loop (some (0, 0x80, 0xbf)) bs

-- `String::from_utf8`, where the error is not looked at.
abbrev pub from_utf8 : Bytes → Option Bytes
from_utf8 bs = if is_utf8 bs then some bs else none
