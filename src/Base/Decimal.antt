-- ===== src/Base/Decimal.antt =====
-- The standard library's decimal printer.
use Prim.Native.Nat.{ℕ, zero, suc, ◌+◌, ◌/◌, ◌%◌}
use mathlib.Core.List.{[], ◌∷◌, ◌++◌}
use git_internal.Base.Tests.{ltb, if◌then◌else◌}
use git_internal.Base.Lists.{Bytes}

abbrev pub decimal_loop : ℕ → ℕ → Bytes
decimal_loop zero n = []
decimal_loop (suc rounds) n =
    let rest = decimal_loop rounds (n / 10) in
    if ltb n 10 then (48 + n) ∷ [] else rest ++ (48 + n % 10) ∷ []

-- `to_string` of a usize, of which twenty digits are enough.
abbrev pub decimal : ℕ → Bytes
decimal n = decimal_loop 20 n
