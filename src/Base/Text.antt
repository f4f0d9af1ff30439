-- ===== src/Base/Text.antt =====
-- Text that fmt.Sprintf makes of numbers.
use Prim.Native.Nat.{ℕ, zero, suc, ◌+◌, ◌/◌, ◌%◌}
use Prim.Native.String.{String, ◌++◌ as str_append, slice}
use cogame.Base.Tests.{ltb, if◌then◌else◌}

-- A number as %d prints it, by its last digits; a uint64 has 20 at most.
unfoldable pub digits : ℕ → ℕ → String
digits zero n = ""
digits (suc fuel) n =
    let rest = digits fuel (n / 10) in
    str_append (if ltb n 10 then "" else rest) (slice "0123456789" (n % 10) (n % 10 + 1))

unfoldable pub decimal : ℕ → String
unfolding digits
decimal n = digits 20 n
