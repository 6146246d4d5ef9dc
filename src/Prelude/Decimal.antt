-- ===== src/Prelude/Decimal.antt =====
-- `strconv.Itoa`, and `%d` of fmt, on natural numbers.
use Prim.Native.Nat.{ℕ, zero, suc, ◌/◌, ◌%◌}
use Prim.Native.String.{String, slice}
use mathlib.Core.Path.{◌≡◌, refl}
use userservice.Prelude.Tests.{ltb, if◌then◌else◌, ◌<>◌}

digit : ℕ → String
digit n = slice "0123456789" n (suc n)

-- The last digits, as many as the fuel allows.
digits : ℕ → ℕ → String
unfolding digit
digits zero n = ""
digits (suc fuel) n =
    let rest = digits fuel (n / 10) in if ltb n 10 then digit n else rest <> digit (n % 10)

-- A number of the machine has at most twenty digits.
unfoldable pub itoa : ℕ → String
unfolding digits
itoa n = digits 20 n

itoa_port : itoa 3306 ≡ "3306"
unfolding itoa
itoa_port = refl
