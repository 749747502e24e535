-- ===== src/Prelude/Decimal.antt =====
-- Decimal texts of integers: `strconv.Itoa` and `strconv.FormatInt(_, 10)` of the source are `itoa`, which
-- reads the word as signed, and `strconv.FormatUint(_, 10)` is `utoa`.
use Prim.Native.Nat.{ℕ, zero, suc, ◌+◌, ◌-◌, ◌/◌, ◌%◌}
use Prim.Native.String.{String, slice, ◌++◌}
use mathlib.Core.Path.{◌≡◌, refl}
use mathlib.Core.Bool.{true, false}
use niova_mdsvc.Prelude.Tests.{ltb, if◌then◌else◌}
use niova_mdsvc.Prelude.Words.{two63, two64}

unfoldable pub digit : ℕ → String
digit d = slice "0123456789" d (d + 1)

-- Twenty digits are enough for every 64-bit number.
unfoldable pub decimal : ℕ → ℕ → String
unfolding digit
decimal zero n = ""
decimal (suc fuel) n = elim (ltb n 10) [
  | true ↦ digit n
  | false ↦ decimal fuel (n / 10) ++ digit (n % 10)
]

unfoldable pub itoa : ℕ → String
unfolding decimal
itoa n = if ltb n two63 then decimal 20 n else "-" ++ decimal 20 (two64 - n)

unfoldable pub utoa : ℕ → String
unfolding decimal
utoa n = decimal 20 n

utoa_large : utoa (two64 - 1) ≡ "18446744073709551615"
unfolding utoa
utoa_large = refl

itoa_negative : itoa (two64 - 1205) ≡ "-1205"
unfolding itoa
itoa_negative = refl

itoa_positive : itoa 8589934592 ≡ "8589934592"
unfolding itoa
itoa_positive = refl
