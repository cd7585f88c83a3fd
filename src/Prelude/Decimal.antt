-- ===== src/Prelude/Decimal.antt =====
-- `${n}`: a number in a text.
use Prim.Native.Nat.{ℕ, zero, suc, ◌/◌, ◌%◌}
use Prim.Native.String.{String, ◌++◌}
use mathlib.Core.Path.{◌≡◌, refl}
use docklane.Prelude.Tests.{ltb, if◌then◌else◌}

abbrev digit : ℕ → String
digit zero = "0"
digit (suc zero) = "1"
digit (suc (suc zero)) = "2"
digit (suc (suc (suc zero))) = "3"
digit (suc (suc (suc (suc zero)))) = "4"
digit (suc (suc (suc (suc (suc zero))))) = "5"
digit (suc (suc (suc (suc (suc (suc zero)))))) = "6"
digit (suc (suc (suc (suc (suc (suc (suc zero))))))) = "7"
digit (suc (suc (suc (suc (suc (suc (suc (suc zero)))))))) = "8"
digit _ = "9"

-- The digits of `n` before `tail`; `n` rounds are enough.
digits : ℕ → ℕ → String → String
digits zero n tail = digit n ++ tail
digits (suc fuel) n tail =
    let more = digits fuel (n / 10) (digit (n % 10) ++ tail) in
    if ltb n 10 then digit n ++ tail else more

unfoldable pub decimal : ℕ → String
unfolding digits
decimal n = digits n n ""

decimal-502 : decimal 502 ≡ "502"
unfolding decimal
decimal-502 = refl
