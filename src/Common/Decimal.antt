-- ===== src/Common/Decimal.antt =====
-- Numbers in decimal: as a template literal prints them, and as `\d+` with `Number` reads them.
use Prim.Native.Nat.{ℕ, zero, suc, ◌+◌, ◌-◌, ◌*◌, ◌/◌, ◌%◌}
use mathlib.Core.Bool.{Bool, ◌&&◌}
use mathlib.Core.Option.{Option, none, some}
use mathlib.Core.List.{[], ◌∷◌}
use autoforge.Common.Tests.{nat_eqb, leb, if◌then◌else◌}
use autoforge.Common.Texts.{Text}

-- One digit a round, from the last; a number has fewer digits than its successor counts.
pub show_from : ℕ → ℕ → Text → Text
show_from zero n acc = acc
show_from (suc fuel) n acc =
    let rest = show_from fuel (n / 10) ((48 + n % 10) ∷ acc) in
    if nat_eqb (n / 10) 0 then (48 + n % 10) ∷ acc else rest

unfoldable pub show_ℕ : ℕ → Text
unfolding show_from
show_ℕ n = show_from (suc n) n []

abbrev pub is_digit : ℕ → Bool
is_digit c = leb 48 c && leb c 57

-- The longest run of digits, read on from a value, and what follows it.
unfoldable pub read_digits : ℕ → Text → ℕ × Text
read_digits value [] = (value, [])
read_digits value (c ∷ s) =
    if is_digit c then read_digits (value * 10 + (c - 48)) s else (value, c ∷ s)

-- `(\d+)`: at least one digit.
unfoldable pub read_ℕ : Text → Option (ℕ × Text)
unfolding read_digits
read_ℕ [] = none
read_ℕ (c ∷ s) = if is_digit c then some (read_digits 0 (c ∷ s)) else none
