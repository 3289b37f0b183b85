-- ===== src/Base/Text.antt =====
-- Text: comparisons with the empty text, and the decimal print of fmt's %d.
use Prim.Native.Nat.{ℕ, zero, suc, ◌/◌, ◌%◌}
use Prim.Native.String
use Prim.Native.String.{String}
use mathlib.Core.Path.{◌≡◌}
use mathlib.Core.Logic.{◌↔◌}
use mathlib.Core.Bool.{Bool, true, not}
use text.Mathlib.Text.{◌==◌}
use text.Mathlib.TextEquality.{eq_iff}

-- `s == ""`
abbrev pub is_empty : String → Bool
is_empty s = s == ""

-- `s != ""`
abbrev pub non_empty : String → Bool
non_empty s = not (s == "")

pub is_empty_iff : (s : String) → (is_empty s ≡ true) ↔ (s ≡ "")
is_empty_iff s = eq_iff s ""

abbrev digit : ℕ → String
digit zero = "0"
digit (suc zero) = "1"
digit (suc (suc zero)) = "2"
digit (suc (suc (suc zero))) = "3"
digit (suc (suc (suc (suc zero)))) = "4"
digit (suc (suc (suc (suc (suc zero))))) = "5"
digit (suc (suc (suc (suc (suc (suc zero)))))) = "6"
digit (suc (suc (suc (suc (suc (suc (suc zero))))))) = "7"
digit (suc (suc (suc (suc (suc (suc (suc (suc zero)))))))) = "8"
digit _ = "9"

-- Prints the digits of `n` before `rest`; the fuel bounds how many.
digits_before : ℕ → ℕ → String → String
digits_before zero n rest = rest
digits_before (suc fuel) n rest =
    let out = String.◌++◌ (digit (n % 10)) rest in
    elim (n / 10) [ zero ↦ out | suc m ↦ digits_before fuel (suc m) out ]

-- Twenty digits hold every 64-bit number.
unfoldable pub itoa : ℕ → String
unfolding digits_before
itoa n = digits_before 20 n ""
