-- ===== src/Prelude/Text.antt =====
-- Texts as the list of their bytes, and numbers in decimal digits.
use Prim.Native.String.{String}
use Prim.Native.Char.{code}
use Prim.Native.Nat.{ℕ, zero, suc, ◌+◌, ◌/◌, ◌%◌}
use mathlib.Core.Bool.{Bool, true, false}
use mathlib.Core.List.{List, [], ◌∷◌}
use mathlib.Core.Path.{◌≡◌, refl}
use native.Mathlib.Omega.{arith}
use aog_task_controller.Prelude.Tests.{ltb, ◌==◌, if◌then◌else◌}

-- The bytes of an ASCII literal.
abbrev pub codes : String → List ℕ
codes String.[] = []
codes (String.◌∷◌ c s) = code c ∷ codes s

abbrev pub same_text : List ℕ → List ℕ → Bool
same_text [] [] = true
same_text (c ∷ s) (d ∷ t) = if c == d then same_text s t else false
same_text _ _ = false

pub same_text_eq : (s t : List ℕ) → same_text s t ≡ true → s ≡ t
same_text_eq [] [] h = refl
same_text_eq [] (d ∷ t) h = absurd (ground arith)
same_text_eq (c ∷ s) [] h = absurd (ground arith)
same_text_eq (c ∷ s) (d ∷ t) h = ground (arith, same_text_eq s t)

-- The digits of a number behind those that follow; the fuel is above the number of digits.
unfoldable pub digits_before : ℕ → ℕ → List ℕ → List ℕ
digits_before zero n rest = rest
digits_before (suc fuel) n rest =
    let digit = n % 10 + b'0' in
    let more = digits_before fuel (n / 10) (digit ∷ rest) in if ltb n 10 then digit ∷ rest else more

-- `std::to_string` of an unsigned number of 32 bits.
unfoldable pub decimal : ℕ → List ℕ
unfolding digits_before
decimal n = digits_before 10 n []
