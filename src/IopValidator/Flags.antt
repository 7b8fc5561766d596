-- ===== src/IopValidator/Flags.antt =====
-- The checks one by one: what it means that nothing is flagged.
use aog_task_controller.Prelude.{
  ℕ, ◌<◌, ◌≤◌, ◌≡◌, refl, ◌↔◌, ◌⊎◌, Bool, true, false, not, ◌&&◌, ◌||◌, List, [], ◌∷◌, ◌++◌, arith,
  ltb, leb, ◌==◌,
}
use aog_task_controller.IopValidator.{
  Violation, complaints, flag_if, parser_complaint, bad_list_value, outside_range, check_min_max,
  check_list, exit_code, is_empty,
}

-- Two equivalences, one beside the other.
pub both_iff {ℓ κ μ ν} :
    {A : Type ℓ} {B : Type κ} {C : Type μ} {D : Type ν} → A ↔ C → B ↔ D → (A × B) ↔ (C × D)
both_iff (f, g) (h, k) = ((λ p. (f p.0, h p.1)), (λ p. (g p.0, k p.1)))

pub then_iff {ℓ κ μ} : {A : Type ℓ} {B : Type κ} {C : Type μ} → A ↔ B → B ↔ C → A ↔ C
then_iff (f, g) (h, k) = ((λ a. h (f a)), (λ c. g (k c)))

-- Nothing is flagged by two checks if nothing is by either.
pub is_empty-append :
    (xs ys : List Violation)
    → (is_empty (xs ++ ys) ≡ true) ↔ ((is_empty xs ≡ true) × (is_empty ys ≡ true))
is_empty-append [] ys = ((λ h. (refl, h)), (λ p. p.1))
is_empty-append (x ∷ xs) ys = ((λ h. absurd (ground arith)), (λ p. absurd (ground (arith, p.0))))

pub is_empty-flag_if : (b : Bool) (v : Violation) → (is_empty (flag_if b v) ≡ true) ↔ (b ≡ false)
is_empty-flag_if true v = ((λ h. absurd (ground arith)), (λ h. absurd (ground arith)))
is_empty-flag_if false v = ((λ h. refl), (λ h. refl))

-- The tests of numbers.
pub is_boolean_iff : (value : ℕ) → (ltb 1 value ≡ false) ↔ (value ≤ 1)
is_boolean_iff value = ((λ h. ground (arith, h)), (λ h. ground (arith, h)))

pub in_range_iff :
    (value low high : ℕ)
    → ((ltb value low || ltb high value) ≡ false) ↔ ((low ≤ value) × (value ≤ high))
in_range_iff value low high = ((λ h. ground (arith, h)), (λ h. ground (arith, h.0, h.1)))

-- A list selects none of its items, or one that it has.
abbrev pub Selects : ℕ → ℕ → Type 0
Selects value count = (count ≡ 0) ⊎ ((value ≡ 0xFF) ⊎ (value < count))

pub Selects-iff :
    (value count : ℕ)
    → ((not (count == 0) && (not (value == 0xFF) && leb count value)) ≡ false) ↔ Selects value count
Selects-iff value count = ((λ h. ground (arith, h)), (λ h. ground (arith, h)))

pub checked_range :
    (object value low high : ℕ)
    → (is_empty (check_min_max object value low high) ≡ true) ↔ ((low ≤ value) × (value ≤ high))
unfolding check_min_max
checked_range object value low high =
    then_iff
      (is_empty-flag_if (ltb value low || ltb high value) (outside_range object value low high))
      (in_range_iff value low high)

pub checked_list :
    (object value count : ℕ)
    → (is_empty (check_list object value count) ≡ true) ↔ Selects value count
unfolding check_list
checked_list object value count =
    then_iff
      (is_empty-flag_if (not (count == 0) && (not (value == 0xFF) && leb count value))
        (bad_list_value object value count))
      (Selects-iff value count)

abbrev pub AllBelow : ℕ → List ℕ → Type 0
AllBelow bound [] = Unit {0}
AllBelow bound (level ∷ rest) = (level < bound) × AllBelow bound rest

pub below_iff : (bound level : ℕ) → (leb bound level ≡ false) ↔ (level < bound)
below_iff bound level = ((λ h. ground (arith, h)), (λ h. ground (arith, h)))

pub checked_levels :
    (warning : ℕ) (levels : List ℕ)
    → (is_empty (complaints warning levels) ≡ true) ↔ AllBelow warning levels
unfolding complaints
checked_levels warning [] = ((λ h. tt), λ h. refl)
checked_levels warning (level ∷ rest) =
    then_iff
      (is_empty-append (flag_if (leb warning level) parser_complaint) (complaints warning rest))
      (both_iff
        (then_iff (is_empty-flag_if (leb warning level) parser_complaint) (below_iff warning level))
        (checked_levels warning rest))

pub exit_iff : (b : Bool) → (exit_code b ≡ 0) ↔ (b ≡ true)
exit_iff true = ((λ h. refl), λ h. refl)
exit_iff false = ((λ h. absurd (omega (arith, h))), λ h. absurd (ground arith))

pub valid_iff : (b : Bool) → (not b ≡ false) ↔ (b ≡ true)
valid_iff true = ((λ h. refl), λ h. refl)
valid_iff false = ((λ h. absurd (ground arith)), λ h. absurd (ground arith))
