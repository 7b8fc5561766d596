-- ===== src/Prelude/Fields.antt =====
-- Sixteen two-bit fields in one 32-bit number.
use Prim.Native.Nat.{ℕ, zero, suc, ◌+◌, ◌-◌, ◌*◌, ◌/◌, ◌%◌, ◌^◌, ◌≤◌, ◌<◌, bit_or}
use mathlib.Core.Path.{◌≡◌, ap, ◌∙◌}
use native.Mathlib.Nat.{pow-suc, add-mul-div_right, div-eq_of_lt, pow-le-pow_right, one-le-pow}
use native.Mathlib.Omega.{arith}
use aog_task_controller.Prelude.Bits.{bit_or-shift}

-- The value of the first `n` fields.
unfoldable pub fields : (ℕ → ℕ) → ℕ → ℕ
fields f zero = 0
fields f (suc i) = fields f i + f i * 2 ^ (2 * i)

pow_next : (i : ℕ) → 2 ^ (2 * suc i) ≡ 2 ^ (2 * i) * 4
pow_next i =
    let e : 2 * suc i ≡ suc (suc (2 * i)) = omega arith in
    rw e (omega (arith, pow-suc 2 (suc (2 * i)), pow-suc 2 (2 * i)))

pub pow_pos : (i : ℕ) → 0 < 2 ^ i
pow_pos i = one-le-pow i 2 (omega arith)

pow_add : (d i : ℕ) → 2 ^ (2 * (suc i + d)) ≡ 4 * 2 ^ (2 * d) * 2 ^ (2 * i)
pow_add zero i = let e : suc i + 0 ≡ suc i = omega arith in rw e (omega (arith, pow_next i))
pow_add (suc d) i =
    let e : suc i + suc d ≡ suc (suc i + d) = omega arith in
    rw e (
      omega
        (arith, pow_next (suc i + d), pow_add d i, ap (λ (t : ℕ). t * 2 ^ (2 * i)) (pow_next d)))

field_lt : (a x p : ℕ) → a < p → x < 4 → a + x * p < p * 4
field_lt a x p h k = grind arith

above_gone : (a x q p : ℕ) → 0 < p → (a + x * (4 * q * p)) / p % 4 ≡ a / p % 4
above_gone a x q p h =
    let e : x * (4 * q * p) ≡ x * q * 4 * p = omega arith in
    rw (e, add-mul-div_right a (x * q * 4) h) (omega arith)

module _ (f : ℕ → ℕ) (two_bits : (i : ℕ) → f i < 4) where
  pub fields-lt : (n : ℕ) → fields f n < 2 ^ (2 * n)
  unfolding fields
  fields-lt zero = omega arith
  fields-lt (suc n) =
      rw (pow_next n) (field_lt (fields f n) (f n) (2 ^ (2 * n)) (fields-lt n) (two_bits n))

  pub fields_digit : (d i : ℕ) → fields f (suc i + d) / 2 ^ (2 * i) % 4 ≡ f i
  unfolding fields
  fields_digit zero i =
      let e : suc i + 0 ≡ suc i = omega arith in
      rw
        (
          e,
          fields,
          add-mul-div_right (fields f i) (f i) (pow_pos (2 * i)),
          div-eq_of_lt (fields-lt i),
        )
        (omega (arith, two_bits i))
  fields_digit (suc d) i =
      let e : suc i + suc d ≡ suc (suc i + d) = omega arith in
      let m = suc i + d in
      rw (e, fields, pow_add d i)
        (above_gone (fields f m) (f m) (2 ^ (2 * d)) (2 ^ (2 * i)) (pow_pos (2 * i))
          ∙ fields_digit d i)

  -- Each field can be read back.
  pub fields-read : (n i : ℕ) → i < n → fields f n / 2 ^ (2 * i) % 4 ≡ f i
  fields-read n i h =
      let e : n ≡ suc i + (n - suc i) = omega arith in rw e (fields_digit (n - suc i) i)

  -- One more field is one more `|=`, which does not leave 32 bits.
  pub fields-suc :
      (i : ℕ) → i < 16 → bit_or (fields f i) (f i * 2 ^ (2 * i) % 4294967296) ≡ fields f (suc i)
  unfolding fields
  fields-suc i h =
      let top : 2 ^ (2 * suc i) ≤ 2 ^ 32 =
        pow-le-pow_right {n = 2} (omega arith) {i = 2 * suc i} {j = 32} (omega arith) in
      let fits : f i * 2 ^ (2 * i) % 4294967296 ≡ f i * 2 ^ (2 * i) =
        omega (arith, top, fields-lt (suc i)) in
      rw fits (bit_or-shift (2 * i) (fields f i) (f i) (fields-lt i))
