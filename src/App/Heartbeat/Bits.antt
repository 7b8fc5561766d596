-- ===== src/App/Heartbeat/Bits.antt =====
-- Flags in the bits of one number.
use aog_task_controller.Prelude.{
  ℕ, zero, suc, ◌+◌, ◌*◌, ◌-◌, ◌/◌, ◌%◌, ◌^◌, ◌<◌, ◌≡◌, refl, ap, ◌∙◌, Bool, arith, ◌==◌, to_nat,
  bit_or,
}
use aog_task_controller.Prelude.Bits.{bit_or-shift}
use aog_task_controller.Prelude.Fields.{pow_pos}
use aog_task_controller.App.{bit}
use native.Mathlib.Nat.{pow-suc, add-mul-div_right, div-eq_of_lt}

-- The value of the first `n` flags.
unfoldable pub bits : (ℕ → Bool) → ℕ → ℕ
bits f zero = 0
bits f (suc i) = bits f i + to_nat (f i) * 2 ^ i

to_nat-lt : (b : Bool) → to_nat b < 2
to_nat-lt b = ground arith

pow_add : (d i : ℕ) → 2 ^ (suc i + d) ≡ 2 * 2 ^ d * 2 ^ i
pow_add zero i = let e : suc i + 0 ≡ suc i = omega arith in rw e (omega (arith, pow-suc 2 i))
pow_add (suc d) i =
    let e : suc i + suc d ≡ suc (suc i + d) = omega arith in
    rw e
      (omega (arith, pow-suc 2 (suc i + d), pow_add d i, ap (λ (t : ℕ). t * 2 ^ i) (pow-suc 2 d)))

digit_lt : (a x p : ℕ) → a < p → x < 2 → a + x * p < p * 2
digit_lt a x p h k = grind arith

above_gone : (a x q p : ℕ) → 0 < p → (a + x * (2 * q * p)) / p % 2 ≡ a / p % 2
above_gone a x q p h =
    let e : x * (2 * q * p) ≡ x * q * 2 * p = omega arith in
    rw (e, add-mul-div_right a (x * q * 2) h) (omega arith)

module _ (f : ℕ → Bool) where
  pub bits-lt : (n : ℕ) → bits f n < 2 ^ n
  unfolding bits
  bits-lt zero = omega arith
  bits-lt (suc n) =
      let e : 2 ^ suc n ≡ 2 ^ n * 2 = pow-suc 2 n in
      rw e (digit_lt (bits f n) (to_nat (f n)) (2 ^ n) (bits-lt n) (to_nat-lt (f n)))

  bits_digit : (d i : ℕ) → bits f (suc i + d) / 2 ^ i % 2 ≡ to_nat (f i)
  unfolding bits
  bits_digit zero i =
      let e : suc i + 0 ≡ suc i = omega arith in
      rw
        (e, bits, add-mul-div_right (bits f i) (to_nat (f i)) (pow_pos i), div-eq_of_lt (bits-lt i))
        (omega (arith, to_nat-lt (f i)))
  bits_digit (suc d) i =
      let e : suc i + suc d ≡ suc (suc i + d) = omega arith in
      let m = suc i + d in
      rw (e, bits, pow_add d i)
        (above_gone (bits f m) (to_nat (f m)) (2 ^ d) (2 ^ i) (pow_pos i) ∙ bits_digit d i)

  to_nat_test : (b : Bool) → (to_nat b == 1) ≡ b
  to_nat_test b = ground arith

  -- Each flag can be read back.
  pub bits-read : (n i : ℕ) → i < n → bit (bits f n) i ≡ f i
  unfolding bit
  bits-read n i h =
      let e : n ≡ suc i + (n - suc i) = omega arith in
      rw e (ap (λ x. x == 1) (bits_digit (n - suc i) i) ∙ to_nat_test (f i))

  -- One more flag is one more `|=`.
  pub bits-suc : (i : ℕ) → bit_or (bits f i) (to_nat (f i) * 2 ^ i) ≡ bits f (suc i)
  bits-suc i = bit_or-shift i (bits f i) (to_nat (f i)) (bits-lt i) ∙ (unfold bits in refl)
