-- ===== src/App/Setup/Ready.antt =====
-- The whole set-up of the control functions.
use aog_task_controller.Prelude.{
  ℕ, zero, suc, ◌≢◌, ◌⊎◌, inl, inr, Bool-cases, ==_false→ne, ◌+◌, ◌-◌, ◌≤◌, ◌<◌, ◌≡◌, refl, sym,
  subst, Bool, true, false, not, ◌&&◌, Option, none, some, arith, ◌==◌,
}
use aog_task_controller.App.Setup.{
  Claims, Setup, no_tc_address, ready, wait, wait_after_claim, tecu_attempts, with_tecu,
  tecu_result, setup_tecu, then_tecu, after_tc, setup_control_functions,
}
use aog_task_controller.App.Setup.Waiting.{
  IsClock, IsWaited, first_or_later, later, wait_enough, wait_after_claim_waits,
}

module _ (now : ℕ → ℕ) (clock : IsClock now) (claims : Claims) (preferred : ℕ)
    (enabled : Bool) where
  -- The tractor ECU has a valid address after so many attempts, at most 50, and not after fewer.
  abbrev pub IsClaimed : ℕ → Type 0
  IsClaimed made =
      (made ≤ 50)
      × (claims.tecu_valid made ≡ true)
      × ((j : ℕ) → j < made → claims.tecu_valid j ≡ false)

  -- What the answers of the bus say of whether there is a tractor ECU and whether its claim has failed:
  -- it is there if it is enabled and its first valid address is the preferred one; the claim has failed
  -- if it is enabled and this is another address, or if there is none after 50 attempts.
  abbrev pub IsTecu : Bool → Bool → Type 0
  IsTecu true true = ⊥
  IsTecu true false =
      (enabled ≡ true) × ((made : ℕ) × (IsClaimed made × (claims.tecu_address made ≡ preferred)))
  IsTecu false true =
      (enabled ≡ true)
      × (((made : ℕ) × (IsClaimed made × (claims.tecu_address made ≢ preferred)))
          ⊎ ((j : ℕ) → j ≤ 50 → claims.tecu_valid j ≡ false))
  IsTecu false false = enabled ≡ false

  -- Without an address, the task controller had none at any reading before one at which five seconds
  -- have passed. Otherwise the last reading is 250 ms or more after reading `claimed`, at which the task
  -- controller had its address, within five seconds.
  abbrev pub IsReady : Option Setup → Type 0
  IsReady none = false ≡ true
  IsReady (some no_tc_address) =
      (k : ℕ) × (1 ≤ k)
      × (5000 ≤ now k - now 0)
      × ((j : ℕ) → 1 ≤ j → j < k → (claims.tc_valid j ≡ false) × (now j - now 0 < 5000))
  IsReady (some (ready has_tecu claim_failed next)) =
      (claimed last : ℕ) × (claims.tc_valid claimed ≡ true)
      × (now claimed - now 0 < 5000)
      × (next ≡ suc last)
      × (now claimed + 250 ≤ now last)
      × IsTecu has_tecu claim_failed

  -- Where the attempts end.
  abbrev IsTried : ℕ → ℕ → ℕ → Type 0
  IsTried left made r =
      (made ≤ r)
      × (r ≤ made + left)
      × ((j : ℕ) → made ≤ j → j < r → claims.tecu_valid j ≡ false)
      × (claims.tecu_valid r ≡ false → r ≡ made + left)

  tecu_attempts-IsTried : (left made : ℕ) → IsTried left made (tecu_attempts now claims left made)
  unfolding tecu_attempts
  tecu_attempts-IsTried zero made =
      (omega arith, omega arith, (λ j from to. absurd (omega (arith, from, to))), λ h. omega arith)
  tecu_attempts-IsTried (suc left) made = elim (Bool-cases (claims.tecu_valid made)) [
    | inl valid ↦ rw valid (
      omega arith,
      omega arith,
      (λ j from to. absurd (omega (arith, from, to))),
      λ h. absurd (ground (arith, valid, h)),
    )
    | inr silent ↦
        let (low, high, before, all) = tecu_attempts-IsTried left (suc made) in
        rw silent (
          omega (arith, low),
          omega (arith, high),
          (λ j from to. elim (first_or_later made j from) [
            | inl first ↦ subst (λ i. claims.tecu_valid i ≡ false) first silent
            | inr after ↦ before j after to
          ]),
          λ h. omega (arith, all h),
        )
  ]

  -- Where the 50 attempts end, the address is valid for the first time, or it never was.
  IsClaimed-or_not :
      (made : ℕ)
      → IsTried 50 0 made
      → IsClaimed made
        ⊎ ((claims.tecu_valid made ≡ false) × ((j : ℕ) → j ≤ 50 → claims.tecu_valid j ≡ false))
  IsClaimed-or_not made (low, high, before, all) = elim (Bool-cases (claims.tecu_valid made)) [
    | inl valid ↦ inl (omega (arith, high), valid, λ j below. before j (omega arith) below)
    | inr silent ↦ inr (
      silent,
      λ j small. elim (first_or_later j made (omega (arith, small, all silent))) [
        | inl last ↦ subst (λ i. claims.tecu_valid i ≡ false) (sym last) silent
        | inr below ↦ before j (omega arith) below
      ],
    )
  ]

  -- The test after the attempts, for a tractor ECU that is enabled.
  claim_tests :
      (made : ℕ)
      → IsTried 50 0 made
      → enabled ≡ true
      → let got = claims.tecu_valid made && claims.tecu_address made == preferred in
        IsTecu got (not got)
  claim_tests made tried on = elim (IsClaimed-or_not made tried) [
    | inr (silent, never) ↦ rw silent (on, inr never)
    | inl (high, valid, first) ↦ elim (Bool-cases (claims.tecu_address made == preferred)) [
      | inl own ↦ rw (valid, own) (on, (made, ((high, valid, first), ground (arith, own))))
      | inr other ↦
          rw (valid, other)
            (
              on,
              inl (
                made,
                ((high, valid, first), ==_false→ne (claims.tecu_address made) preferred other),
              ),
            )
    ]
  ]

  -- The end of the set-up, from what is known of the two claims.
  result-IsReady :
      (on got : Bool) (claimed last : ℕ) (waited : Option ℕ) (k : ℕ)
      → on ≡ enabled
      → (enabled ≡ true → IsTecu got (not got))
      → claims.tc_valid claimed ≡ true
      → now claimed - now 0 < 5000
      → now claimed + 250 ≤ now last
      → waited ≡ some (suc k)
      → now last + 250 ≤ now k
      → IsReady (tecu_result now on got waited (suc last))
  result-IsReady false got claimed last waited k e h valid soon long w later_long =
      (claimed, last, valid, soon, refl, long, sym e)
  result-IsReady true false claimed last waited k e h valid soon long w later_long =
      (claimed, last, valid, soon, refl, long, h (sym e))
  result-IsReady true true claimed last waited k e h valid soon long w later_long =
      subst (λ o. IsReady (with_tecu now o)) (sym w)
        (claimed, k, valid, soon, refl, omega (arith, long, later_long), h (sym e))

  setup_tecu-IsReady :
      (fuel claimed last : ℕ)
      → 2501 ≤ fuel
      → claims.tc_valid claimed ≡ true
      → now claimed - now 0 < 5000
      → now claimed + 250 ≤ now last
      → IsReady (setup_tecu now claims preferred enabled fuel (suc last))
  unfolding setup_tecu
  setup_tecu-IsReady fuel claimed last enough valid soon long =
      let made = tecu_attempts now claims 50 0 in
      let (k, waited, after) = wait_after_claim_waits now clock fuel (suc last) enough in
      result-IsReady enabled (claims.tecu_valid made && claims.tecu_address made == preferred)
        claimed last (wait_after_claim now fuel (suc last)) k refl
        (claim_tests made (tecu_attempts-IsTried 50 0)) valid soon long waited
        (omega (arith, after, later now clock last (suc last) (omega arith)))

  waited-IsReady :
      (fuel : ℕ) (r : Option (Bool × ℕ))
      → 2501 ≤ fuel
      → IsWaited now clock claims.tc_valid 5000 (now 0) 1 r
      → IsReady (after_tc now r fuel (setup_tecu now claims preferred enabled fuel))
  waited-IsReady fuel none enough h = h
  waited-IsReady fuel (some (false, m)) enough (k, e, after, long, before) =
      (k, after, long, before)
  waited-IsReady fuel (some (true, m)) enough (k, e, after, valid, soon) =
      let (j, waited, long) = wait_after_claim_waits now clock fuel m enough in
      let step = later now clock k m (omega (arith, e)) in
      subst (λ o. IsReady (then_tecu now o (setup_tecu now claims preferred enabled fuel)))
        (sym waited) (setup_tecu-IsReady fuel k j enough valid soon (omega (arith, long, step)))

  -- With a clock that goes on, and whatever the bus answers, 2501 rounds are enough for the set-up to end.
  -- It ends without an address only if five seconds have passed and the task controller had none at any
  -- reading before. Otherwise the task controller claimed its address within five seconds and, as J1939-81
  -- asks for, 250 ms or more have passed since; and a tractor ECU is there exactly if it is enabled and
  -- its first valid address, after at most 50 attempts, is the preferred one, and is otherwise reported
  -- as failed exactly if it is enabled.
  pub setup_control_functions-IsReady :
      (fuel : ℕ) → 2501 ≤ fuel → IsReady (setup_control_functions now claims preferred enabled fuel)
  unfolding setup_control_functions
  setup_control_functions-IsReady fuel enough =
      waited-IsReady fuel (wait now claims.tc_valid 5000 (now 0) fuel 1) enough (
        wait_enough now clock claims.tc_valid 5000 (now 0) fuel 1 (omega arith)
          (later now clock 0 1 (omega arith)) enough)
