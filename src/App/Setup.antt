-- ===== src/App/Setup.antt =====
-- `Application::setup_control_functions` of src/app.cpp: the claims of the two addresses and the waiting
-- that J1939-81 asks for. The code reads the clock again and again; `now` gives what the n-th reading
-- comes to, and the bus is what the CAN stack says at that reading.
pub mod Waiting
pub mod Ready
use aog_task_controller.Prelude.{
  ℕ, zero, suc, ◌+◌, ◌-◌, Bool, true, false, not, ◌&&◌, Option, none, some, ltb, leb, ◌==◌,
  if◌then◌else◌,
}

-- The answers of the control functions: `get_address_valid` of the task controller at a reading of the
-- clock, that of the tractor ECU after a number of attempts, and the address that the latter has then.
pub record Claims : Type 0 where
  pub tc_valid : ℕ → Bool
  pub tecu_valid : ℕ → Bool
  pub tecu_address : ℕ → ℕ

-- How the set-up ends: without an address for the task controller, or with whether there is a tractor
-- ECU, `tecuAddressClaimFailed`, and the number of the next reading.
pub data Setup : Type 0 where
  no_tc_address : Setup
  ready : (has_tecu claim_failed : Bool) (next : ℕ) → Setup

module _ (now : ℕ → ℕ) where
  -- A loop that waits for an answer or for a time to pass since `start`, by the readings from `n` on: why
  -- it ended and the next reading. Without an answer to wait for, `answers` is false.
  unfoldable pub wait : (ℕ → Bool) → ℕ → ℕ → ℕ → ℕ → Option (Bool × ℕ)
  wait answers limit start zero n = none
  wait answers limit start (suc fuel) n =
      let rest = wait answers limit start fuel (suc n) in
      if not (ltb (now n - start) limit)
      then some (false, suc n)
      else if answers n
      then some (true, suc n)
      else rest

  abbrev pub next_reading : Option (Bool × ℕ) → Option ℕ
  next_reading none = none
  next_reading (some (answered, n)) = some n

  -- The delay after a claim: `n` is the reading at which the address was claimed.
  unfoldable pub wait_after_claim : ℕ → ℕ → Option ℕ
  unfolding wait
  wait_after_claim fuel n =
      let elapsed = now (n + 1) - now n in
      let remaining = 250 - elapsed in
      let waited = next_reading (wait (λ k. false) remaining (now (n + 2)) fuel (n + 3)) in
      if ltb elapsed 250 then waited else some (n + 2)

  -- The attempts of the tractor ECU: those left, and those made.
  unfoldable pub tecu_attempts : Claims → ℕ → ℕ → ℕ
  tecu_attempts claims zero made = made
  tecu_attempts claims (suc left) made =
      let more = tecu_attempts claims left (suc made) in
      if claims.tecu_valid made then made else more

  abbrev pub with_tecu : Option ℕ → Option Setup
  with_tecu none = none
  with_tecu (some n) = some (ready true false n)

  -- Whether the tractor ECU is enabled and whether it has claimed its address, the end of its delay, and
  -- the next reading without it.
  abbrev pub tecu_result : Bool → Bool → Option ℕ → ℕ → Option Setup
  tecu_result false claimed waited n = some (ready false false n)
  tecu_result true true waited n = with_tecu waited
  tecu_result true false waited n = some (ready false true n)

  -- The tractor ECU, from the reading `n` on; `preferred` is its address.
  unfoldable pub setup_tecu : Claims → ℕ → Bool → ℕ → ℕ → Option Setup
  setup_tecu claims preferred enabled fuel n =
      let made = tecu_attempts claims 50 0 in
      tecu_result enabled (claims.tecu_valid made && claims.tecu_address made == preferred)
        (wait_after_claim fuel n) n

  abbrev pub then_tecu : Option ℕ → (ℕ → Option Setup) → Option Setup
  then_tecu none next = none
  then_tecu (some n) next = next n

  abbrev pub after_tc : Option (Bool × ℕ) → ℕ → (ℕ → Option Setup) → Option Setup
  after_tc none fuel next = none
  after_tc (some (false, n)) fuel next = some no_tc_address
  after_tc (some (true, n)) fuel next = then_tecu (wait_after_claim fuel n) next

  -- The whole function; reading 0 is `tcClaimWaitStart`. `none` only if the fuel of a loop runs out.
  unfoldable pub setup_control_functions : Claims → ℕ → Bool → ℕ → Option Setup
  setup_control_functions claims preferred enabled fuel =
      after_tc (wait claims.tc_valid 5000 (now 0) fuel 1) fuel
        (setup_tecu claims preferred enabled fuel)
