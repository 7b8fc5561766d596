-- ===== src/App/Setup/Waiting.antt =====
-- The loops that wait end, and what holds then.
use aog_task_controller.Prelude.{
  ℕ, zero, suc, ◌+◌, ◌-◌, ◌*◌, ◌≤◌, ◌<◌, ◌≡◌, refl, ap, subst, ◌⊎◌, inl, inr, Bool, true, false,
  Option, none, some, arith, ltb, Bool-cases, ge→ltb, ltb→lt, ltb→ge,
}
use aog_task_controller.App.Setup.{wait, next_reading, wait_after_claim}

-- What the readings of the clock are documented to be: they do not go back, and the fifth after
-- each is ten milliseconds later, since at most five follow one another without a pause of the loops.
pub record IsClock (now : ℕ → ℕ) : Type 0 where
  pub forward : (n : ℕ) → now n ≤ now (suc n)
  pub pauses : (n : ℕ) → now n + 10 ≤ now (n + 5)

pub first_or_later : (n j : ℕ) → n ≤ j → (n ≡ j) ⊎ (suc n ≤ j)
first_or_later n j h = ground (arith, h)

module _ (now : ℕ → ℕ) (clock : IsClock now) where
  forward-add : (n k : ℕ) → now n ≤ now (n + k)
  forward-add n zero = let e : n ≡ n + 0 = omega arith in subst (λ m. now n ≤ now m) e (omega arith)
  forward-add n (suc k) =
      let e : suc (n + k) ≡ n + suc k = omega arith in
      subst (λ m. now n ≤ now m) e (omega (arith, forward-add n k, clock.forward (n + k)))

  pub later : (m n : ℕ) → m ≤ n → now m ≤ now n
  later m n h =
      let e : m + (n - m) ≡ n = omega (arith, h) in
      subst (λ q. now m ≤ now q) e (forward-add m (n - m))

  passed : (n k : ℕ) → now n + 10 * k ≤ now (n + 5 * k)
  passed n zero =
      let e : n ≡ n + 5 * 0 = omega arith in subst (λ m. now n + 10 * 0 ≤ now m) e (omega arith)
  passed n (suc k) =
      let e : n + 5 * k + 5 ≡ n + 5 * suc k = omega arith in
      subst (λ m. now n + 10 * suc k ≤ now m) e
        (omega (arith, passed n k, clock.pauses (n + 5 * k)))

  -- How a loop from reading `n` on ends, with its last reading: at the limit it has had no answer at any
  -- reading before.
  abbrev pub IsWaited : (ℕ → Bool) → ℕ → ℕ → ℕ → Option (Bool × ℕ) → Type 0
  IsWaited answers limit start n none = false ≡ true
  IsWaited answers limit start n (some (false, m)) =
      (k : ℕ) × (m ≡ suc k)
      × (n ≤ k)
      × (limit ≤ now k - start)
      × ((j : ℕ) → n ≤ j → j < k → (answers j ≡ false) × (now j - start < limit))
  IsWaited answers limit start n (some (true, m)) =
      (k : ℕ) × (m ≡ suc k) × (n ≤ k) × (answers k ≡ true) × (now k - start < limit)

  earlier :
      (answers : ℕ → Bool) (limit start n : ℕ) (r : Option (Bool × ℕ))
      → answers n ≡ false
      → now n - start < limit
      → IsWaited answers limit start (suc n) r
      → IsWaited answers limit start n r
  earlier answers limit start n none silent soon h = h
  earlier answers limit start n (some (false, m)) silent soon (k, e, after, long, before) = (
    k,
    e,
    omega (arith, after),
    long,
    λ j from to. elim (first_or_later n j from) [
      | inl first ↦ subst (λ i. (answers i ≡ false) × (now i - start < limit)) first (silent, soon)
      | inr after_first ↦ before j after_first to
    ],
  )
  earlier answers limit start n (some (true, m)) silent soon (k, e, after, answered, short) =
      (k, e, omega (arith, after), answered, short)

  wait-IsWaited :
      (answers : ℕ → Bool) (limit start fuel n j : ℕ)
      → j < fuel
      → limit ≤ now (n + j) - start
      → IsWaited answers limit start n (wait now answers limit start fuel n)
  unfolding wait
  wait-IsWaited answers limit start zero n j h long = absurd (omega (arith, h))
  wait-IsWaited answers limit start (suc fuel) n zero h long =
      let e : n + 0 ≡ n = omega arith in
      let late : limit ≤ now n - start = subst (λ m. limit ≤ now m - start) e long in
      rw (ge→ltb (now n - start) limit late)
        (n, refl, omega arith, late, λ j from to. absurd (omega (arith, from, to)))
  wait-IsWaited answers limit start (suc fuel) n (suc j) h long =
      elim (Bool-cases (ltb (now n - start) limit)) [
        | inr late ↦ rw late (
          n,
          refl,
          omega arith,
          ltb→ge (now n - start) limit late,
          λ i from to. absurd (omega (arith, from, to)),
        )
        | inl soon ↦ elim (Bool-cases (answers n)) [
          | inl answered ↦
              rw (soon, answered)
                (n, refl, omega arith, answered, ltb→lt (now n - start) limit soon)
          | inr silent ↦
              let e : n + suc j ≡ suc n + j = omega arith in
              rw (soon, silent)
                (earlier answers limit start n (wait now answers limit start fuel (suc n)) silent
                  (ltb→lt (now n - start) limit soon)
                  (wait-IsWaited answers limit start fuel (suc n) j (omega (arith, h))
                    (subst (λ m. limit ≤ now m - start) e long)))
        ]
      ]

  -- 2501 rounds are enough for a loop of up to five seconds that starts not before
  -- `start`.
  pub wait_enough :
      (answers : ℕ → Bool) (limit start fuel n : ℕ)
      → limit ≤ 5000
      → start ≤ now n
      → 2501 ≤ fuel
      → IsWaited answers limit start n (wait now answers limit start fuel n)
  wait_enough answers limit start fuel n small started enough =
      wait-IsWaited answers limit start fuel n (5 * 500) (omega (arith, enough))
        (omega (arith, passed n 500, small, started))

  never :
      (limit start n : ℕ) (r : Option (Bool × ℕ))
      → IsWaited (λ k. false) limit start n r
      → (k : ℕ) × (next_reading now r ≡ some (suc k)) × (limit ≤ now k - start)
  never limit start n none h = absurd (ground arith)
  never limit start n (some (false, m)) (k, e, after, long, before) = (k, ap some e, long)
  never limit start n (some (true, m)) (k, e, after, answered, short) = absurd (ground arith)

  -- The delay ends, and its last reading is 250 ms or more after the claim.
  pub wait_after_claim_waits :
      (fuel n : ℕ)
      → 2501 ≤ fuel
      → (k : ℕ) × (wait_after_claim now fuel n ≡ some (suc k)) × (now n + 250 ≤ now k)
  unfolding wait_after_claim
  wait_after_claim_waits fuel n enough =
      let elapsed = now (n + 1) - now n in
      elim (Bool-cases (ltb elapsed 250)) [
        | inl short ↦
            let start = now (n + 2) in
            let limit = 250 - elapsed in
            let waited =
              wait_enough (λ k. false) limit start fuel (n + 3) (omega arith)
                (later (n + 2) (n + 3) (omega arith)) enough in
            let (k, e, long) = never limit start (n + 3) _ waited in
            let one = later n (n + 1) (omega arith) in
            let two = later (n + 1) (n + 2) (omega arith) in
            rw short (k, e, omega (arith, one, two, long, ltb→lt elapsed 250 short))
        | inr long ↦
            let one = later n (n + 1) (omega arith) in
            let e : n + 2 ≡ suc (n + 1) = omega arith in
            rw long (n + 1, ap some e, omega (arith, one, ltb→ge elapsed 250 long))
      ]
