-- ===== src/App/Watch/Warning.antt =====
-- A client that works without a demand is warned about, once, when ten seconds have passed.
use aog_task_controller.Prelude.{
  ℕ, ◌+◌, ◌≡◌, ◌≢◌, ap, ◌∙◌, subst, inl, inr, Bool, true, false, not, ◌&&◌, ◌||◌, List, [], ◌∷◌,
  ◌++◌, Option, none, some, arith, ◌-◌, ◌%◌, ◌^◌, leb, ◌==◌, if◌then◌else◌, to_nat, Bool-cases,
  ne→==, ==_false→ne,
}
use aog_task_controller.Prelude.Map.{Map, find, find-assign, find-erase}
use aog_task_controller.App.Watch.{Tracked, Check, check_client, check_clients, elapsed, or_new}

-- How many of the warnings are about a client.
unfoldable pub warnings_for : ℕ → List (ℕ × List ℕ) → ℕ
warnings_for name [] = 0
warnings_for name ((n, text) ∷ rest) = to_nat (n == name) + warnings_for name rest

-- In every check of the client it works without a demand.
abbrev pub WorksThroughout : ℕ → List Check → Type 0
WorksThroughout name [] = Unit {0}
WorksThroughout name (c ∷ rest) =
    (c.name ≡ name → c.works_without_demand ≡ true) × WorksThroughout name rest

-- A check of the client comes ten seconds or more after a time, on the clock of 32 bits.
unfoldable pub any_late : ℕ → ℕ → List Check → Bool
any_late name since [] = false
any_late name since (c ∷ rest) =
    (c.name == name && leb 10000 ((c.now_ms + 2 ^ 32 - since) % 2 ^ 32)) || any_late name since rest

-- A check of the client comes ten seconds or more after its first one.
unfoldable pub late_after_first : ℕ → List Check → Bool
unfolding any_late
late_after_first name [] = false
late_after_first name (c ∷ rest) =
    if c.name == name then any_late name c.now_ms rest else late_after_first name rest

warnings_for-append :
    (name : ℕ) (xs ys : List (ℕ × List ℕ))
    → warnings_for name (xs ++ ys) ≡ warnings_for name xs + warnings_for name ys
unfolding warnings_for
warnings_for-append name [] ys = omega arith
warnings_for-append name ((n, text) ∷ xs) ys = omega (arith, warnings_for-append name xs ys)

-- A check of another client.
check_other :
    (name : ℕ) (watched : Map Tracked) (c : Check)
    → c.name ≢ name
    → (find name (check_client watched c).0 ≡ find name watched)
      × (warnings_for name (check_client watched c).1 ≡ 0)
unfolding check_client warnings_for
check_other name watched c apart =
    let other = ne→== c.name name apart in
    let tracked = or_new (find c.name watched) c.now_ms in
    ground (
      arith,
      other,
      find-erase c.name name watched,
      find-assign c.name name tracked watched,
      find-assign c.name name (record tracked { warned = true }) watched,
    )

-- The two ways in which a check of the client itself can go.
abbrev is_late : Tracked → Check → Bool
is_late t c = not t.warned && leb 10000 (elapsed c.now_ms t.since_ms)

abbrev noted : Tracked → Check → Tracked
noted t c = record t { warned = t.warned || is_late t c }

check_named :
    (watched : Map Tracked) (c : Check) (t : Tracked)
    → find c.name watched ≡ some t
    → c.works_without_demand ≡ true
    → (find c.name (check_client watched c).0 ≡ some (noted t c))
      × (warnings_for c.name (check_client watched c).1 ≡ to_nat (is_late t c))
unfolding check_client warnings_for
check_named watched c t known works = ground (
  arith,
  find-assign c.name c.name t watched,
  find-assign c.name c.name (record t { warned = true }) watched,
)

check_self :
    (name : ℕ) (watched : Map Tracked) (c : Check) (t : Tracked)
    → c.name ≡ name
    → find name watched ≡ some t
    → c.works_without_demand ≡ true
    → (find name (check_client watched c).0 ≡ some (noted t c))
      × (warnings_for name (check_client watched c).1 ≡ to_nat (is_late t c))
check_self name watched c t self known works =
    let (watched', warnings) = check_client watched c in
    subst
      (λ n. (find n watched' ≡ some (noted t c)) × (warnings_for n warnings ≡ to_nat (is_late t c)))
      self (check_named watched c t (ap (λ n. find n watched) self ∙ known) works)

-- A warning now leaves none to come.
now_or_later :
    (warned late rest : Bool)
    → to_nat (not warned && late) + (if warned || not warned && late then 0 else to_nat rest)
      ≡ (if warned then 0 else to_nat (late || rest))
now_or_later true late rest = omega arith
now_or_later false true rest = omega arith
now_or_later false false rest = omega arith

-- The first check of the client, which gives no warning.
check_first :
    (watched : Map Tracked) (c : Check)
    → find c.name watched ≡ none
    → c.works_without_demand ≡ true
    → (find c.name (check_client watched c).0
        ≡ some (record { since_ms = c.now_ms; warned = false }))
      × (warnings_for c.name (check_client watched c).1 ≡ 0)
unfolding check_client warnings_for
check_first watched c unknown works =
    let started : leb 10000 (elapsed c.now_ms c.now_ms) ≡ false = ground arith in
    ground (
      arith,
      started,
      find-assign c.name c.name (record { since_ms = c.now_ms; warned = false }) watched,
    )

check_first_self :
    (name : ℕ) (watched : Map Tracked) (c : Check)
    → c.name ≡ name
    → find name watched ≡ none
    → c.works_without_demand ≡ true
    → (find name (check_client watched c).0 ≡ some (record { since_ms = c.now_ms; warned = false }))
      × (warnings_for name (check_client watched c).1 ≡ 0)
check_first_self name watched c self unknown works =
    let (watched', warnings) = check_client watched c in
    subst
      (λ n.
        (find n watched' ≡ some (record { since_ms = c.now_ms; warned = false }))
        × (warnings_for n warnings ≡ 0))
      self (check_first watched c (ap (λ n. find n watched) self ∙ unknown) works)

module _ (name : ℕ) where
  -- What is to come for a client, by what is known of it.
  abbrev pub due : Option Tracked → List Check → ℕ
  due none checks = to_nat (late_after_first name checks)
  due (some t) checks = if t.warned then 0 else to_nat (any_late name t.since_ms checks)

  tracked_due :
      (checks : List Check) (watched : Map Tracked) (t : Tracked)
      → find name watched ≡ some t
      → WorksThroughout name checks
      → warnings_for name (check_clients watched checks).1 ≡ due (some t) checks
  unfolding check_clients any_late
  tracked_due [] watched t known works = unfold warnings_for in ground arith
  tracked_due (c ∷ rest) watched t known works =
      let (watched', now) = check_client watched c in
      let later = (check_clients watched' rest).1 in
      warnings_for-append name now later ∙ elim (Bool-cases (c.name == name)) [
        | inr other ↦
            let (same_known, none_now) =
              check_other name watched c (==_false→ne c.name name other) in
            let ih = tracked_due rest watched' t (same_known ∙ known) works.1 in
            rw (other, none_now) (omega (arith, ih))
        | inl same ↦
            let self : c.name ≡ name = ground arith in
            let (known', count) = check_self name watched c t self known (works.0 self) in
            let ih = tracked_due rest watched' (noted t c) known' works.1 in
            rw (same, count, ih)
              (now_or_later t.warned (leb 10000 (elapsed c.now_ms t.since_ms))
                (any_late name t.since_ms rest))
      ]

  untracked_due :
      (checks : List Check) (watched : Map Tracked)
      → find name watched ≡ none
      → WorksThroughout name checks
      → warnings_for name (check_clients watched checks).1 ≡ due none checks
  unfolding check_clients late_after_first
  untracked_due [] watched unknown works = unfold warnings_for in ground arith
  untracked_due (c ∷ rest) watched unknown works =
      let (watched', now) = check_client watched c in
      let later = (check_clients watched' rest).1 in
      warnings_for-append name now later ∙ elim (Bool-cases (c.name == name)) [
        | inr other ↦
            let (same_unknown, none_now) =
              check_other name watched c (==_false→ne c.name name other) in
            let ih = untracked_due rest watched' (same_unknown ∙ unknown) works.1 in
            rw (other, none_now) (omega (arith, ih))
        | inl same ↦
            let self : c.name ≡ name = ground arith in
            let (known, none_now) = check_first_self name watched c self unknown (works.0 self) in
            let ih =
              tracked_due rest watched' (record { since_ms = c.now_ms; warned = false }) known
                works.1 in
            rw (same, none_now, ih) (omega arith)
      ]

  -- Any checks of clients, of which all that are about one client find it working without a demand.
  -- If it was not tracked, there is exactly one warning about it if one of its checks comes ten seconds
  -- or more after its first one. If it was tracked since a time, there is exactly one if one of its
  -- checks comes ten seconds or more after that time and it has not been warned about before. There is
  -- none otherwise.
  pub check_clients-due :
      (checks : List Check) (watched : Map Tracked) (known : Option Tracked)
      → find name watched ≡ known
      → WorksThroughout name checks
      → warnings_for name (check_clients watched checks).1 ≡ due known checks
  check_clients-due checks watched none unknown works = untracked_due checks watched unknown works
  check_clients-due checks watched (some t) known works = tracked_due checks watched t known works
