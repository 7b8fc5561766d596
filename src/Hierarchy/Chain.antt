-- ===== src/Hierarchy/Chain.antt =====
-- `any_in_chain` looks at all ancestors, also in a map with a cycle: its bound on the rounds suffices.
use aog_task_controller.Prelude.{
  ℕ, zero, suc, ◌≤◌, ◌<◌, ◌≡◌, ◌⊎◌, inl, inr, ◌↔◌, Bool, true, some, arith, length, Bool-cases,
  Option-cases, sym, subst, ℕ_discrete,
}
use aog_task_controller.Prelude.Map.{find, erase, find-erase, length-erase_lt}
use aog_task_controller.Hierarchy.{ParentMap, any_in_chain_from, any_in_chain}

-- `Ancestor parents element a`: `a` is the element, its parent, its parent's parent, and so on.
pub data Ancestor (parents : ParentMap) : ℕ → ℕ → Type 0 where
  here : (e : ℕ) → Ancestor parents e e
  up : (e q : ℕ) {a : ℕ} → find e parents ≡ some q → Ancestor parents q a → Ancestor parents e a

-- The predicate holds `n` steps up the chain.
abbrev Hits : ParentMap → (ℕ → Bool) → ℕ → ℕ → Type 0
Hits m p zero e = p e ≡ true
Hits m p (suc n) e = (q : ℕ) × (find e m ≡ some q) × Hits m p n q

-- A way up that ends well avoids a given element, or a later part of it starts there.
Hits-erase :
    (m : ParentMap) (p : ℕ → Bool) (x n y : ℕ)
    → Hits m p n y
    → Hits (erase x m) p n y ⊎ ((k : ℕ) × (k ≤ n) × Hits m p k x)
Hits-erase m p x zero y h = inl h
Hits-erase m p x (suc n) y (q, e, h) = elim (ℕ_discrete x y) [
  | yes same ↦ inr (suc n, omega arith, subst (Hits m p (suc n)) (sym same) (q, e, h))
  | no apart ↦ elim (Hits-erase m p x n q h) [
    | inl h' ↦ inl (q, ground (arith, find-erase x y m), h')
    | inr (k, le, h') ↦ inr (k, omega arith, h')
  ]
]

-- More rounds, and more entries, find no less.
any_in_chain_from_mono :
    (r s : ℕ) (x : ℕ) (m : ParentMap) (e : ℕ) (p : ℕ → Bool)
    → r ≤ s
    → any_in_chain_from r (erase x m) e p ≡ true
    → any_in_chain_from s m e p ≡ true
unfolding any_in_chain_from
any_in_chain_from_mono zero s x m e p le h = cc
any_in_chain_from_mono (suc r) zero x m e p le h = absurd (omega arith)
any_in_chain_from_mono (suc r) (suc s) x m e p le h = elim (Option-cases (find e m)) [
  | inl missing ↦ ground (arith, find-erase x e m)
  | inr (q, found) ↦
      ground (arith, find-erase x e m, any_in_chain_from_mono r s x m q p (omega arith))
]

any_in_chain_from_up :
    (r : ℕ) (m : ParentMap) (e q : ℕ) (p : ℕ → Bool)
    → find e m ≡ some q
    → any_in_chain_from r m q p ≡ true
    → any_in_chain_from (suc r) m e p ≡ true
unfolding any_in_chain_from
any_in_chain_from_up r m e q p found h = ground arith

-- `b` bounds the number of steps; it falls where the way passes the element again.
any_in_chain_from_complete :
    (s b n : ℕ) (m : ParentMap) (e : ℕ) (p : ℕ → Bool)
    → n < b
    → length m ≤ s
    → Hits m p n e
    → any_in_chain_from (suc s) m e p ≡ true
unfolding any_in_chain_from
any_in_chain_from_complete s zero n m e p lt le h = absurd (omega arith)
any_in_chain_from_complete s (suc b) zero m e p lt le h = ground arith
any_in_chain_from_complete zero (suc b) (suc n) m e p lt le (q, found, h) =
    absurd (omega (arith, length-erase_lt e m q found))
any_in_chain_from_complete (suc s) (suc b) (suc n) m e p lt le (q, found, h) =
    elim (Hits-erase m p e n q h) [
      | inl h' ↦ any_in_chain_from_up (suc s) m e q p found (
          any_in_chain_from_mono (suc s) (suc s) e m q p (omega arith) (
            any_in_chain_from_complete s (suc n) n (erase e m) q p (omega arith)
              (omega (arith, length-erase_lt e m q found)) h'))
      | inr (k, below, h') ↦ any_in_chain_from_complete (suc s) b k m e p (omega arith) le h'
    ]

any_in_chain_from_sound :
    (r : ℕ) (m : ParentMap) (e : ℕ) (p : ℕ → Bool)
    → any_in_chain_from r m e p ≡ true
    → (a : ℕ) × Ancestor m e a × (p a ≡ true)
unfolding any_in_chain_from
any_in_chain_from_sound zero m e p h = cc
any_in_chain_from_sound (suc r) m e p h = elim (Bool-cases (p e)) [
  | inl good ↦ (e, here e, good)
  | inr bad ↦ elim (Option-cases (find e m)) [
    | inl missing ↦ absurd (ground arith)
    | inr (q, found) ↦
        let (a, way, good) = any_in_chain_from_sound r m q p (ground arith) in
        (a, up e q found way, good)
  ]
]

Ancestor-Hits :
    (m : ParentMap) (p : ℕ → Bool) {e a : ℕ} → Ancestor m e a → p a ≡ true → (n : ℕ) × Hits m p n e
Ancestor-Hits m p (here e) good = (0, good)
Ancestor-Hits m p (up e q found way) good =
    let (n, h) = Ancestor-Hits m p way good in (suc n, (q, found, h))

-- The walk says true exactly if the predicate holds of the element or of some ancestor, however the
-- parents are linked: a cycle among them neither keeps it running nor hides an ancestor.
pub any_in_chain_iff :
    (parents : ParentMap) (element_number : ℕ) (predicate : ℕ → Bool)
    → (any_in_chain parents element_number predicate ≡ true)
      ↔ ((a : ℕ) × Ancestor parents element_number a × (predicate a ≡ true))
unfolding any_in_chain
any_in_chain_iff m e p = (
  any_in_chain_from_sound (suc (length m)) m e p,
  λ (a, way, good).
      let (n, h) = Ancestor-Hits m p way good in
      any_in_chain_from_complete (length m) (suc n) n m e p (omega arith) (omega arith) h,
)
