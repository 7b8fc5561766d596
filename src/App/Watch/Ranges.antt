-- ===== src/App/Watch/Ranges.antt =====
-- The ranges of `describe_section_demand` are the sections that are on.
use aog_task_controller.Prelude.{
  ℕ, zero, suc, ◌+◌, ◌-◌, ◌≤◌, ◌<◌, ◌≡◌, refl, ap, ◌∙◌, subst, inl, inr, Bool, true, false, not,
  ◌&&◌, ◌||◌, List, [], ◌∷◌, arith, ltb, leb, Bool-cases, get_or, lt→ltb, ltb→lt, ltb→ge, length,
  get_or_past, ◌==◌, if_both,
}
use aog_task_controller.App.Watch.{run_end, starts, demand_ranges, described_count}

-- A section is in one of the ranges.
unfoldable pub covered : List (ℕ × ℕ) → ℕ → Bool
covered [] section = false
covered ((first, last) ∷ rest) section =
    leb first section && leb section last || covered rest section

-- The truth tables of a round: for the section itself, and for one behind it.
first_section :
    (before here above below later : Bool)
    → above ≡ true
    → below ≡ true
    → later ≡ false
    → (here && not before && (above && below) || later) ≡ (here && not (before && (here && true)))
first_section before here above below later a b c = ground (arith, a, b, c)

later_section :
    (before here above below there run later : Bool)
    → above ≡ true
    → below ≡ run
    → (run ≡ true → there ≡ true)
    → later ≡ (there && not (here && run))
    → (here && not before && (above && below) || later) ≡ (there && not (before && (here && run)))
later_section before here above below there run later a b c d = ground (arith, a, b, c, d)

module _ (demand : List Bool) where
  abbrev on : ℕ → Bool
  on section = get_or demand section false

  -- So many sections in a row are on.
  all_on : ℕ → ℕ → Bool
  all_on first zero = true
  all_on first (suc rounds) = on first && all_on (first + 1) rounds

  all_on_last : (first rounds : ℕ) → all_on first (suc rounds) ≡ true → on (first + rounds) ≡ true
  unfolding all_on
  all_on_last first zero h =
      let e : first ≡ first + 0 = omega arith in subst (λ n. on n ≡ true) e (ground (arith, h))
  all_on_last first (suc rounds) h =
      let e : first + 1 + rounds ≡ first + suc rounds = omega arith in
      let rest : all_on (first + 1) (suc rounds) ≡ true = ground (arith, h) in
      subst (λ n. on n ≡ true) e (all_on_last (first + 1) rounds rest)

  run_end_ge : (count rounds last : ℕ) → last ≤ run_end demand count rounds last
  unfolding run_end
  run_end_ge count zero last = omega arith
  run_end_ge count (suc rounds) last = ground (arith, run_end_ge count rounds (last + 1))

  -- The run goes on for as long as the sections are on.
  run_end-all_on :
      (count rounds last k : ℕ)
      → k ≤ rounds
      → last + k < count
      → leb (last + k) (run_end demand count rounds last) ≡ all_on (last + 1) k
  unfolding all_on run_end
  run_end-all_on count rounds last zero h inside = ground (arith, run_end_ge count rounds last)
  run_end-all_on count zero last (suc k) h inside = absurd (omega (arith, h))
  run_end-all_on count (suc rounds) last (suc k) h inside =
      let e : last + 1 + k ≡ last + suc k = omega arith in
      let ih =
        subst (λ n. leb n (run_end demand count rounds (last + 1)) ≡ all_on (last + 1 + 1) k) e
          (run_end-all_on count rounds (last + 1) k (omega (arith, h)) (omega (arith, inside))) in
      let below : ltb (last + 1) count ≡ true = lt→ltb (last + 1) count (omega (arith, inside)) in
      elim (Bool-cases (on (last + 1))) [
        | inl further ↦ rw (below, further) ih
        | inr stops ↦ rw (below, stops) (ground arith)
      ]

  -- One round adds the range that starts here, if one does.
  covered_round :
      (count rounds i section : ℕ)
      → covered (demand_ranges demand count (suc rounds) i).1 section ≡ (
          starts demand i && (leb i section && leb section (run_end demand count count i))
          || covered (demand_ranges demand count rounds (i + 1)).1 section)
  unfolding covered demand_ranges
  covered_round count rounds i section = elim (Bool-cases (starts demand i)) [
    | inl here ↦ rw here refl
    | inr none_here ↦ elim (Bool-cases (on i)) [
      | inl inside ↦ rw (none_here, inside) refl
      | inr off ↦ rw (none_here, off) refl
    ]
  ]

  -- No range starts before the section that the loop has come to.
  covered_before :
      (count rounds i section : ℕ)
      → section < i
      → covered (demand_ranges demand count rounds i).1 section ≡ false
  covered_before count zero i section h = unfold covered demand_ranges in refl
  covered_before count (suc rounds) i section h =
      let rest = covered_before count rounds (i + 1) section (omega (arith, h)) in
      covered_round count rounds i section ∙ ground (arith, rest, h)

  -- The run before the section `i` reaches the section `i + k`.
  abbrev carried : ℕ → ℕ → Bool
  carried i k = (ltb 0 i && on (i - 1)) && all_on i (suc k)

  covered_from :
      (count rounds i k : ℕ)
      → k < rounds
      → i + rounds ≡ count
      → covered (demand_ranges demand count rounds i).1 (i + k) ≡ (on (i + k) && not (carried i k))
  unfolding all_on
  covered_from count zero i k h e = absurd (omega (arith, h))
  covered_from count (suc rounds) i zero h e =
      let here : i + 0 ≡ i = omega arith in
      let stop = run_end demand count count i in
      let first =
        covered_round count rounds i i
        ∙ first_section (ltb 0 i && on (i - 1)) (on i) (leb i i) (leb i stop)
            (covered (demand_ranges demand count rounds (i + 1)).1 i) (ground arith)
            (ground (arith, run_end_ge count count i))
            (covered_before count rounds (i + 1) i (omega arith)) in
      rw here first
  covered_from count (suc rounds) i (suc k) h e =
      let j = i + suc k in
      let there : i + 1 + k ≡ j = omega arith in
      let stop = run_end demand count count i in
      let back : i + 1 - 1 ≡ i = omega arith in
      let before : (ltb 0 (i + 1) && on (i + 1 - 1)) ≡ on i =
        rw (back, lt→ltb 0 (i + 1) (omega arith)) refl in
      let ih : covered (demand_ranges demand count rounds (i + 1)).1 j
          ≡ (on j && not (on i && all_on (i + 1) (suc k))) =
        subst
          (λ n.
            covered (demand_ranges demand count rounds (i + 1)).1 n
            ≡ (on n && not (on i && all_on (i + 1) (suc k))))
          there
          (covered_from count rounds (i + 1) k (omega (arith, h)) (omega (arith, e))
            ∙ ap (λ b. on (i + 1 + k) && not (b && all_on (i + 1) (suc k))) before) in
      covered_round count rounds i j
      ∙ later_section (ltb 0 i && on (i - 1)) (on i) (leb i j) (leb j stop) (on j)
          (all_on (i + 1) (suc k)) (covered (demand_ranges demand count rounds (i + 1)).1 j)
          (ground arith)
          (run_end-all_on count count i (suc k) (omega (arith, h, e)) (omega (arith, h, e)))
          (λ all. subst (λ n. on n ≡ true) there (all_on_last (i + 1) k all)) ih

  run_end_inside : (count rounds last : ℕ) → last < count → run_end demand count rounds last < count
  unfolding run_end
  run_end_inside count zero last h = h
  run_end_inside count (suc rounds) last h = elim (Bool-cases (ltb (last + 1) count)) [
    | inl below ↦
        let next = run_end_inside count rounds (last + 1) (ltb→lt (last + 1) count below) in
        if_both (λ e. e < count) (ltb (last + 1) count && on (last + 1)) _ last next h
    | inr above ↦ rw above h
  ]

  -- No range reaches a section past the last one.
  covered_past :
      (count rounds i section : ℕ)
      → i + rounds ≡ count
      → count ≤ section
      → covered (demand_ranges demand count rounds i).1 section ≡ false
  covered_past count zero i section e past = unfold covered demand_ranges in refl
  covered_past count (suc rounds) i section e past =
      let rest = covered_past count rounds (i + 1) section (omega (arith, e)) past in
      let stop = run_end demand count count i in
      let inside = run_end_inside count count i (omega (arith, e)) in
      let short : leb section stop ≡ false = ground (arith, inside, past) in
      covered_round count rounds i section ∙ ground (arith, rest, short)

  covered_inside :
      (count section : ℕ)
      → section < count
      → covered (demand_ranges demand count count 0).1 section ≡ on section
  covered_inside count section below =
      let here : 0 + section ≡ section = omega arith in
      let none_before : (on (0 + section) && not (carried 0 section)) ≡ on (0 + section) =
        ground arith in
      subst (λ n. covered (demand_ranges demand count count 0).1 n ≡ on n) here
        (covered_from count count 0 section below (omega arith) ∙ none_before)

  asked_inside :
      (n section : ℕ)
      → section < described_count demand n
      → on section ≡ (on section && (n == 0 || ltb section n))
  unfolding described_count
  asked_inside n section below = elim (Bool-cases (n == 0)) [
    | inl all ↦ rw all (ground arith)
    | inr some_sections ↦
        let inside : ltb section n ≡ true = ground (arith, below) in
        rw (some_sections, inside) (ground arith)
  ]

  asked_past :
      (n section : ℕ)
      → described_count demand n ≤ section
      → false ≡ (on section && (n == 0 || ltb section n))
  unfolding described_count
  asked_past n section past = elim (Bool-cases (ltb section (length demand))) [
    | inl inside ↦ ground (arith, past)
    | inr outside ↦
        rw (get_or_past demand section false (ltb→ge section (length demand) outside)) refl
  ]

  -- A section is in one of the ranges that are described exactly if it is on in the demand and is one
  -- of the given number of sections, where the number 0 stands for all of them.
  pub demand_ranges-covered :
      (number_of_sections section : ℕ)
      → let count = described_count demand number_of_sections in
        covered (demand_ranges demand count count 0).1 section ≡ (
          get_or demand section false
          && (number_of_sections == 0 || ltb section number_of_sections))
  demand_ranges-covered number_of_sections section =
      let count = described_count demand number_of_sections in
      elim (Bool-cases (ltb section count)) [
        | inl inside ↦
            let below = ltb→lt section count inside in
            covered_inside count section below ∙ asked_inside number_of_sections section below
        | inr outside ↦
            let past = ltb→ge section count outside in
            covered_past count count 0 section (omega arith) past
            ∙ asked_past number_of_sections section past
      ]
