-- ===== src/Server/ValueCommand/Condensed.antt =====
-- What a condensed report does to the sections of a client.
use aog_task_controller.Prelude.{
  ℕ, zero, suc, ◌+◌, ◌-◌, ◌*◌, ◌/◌, ◌%◌, ◌^◌, ◌≤◌, ◌<◌, ◌≡◌, ◌≢◌, refl, ap, ◌∙◌, subst, ◌⊎◌, true,
  ◌||◌, some, arith, ltb, ◌==◌, if◌then◌else◌, u8, length, get_or, set, length-set, get_or-set_self,
  get_or-set_ne, ℕ_discrete,
}
use aog_task_controller.Isobus.{DataDictionary, IsStandard}
use aog_task_controller.Client.{
  ClientState, set_section_actual_state, set_element_number_for_section,
}
use aog_task_controller.Client.Invariant.{IsValid}
use aog_task_controller.Server.ValueCommand.{
  is_condensed_from, is_actual_condensed, report_section, report_sections, report_condensed,
  value_command,
}

-- A state with as many entries as sections in the two vectors that a report writes.
abbrev IsSized : {P : Type 0} → ClientState P → Type 0
IsSized s =
    (length s.section_actual_states ≡ s.number_of_sections)
    × (length s.section_to_element_number ≡ s.number_of_sections)

module _ {P : Type 0} (offset element value : ℕ) where
  -- One round writes one entry of each vector, if there is such a section.
  report_section_actual :
      (i : ℕ) (s : ClientState P)
      → (report_section offset element value i s).section_actual_states ≡ (
          if ltb (u8 (i + offset)) s.number_of_sections
          then set s.section_actual_states (u8 (i + offset)) (value / 2 ^ (2 * i) % 4)
          else s.section_actual_states)
  unfolding report_section set_section_actual_state set_element_number_for_section
  report_section_actual i s = ground arith

  report_section_number :
      (i : ℕ) (s : ClientState P)
      → (report_section offset element value i s).number_of_sections ≡ s.number_of_sections
  unfolding report_section set_section_actual_state set_element_number_for_section
  report_section_number i s = ground arith

  report_section_elements :
      (i : ℕ) (s : ClientState P)
      → IsSized s
      → (report_section offset element value i s).section_to_element_number ≡ (
          if ltb (u8 (i + offset)) s.number_of_sections
          then set s.section_to_element_number (u8 (i + offset)) element
          else s.section_to_element_number)
  unfolding report_section set_section_actual_state set_element_number_for_section
  report_section_elements i s sized = ground arith

  report_section-IsSized :
      (i : ℕ) (s : ClientState P) → IsSized s → IsSized (report_section offset element value i s)
  report_section-IsSized i s sized = ground (
    arith,
    report_section_actual i s,
    report_section_number i s,
    report_section_elements i s sized,
    length-set s.section_actual_states (u8 (i + offset)) (value / 2 ^ (2 * i) % 4),
    length-set s.section_to_element_number (u8 (i + offset)) element,
  )

  report_section_other :
      (i j : ℕ) (s : ClientState P)
      → IsSized s
      → u8 (i + offset) ≢ j
      → (get_or (report_section offset element value i s).section_actual_states j 0
          ≡ get_or s.section_actual_states j 0)
        × (get_or (report_section offset element value i s).section_to_element_number j 0
            ≡ get_or s.section_to_element_number j 0)
  report_section_other i j s sized apart = ground (
    arith,
    report_section_actual i s,
    report_section_elements i s sized,
    get_or-set_ne s.section_actual_states (u8 (i + offset)) j (value / 2 ^ (2 * i) % 4) 0 apart,
    get_or-set_ne s.section_to_element_number (u8 (i + offset)) j element 0 apart,
  )

  report_section_self :
      (i : ℕ) (s : ClientState P)
      → IsSized s
      → u8 (i + offset) < s.number_of_sections
      → (get_or (report_section offset element value i s).section_actual_states (u8 (i + offset)) 0
          ≡ value / 2 ^ (2 * i) % 4)
        × (get_or
              (report_section offset element value i s).section_to_element_number
              (u8 (i + offset))
              0
            ≡ element)
  report_section_self i s sized inside = ground (
    arith,
    report_section_actual i s,
    report_section_elements i s sized,
    get_or-set_self s.section_actual_states (u8 (i + offset)) (value / 2 ^ (2 * i) % 4) 0,
    get_or-set_self s.section_to_element_number (u8 (i + offset)) element 0,
  )

  report_sections-number :
      (rounds i : ℕ) (s : ClientState P)
      → (report_sections offset element value rounds i s).number_of_sections ≡ s.number_of_sections
  unfolding report_sections
  report_sections-number zero i s = refl
  report_sections-number (suc rounds) i s =
      report_sections-number rounds (i + 1) (report_section offset element value i s)
      ∙ report_section_number i s

  -- The sections before and after the rounds to come keep their entries.
  report_sections_other :
      (rounds i j : ℕ) (s : ClientState P)
      → IsSized s
      → offset + i + rounds ≤ 256
      → (j < offset + i) ⊎ (offset + i + rounds ≤ j)
      → (get_or (report_sections offset element value rounds i s).section_actual_states j 0
          ≡ get_or s.section_actual_states j 0)
        × (get_or (report_sections offset element value rounds i s).section_to_element_number j 0
            ≡ get_or s.section_to_element_number j 0)
  unfolding report_sections
  report_sections_other zero i j s sized fits out = (refl, refl)
  report_sections_other (suc rounds) i j s sized fits out =
      let s' = report_section offset element value i s in
      let later =
        report_sections_other rounds (i + 1) j s' (report_section-IsSized i s sized) (omega arith)
          (omega arith) in
      let now = report_section_other i j s sized (omega arith) in (later.0 ∙ now.0, later.1 ∙ now.1)

  report_sections_self :
      (rounds i k : ℕ) (s : ClientState P)
      → IsSized s
      → offset + i + rounds ≤ 256
      → i ≤ k
      → k < i + rounds
      → offset + k < s.number_of_sections
      → (get_or
            (report_sections offset element value rounds i s).section_actual_states
            (offset + k)
            0
          ≡ value / 2 ^ (2 * k) % 4)
        × (get_or
              (report_sections offset element value rounds i s).section_to_element_number
              (offset + k)
              0
            ≡ element)
  unfolding report_sections
  report_sections_self zero i k s sized fits low high inside = absurd (omega arith)
  report_sections_self (suc rounds) i k s sized fits low high inside =
      let s' = report_section offset element value i s in
      let sized' = report_section-IsSized i s sized in
      elim (ℕ_discrete i k) [
        | yes now ↦
            let index : u8 (i + offset) ≡ offset + k = omega arith in
            let self = report_section_self i s sized (omega arith) in
            let later =
              report_sections_other rounds (i + 1) (offset + k) s' sized' (omega arith)
                (omega arith) in
            let digit : value / 2 ^ (2 * i) % 4 ≡ value / 2 ^ (2 * k) % 4 =
              ap (λ t. value / 2 ^ (2 * t) % 4) now in
            (
              later.0
                  ∙ subst (λ t. get_or s'.section_actual_states t 0 ≡ value / 2 ^ (2 * i) % 4) index
                      self.0
                  ∙ digit,
              later.1 ∙ subst (λ t. get_or s'.section_to_element_number t 0 ≡ element) index self.1,
            )
        | no not_yet ↦
            report_sections_self rounds (i + 1) k s' sized' (omega arith) (omega arith)
              (omega arith) (omega (arith, report_section_number i s))
      ]

-- The DDI of each entry of the block is one of the sixteen labels.
is_condensed_from-label :
    (label : ℕ → ℕ) (n k : ℕ) → k < n → is_condensed_from label n (label k) ≡ true
unfolding is_condensed_from
is_condensed_from-label label zero k h = absurd (omega arith)
is_condensed_from-label label (suc n) k h = elim (ℕ_discrete k n) [
  | yes last ↦
      subst (λ t. (label k == label t || is_condensed_from label n (label k)) ≡ true) last
        (ground arith)
  | no before ↦ ground (arith, is_condensed_from-label label n k (omega arith))
]

-- A report on condensed entry k, from 0 to 15, from a client with a valid state, takes effect: for each of the
-- sections 16 k to 16 k + 15 that the client has, the actual state becomes the two bits of the value
-- for it, and its element the one that reports. Every other section keeps both.
pub value_command_condensed :
    {P : Type 0} (dd : DataDictionary) (k element value : ℕ) (s : ClientState P)
    → IsStandard dd
    → k < 16
    → IsValid s
    → (s' : ClientState P) × (value_command dd (dd.actual_condensed_work_state k) element value s
        ≡ some s')
      × (s'.number_of_sections ≡ s.number_of_sections)
      × ((i : ℕ)
          → i < 16
          → 16 * k + i < s.number_of_sections
          → (get_or s'.section_actual_states (16 * k + i) 0 ≡ value / 2 ^ (2 * i) % 4)
            × (get_or s'.section_to_element_number (16 * k + i) 0 ≡ element))
      × ((j : ℕ)
          → (j < 16 * k) ⊎ (16 * k + 16 ≤ j)
          → (get_or s'.section_actual_states j 0 ≡ get_or s.section_actual_states j 0)
            × (get_or s'.section_to_element_number j 0 ≡ get_or s.section_to_element_number j 0))
unfolding value_command report_condensed is_actual_condensed
value_command_condensed dd k element value s standard small v =
    let offset = 16 * k in
    let s' = report_sections offset element value 16 0 s in
    let sized : IsSized s = (v.actual_length, v.element_length) in
    let label = is_condensed_from-label dd.actual_condensed_work_state 16 k small in
    let consecutive = standard.actual_consecutive k small in
    let start : u8 (16 * u8 (dd.actual_condensed_work_state k - dd.actual_condensed_work_state 0))
        ≡ offset =
      omega arith in
    (
      s',
      rw label (ap (λ t. some (report_sections t element value 16 0 s)) start),
      report_sections-number offset element value 16 0 s,
      λ i low inside.
          report_sections_self offset element value 16 0 i s sized (omega arith) (omega arith)
            (omega arith) inside,
      λ j out.
          report_sections_other offset element value 16 0 j s sized (omega arith) (omega arith),
    )
