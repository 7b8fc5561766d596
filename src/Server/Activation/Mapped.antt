-- ===== src/Server/Activation/Mapped.antt =====
-- The loop that gives the sections of a client their element numbers.
use aog_task_controller.Prelude.{
  ℕ, zero, suc, ◌+◌, ◌≤◌, ◌<◌, ◌≡◌, refl, ap, ◌∙◌, sym, true, ◌&&◌, ◌||◌, List, [], ◌∷◌, arith, ltb,
  if◌then◌else◌, if_true, if_both, length, get_or, set, length-set, length-resize, get_or-set_self,
  get_or-set_ne, u8,
}
use aog_task_controller.Prelude.Map.{assign}
use aog_task_controller.Isobus.{DataDictionary, PoolLibrary, objects}
use aog_task_controller.Client.{
  ClientState, new_state, build_element_hierarchy, set_number_of_sections,
  set_element_number_for_section, get_element_number_for_section, set_uses_per_element_control,
  set_per_element_setpoint_ddi,
}
use aog_task_controller.Server.Activation.{
  map_sections, configure_client, section_element_numbers, select_method, scan_objects, no_methods,
  Methods,
}

-- What the loop reaches from section i on.
record IsMapped {P : Type 0} (i : ℕ) (elements : List ℕ) (s s' : ClientState P) : Type 0 where
  pub same_number : s'.number_of_sections ≡ s.number_of_sections
  pub same_length : length s'.section_to_element_number ≡ s.number_of_sections
  pub mapped :
      (j : ℕ)
      → j < length elements
      → get_or s'.section_to_element_number (i + j) 0 ≡ get_or elements j 0
  pub kept :
      (j : ℕ)
      → j < i
      → get_or s'.section_to_element_number j 0 ≡ get_or s.section_to_element_number j 0

module _ {P : Type 0} where
  set_element_number_known :
      (s : ClientState P) (i e : ℕ)
      → length s.section_to_element_number ≡ s.number_of_sections
      → i < s.number_of_sections
      → ((set_element_number_for_section s i e).number_of_sections ≡ s.number_of_sections)
        × ((set_element_number_for_section s i e).section_to_element_number
            ≡ set s.section_to_element_number i e)
  unfolding set_element_number_for_section
  set_element_number_known s i e whole inside =
      let slot : (ltb i s.number_of_sections && ltb i (length s.section_to_element_number)) ≡ true =
        ground (arith, whole, inside) in
      let new : ClientState P = record s {
        section_to_element_number = set s.section_to_element_number i e;
        element_to_section = assign e i s.element_to_section;
      } in
      let known =
        if_true (ltb i s.number_of_sections && ltb i (length s.section_to_element_number)) new s
          slot in
      (
        ap (λ (t : ClientState P). t.number_of_sections) known,
        ap (λ (t : ClientState P). t.section_to_element_number) known,
      )

  mapped_cons :
      (i e : ℕ) (elements : List ℕ) (s s' : ClientState P)
      → get_or s'.section_to_element_number i 0 ≡ e
      → ((j : ℕ)
          → j < length elements
          → get_or s'.section_to_element_number (i + 1 + j) 0 ≡ get_or elements j 0)
      → (j : ℕ) → j < length (e ∷ elements)
      → get_or s'.section_to_element_number (i + j) 0 ≡ get_or (e ∷ elements) j 0
  mapped_cons i e elements s s' first later zero h =
      let z : i + 0 ≡ i = omega arith in ap (λ k. get_or s'.section_to_element_number k 0) z ∙ first
  mapped_cons i e elements s s' first later (suc j) h =
      let z : i + suc j ≡ i + 1 + j = omega arith in
      ap (λ k. get_or s'.section_to_element_number k 0) z ∙ later j (omega (arith, h))

  map_sections-IsMapped :
      (rounds i : ℕ) (elements : List ℕ) (s : ClientState P)
      → length s.section_to_element_number ≡ s.number_of_sections
      → length elements ≡ rounds
      → i + rounds ≤ s.number_of_sections
      → IsMapped i elements s (map_sections rounds i elements s)
  unfolding map_sections
  map_sections-IsMapped zero i [] s whole all fits = record {
    same_number = refl;
    same_length = whole;
    mapped = λ j h. absurd (omega (arith, h));
    kept = λ j h. refl;
  }
  map_sections-IsMapped zero i (e ∷ elements) s whole all fits = absurd (omega (arith, all))
  map_sections-IsMapped (suc rounds) i [] s whole all fits = absurd (omega (arith, all))
  map_sections-IsMapped (suc rounds) i (e ∷ elements) s whole all fits =
      let t = set_element_number_for_section s i e in
      let xs = s.section_to_element_number in
      let (number, vector) = set_element_number_known s i e whole (omega (arith, fits)) in
      let long = ap length vector ∙ length-set xs i e ∙ whole in
      let next : i + 1 + rounds ≤ t.number_of_sections = omega (arith, fits, number) in
      let r =
        map_sections-IsMapped rounds (i + 1) elements t (long ∙ sym number) (omega (arith, all))
          next in
      let s' = map_sections rounds (i + 1) elements t in
      record {
        same_number = r.same_number ∙ number;
        same_length = r.same_length ∙ number;
        mapped = λ j h.
            mapped_cons i e elements s s'
              (r.kept i (omega arith)
                ∙ ap (λ ys. get_or ys i 0) vector
                ∙ get_or-set_self xs i e 0 (omega (arith, fits, whole)))
              r.mapped j h;
        kept = λ j h.
            r.kept j (omega (arith, h))
            ∙ ap (λ ys. get_or ys j 0) vector
            ∙ get_or-set_ne xs i j e 0 (λ same. omega (arith, h, same));
      }

  select_method-sections :
      (dd : DataDictionary) (m : Methods) (s : ClientState P)
      → ((select_method dd m s).number_of_sections ≡ s.number_of_sections)
        × ((select_method dd m s).section_to_element_number ≡ s.section_to_element_number)
  unfolding select_method set_uses_per_element_control set_per_element_setpoint_ddi
  select_method-sections dd m s =
      let oldest =
        set_per_element_setpoint_ddi (set_uses_per_element_control s true) dd.actual_work_state in
      let later = if m.settable_actual_work_state then oldest else s in
      if_both HasSections (m.condensed_setpoint || m.settable_condensed_actual) s later (refl, refl)
        (if_both HasSections m.settable_actual_work_state oldest s (refl, refl) (refl, refl))
    where
      HasSections : ClientState P → Type 0
      HasSections t =
          (t.number_of_sections ≡ s.number_of_sections)
          × (t.section_to_element_number ≡ s.section_to_element_number)

  get_element_number_known :
      (s : ClientState P) (i : ℕ)
      → length s.section_to_element_number ≡ s.number_of_sections
      → i < s.number_of_sections
      → get_element_number_for_section s i ≡ get_or s.section_to_element_number i 0
  unfolding get_element_number_for_section
  get_element_number_known s i whole inside =
      let slot : (ltb i s.number_of_sections && ltb i (length s.section_to_element_number)) ≡ true =
        ground (arith, whole, inside) in
      if_true (ltb i s.number_of_sections && ltb i (length s.section_to_element_number))
        (get_or s.section_to_element_number i 0) 0 slot

module _ (lib : PoolLibrary) (dd : DataDictionary) where
  open lib use {Pool, booms}

  -- The sections, by the list of the element numbers.
  pub configured :
      (pool : Pool)
      → length (section_element_numbers (booms pool)) < 256
      → let s = configure_client lib dd pool in
        (s.number_of_sections ≡ length (section_element_numbers (booms pool)))
        × ((i : ℕ)
            → i < s.number_of_sections
            → get_element_number_for_section s i
              ≡ get_or (section_element_numbers (booms pool)) i 0)
  unfolding configure_client
  configured pool few =
      let elements = section_element_numbers (booms pool) in
      let n = u8 (length elements) in
      let all : length elements ≡ n = omega (arith, few) in
      let s0 = build_element_hierarchy lib (new_state pool) in
      let s1 = set_number_of_sections s0 n in
      let number : s1.number_of_sections ≡ n = unfold set_number_of_sections in refl in
      let long : length s1.section_to_element_number ≡ n =
        unfold set_number_of_sections in length-resize s0.section_to_element_number n 0 in
      let r =
        map_sections-IsMapped n 0 elements s1 (long ∙ sym number) all (omega (arith, number)) in
      let s2 = map_sections n 0 elements s1 in
      let m = scan_objects dd (objects lib pool) no_methods in
      let (same, vector) = select_method-sections dd m s2 in
      let count = same ∙ r.same_number ∙ number in
      (
        count ∙ sym all,
        λ i inside.
            let e : 0 + i ≡ i = omega arith in
            get_element_number_known (select_method dd m s2) i
              (ap length vector ∙ r.same_length ∙ number ∙ sym count) inside
            ∙ ap (λ ys. get_or ys i 0) vector
            ∙ ap (λ k. get_or s2.section_to_element_number k 0) (sym e)
            ∙ r.mapped i (omega (arith, inside, count, all)),
      )
