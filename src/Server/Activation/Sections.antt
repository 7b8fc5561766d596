-- ===== src/Server/Activation/Sections.antt =====
-- The sections that a client gets when its pool is activated.
use aog_task_controller.Prelude.{
  ◌++◌, subst, length-append, get_or-append_left, get_or-append_right, append_assoc, ℕ, ◌+◌, ◌<◌,
  ◌≡◌, refl, ap, ◌∙◌, sym, List, [], ◌∷◌, arith, length, get_or,
}
use aog_task_controller.Isobus.{DataDictionary, PoolLibrary, Boom, SubBoom}
use aog_task_controller.Client.{ClientState, get_element_number_for_section}
use aog_task_controller.Server.Activation.{
  configure_client, section_element_numbers, sub_boom_sections,
}
use aog_task_controller.Server.Activation.Mapped.{configured}

-- How many sections there are.
unfoldable pub sub_boom_count : List SubBoom → ℕ
sub_boom_count [] = 0
sub_boom_count (c ∷ rest) = length c.sections + sub_boom_count rest

unfoldable pub boom_count : List Boom → ℕ
unfolding sub_boom_count
boom_count [] = 0
boom_count (b ∷ rest) = sub_boom_count b.sub_booms + length b.sections + boom_count rest

length-sub_boom_sections :
    (parts : List SubBoom) → length (sub_boom_sections parts) ≡ sub_boom_count parts
unfolding sub_boom_sections sub_boom_count
length-sub_boom_sections [] = refl
length-sub_boom_sections (c ∷ rest) =
    length-append c.sections (sub_boom_sections rest)
    ∙ ap (λ n. length c.sections + n) (length-sub_boom_sections rest)

length-section_element_numbers :
    (bs : List Boom) → length (section_element_numbers bs) ≡ boom_count bs
unfolding section_element_numbers boom_count
length-section_element_numbers [] = refl
length-section_element_numbers (b ∷ rest) =
    let subs = sub_boom_sections b.sub_booms in
    let later = section_element_numbers rest in
    let outer = length-append (subs ++ b.sections) later in
    let inner = length-append subs b.sections in
    omega (
      arith,
      outer,
      inner,
      length-sub_boom_sections b.sub_booms,
      length-section_element_numbers rest,
    )

-- The numbers of a list stand in another one, from an index on.
abbrev StandAt : List ℕ → ℕ → List ℕ → Type 0
StandAt xs from whole =
    (j : ℕ)
    → j < length xs
    → (from + j < length whole) × (get_or whole (from + j) 0 ≡ get_or xs j 0)

StandAt-between : (before xs after : List ℕ) → StandAt xs (length before) (before ++ (xs ++ after))
StandAt-between before xs after j inside =
    let outer = length-append before (xs ++ after) in
    let inner = length-append xs after in
    (
      omega (arith, outer, inner, inside),
      get_or-append_right before (xs ++ after) j 0 ∙ get_or-append_left xs after j 0 inside,
    )

-- One list in another, and that in a third one.
StandAt-in :
    (xs middle whole : List ℕ) (inner outer : ℕ)
    → StandAt xs inner middle
    → StandAt middle outer whole
    → StandAt xs (outer + inner) whole
StandAt-in xs middle whole inner outer h g j inside =
    let (below, same) = h j inside in
    let (below', same') = g (inner + j) below in
    let e : outer + (inner + j) ≡ outer + inner + j = omega arith in
    (omega (arith, below'), ap (λ k. get_or whole k 0) (sym e) ∙ same' ∙ same)

sub_boom_sections-append :
    (first rest : List SubBoom)
    → sub_boom_sections (first ++ rest) ≡ sub_boom_sections first ++ sub_boom_sections rest
unfolding sub_boom_sections
sub_boom_sections-append [] rest = refl
sub_boom_sections-append (c ∷ first) rest =
    ap (λ xs. c.sections ++ xs) (sub_boom_sections-append first rest)
    ∙ sym (append_assoc c.sections (sub_boom_sections first) (sub_boom_sections rest))

section_element_numbers-append :
    (before rest : List Boom)
    → section_element_numbers (before ++ rest)
      ≡ section_element_numbers before ++ section_element_numbers rest
unfolding section_element_numbers
section_element_numbers-append [] rest = refl
section_element_numbers-append (b ∷ before) rest =
    let of_first = sub_boom_sections b.sub_booms ++ b.sections in
    ap (λ xs. of_first ++ xs) (section_element_numbers-append before rest)
    ∙ sym (append_assoc of_first (section_element_numbers before) (section_element_numbers rest))

module _ (before after : List Boom) (b : Boom) where
  abbrev of_boom : List ℕ
  of_boom = sub_boom_sections b.sub_booms ++ b.sections

  of_boom-StandAt :
      StandAt of_boom (boom_count before) (section_element_numbers (before ++ (b ∷ after)))
  of_boom-StandAt =
      let e : section_element_numbers (before ++ (b ∷ after))
          ≡ section_element_numbers before ++ (of_boom ++ section_element_numbers after) =
        unfold section_element_numbers in section_element_numbers-append before (b ∷ after) in
      subst (StandAt of_boom (boom_count before)) (sym e) (
        subst
          (λ n.
            StandAt of_boom n
              (section_element_numbers before ++ (of_boom ++ section_element_numbers after)))
          (length-section_element_numbers before)
          (StandAt-between (section_element_numbers before) of_boom
            (section_element_numbers after)))

  own-StandAt : StandAt b.sections (sub_boom_count b.sub_booms) of_boom
  own-StandAt j inside =
      let subs = sub_boom_sections b.sub_booms in
      let long = length-sub_boom_sections b.sub_booms in
      let whole = length-append subs b.sections in
      (
        omega (arith, whole, long, inside),
        ap (λ n. get_or of_boom (n + j) 0) (sym long) ∙ get_or-append_right subs b.sections j 0,
      )

  part-StandAt :
      (first rest : List SubBoom) (c : SubBoom)
      → b.sub_booms ≡ first ++ (c ∷ rest)
      → StandAt c.sections (sub_boom_count first) of_boom
  part-StandAt first rest c e =
      let firsts = sub_boom_sections first in
      let lasts = sub_boom_sections rest in
      let split : sub_boom_sections (first ++ (c ∷ rest)) ≡ firsts ++ (c.sections ++ lasts) =
        unfold sub_boom_sections in sub_boom_sections-append first (c ∷ rest) in
      let whole : of_boom ≡ firsts ++ (c.sections ++ (lasts ++ b.sections)) =
        ap (λ p. sub_boom_sections p ++ b.sections) e
        ∙ ap (λ xs. xs ++ b.sections) split
        ∙ append_assoc firsts (c.sections ++ lasts) b.sections
        ∙ ap (λ xs. firsts ++ xs) (append_assoc c.sections lasts b.sections) in
      subst (StandAt c.sections (sub_boom_count first)) (sym whole) (
        subst (λ n. StandAt c.sections n (firsts ++ (c.sections ++ (lasts ++ b.sections))))
          (length-sub_boom_sections first)
          (StandAt-between firsts c.sections (lasts ++ b.sections)))

module _ (lib : PoolLibrary) (dd : DataDictionary) where
  open lib use {Pool, booms}

  -- The sections of a boom from an index on, in a client: first those of each sub-boom, then its own.
  pub record HasBoom (s : ClientState Pool) (from : ℕ) (b : Boom) : Type 0 where
    pub parts :
        (first rest : List SubBoom) (c : SubBoom)
        → b.sub_booms ≡ first ++ (c ∷ rest)
        → (j : ℕ) → j < length c.sections
        → get_element_number_for_section s (from + sub_boom_count first + j) ≡ get_or c.sections j 0
    pub own :
        (j : ℕ)
        → j < length b.sections
        → get_element_number_for_section s (from + sub_boom_count b.sub_booms + j)
          ≡ get_or b.sections j 0

  -- The booms of a pool have fewer than 256 sections in all: a client that is activated with it has as
  -- many. The sections of a boom come after those of the booms before it, first those of each of its
  -- sub-booms and then its own, and each has the element number that the geometry gives.
  pub configure_client_sections :
      (pool : Pool)
      → boom_count (booms pool) < 256
      → let s = configure_client lib dd pool in
        (s.number_of_sections ≡ boom_count (booms pool))
        × ((before after : List Boom) (b : Boom)
            → booms pool ≡ before ++ (b ∷ after)
            → HasBoom s (boom_count before) b)
  configure_client_sections pool few =
      let s = configure_client lib dd pool in
      let count = length-section_element_numbers (booms pool) in
      let (number, each) = configured lib dd pool (omega (arith, few, count)) in
      (
        number ∙ count,
        λ before after b e.
            let all = section_element_numbers (booms pool) in
            let stands : StandAt (of_boom before after b) (boom_count before) all =
              subst
                (λ bs.
                  StandAt (of_boom before after b) (boom_count before) (section_element_numbers bs))
                (sym e) (of_boom-StandAt before after b) in
            record {
              parts = λ first rest c split j inside.
                  let (below, same) =
                    StandAt-in c.sections (of_boom before after b) all (sub_boom_count first)
                      (boom_count before) (part-StandAt before after b first rest c split) stands j
                      inside in
                  each _ (omega (arith, below, number)) ∙ same;
              own = λ j inside.
                  let (below, same) =
                    StandAt-in b.sections (of_boom before after b) all (sub_boom_count b.sub_booms)
                      (boom_count before) (own-StandAt before after b) stands j inside in
                  each _ (omega (arith, below, number)) ∙ same;
            },
      )
