-- ===== src/Hierarchy/Parents.antt =====
-- `build_parent_map` holds the parents that the pool's objects give, and no others.
use mathlib.Core.List.{Memᴰ}
use aog_task_controller.Prelude.{
  ℕ, ◌≡◌, ◌≢◌, refl, ◌⊎◌, inl, inr, List, [], ◌∷◌, Option, none, some, arith, ℕ_discrete, sym,
  subst, ◌∙◌,
}
use aog_task_controller.Prelude.Map.{find, find-assign}
use aog_task_controller.Isobus.{
  Object, device, device_element, process_data, other_object, Element, PoolLibrary, objects,
}
use aog_task_controller.Hierarchy.{ParentMap, add_parent, add_parents, build_parent_map}

-- Among the objects there is an element numbered `e` whose parent object ID names an element
-- numbered `q`, another number.
pub data ParentIn (by_id : ℕ → Option Object) (xs : List Object) (e q : ℕ) : Type 0 where
  parent :
      (x y : Element)
      → Memᴰ (device_element x) xs
      → by_id x.parent_object ≡ some (device_element y)
      → x.element_number ≡ e
      → y.element_number ≡ q
      → q ≢ e
      → ParentIn by_id xs e q

ParentIn-tail :
    {by_id : ℕ → Option Object} {xs : List Object} {e q : ℕ} (x : Object)
    → ParentIn by_id xs e q
    → ParentIn by_id (x ∷ xs) e q
ParentIn-tail x (parent a b mem link num up apart) = parent a b (Memᴰ.tail mem) link num up apart

find-add_parent :
    (by_id : ℕ → Option Object) (x : Element) (o : Option Object) (rest : List Object)
    (m : ParentMap) (e q : ℕ)
    → by_id x.parent_object ≡ o
    → find e (add_parent x o m) ≡ some q
    → ParentIn by_id (device_element x ∷ rest) e q ⊎ (find e m ≡ some q)
unfolding add_parent
find-add_parent by_id x (some (device_element y)) rest m e q link h =
    elim (ℕ_discrete y.element_number x.element_number) [
      | yes same ↦ inr (ground arith)
      | no apart ↦ elim (ℕ_discrete x.element_number e) [
        | yes here ↦
            let up : y.element_number ≡ q =
              ground (arith, find-assign x.element_number e y.element_number m) in
            inl (parent x y (Memᴰ.head refl) link here up (ground arith))
        | no elsewhere ↦ inr (ground (arith, find-assign x.element_number e y.element_number m))
      ]
    ]
find-add_parent by_id x none rest m e q link h = inr h
find-add_parent by_id x (some (device l)) rest m e q link h = inr h
find-add_parent by_id x (some (process_data d)) rest m e q link h = inr h
find-add_parent by_id x (some other_object) rest m e q link h = inr h

find-add_parents :
    (by_id : ℕ → Option Object) (xs : List Object) (m : ParentMap) (e q : ℕ)
    → find e (add_parents by_id xs m) ≡ some q
    → ParentIn by_id xs e q ⊎ (find e m ≡ some q)
unfolding add_parents
find-add_parents by_id [] m e q h = inr h
find-add_parents by_id (device_element x ∷ xs) m e q h =
    elim (find-add_parents by_id xs (add_parent x (by_id x.parent_object) m) e q h) [
      | inl later ↦ inl (ParentIn-tail (device_element x) later)
      | inr now ↦ find-add_parent by_id x (by_id x.parent_object) xs m e q refl now
    ]
find-add_parents by_id (device l ∷ xs) m e q h = elim (find-add_parents by_id xs m e q h) [
  | inl later ↦ inl (ParentIn-tail (device l) later)
  | inr old ↦ inr old
]
find-add_parents by_id (process_data d ∷ xs) m e q h = elim (find-add_parents by_id xs m e q h) [
  | inl later ↦ inl (ParentIn-tail (process_data d) later)
  | inr old ↦ inr old
]
find-add_parents by_id (other_object ∷ xs) m e q h = elim (find-add_parents by_id xs m e q h) [
  | inl later ↦ inl (ParentIn-tail other_object later)
  | inr old ↦ inr old
]

-- An entry is overwritten, never removed.
add_parent_keeps :
    (x : Element) (o : Option Object) (m : ParentMap) (e q : ℕ)
    → find e m ≡ some q
    → (r : ℕ) × (find e (add_parent x o m) ≡ some r)
unfolding add_parent
add_parent_keeps x (some (device_element y)) m e q h =
    elim (ℕ_discrete y.element_number x.element_number) [
      | yes same ↦ (q, ground arith)
      | no apart ↦ elim (ℕ_discrete x.element_number e) [
        | yes here ↦
            (y.element_number, ground (arith, find-assign x.element_number e y.element_number m))
        | no elsewhere ↦ (q, ground (arith, find-assign x.element_number e y.element_number m))
      ]
    ]
add_parent_keeps x none m e q h = (q, h)
add_parent_keeps x (some (device l)) m e q h = (q, h)
add_parent_keeps x (some (process_data d)) m e q h = (q, h)
add_parent_keeps x (some other_object) m e q h = (q, h)

add_parents_keeps :
    (by_id : ℕ → Option Object) (xs : List Object) (m : ParentMap) (e q : ℕ)
    → find e m ≡ some q
    → (r : ℕ) × (find e (add_parents by_id xs m) ≡ some r)
unfolding add_parents
add_parents_keeps by_id [] m e q h = (q, h)
add_parents_keeps by_id (device_element x ∷ xs) m e q h =
    let (r, h') = add_parent_keeps x (by_id x.parent_object) m e q h in
    add_parents_keeps by_id xs (add_parent x (by_id x.parent_object) m) e r h'
add_parents_keeps by_id (device l ∷ xs) m e q h = add_parents_keeps by_id xs m e q h
add_parents_keeps by_id (process_data d ∷ xs) m e q h = add_parents_keeps by_id xs m e q h
add_parents_keeps by_id (other_object ∷ xs) m e q h = add_parents_keeps by_id xs m e q h

find-add_parent_self :
    (x y : Element) (m : ParentMap)
    → y.element_number ≢ x.element_number
    → find x.element_number (add_parent x (some (device_element y)) m) ≡ some y.element_number
unfolding add_parent
find-add_parent_self x y m apart =
    ground (arith, find-assign x.element_number x.element_number y.element_number m)

add_parents_complete :
    (by_id : ℕ → Option Object) (x y : Element) (xs : List Object) (m : ParentMap)
    → Memᴰ (device_element x) xs
    → by_id x.parent_object ≡ some (device_element y)
    → y.element_number ≢ x.element_number
    → (r : ℕ) × (find x.element_number (add_parents by_id xs m) ≡ some r)
unfolding add_parents
add_parents_complete by_id x y [] m mem link apart = elim mem [ ]
add_parents_complete by_id x y (z ∷ xs) m (Memᴰ.head same) link apart =
    subst (λ z'. (r : ℕ) × (find x.element_number (add_parents by_id (z' ∷ xs) m) ≡ some r)) same
      (add_parents_keeps by_id xs (add_parent x (by_id x.parent_object) m) x.element_number
        y.element_number (rw link (find-add_parent_self x y m apart)))
add_parents_complete by_id x y (device_element z ∷ xs) m (Memᴰ.tail mem) link apart =
    add_parents_complete by_id x y xs (add_parent z (by_id z.parent_object) m) mem link apart
add_parents_complete by_id x y (device l ∷ xs) m (Memᴰ.tail mem) link apart =
    add_parents_complete by_id x y xs m mem link apart
add_parents_complete by_id x y (process_data d ∷ xs) m (Memᴰ.tail mem) link apart =
    add_parents_complete by_id x y xs m mem link apart
add_parents_complete by_id x y (other_object ∷ xs) m (Memᴰ.tail mem) link apart =
    add_parents_complete by_id x y xs m mem link apart

ParentIn-find :
    (by_id : ℕ → Option Object) (xs : List Object) (m : ParentMap) {e q : ℕ}
    → ParentIn by_id xs e q
    → (r : ℕ) × (find e (add_parents by_id xs m) ≡ some r)
ParentIn-find by_id xs m (parent x y mem link num up apart) =
    subst (λ k. (r : ℕ) × (find k (add_parents by_id xs m) ≡ some r)) num
      (add_parents_complete by_id x y xs m mem link (λ same. apart (sym up ∙ same ∙ num)))

module _ (lib : PoolLibrary) where
  open lib use {Pool, object_by_id}

  -- Every entry of the map is a parent that the objects of the pool give, of another number than the
  -- element; and an element that has such a parent has an entry.
  pub find-build_parent_map :
      (pool : Pool) (e : ℕ)
      → ((q : ℕ)
          → find e (build_parent_map lib pool) ≡ some q
          → ParentIn (object_by_id pool) (objects lib pool) e q)
        × ((q : ℕ)
            → ParentIn (object_by_id pool) (objects lib pool) e q
            → (r : ℕ) × (find e (build_parent_map lib pool) ≡ some r))
  unfolding build_parent_map
  find-build_parent_map pool e = (
    λ q h. elim (find-add_parents (object_by_id pool) (objects lib pool) [] e q h) [
      | inl good ↦ good
      | inr old ↦ absurd (unfold find in ground arith)
    ],
    λ q h. ParentIn-find (object_by_id pool) (objects lib pool) [] h,
  )
