-- ===== src/App/Implements.antt =====
-- The part of `Application::update` in src/app.cpp that tells the driver which implements have come and
-- gone: a diff of the clients of one second with those of the second before.
use aog_task_controller.Prelude.{
  ℕ, ◌≡◌, refl, ap, ◌∙◌, sym, inl, inr, Bool, true, false, not, ◌&&◌, ◌||◌, List, [], ◌∷◌, ◌++◌,
  Option, arith, ltb, ◌==◌, if◌then◌else◌, Bool-cases,
}
use aog_task_controller.Prelude.Map.{Map, find, assign, find-assign, contains}
use aog_task_controller.Prelude.Text.{codes, decimal}
use aog_task_controller.Client.{ClientState}
use aog_task_controller.App.HardwareMessage.{hardware_message}

-- `ImplementSnapshot`
pub record Snapshot : Type 0 where
  pub display_name : List ℕ
  pub sections : ℕ
  pub width_text : List ℕ

-- A message, with the NAME of the client that it is about, and the payload that is sent.
pub data Announcement : Type 0 where
  arrived lost : (name : ℕ) → Option (List ℕ) → Announcement

abbrev nonempty : List ℕ → Bool
nonempty [] = false
nonempty (c ∷ rest) = true

unfoldable pub arrival_text : Snapshot → List ℕ
arrival_text s =
    codes "Implement: "
    ++ (s.display_name
        ++ (codes " ("
            ++ (decimal s.sections
                ++ (codes " sections"
                    ++ ((if nonempty s.width_text
                          then codes ", " ++ (s.width_text ++ codes " m")
                          else [])
                        ++ codes ")")))))

-- The loop over the snapshots of now: `old` are those of the last scan.
unfoldable pub announce_arrivals : Map Snapshot → Map Snapshot → List Announcement
unfolding arrival_text hardware_message
announce_arrivals old [] = []
announce_arrivals old ((name, s) ∷ rest) =
    let later = announce_arrivals old rest in
    if contains name old
    then later
    else arrived name (hardware_message (arrival_text s) 5 1) ∷ later

-- The loop over those of the last scan.
unfoldable pub announce_losses : Map Snapshot → Map Snapshot → List Announcement
unfolding hardware_message
announce_losses current [] = []
announce_losses current ((name, s) ∷ rest) =
    let later = announce_losses current rest in
    if contains name current
    then later
    else lost name (hardware_message (codes "Implement lost: " ++ s.display_name) 10 0) ∷ later

unfoldable pub diff : Map Snapshot → Map Snapshot → List Announcement
unfolding announce_arrivals announce_losses
diff old current = announce_arrivals old current ++ announce_losses current old

module _ {P : Type 0} (name_of : ℕ → ℕ) (details : ClientState P → Snapshot) where
  -- `currentImplementSnapshots`: `name_of` gives the NAME of a control function, and `details` is
  -- `derive_implement_details`.
  unfoldable pub take_snapshots : Map (ClientState P) → Map Snapshot → Map Snapshot
  take_snapshots [] taken = taken
  take_snapshots ((client, s) ∷ rest) taken =
      take_snapshots rest
        (if ltb 0 s.number_of_sections then assign (name_of client) (details s) taken else taken)

  -- One scan: the new snapshots and what is announced.
  unfoldable pub scan : Map Snapshot → Map (ClientState P) → Map Snapshot × List Announcement
  unfolding take_snapshots diff
  scan old clients = let current = take_snapshots clients [] in (current, diff old current)

  unfoldable pub scans :
      Map Snapshot → List (Map (ClientState P)) → Map Snapshot × List Announcement
  unfolding scan
  scans old [] = (old, [])
  scans old (clients ∷ rest) =
      let (current, now) = scan old clients in
      let (last, later) = scans current rest in (last, now ++ later)

-- What the driver has been told of a name last.
abbrev told_by : ℕ → Announcement → Bool → Bool
told_by name (arrived n payload) known = if n == name then true else known
told_by name (lost n payload) known = if n == name then false else known

unfoldable pub told : ℕ → List Announcement → Bool → Bool
told name [] known = known
told name (a ∷ rest) known = told name rest (told_by name a known)

told-append :
    (name : ℕ) (xs ys : List Announcement) (known : Bool)
    → told name (xs ++ ys) known ≡ told name ys (told name xs known)
unfolding told
told-append name [] ys known = refl
told-append name (x ∷ xs) ys known = told-append name xs ys (told_by name x known)

contains-cons :
    (name n : ℕ) (s : Snapshot) (m : Map Snapshot)
    → contains name ((n, s) ∷ m) ≡ (n == name || contains name m)
unfolding contains find
contains-cons name n s m = elim (Bool-cases (n == name)) [
  | inl same ↦ rw same refl
  | inr other ↦ rw other refl
]

same_contains :
    (name n : ℕ) (m : Map Snapshot) → (n == name) ≡ true → contains n m ≡ contains name m
same_contains name n m same = let e : n ≡ name = ground (arith, same) in ap (λ k. contains k m) e

-- One announcement or none, and those after it, on what was known.
arrival_known :
    (same there before rest known : Bool)
    → (same ≡ true → there ≡ before)
    → (if there
        then known || rest && not before
        else (if same then true else known) || rest && not before)
      ≡ (known || (same || rest) && not before)
arrival_known same there before rest known h = ground (arith, h)

loss_known :
    (same there now rest known : Bool)
    → (same ≡ true → there ≡ now)
    → (if there
        then known && not (rest && not now)
        else (if same then false else known) && not (rest && not now))
      ≡ (known && not ((same || rest) && not now))
loss_known same there now rest known h = ground (arith, h)

told_if :
    (name : ℕ) (b : Bool) (later : List Announcement) (a : Announcement) (known : Bool)
    → told name (if b then later else a ∷ later) known
      ≡ (if b then told name later known else told name later (told_by name a known))
unfolding told
told_if name true later a known = refl
told_if name false later a known = refl

told-announce_arrivals :
    (name : ℕ) (old m : Map Snapshot) (known : Bool)
    → told name (announce_arrivals old m) known
      ≡ (known || contains name m && not (contains name old))
unfolding announce_arrivals
told-announce_arrivals name old [] known = unfold told contains find in ground arith
told-announce_arrivals name old ((n, s) ∷ rest) known =
    let later = announce_arrivals old rest in
    let before = contains name old in
    let others = contains name rest in
    let message = arrived n (hardware_message (arrival_text s) 5 1) in
    let known' = told_by name message known in
    let one : (if contains n old then told name later known else told name later known')
        ≡ (known || (n == name || others) && not before) =
      rw (told-announce_arrivals name old rest known, told-announce_arrivals name old rest known')
        (arrival_known (n == name) (contains n old) before others known
          (same_contains name n old)) in
    told_if name (contains n old) later message known
    ∙ one
    ∙ ap (λ c. known || c && not before) (sym (contains-cons name n s rest))

told-announce_losses :
    (name : ℕ) (current m : Map Snapshot) (known : Bool)
    → told name (announce_losses current m) known
      ≡ (known && not (contains name m && not (contains name current)))
unfolding announce_losses
told-announce_losses name current [] known = unfold told contains find in ground arith
told-announce_losses name current ((n, s) ∷ rest) known =
    let later = announce_losses current rest in
    let before = contains name current in
    let others = contains name rest in
    let message = lost n (hardware_message (codes "Implement lost: " ++ s.display_name) 10 0) in
    let known' = told_by name message known in
    let one : (if contains n current then told name later known else told name later known')
        ≡ (known && not ((n == name || others) && not before)) =
      rw
        (
          told-announce_losses name current rest known,
          told-announce_losses name current rest known',
        )
        (loss_known (n == name) (contains n current) before others known
          (same_contains name n current)) in
    told_if name (contains n current) later message known
    ∙ one
    ∙ ap (λ c. known && not (c && not before)) (sym (contains-cons name n s rest))

told-diff :
    (name : ℕ) (old current : Map Snapshot)
    → told name (diff old current) (contains name old) ≡ contains name current
unfolding diff
told-diff name old current =
    let before = contains name old in
    let now = contains name current in
    let both : ((before || now && not before) && not (before && not now)) ≡ now = ground arith in
    told-append name (announce_arrivals old current) (announce_losses current old) before
    ∙ ap (told name (announce_losses current old)) (told-announce_arrivals name old current before)
    ∙ told-announce_losses name current old (before || now && not before)
    ∙ both

told-last :
    {P : Type 0} (name_of : ℕ → ℕ) (details : ClientState P → Snapshot) (name : ℕ)
    (old : Map Snapshot) (seconds : List (Map (ClientState P)))
    → let (last, announced) = scans name_of details old seconds in
      told name announced (contains name old) ≡ contains name last
unfolding scans scan
told-last name_of details name old [] = unfold told in refl
told-last name_of details name old (clients ∷ rest) =
    let current = take_snapshots name_of details clients [] in
    let now = diff old current in
    let later = (scans name_of details current rest).1 in
    told-append name now later (contains name old)
    ∙ ap (told name later) (told-diff name old current)
    ∙ told-last name_of details name current rest

-- There is a client with that NAME and with sections.
abbrev pub any_present : {P : Type 0} → (ℕ → ℕ) → ℕ → Map (ClientState P) → Bool
any_present name_of name [] = false
any_present name_of name ((client, s) ∷ rest) =
    name_of client == name && not (s.number_of_sections == 0) || any_present name_of name rest

-- The client that is taken, or not, before those that follow.
taken_or_not :
    (name n : ℕ) (has : Bool) (s : Snapshot) (taken : Map Snapshot)
    → contains name (if has then assign n s taken else taken)
      ≡ (contains name taken || n == name && has)
unfolding contains
taken_or_not name n true s taken = ground (arith, find-assign n name s taken)
taken_or_not name n false s taken = ground arith

contains-take_snapshots :
    {P : Type 0} (name_of : ℕ → ℕ) (details : ClientState P → Snapshot) (name : ℕ)
    (clients : Map (ClientState P)) (taken : Map Snapshot)
    → contains name (take_snapshots name_of details clients taken)
      ≡ (contains name taken || any_present name_of name clients)
unfolding take_snapshots
contains-take_snapshots name_of details name [] taken = ground arith
contains-take_snapshots name_of details name ((client, s) ∷ rest) taken =
    let has = ltb 0 s.number_of_sections in
    let next = if has then assign (name_of client) (details s) taken else taken in
    let same : has ≡ not (s.number_of_sections == 0) = ground arith in
    contains-take_snapshots name_of details name rest next
    ∙ ap (λ b. b || any_present name_of name rest)
        (taken_or_not name (name_of client) has (details s) taken)
    ∙ ground (arith, same)

scans-last :
    {P : Type 0} (name_of : ℕ → ℕ) (details : ClientState P → Snapshot) (old : Map Snapshot)
    (seconds : List (Map (ClientState P))) (clients : Map (ClientState P))
    → (scans name_of details old (seconds ++ (clients ∷ []))).0
      ≡ take_snapshots name_of details clients []
unfolding scans scan
scans-last name_of details old [] clients = refl
scans-last name_of details old (first ∷ seconds) clients =
    scans-last name_of details (take_snapshots name_of details first []) seconds clients

-- Over any scans, from any snapshots: if the driver knew which implements were there at the start, then
-- what the driver has been told of each NAME last, that it has arrived or that it was lost, is whether
-- at the last scan there is a client with that NAME and with sections.
pub told-scans :
    {P : Type 0} (name_of : ℕ → ℕ) (details : ClientState P → Snapshot) (name : ℕ)
    (old : Map Snapshot) (seconds : List (Map (ClientState P))) (clients : Map (ClientState P))
    → told name (scans name_of details old (seconds ++ (clients ∷ []))).1 (contains name old)
      ≡ any_present name_of name clients
told-scans name_of details name old seconds clients =
    let none_taken : contains {V = Snapshot} name [] ≡ false = unfold contains find in refl in
    told-last name_of details name old (seconds ++ (clients ∷ []))
    ∙ ap (contains name) (scans-last name_of details old seconds clients)
    ∙ contains-take_snapshots name_of details name clients []
    ∙ ap (λ b. b || any_present name_of name clients) none_taken
