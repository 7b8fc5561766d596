-- ===== src/App/Watch.antt =====
-- `check_section_demand`, `log_section_demand` and `describe_section_demand` of src/app.cpp: the watch
-- over the demand of AOG, which warns when an implement in automatic works and AOG asks for nothing.
pub mod Warning
pub mod Ranges
use aog_task_controller.Prelude.{
  ℕ, zero, suc, ◌+◌, ◌-◌, ◌%◌, Bool, true, false, not, ◌&&◌, ◌||◌, List, [], ◌∷◌, ◌++◌, map, Option,
  none, some, ltb, leb, ◌==◌, if◌then◌else◌, u32, bool_eq, length, get_or,
}
use aog_task_controller.Prelude.Map.{Map, find, assign, erase}
use aog_task_controller.Prelude.Text.{codes, decimal}
use aog_task_controller.Client.{ClientState, get_section_actual_state}
use aog_task_controller.Client.SectionState
use aog_task_controller.App.{same_states}
use aog_task_controller.App.HardwareMessage.{hardware_message}
use aog_task_controller.App.Heartbeat.{is_working}

-- `WorkingWithoutDemand`
pub record Tracked : Type 0 where
  pub since_ms : ℕ
  pub warned : Bool

-- One client in one call, by its NAME: whether it is in automatic and working without a demand, and
-- whether the demand of AOG is arriving.
pub record Check : Type 0 where
  pub name : ℕ
  pub now_ms : ℕ
  pub arriving : Bool
  pub works_without_demand : Bool

unfoldable pub warning_text : Bool → List ℕ
warning_text arriving =
    if arriving
    then codes "Implement working, AOG sections off: turn on section Auto"
    else codes "Implement working but no field is open in AOG"

abbrev or_new : Option Tracked → ℕ → Tracked
or_new none now = record { since_ms = now; warned = false }
or_new (some tracked) now = tracked

-- The unsigned difference of two times of 32 bits.
abbrev pub elapsed : ℕ → ℕ → ℕ
elapsed now since = u32 (now + 4294967296 - since)

-- The warnings come with the NAME of the client that they are about.
unfoldable pub check_client : Map Tracked → Check → Map Tracked × List (ℕ × List ℕ)
check_client watched c =
    let tracked = or_new (find c.name watched) c.now_ms in
    if not c.works_without_demand
    then (erase c.name watched, [])
    else if not tracked.warned && leb 10000 (elapsed c.now_ms tracked.since_ms)
    then (
      assign c.name (record tracked { warned = true }) watched,
      (c.name, warning_text c.arriving) ∷ [],
    )
    else (assign c.name tracked watched, [])

unfoldable pub check_clients : Map Tracked → List Check → Map Tracked × List (ℕ × List ℕ)
unfolding check_client
check_clients watched [] = (watched, [])
check_clients watched (c ∷ rest) =
    let (watched', now) = check_client watched c in
    let (watched'', later) = check_clients watched' rest in (watched'', now ++ later)

unfoldable pub any_demanded : Bool → List Bool → ℕ → ℕ → Bool
any_demanded arriving demand zero section = false
any_demanded arriving demand (suc rounds) section =
    (arriving && ltb section (length demand) && get_or demand section false)
    || any_demanded arriving demand rounds (section + 1)

-- The payloads of the packets to the display: 20 seconds, an alert.
unfoldable pub alerts : List (ℕ × List ℕ) → List (Option (List ℕ))
unfolding hardware_message
alerts [] = []
alerts ((name, text) ∷ rest) = hardware_message text 20 0 ∷ alerts rest

module _ {P : Type 0} where
  -- The loop over the sections of a client: the rounds left, and the section.
  unfoldable pub any_working : ClientState P → ℕ → ℕ → Bool
  unfolding is_working
  any_working s zero section = false
  any_working s (suc rounds) section = is_working s section || any_working s rounds (section + 1)

  unfoldable pub check_of : (ℕ → ℕ) → ℕ → Bool → List Bool → ℕ × ClientState P → Check
  unfolding any_working any_demanded
  check_of name_of now arriving demand (client, s) =
      let n = s.number_of_sections in
      record {
        name = name_of client;
        now_ms = now;
        arriving = arriving;
        works_without_demand =
            s.section_control_enabled
            && any_working s n 0
            && not (any_demanded arriving demand n 0);
      }

  -- `expired` is `time_expired_ms(lastSectionDemandMs, 2000)`; the first result is
  -- `sectionDemandArriving`.
  unfoldable pub check_section_demand :
      (ℕ → ℕ)
      → ℕ
      → Bool
      → ℕ
      → List Bool
      → Map (ClientState P)
      → Map Tracked
      → Bool × Map Tracked × List (ℕ × List ℕ)
  unfolding check_clients check_of
  check_section_demand name_of now expired last_section_demand_ms demand clients watched =
      let arriving = not (last_section_demand_ms == 0) && not expired in
      let (watched', warnings) =
        check_clients watched (map (check_of name_of now arriving demand) clients) in
      (arriving, watched', warnings)

-- `describe_section_demand`: the inner loop, by `last`.
unfoldable pub run_end : List Bool → ℕ → ℕ → ℕ → ℕ
run_end demand count zero last = last
run_end demand count (suc rounds) last =
    let further = run_end demand count rounds (last + 1) in
    if ltb (last + 1) count && get_or demand (last + 1) false then further else last

-- A run of sections that are on starts here.
abbrev pub starts : List Bool → ℕ → Bool
starts demand i = get_or demand i false && not (ltb 0 i && get_or demand (i - 1) false)

-- The outer loop: the rounds left and the section. The result is `onCount` and the ranges.
unfoldable pub demand_ranges : List Bool → ℕ → ℕ → ℕ → ℕ × List (ℕ × ℕ)
unfolding run_end
demand_ranges demand count zero i = (0, [])
demand_ranges demand count (suc rounds) i =
    let (on, ranges) = demand_ranges demand count rounds (i + 1) in
    if starts demand i
    then (suc on, (i, run_end demand count count i) ∷ ranges)
    else if get_or demand i false
    then (suc on, ranges)
    else (on, ranges)

unfoldable pub described_count : List Bool → ℕ → ℕ
described_count demand number_of_sections =
    if number_of_sections == 0
    then length demand
    else if ltb (length demand) number_of_sections
    then length demand
    else number_of_sections

-- A range as text, counted from 1.
unfoldable pub range_text : ℕ × ℕ → List ℕ
unfolding decimal
range_text (first, last) =
    decimal (first + 1) ++ (if ltb first last then codes "-" ++ decimal (last + 1) else [])

unfoldable pub ranges_text : List (ℕ × ℕ) → List ℕ
unfolding range_text
ranges_text [] = []
ranges_text (r ∷ []) = range_text r
ranges_text (r ∷ rest) = range_text r ++ (codes "," ++ ranges_text rest)

unfoldable pub describe_section_demand : List Bool → ℕ → List ℕ
unfolding demand_ranges ranges_text described_count
describe_section_demand demand number_of_sections =
    let count = described_count demand number_of_sections in
    let (on, ranges) = demand_ranges demand count count 0 in
    if on == 0 then codes "all off" else decimal on ++ (codes " on: " ++ ranges_text ranges)

-- `log_section_demand`: what the application keeps of the demand that it has logged.
pub record DemandLog : Type 0 where
  pub logged_section_demand : List Bool
  pub section_demand_changes_since_log : ℕ
  pub last_section_demand_log_ms : ℕ

module _ {P : Type 0} where
  unfoldable pub most_sections : Map (ClientState P) → ℕ
  most_sections [] = 0
  most_sections ((client, s) ∷ rest) =
      let most = most_sections rest in
      if ltb s.number_of_sections most then most else s.number_of_sections

  -- The text of a line, if one is logged. `expired` is `time_expired_ms(lastSectionDemandLogMs, 200)`.
  unfoldable pub log_section_demand :
      ℕ → Bool → List Bool → Map (ClientState P) → DemandLog → DemandLog × Option (List ℕ)
  unfolding describe_section_demand most_sections same_states
  log_section_demand now expired demand clients log =
      let changes = log.section_demand_changes_since_log in
      let omitted =
        if ltb 1 changes
        then codes " (" ++ (decimal (changes - 1) ++ codes " intermediate changes not logged)")
        else [] in
      let text =
        codes "Section demand (PGN 229): "
        ++ (describe_section_demand demand (most_sections clients) ++ omitted) in
      if changes == 0 || not expired
      then (log, none)
      else if same_states demand log.logged_section_demand
      then (
        record log { section_demand_changes_since_log = 0; last_section_demand_log_ms = now },
        none,
      )
      else (
        record {
          logged_section_demand = demand;
          section_demand_changes_since_log = 0;
          last_section_demand_log_ms = now;
        },
        some text,
      )
