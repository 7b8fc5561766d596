-- ===== src/App/Cyclic.antt =====
-- What `Application::update` of src/app.cpp sends in turn: the machine speed of J1939, the status of the
-- task controller and the quality of the position; and `check_tc_address_conflict`.
pub mod Speed
pub mod Quality
use aog_task_controller.Prelude.{
  ℕ, ◌+◌, ◌-◌, ◌*◌, ◌/◌, ◌%◌, ◌^◌, Bool, true, false, not, ◌&&◌, ◌||◌, List, [], ◌∷◌, ◌++◌, Option,
  none, some, leb, ◌==◌, if◌then◌else◌, to_nat, u16, u32,
}
use aog_task_controller.Prelude.Text.{codes, decimal}
use aog_task_controller.Server.{Server, Message}
use aog_task_controller.Isobus.{DataDictionary}
use aog_task_controller.Server.Setpoints.{send_gnss_quality}
use aog_task_controller.App.{magnitude}
use aog_task_controller.App.HardwareMessage.{hardware_message}

-- A control function: whether its address is valid, and the address.
pub record ControlFunction : Type 0 where
  pub handle : ℕ
  pub address_valid : Bool
  pub address : ℕ
  pub is_task_controller : Bool

abbrev pub has_valid_address : Option ControlFunction → Bool
has_valid_address none = false
has_valid_address (some cf) = cf.address_valid

-- The times of the last messages, and whether a conflict of addresses was found.
pub record Cycle : Type 0 where
  pub last_j1939_speed_transmit : ℕ
  pub last_tc_status_transmit : ℕ
  pub last_gnss_send_ms : ℕ
  pub last_conflict_check : ℕ
  pub tc_address_conflict_active : Bool
  pub tecu_address_claim_failed : Bool

-- The time, `time_expired_ms` at that time, and whether the bus takes a message.
pub record Tick : Type 0 where
  pub timestamp_ms : ℕ
  pub expired : ℕ → ℕ → Bool
  pub can_sends : Bool

-- The speed in 1/256 km/h, from the 32 bits of the speed in mm/s.
unfoldable pub speed_j1939 : ℕ → ℕ
speed_j1939 value = u16 (u32 (u32 (magnitude value * 576) + 312) / 625)

unfoldable pub j1939_speed_data : ℕ → List ℕ
unfolding speed_j1939
j1939_speed_data value =
    let speed = speed_j1939 value in
    0xFF ∷ 0xFF ∷ speed % 2 ^ 8 ∷ speed / 2 ^ 8 % 2 ^ 8 ∷ 0xFF ∷ 0xFF ∷ 0xFF ∷ 0xFF ∷ []

-- The message, if one is due.
unfoldable pub send_j1939_speed :
    Tick → Option ControlFunction → ℕ → Cycle → Cycle × Option (List ℕ)
unfolding j1939_speed_data
send_j1939_speed now tecu value cycle =
    if now.expired cycle.last_j1939_speed_transmit 100 && has_valid_address tecu
    then (
      (if now.can_sends
          then record cycle { last_j1939_speed_transmit = now.timestamp_ms }
          else cycle),
      some (j1939_speed_data value),
    )
    else (cycle, none)

-- `send_task_controller_status_message`, for whether task totals are active.
unfoldable pub tc_status_data : Bool → List ℕ
tc_status_data active = 0xFE ∷ 0xFF ∷ 0xFF ∷ 0xFF ∷ to_nat active ∷ 0x00 ∷ 0x00 ∷ 0xFF ∷ []

unfoldable pub send_tc_status :
    Tick → Option ControlFunction → Bool → Cycle → Cycle × Option (List ℕ)
unfolding tc_status_data
send_tc_status now tc active cycle =
    if now.expired cycle.last_tc_status_transmit 2000 && has_valid_address tc
    then (record cycle { last_tc_status_transmit = now.timestamp_ms }, some (tc_status_data active))
    else (cycle, none)

-- The quality that is sent, by `gnssFixQuality` and the time of its last packet.
unfoldable pub forwarded_quality : Tick → ℕ → ℕ → ℕ
forwarded_quality now fix_quality last_quality_ms =
    if last_quality_ms == 0 then 1 else if now.expired last_quality_ms 2000 then 0 else fix_quality

module _ {P : Type 0} where
  unfoldable pub send_quality :
      DataDictionary → Tick → ℕ → ℕ → Server P → Cycle → Cycle × Server P × List Message
  unfolding forwarded_quality
  send_quality dd now fix_quality last_quality_ms server cycle =
      let quality = forwarded_quality now fix_quality last_quality_ms in
      let (server', sent) = send_gnss_quality dd server quality in
      if now.expired cycle.last_gnss_send_ms 250
      then (record cycle { last_gnss_send_ms = now.timestamp_ms }, server', sent)
      else (cycle, server, [])

-- `havePreferredAddress`
abbrev has_preferred : ℕ → Option ControlFunction → Bool
has_preferred preferred none = false
has_preferred preferred (some cf) = cf.address_valid && cf.address == preferred

-- Another task controller has the preferred address.
unfoldable pub any_conflict : ℕ → ControlFunction → List ControlFunction → Bool
any_conflict preferred ours [] = false
any_conflict preferred ours (cf ∷ rest) =
    (cf.address_valid
      && cf.address == preferred
      && not (cf.handle == ours.handle)
      && cf.is_task_controller)
    || any_conflict preferred ours rest

-- `check_tc_address_conflict`
unfoldable pub check_tc_address_conflict : ℕ → Option ControlFunction → List ControlFunction → Bool
unfolding any_conflict
check_tc_address_conflict preferred none cfs = false
check_tc_address_conflict preferred (some ours) cfs =
    not (has_preferred preferred (some ours)) && any_conflict preferred ours cfs

-- The check every 15 seconds: the payload of the message to the display, if one is sent.
unfoldable pub check_conflict :
    Tick → ℕ → Option ControlFunction → List ControlFunction → Cycle → Cycle × Option (List ℕ)
unfolding check_tc_address_conflict hardware_message
check_conflict now preferred tc cfs cycle =
    let active = check_tc_address_conflict preferred tc cfs in
    if now.expired cycle.last_conflict_check 15000
    then (
      record cycle { tc_address_conflict_active = active; last_conflict_check = now.timestamp_ms },
      if active
          then hardware_message (codes "TC address conflict: preferred address in use") 20 0
          else if cycle.tc_address_conflict_active
          then hardware_message (codes "TC address conflict resolved") 5 1
          else none,
    )
    else (cycle, none)

-- The failed claim of the tractor ECU, which is reported once.
unfoldable pub report_claim_failure : ℕ → Cycle → Cycle × Option (List ℕ)
unfolding hardware_message
report_claim_failure tecu_address cycle =
    if cycle.tecu_address_claim_failed
    then (
      record cycle { tecu_address_claim_failed = false },
      hardware_message (codes "TECU failed to claim address " ++ decimal tecu_address) 10 0,
    )
    else (cycle, none)
