-- ===== src/Server/Setpoints.antt =====
-- `MyTCServer::send_section_setpoint_states`, `update_section_states`, `update_section_control_enabled`,
-- `send_section_control_state`, `send_gnss_quality` and `is_ddi_settable`: what the server sends to
-- its clients. Each body of a loop over the clients is a function of one client's state.
pub mod Packing
pub mod Demand
pub mod Settled
use aog_task_controller.Prelude.{
  ℕ, zero, suc, ◌+◌, ◌-◌, ◌*◌, ◌/◌, ◌%◌, ◌^◌, Bool, true, false, not, ◌&&◌, List, [], ◌∷◌, ◌++◌,
  ltb, ◌==◌, if◌then◌else◌, bool_eq, to_nat, u8, u16, u32, length, get_or, bit_or,
}
use aog_task_controller.Isobus.{DataDictionary, PoolLibrary, Object, process_data, objects}
use aog_task_controller.Client.{
  ClientState, sections_per_message, get_section_setpoint_state, set_section_setpoint_state,
  has_element_number_for_ddi, get_element_number_for_ddi, is_any_section_setpoint_on,
  set_setpoint_work_state, get_element_number_for_section, set_section_control_enabled,
}
use aog_task_controller.Client.SectionState
use aog_task_controller.Server.{Server, Message, set_value, for_clients}

-- The first process data object with the DDI decides.
unfoldable pub is_settable_in : ℕ → List Object → Bool
is_settable_in ddi [] = false
is_settable_in ddi (process_data d ∷ rest) =
    if d.ddi == ddi then d.settable else is_settable_in ddi rest
is_settable_in ddi (_ ∷ rest) = is_settable_in ddi rest

module _ {P : Type 0} where
  -- The body of the loop that packs the states, `value |= state << (2 * i)`.
  unfoldable pub pack_state : ClientState P → ℕ → ℕ → ℕ → ℕ
  pack_state s section_offset i value =
      bit_or value (u32 (get_section_setpoint_state s (u8 (section_offset + i)) * 2 ^ (2 * i)))

  -- The rounds left, the index of the next, and the value so far.
  unfoldable pub pack_states : ClientState P → ℕ → ℕ → ℕ → ℕ → ℕ
  unfolding pack_state
  pack_states s section_offset zero i value = value
  pack_states s section_offset (suc rounds) i value =
      pack_states s section_offset rounds (i + 1) (pack_state s section_offset i value)

  unfoldable pub condensed_value : ClientState P → ℕ → ℕ
  condensed_value s ddi_offset = pack_states s (u8 (ddi_offset * sections_per_message)) 16 0 0

  -- DDI 289 goes out when the overall setpoint changes and the client has an element for it.
  unfoldable pub send_setpoint_work_state :
      DataDictionary → ℕ → ClientState P → ClientState P × List Message
  send_setpoint_work_state dd client s =
      let work = is_any_section_setpoint_on s in
      let ddi = dd.setpoint_work_state in
      if not (bool_eq s.setpoint_work_state work) && has_element_number_for_ddi s ddi
      then (
        set_setpoint_work_state s work,
        set_value client ddi (get_element_number_for_ddi s ddi) (to_nat work) ∷ [],
      )
      else (s, [])

  -- The loop over the sections of one message, for per-element control.
  unfoldable pub send_elements : ℕ → ClientState P → ℕ → ℕ → ℕ → List Message
  send_elements client s section_offset zero i = []
  send_elements client s section_offset (suc rounds) i =
      let section = u8 (section_offset + i) in
      let element_number = get_element_number_for_section s section in
      let on = get_section_setpoint_state s section == SectionState.on in
      let message = set_value client s.per_element_setpoint_ddi element_number (to_nat on) in
      let later = send_elements client s section_offset rounds (i + 1) in
      if ltb section s.number_of_sections
      then if element_number == 0 then later else message ∷ later
      else []

module _ (lib : PoolLibrary) (dd : DataDictionary) where
  open lib use {Pool}

  unfoldable pub is_ddi_settable : ClientState Pool → ℕ → Bool
  unfolding is_settable_in
  is_ddi_settable s ddi = is_settable_in ddi (objects lib s.pool)

  unfoldable pub send_section_setpoint_states :
      ℕ → ClientState Pool → ℕ → ClientState Pool × List Message
  send_section_setpoint_states client s ddi_offset =
      let value = condensed_value s ddi_offset in
      let target = u16 (dd.setpoint_condensed_work_state 0 + ddi_offset) in
      let legacy = u16 (dd.actual_condensed_work_state 0 + ddi_offset) in
      let (s', work) = send_setpoint_work_state dd client s in
      if has_element_number_for_ddi s target
      then (s', set_value client target (get_element_number_for_ddi s target) value ∷ work)
      else if has_element_number_for_ddi s legacy
      then (
        s,
        (if is_ddi_settable s legacy
            then set_value client legacy (get_element_number_for_ddi s legacy) value ∷ []
            else []),
      )
      else if s.uses_per_element_control
      then (s', send_elements client s (u8 (ddi_offset * sections_per_message)) 16 0 ++ work)
      else (s, [])

  -- The variables of the loop of `update_section_states`.
  pub record Progress : Type 0 where
    pub state : ClientState Pool
    pub requires_update : Bool
    pub sent : List Message

  unfoldable pub send_block : ℕ → ℕ → Progress → Progress
  send_block client ddi_offset p =
      let (s, messages) = send_section_setpoint_states client p.state ddi_offset in
      record { state = s; requires_update = false; sent = p.sent ++ messages }

  -- At the first section of a message the one before goes out, if a section of it changed.
  unfoldable pub send_previous : ℕ → ℕ → Progress → Progress
  send_previous client i p =
      if i % sections_per_message == 0 && p.requires_update
      then send_block client (u8 (i / sections_per_message - 1)) p
      else p

  unfoldable pub apply_demand : List Bool → ℕ → Progress → Progress
  apply_demand demand i p =
      let wanted = get_or demand i false in
      let is_on = get_section_setpoint_state p.state i == SectionState.on in
      if ltb i (length demand) && not (bool_eq wanted is_on)
      then record p {
        state =
            set_section_setpoint_state p.state i
              (if wanted then SectionState.on else SectionState.off);
        requires_update = true;
      }
      else p

  unfoldable pub update_sections : ℕ → List Bool → ℕ → ℕ → Progress → Progress
  update_sections client demand zero i p = p
  update_sections client demand (suc rounds) i p =
      update_sections client demand rounds (i + 1)
        (apply_demand demand i (send_previous client i p))

  -- After the loop the last message goes out, if a section of it changed.
  unfoldable pub send_last : ℕ → ℕ → Progress → Progress
  send_last client number p =
      if p.requires_update then send_block client ((number - 1) / sections_per_message) p else p

  unfoldable pub update_client_sections :
      List Bool → ℕ → ClientState Pool → ClientState Pool × List Message
  update_client_sections demand client s =
      let n = s.number_of_sections in
      let start : Progress = record { state = s; requires_update = false; sent = [] } in
      let p = send_last client n (update_sections client demand n 0 start) in
      if s.section_control_enabled then if n == 0 then (s, []) else (p.state, p.sent) else (s, [])

  unfoldable pub update_section_states : Server Pool → List Bool → Server Pool × List Message
  update_section_states server demand =
      let (clients, sent) = for_clients (update_client_sections demand) server.clients in
      (record server { clients = clients }, sent)

module _ {P : Type 0} (dd : DataDictionary) where
  unfoldable pub send_section_control_state : ℕ → ClientState P → Bool → List Message
  send_section_control_state client s enabled =
      let ddi = dd.section_control_state in
      set_value client ddi (get_element_number_for_ddi s ddi) (to_nat enabled) ∷ []

  unfoldable pub enable_client : Bool → ℕ → ClientState P → ClientState P × List Message
  unfolding send_section_control_state
  enable_client enabled client s =
      let s' =
        if bool_eq s.section_control_enabled enabled
        then s
        else set_section_control_enabled s enabled in
      (
        s',
        (if has_element_number_for_ddi s' dd.section_control_state && ltb 0 s'.number_of_sections
            then send_section_control_state client s' enabled
            else []),
      )

  unfoldable pub update_section_control_enabled : Server P → Bool → Server P × List Message
  unfolding enable_client
  update_section_control_enabled server enabled =
      let (clients, sent) = for_clients (enable_client enabled) server.clients in
      (record server { clients = clients }, sent)

  unfoldable pub send_client_quality : ℕ → ℕ → ClientState P → ClientState P × List Message
  send_client_quality quality client s =
      let ddi = dd.gnss_quality in
      (
        s,
        (if has_element_number_for_ddi s ddi
            then set_value client ddi (get_element_number_for_ddi s ddi) quality ∷ []
            else []),
      )

  unfoldable pub send_gnss_quality : Server P → ℕ → Server P × List Message
  unfolding send_client_quality
  send_gnss_quality server quality =
      let (clients, sent) = for_clients (send_client_quality quality) server.clients in
      (record server { clients = clients }, sent)
