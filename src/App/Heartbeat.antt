-- ===== src/App/Heartbeat.antt =====
-- The section control heartbeat in `Application::update` of src/app.cpp: what the program reports to
-- AOG of each client, every 100 ms.
pub mod Bits
pub mod Packing
use aog_task_controller.Prelude.{
  ℕ, zero, suc, ◌+◌, ◌*◌, ◌-◌, ◌/◌, ◌%◌, ◌^◌, ◌≤◌, ◌<◌, ◌≡◌, refl, ap, ◌∙◌, sym, subst, inl, inr,
  Bool, true, false, not, ◌&&◌, List, [], ◌∷◌, Option, none, some, arith, ltb, ◌==◌, if◌then◌else◌,
  if_true, if_false, Bool-cases, to_nat, u8, bit_or, length, get_or, ltb→lt, ltb→ge,
}
use aog_task_controller.Prelude.Map.{Map}
use aog_task_controller.Client.{ClientState, get_section_actual_state}
use aog_task_controller.Client.SectionState

abbrev pub consed : ℕ → Option (List ℕ) → Option (List ℕ)
consed byte none = none
consed byte (some rest) = some (byte ∷ rest)

abbrev pub with_payload : Option (List ℕ) → Option (List (List ℕ)) → Option (List (List ℕ))
with_payload (some payload) (some rest) = some (payload ∷ rest)
with_payload _ _ = none

abbrev pub or_empty : Bool → Option (List (List ℕ)) → Option (List (List ℕ))
or_empty true (some []) = some ((0 ∷ 0 ∷ []) ∷ [])
or_empty _ payloads = payloads

module _ {P : Type 0} where
  unfoldable pub is_working : ClientState P → ℕ → Bool
  is_working s section = get_section_actual_state s section == SectionState.on

  -- The body of the inner loop, and the loop: the rounds left, the index of the next, `sectionIndex` and `byte`.
  unfoldable pub pack_bit : ClientState P → ℕ → ℕ → ℕ → ℕ × ℕ
  unfolding is_working
  pack_bit s i section byte =
      if ltb section s.number_of_sections
      then (u8 (section + 1), bit_or byte (to_nat (is_working s section) * 2 ^ i))
      else (section, byte)

  unfoldable pub pack_byte : ClientState P → ℕ → ℕ → ℕ → ℕ → ℕ × ℕ
  unfolding pack_bit
  pack_byte s zero i section byte = (section, byte)
  pack_byte s (suc rounds) i section byte =
      let (section', byte') = pack_bit s i section byte in pack_byte s rounds (i + 1) section' byte'

  -- The `while`; `none` means that the rounds ran out.
  unfoldable pub pack_bytes : ClientState P → ℕ → ℕ → Option (List ℕ)
  unfolding pack_byte
  pack_bytes s zero section = none
  pack_bytes s (suc rounds) section =
      let (section', byte) = pack_byte s 8 0 section 0 in
      let rest = pack_bytes s rounds section' in
      if ltb section s.number_of_sections then consed byte rest else some []

  -- The payload of the packet 0xF0 for one client.
  unfoldable pub heartbeat : ℕ → ClientState P → Option (List ℕ)
  unfolding pack_bytes
  heartbeat rounds s =
      consed (to_nat s.section_control_enabled)
        (consed s.number_of_sections (pack_bytes s rounds 0))

  -- The loop over the clients: those without sections are skipped.
  unfoldable pub client_heartbeats : ℕ → Map (ClientState P) → Option (List (List ℕ))
  unfolding heartbeat
  client_heartbeats rounds [] = some []
  client_heartbeats rounds ((client, s) ∷ rest) =
      let later = client_heartbeats rounds rest in
      if s.number_of_sections == 0 then later else with_payload (heartbeat rounds s) later

  -- All the payloads, in the order in which they are sent. Without a client that has sections there is
  -- one that says so, if the setting asks for it.
  unfoldable pub heartbeats : ℕ → Bool → Map (ClientState P) → Option (List (List ℕ))
  unfolding client_heartbeats
  heartbeats rounds enabled clients = or_empty enabled (client_heartbeats rounds clients)
