-- ===== src/Server/RoundTrip.antt =====
-- A client that reports the setpoints it was sent.
use aog_task_controller.Prelude.{ℕ, ◌+◌, ◌*◌, ◌<◌, ◌≡◌, ◌∙◌, some, get_or}
use aog_task_controller.Isobus.{DataDictionary, IsStandard}
use aog_task_controller.Client.{ClientState, get_section_setpoint_state}
use aog_task_controller.Client.Invariant.{IsValid}
use aog_task_controller.Server.ValueCommand.{value_command}
use aog_task_controller.Server.ValueCommand.Condensed.{value_command_condensed}
use aog_task_controller.Server.Setpoints.{condensed_value}
use aog_task_controller.Server.Setpoints.Packing.{condensed_value_read}

-- If a client with a valid state reports back, on condensed entry k, the very value that the server
-- packs for message k, the actual state of each of its sections 16 k to 16 k + 15 becomes the setpoint
-- state of that section.
pub value_command-condensed_value :
    {P : Type 0} (dd : DataDictionary) (k element : ℕ) (s : ClientState P)
    → IsStandard dd
    → k < 16
    → IsValid s
    → (s' : ClientState P) × (value_command dd
          (dd.actual_condensed_work_state k)
          element
          (condensed_value s k)
          s
        ≡ some s')
      × ((i : ℕ)
          → i < 16
          → 16 * k + i < s.number_of_sections
          → get_or s'.section_actual_states (16 * k + i) 0
            ≡ get_section_setpoint_state s (16 * k + i))
value_command-condensed_value dd k element s standard small v =
    let (s', taken, number, inside, outside) =
      value_command_condensed dd k element (condensed_value s k) s standard small v in
    (s', taken, λ i low there. (inside i low there).0 ∙ condensed_value_read s v k i small low)
