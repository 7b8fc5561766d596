-- ===== src/Examples/Program.antt =====
-- The start of the program, its socket, and the tool that checks an object pool.
use aog_task_controller.Prelude.{
  ℕ, ◌≡◌, refl, ◌↔◌, true, List, [], ◌∷◌, Option, none, some, if◌then◌else◌,
}
use aog_task_controller.Prelude.Map.{find}
use aog_task_controller.Prelude.Text.{codes}
use aog_task_controller.Start.{
  no_arguments, process, split_parameter, adapter_socketcan, Round, returns, throws, success,
  run_application_loop,
}
use aog_task_controller.Start.Options.{any_argument, ends_process, collected, process-collected}
use aog_task_controller.Start.Shutdown.{IsShutDown, run_application_loop-IsShutDown}
use aog_task_controller.Udp.Detection.{Subnet}
use aog_task_controller.Udp.Endpoint.{
  Address, get_local_endpoint, IsEndpoint, get_local_endpoint-IsEndpoint,
}
use aog_task_controller.IopValidator.{Tree, working_set, output_meter, validate}
use aog_task_controller.IopValidator.Sound.{IsAccepted, validate_iff}

-- The second channel counts; case does not.
abbrev arguments : List (List ℕ)
arguments =
    codes "--can_channel=can1"
    ∷ codes "--CAN_adapter=socketcan"
    ∷ codes "--can_channel=can0"
    ∷ codes "--log2file"
    ∷ []

processed :
    process arguments no_arguments
    ≡ some (record {
      can_adapter = adapter_socketcan;
      can_channel = codes "can0";
      file_logging = true;
      log_level = none;
    })
unfolding process split_parameter
processed = refl

process-collected_example : process arguments no_arguments ≡ (
    if any_argument ends_process arguments then none else some (collected arguments no_arguments))
process-collected_example = process-collected arguments no_arguments

-- An update, and one that throws.
abbrev rounds : List Round
rounds =
    record { running = true; update = returns true }
    ∷ record { running = true; update = throws }
    ∷ []

run_application_loop-IsShutDown_example :
    ((run_application_loop (returns true) rounds).1 ≡ some success)
    × IsShutDown true (run_application_loop (returns true) rounds).0
run_application_loop-IsShutDown_example = run_application_loop-IsShutDown (returns true) rounds

abbrev subnet : Subnet
subnet = record { ip_0 = 192; ip_1 = 168; ip_2 = 5 }

abbrev entries : List (Option Address)
entries =
    none
    ∷ some (record { octet_0 = 127; octet_1 = 0; octet_2 = 0; octet_3 = 1 })
    ∷ some (record { octet_0 = 192; octet_1 = 168; octet_2 = 5; octet_3 = 10 })
    ∷ []

get_local_endpoint-IsEndpoint_example :
    IsEndpoint subnet entries [] (get_local_endpoint subnet (some entries) none)
get_local_endpoint-IsEndpoint_example = get_local_endpoint-IsEndpoint subnet (some entries) none

-- A working set whose mask is object 8, and a meter with a value above its range.
abbrev tree : Tree
tree =
    (1, some (record { kind = working_set 8; children = []; is_valid = true }))
    ∷ (8, some (record { kind = output_meter 9 0 5; children = []; is_valid = true }))
    ∷ []

rejected : validate 0xFFFF 3 2 [] (some tree) ≡ 1
unfolding validate find
rejected = refl

validate_iff_example :
    (validate 0xFFFF 3 2 (1 ∷ []) (some tree) ≡ 0) ↔ IsAccepted 0xFFFF 3 (1 ∷ []) (some tree)
validate_iff_example = validate_iff 0xFFFF 3 (1 ∷ []) (some tree)
