-- ===== src/Examples/Claims.antt =====
-- A bus on which both addresses are claimed at once.
use aog_task_controller.Prelude.{ℕ, ◌*◌, true, arith}
use aog_task_controller.App.Setup.{Claims, setup_control_functions}
use aog_task_controller.App.Setup.Waiting.{IsClock}
use aog_task_controller.App.Setup.Ready.{IsReady, setup_control_functions-IsReady}

-- A reading every ten milliseconds.
abbrev ticks : ℕ → ℕ
ticks n = 10 * n

ticks-IsClock : IsClock ticks
ticks-IsClock = record { forward = λ n. omega arith; pauses = λ n. omega arith }

abbrev claims : Claims
claims = record { tc_valid = λ n. true; tecu_valid = λ made. true; tecu_address = λ made. 240 }

setup_control_functions-IsReady_example :
    IsReady ticks ticks-IsClock claims 240 true (setup_control_functions ticks claims 240 true 3000)
setup_control_functions-IsReady_example =
    setup_control_functions-IsReady ticks ticks-IsClock claims 240 true 3000 (omega arith)
