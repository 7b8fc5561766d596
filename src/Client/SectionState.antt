-- ===== src/Client/SectionState.antt =====
-- `enum SectionState` of include/task_controller.hpp: states travel as the numbers of the enum.
use aog_task_controller.Prelude.{ℕ}

abbrev pub off : ℕ
off = 0

abbrev pub on : ℕ
on = 1

abbrev pub error_state : ℕ
error_state = 2

abbrev pub not_installed : ℕ
not_installed = 3
