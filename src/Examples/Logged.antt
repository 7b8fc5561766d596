-- ===== src/Examples/Logged.antt =====
-- Lines of the log.
use aog_task_controller.Prelude.{ℕ, ◌+◌, ◌≤◌, ◌≡◌, ◌⊎◌, List, [], ◌∷◌, ◌++◌, length}
use aog_task_controller.AsyncLog.{max_queued_bytes}
use aog_task_controller.AsyncLog.Bounds.{
  Event, submits, takes, finishes, new_log, handle_all, total, submitted, handle_all-accounted,
}
use aog_task_controller.AsyncLog.Lines.{joined, write_all, joined-write_all}

abbrev hello : List ℕ
hello = b'h' ∷ b'i' ∷ 10 ∷ []

-- A line is written while the next one comes in.
abbrev two_lines : List Event
two_lines = submits hello ∷ takes ∷ submits (b'x' ∷ hello) ∷ finishes ∷ []

handle_all-accounted_example :
    let log = handle_all new_log two_lines in
    ((total log.queue.lines ≤ max_queued_bytes) ⊎ (length log.queue.lines ≤ 1))
    × (total log.written + log.reported + log.queue.dropped_bytes + total log.queue.lines
        ≡ submitted two_lines)
handle_all-accounted_example = handle_all-accounted two_lines

joined-write_all_example :
    joined (write_all [] (hello ∷ hello ∷ [])) ≡ [] ++ joined (hello ∷ hello ∷ [])
joined-write_all_example = joined-write_all [] (hello ∷ hello ∷ [])
