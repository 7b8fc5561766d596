-- ===== src/AsyncLog.antt =====
-- src/async_log.cpp: the queue of log lines between the threads that log and the one that writes, and
-- the buffer that cuts the output of a thread into lines. A text is the list of its bytes.
pub mod Bounds
pub mod Lines
use aog_task_controller.Prelude.{
  ℕ, zero, suc, ◌+◌, ◌-◌, ◌*◌, Bool, true, false, ◌&&◌, List, [], ◌∷◌, ◌++◌, Option, none, some,
  ltb, ◌==◌, if◌then◌else◌, length, any,
}

-- `maxQueuedBytes`
abbrev pub max_queued_bytes : ℕ
max_queued_bytes = 8 * 1024 * 1024

-- The oldest line comes first.
pub record Queue : Type 0 where
  pub lines : List (List ℕ)
  pub bytes : ℕ
  pub dropped_bytes : ℕ
  pub writing : Bool

abbrev pub new_queue : Queue
new_queue = record { lines = []; bytes = 0; dropped_bytes = 0; writing = false }

-- `push_back`
unfoldable pub push_back : List ℕ → List (List ℕ) → List (List ℕ)
push_back line [] = line ∷ []
push_back line (l ∷ rest) = l ∷ push_back line rest

-- The `while` of `submit`: lines go from the front while there are too many bytes, and more than one
-- line. The numbers are `bytes` and `droppedBytes`.
unfoldable pub drop_oldest : List (List ℕ) → ℕ → ℕ → List (List ℕ) × ℕ × ℕ
drop_oldest [] bytes dropped = ([], bytes, dropped)
drop_oldest (l ∷ []) bytes dropped = (l ∷ [], bytes, dropped)
drop_oldest (l ∷ m ∷ rest) bytes dropped =
    let later = drop_oldest (m ∷ rest) (bytes - length l) (dropped + length l) in
    if ltb max_queued_bytes bytes then later else (l ∷ m ∷ rest, bytes, dropped)

unfoldable pub submit : Queue → List ℕ → Queue
unfolding push_back drop_oldest
submit q line =
    let (lines, bytes, dropped) =
      drop_oldest (push_back line q.lines) (q.bytes + length line) q.dropped_bytes in
    record q { lines = lines; bytes = bytes; dropped_bytes = dropped }

-- What the writing thread takes: nothing while there are no lines, else the number of bytes that the
-- message about dropped output names, and the lines.
unfoldable pub batch_of : Queue → List (List ℕ) → Option (Queue × ℕ × List (List ℕ))
batch_of q [] = none
batch_of q lines =
    some
      (record { lines = []; bytes = 0; dropped_bytes = 0; writing = true }, q.dropped_bytes, lines)

unfoldable pub take_batch : Queue → Option (Queue × ℕ × List (List ℕ))
take_batch q = batch_of q q.lines

-- After the batch is on the console. The second part is the notification of those who wait for it.
unfoldable pub finish_batch : Queue → Queue × Bool
finish_batch q = (record q { writing = false }, elim q.lines [ [] ↦ true | _ ∷ _ ↦ false ])

-- The condition that `flush` waits for.
unfoldable pub is_drained : Queue → Bool
is_drained q = elim q.lines [ [] ↦ elim q.writing [ true ↦ false | false ↦ true ] | _ ∷ _ ↦ false ]

-- `rfind` of a line feed: the text up to the last one and with it, and the text after it; nothing
-- where there is no line feed.
unfoldable pub extend : ℕ → List ℕ → Option (List ℕ × List ℕ) → Option (List ℕ × List ℕ)
extend c rest (some (before, after)) = some (c ∷ before, after)
extend c rest none = if c == 10 then some (c ∷ [], rest) else none

unfoldable pub split_last : List ℕ → Option (List ℕ × List ℕ)
unfolding extend
split_last [] = none
split_last (c ∷ rest) = extend c rest (split_last rest)

-- `LineBuffer::append`, behind `overflow` and `xsputn`: the new `line`, and what is submitted.
unfoldable pub append_after : List ℕ → Option (List ℕ × List ℕ) → List ℕ × List (List ℕ)
append_after line none = (line, [])
append_after line (some (before, after)) = (after, before ∷ [])

unfoldable pub append : List ℕ → List ℕ → List ℕ × List (List ℕ)
unfolding split_last append_after
append line text = append_after (line ++ text) (split_last (line ++ text))

-- The destructor.
unfoldable pub close_buffer : List ℕ → List (List ℕ)
close_buffer [] = []
close_buffer (c ∷ rest) = (c ∷ rest) ∷ []
