-- ===== src/AsyncLog/Bounds.antt =====
-- The queue of log lines keeps its bound, and accounts for every byte that it is handed.
use aog_task_controller.Prelude.{
  ℕ, ◌+◌, ◌-◌, ◌≤◌, ◌≡◌, refl, ap, ◌∙◌, sym, subst, if_true, if_false, Bool-cases, ltb→ge, ◌⊎◌, inl,
  inr, List, [], ◌∷◌, ◌++◌, Option, none, some, arith, ltb, length,
}
use aog_task_controller.AsyncLog.{
  Queue, new_queue, max_queued_bytes, push_back, drop_oldest, submit, take_batch, batch_of,
  finish_batch,
}

-- The bytes of all the lines.
unfoldable pub total : List (List ℕ) → ℕ
total [] = 0
total (l ∷ rest) = length l + total rest

-- The queue, the bytes that the messages about dropped output named, and the lines on the console.
pub record Log : Type 0 where
  pub queue : Queue
  pub reported : ℕ
  pub written : List (List ℕ)

abbrev pub new_log : Log
new_log = record { queue = new_queue; reported = 0; written = [] }

-- Each runs under the mutex of the queue; the writing thread takes a batch and finishes it later.
pub data Event : Type 0 where
  submits : List ℕ → Event
  takes finishes : Event

unfoldable pub write_batch : Log → Option (Queue × ℕ × List (List ℕ)) → Log
write_batch log none = log
write_batch log (some (q, dropped, batch)) = record {
  queue = q;
  reported = log.reported + dropped;
  written = log.written ++ batch;
}

unfoldable pub handle : Log → Event → Log
unfolding write_batch
handle log (submits line) = record log { queue = submit log.queue line }
handle log takes = write_batch log (take_batch log.queue)
handle log finishes = record log { queue = (finish_batch log.queue).0 }

unfoldable pub handle_all : Log → List Event → Log
handle_all log [] = log
handle_all log (e ∷ rest) = handle_all (handle log e) rest

-- The bytes that the threads submit in a run.
unfoldable pub submitted : List Event → ℕ
submitted [] = 0
submitted (submits line ∷ rest) = length line + submitted rest
submitted (takes ∷ rest) = submitted rest
submitted (finishes ∷ rest) = submitted rest

total-append : (xs ys : List (List ℕ)) → total (xs ++ ys) ≡ total xs + total ys
unfolding total
total-append [] ys = omega arith
total-append (x ∷ xs) ys = omega (arith, total-append xs ys)

total-push_back :
    (line : List ℕ) (xs : List (List ℕ)) → total (push_back line xs) ≡ total xs + length line
unfolding total push_back
total-push_back line [] = omega arith
total-push_back line (x ∷ xs) = omega (arith, total-push_back line xs)

abbrev IsCut : ℕ → List (List ℕ) × ℕ × ℕ → Type 0
IsCut all (lines, bytes, dropped) =
    (bytes ≡ total lines)
    × (dropped + total lines ≡ all)
    × ((bytes ≤ max_queued_bytes) ⊎ (length lines ≤ 1))

drop_oldest-IsCut :
    (lines : List (List ℕ)) (bytes dropped all : ℕ)
    → bytes ≡ total lines
    → dropped + total lines ≡ all
    → IsCut all (drop_oldest lines bytes dropped)
unfolding drop_oldest total
drop_oldest-IsCut [] bytes dropped all e a = (e, a, inl (omega (arith, e)))
drop_oldest-IsCut (l ∷ []) bytes dropped all e a = (e, a, inr (omega arith))
drop_oldest-IsCut (l ∷ m ∷ rest) bytes dropped all e a =
    let later = drop_oldest (m ∷ rest) (bytes - length l) (dropped + length l) in
    let here : List (List ℕ) × ℕ × ℕ = (l ∷ m ∷ rest, bytes, dropped) in
    elim (Bool-cases (ltb max_queued_bytes bytes)) [
      | inl over ↦ subst (IsCut all) (sym (if_true (ltb max_queued_bytes bytes) later here over)) (
          drop_oldest-IsCut (m ∷ rest) (bytes - length l) (dropped + length l) all
            (omega (arith, e)) (omega (arith, a)))
      | inr fits ↦
          subst (IsCut all) (sym (if_false (ltb max_queued_bytes bytes) later here fits))
            (e, a, inl (ltb→ge max_queued_bytes bytes fits))
    ]

-- What holds of the queue between two events: the count of its bytes is right, and below the limit
-- unless one line alone is above it.
abbrev IsCounted : Queue → Type 0
IsCounted q = (q.bytes ≡ total q.lines) × ((q.bytes ≤ max_queued_bytes) ⊎ (length q.lines ≤ 1))

-- The bytes that a log answers for.
abbrev accounted : Log → ℕ
accounted log = total log.written + log.reported + log.queue.dropped_bytes + total log.queue.lines

abbrev IsAccounted : ℕ → Log → Type 0
IsAccounted all log = IsCounted log.queue × (accounted log ≡ all)

submitted-cons :
    (event : Event) (rest : List Event) (all : ℕ)
    → all + submitted (event ∷ []) + submitted rest ≡ all + submitted (event ∷ rest)
unfolding submitted
submitted-cons (submits line) rest all = omega arith
submitted-cons takes rest all = omega arith
submitted-cons finishes rest all = omega arith

submit-IsAccounted :
    (log : Log) (line : List ℕ) (all : ℕ)
    → IsAccounted all log
    → IsAccounted (all + length line) (record log { queue = submit log.queue line })
unfolding submit
submit-IsAccounted log line all ((counted, bound), sum) =
    let q = log.queue in
    let pushed = total-push_back line q.lines in
    let (c, kept, b) =
      drop_oldest-IsCut (push_back line q.lines) (q.bytes + length line) q.dropped_bytes
        (q.dropped_bytes + total (push_back line q.lines)) (omega (arith, pushed, counted)) refl in
    ((c, b), omega (arith, kept, sum, pushed))

batch_of-IsAccounted :
    (log : Log) (all : ℕ) (lines : List (List ℕ))
    → log.queue.lines ≡ lines
    → IsAccounted all log
    → IsAccounted all (write_batch log (batch_of log.queue lines))
unfolding write_batch batch_of total
batch_of-IsAccounted log all [] e h = h
batch_of-IsAccounted log all (l ∷ rest) e ((counted, bound), sum) =
    let whole = total-append log.written (l ∷ rest) in
    let same = ap total e in ((refl, inl (omega arith)), omega (arith, whole, same, sum))

handle-IsAccounted :
    (log : Log) (event : Event) (all : ℕ)
    → IsAccounted all log
    → IsAccounted (all + submitted (event ∷ [])) (handle log event)
unfolding handle submitted
handle-IsAccounted log (submits line) all h =
    let e : all + length line ≡ all + (length line + 0) = omega arith in
    subst (λ n. IsAccounted n (record log { queue = submit log.queue line })) e
      (submit-IsAccounted log line all h)
handle-IsAccounted log takes all h =
    let e : all ≡ all + 0 = omega arith in
    subst (λ n. IsAccounted n (write_batch log (take_batch log.queue))) e
      (unfold take_batch in batch_of-IsAccounted log all log.queue.lines refl h)
handle-IsAccounted log finishes all h =
    let e : all ≡ all + 0 = omega arith in
    subst (λ n. IsAccounted n (record log { queue = (finish_batch log.queue).0 })) e
      (unfold finish_batch in h)

handle_all-IsAccounted :
    (log : Log) (events : List Event) (all : ℕ)
    → IsAccounted all log
    → IsAccounted (all + submitted events) (handle_all log events)
unfolding handle_all submitted
handle_all-IsAccounted log [] all h =
    let e : all ≡ all + 0 = omega arith in subst (λ n. IsAccounted n log) e h
handle_all-IsAccounted log (event ∷ rest) all h =
    let e : all + submitted (event ∷ []) + submitted rest ≡ all + submitted (event ∷ rest) =
      submitted-cons event rest all in
    subst (λ n. IsAccounted n (handle_all log (event ∷ rest))) e
      (handle_all-IsAccounted (handle log event) rest (all + submitted (event ∷ []))
        (handle-IsAccounted log event all h))

within :
    {bytes all lines : ℕ}
    → bytes ≡ all
    → (bytes ≤ max_queued_bytes) ⊎ (lines ≤ 1)
    → (all ≤ max_queued_bytes) ⊎ (lines ≤ 1)
within e (inl small) = inl (omega arith)
within e (inr few) = inr few

-- After any run of the queue: the bytes in it stay within the limit unless one line alone exceeds it,
-- and the bytes on the console, those that the messages about dropped output named, those that the
-- next message will name, and those in the queue add up to the bytes that were submitted.
pub handle_all-accounted :
    (events : List Event)
    → let log = handle_all new_log events in
      ((total log.queue.lines ≤ max_queued_bytes) ⊎ (length log.queue.lines ≤ 1))
      × (total log.written + log.reported + log.queue.dropped_bytes + total log.queue.lines
          ≡ submitted events)
handle_all-accounted events =
    let start : IsAccounted 0 new_log = unfold total in ((refl, inl (omega arith)), refl) in
    let ((counted, bound), sum) = handle_all-IsAccounted new_log events 0 start in
    (within counted bound, sum ∙ (omega arith))
