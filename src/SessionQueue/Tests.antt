-- ===== src/SessionQueue/Tests.antt =====
-- The session queue over a toy backend: "B" opens a transaction, a simple query closes it.
use kinglet.Base.{
  ℕ, ◌+◌, ◌≡◌, refl, Bool, true, false, not, none, some, List, [], ◌∷◌, arith, keep, string_eq,
  nat_beq, if◌then◌else◌,
}
use kinglet.SessionQueue.{
  Message, World, is_from, has_id, has_id, delete_id, add_id, take_next_runnable, take_next,
  enqueue, rollback, rollback_message, rollback_query_message, detach, resume, finish,
  rollback_if_lost, settle,
}
use kinglet.SessionQueue.Isolation.{Isolated}
use kinglet.SessionQueue.Steps.{
  enqueued, answered, resumed, Reach, here, next, started, started-Invariant, Reach-Isolated,
  Reach-Awake,
}
use kinglet.SessionQueue.Fairness.{take_next_runnable-fifo}
use kinglet.SessionQueue.Promises.{tally, issues, tally-Step}
use kinglet.SessionQueue.Recovery.{detach-rolls_back, finish-recovers}

program : Unit {0}
unfolding take_next_runnable take_next enqueue rollback rollback_message rollback_query_message
    detach resume finish rollback_if_lost settle delete_id add_id has_id
program = tt

abbrev exec : Bool → List ℕ → Bool × Bool
exec b [] = (b, true)
exec b (x ∷ rest) =
    if nat_beq x b'B' then (true, true) else if nat_beq x 0x51 then (false, true) else (b, true)

abbrev in_transaction : Bool → Bool
in_transaction b = b

abbrev begin : Message
begin = record { connection_id = "c"; bytes = b'B' ∷ []; promise = 7 }

abbrev other : Message
other = record { connection_id = "d"; bytes = b'S' ∷ []; promise = 8 }

abbrev start : World Bool
start = started exec in_transaction false

abbrev opened : World Bool
opened = finish exec in_transaction begin (enqueue begin start)

runs_begin : (enqueue begin start).running ≡ some begin
unfolding program
runs_begin = refl

abbrev reach_opened : Reach exec in_transaction start (resume opened)
unfolding program
reach_opened = next (next (next here (enqueued begin)) (answered begin refl)) (resumed refl refl)

Reach-Isolated_example : Isolated (resume opened).executed
unfolding reach_opened program
Reach-Isolated_example = Reach-Isolated exec in_transaction false (resume opened) refl reach_opened

Reach-Awake_example :
    take_next_runnable (resume opened).queue.owner (resume opened).queue.pending ≡ none
unfolding program
Reach-Awake_example = Reach-Awake exec in_transaction false (resume opened) refl reach_opened refl

tally-Step_example :
    tally 7 (enqueue begin start)
    ≡ tally 7 start + issues exec in_transaction {w = start} 7 (enqueued begin)
tally-Step_example =
    tally-Step exec in_transaction 7 (enqueued begin) (omega arith)
      (started-Invariant exec in_transaction false refl)

take_next_runnable-fifo_example : keep (is_from "d") (begin ∷ other ∷ []) ≡ (
    if is_from "d" begin
    then begin ∷ keep (is_from "d") (other ∷ [])
    else keep (is_from "d") (other ∷ []))
unfolding program
take_next_runnable-fifo_example =
    take_next_runnable-fifo (some "c") "d" (begin ∷ other ∷ []) begin (other ∷ []) refl

-- The transaction is open and "d" waits.
abbrev waiting : World Bool
waiting = enqueue other (resume opened)

detach-rolls_back_example :
    ((detach "c" waiting).running ≡ some (rollback_message "c"))
    × ((detach "c" waiting).queue.pending ≡ keep (λ m. not (is_from "c" m)) waiting.queue.pending)
unfolding program
detach-rolls_back_example = detach-rolls_back "c" waiting refl refl

still_waits : (detach "c" waiting).queue.pending ≡ other ∷ []
unfolding program
still_waits = refl

-- "c" goes away while its "B" runs, and "d" has queued a message.
abbrev going : World Bool
going = detach "c" (enqueue other (enqueue begin start))

finish-recovers_example :
    ((resume (finish exec in_transaction begin going)).running ≡ some (rollback_message "c"))
    × (let w' =
          finish exec in_transaction
            (rollback_message "c")
            (resume (finish exec in_transaction begin going)) in
        (w'.queue.owner ≡ none)
        × (in_transaction w'.backend ≡ false)
        × (w'.queue.pending ≡ going.queue.pending))
unfolding program
finish-recovers_example = finish-recovers exec in_transaction begin going refl refl refl refl refl
