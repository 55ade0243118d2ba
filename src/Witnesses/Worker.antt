-- ===== src/Witnesses/Worker.antt =====
-- A worker whose queue has room for one batch: two batches are offered, then it is shut down.
use lan_fence.AlertWorker.{
  Worker, advance, begin_shutdown, drain_slot, retry_shutdown, started, submit, take_item,
}
use lan_fence.AlertWorker.Channel.{get_nowait, put_nowait}
use lan_fence.AlertWorker.Drain.{IsDrained, Run-IsDrained, advances}
use lan_fence.AlertWorker.Outbox.{Run-outbox, outbox, replay}
use lan_fence.AlertWorker.Schedule.{
  Event, Run, accept, advancing, after, asking, asking_again, making_room, nothing, refuse, send,
  submitting,
}
use lan_fence.AlertWorker.Sound.{IsSound, Run-IsSound}
use lan_fence.Base.{Bool, List, String, [], arith, false, refl, true, ◌∷◌, ◌≡◌}

abbrev opened : Worker String
opened = advance true (started 1)

abbrev offered : Worker String
offered = (submit "first" opened).1

abbrev refused_one : Worker String
refused_one = (submit "second" offered).1

abbrev found_full : Worker String
found_full = begin_shutdown refused_one

-- the thread takes the batch before the monitor drains a slot
abbrev sending : Worker String
sending = advance true found_full

abbrev nothing_drained : Worker String
nothing_drained = drain_slot sending

abbrev waited_for : Worker String
waited_for = retry_shutdown nothing_drained

abbrev shutdown_events : List (Event String)
shutdown_events = accept "first" ∷ refuse ∷ send ∷ []

shutdown-Run : Run (started 1) shutdown_events waited_for
unfolding submit begin_shutdown drain_slot retry_shutdown advance take_item put_nowait get_nowait
shutdown-Run =
    after
      (after
        (after
          (after
            (after (after (after nothing (advancing true)) (submitting "first" refl))
              (submitting "second" refl))
            (asking refl))
          (advancing true))
        (making_room refl))
      (asking_again refl)

Run-outbox_example : outbox waited_for ≡ replay shutdown_events (outbox (started 1))
Run-outbox_example = Run-outbox shutdown-Run

Run-IsSound_example : IsSound waited_for
Run-IsSound_example = Run-IsSound 1 shutdown-Run

-- the database cannot be closed
abbrev outcomes : List Bool
outcomes = true ∷ true ∷ true ∷ false ∷ []

Run-IsDrained_example : IsDrained waited_for (advances outcomes waited_for)
unfolding submit begin_shutdown drain_slot retry_shutdown advance take_item put_nowait get_nowait
Run-IsDrained_example = Run-IsDrained 1 outcomes shutdown-Run refl refl (omega arith)
