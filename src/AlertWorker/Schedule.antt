-- ===== src/AlertWorker/Schedule.antt =====
-- lanfence/alert_worker.py: every interleaving of the delivery thread with the monitor's thread.
use lan_fence.AlertWorker.{
  Thread, Worker, acknowledge, acknowledging, advance, begin_shutdown, drain_slot, draining,
  joining, outside, retry_shutdown, retrying, submit, waiting,
}
use lan_fence.Base.{Bool, List, Option, [], false, none, some, true, ◌++◌, ◌∷◌, ◌≡◌}

-- What a step does to the batches.
pub data Event {ℓ} (B : Type ℓ) : Type ℓ where
  accept : B → Event B
  refuse send discard : Event B

module _ {ℓ} {B : Type ℓ} where
  -- the reply of `submit` tells whether the batch was queued
  abbrev pub submit_events : B → Bool → List (Event B)
  submit_events batch true = accept batch ∷ []
  submit_events batch false = refuse ∷ []

  abbrev pub of_batch : Event B → List (Option B) → List (Event B)
  of_batch e [] = []
  of_batch e (none ∷ items) = []
  of_batch e (some batch ∷ items) = e ∷ []

  abbrev pub advance_events : Thread B → List (Option B) → List (Event B)
  advance_events waiting items = of_batch send items
  advance_events _ items = []

  pub data Step : Worker B → List (Event B) → Worker B → Type ℓ where
    submitting :
        (batch : B) {w : Worker B}
        → w.caller ≡ outside
        → Step w (submit_events batch (submit batch w).0) (submit batch w).1
    advancing :
        (succeeds : Bool) {w : Worker B}
        → Step w (advance_events w.thread w.queue.items) (advance succeeds w)
    asking : {w : Worker B} → w.caller ≡ outside → Step w [] (begin_shutdown w)
    making_room :
        {w : Worker B}
        → w.caller ≡ draining
        → Step w (of_batch discard w.queue.items) (drain_slot w)
    counting : {w : Worker B} → w.caller ≡ acknowledging → Step w [] (acknowledge w)
    asking_again : {w : Worker B} → w.caller ≡ retrying → Step w [] (retry_shutdown w)
    -- `join` returns, the thread having ended or not
    returning : {w : Worker B} → w.caller ≡ joining → Step w [] (record w { caller = outside })

  -- a run, with its events in order
  pub data Run (w : Worker B) : List (Event B) → Worker B → Type ℓ where
    nothing : Run w [] w
    after :
        {es fs : List (Event B)} {u v : Worker B} → Run w es u → Step u fs v → Run w (es ++ fs) v
