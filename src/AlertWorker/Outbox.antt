-- ===== src/AlertWorker/Outbox.antt =====
-- lanfence/alert_worker.py: the worker is a first-in first-out queue of batches, from which the
-- thread sends, and from which a shutdown may discard.
use lan_fence.AlertWorker.{
  Thread, Worker, acknowledge, advance, advance_from, begin_shutdown, closing, crashed, delivering,
  drain_slot, opening, retry_shutdown, settle, stopped, stopping, submit, take_item, unclosed,
  unopened, waiting,
}
use lan_fence.AlertWorker.Channel.{get_nowait, put_nowait, task_done}
use lan_fence.AlertWorker.Schedule.{
  Event, Run, Step, accept, advance_events, advancing, after, asking, asking_again, counting,
  discard, making_room, nothing, of_batch, refuse, returning, send, submit_events, submitting,
}
use lan_fence.Base.{Bool, List, Option, [], ap, arith, none, refl, some, ℕ, ◌++◌, ◌+◌, ◌∷◌, ◌≡◌}

-- What a client of the worker has to know: the batches sent so far and those still to be sent,
-- oldest first, and the number of batches that were refused.
pub record Outbox {ℓ} (B : Type ℓ) : Type ℓ where
  pub sent : List B
  pub queued : List B
  pub refused : ℕ

module _ {ℓ} {B : Type ℓ} where
  abbrev send_first : List B → Outbox B → Outbox B
  send_first [] o = o
  send_first (batch ∷ rest) o = record o { sent = o.sent ++ batch ∷ []; queued = rest }

  abbrev without_first : List B → List B
  without_first [] = []
  without_first (batch ∷ rest) = rest

  abbrev pub perform : Event B → Outbox B → Outbox B
  perform (accept batch) o = record o { queued = o.queued ++ batch ∷ [] }
  perform refuse o = record o { refused = o.refused + 1 }
  perform send o = send_first o.queued o
  perform discard o = record o { queued = without_first o.queued }

  abbrev pub replay : List (Event B) → Outbox B → Outbox B
  replay [] o = o
  replay (e ∷ es) o = replay es (perform e o)

  -- the sentinels of `shutdown` left out
  abbrev pub batches : List (Option B) → List B
  batches [] = []
  batches (none ∷ items) = batches items
  batches (some batch ∷ items) = batch ∷ batches items

  abbrev pub outbox : Worker B → Outbox B
  outbox w = record { sent = w.dispatched; queued = batches w.queue.items; refused = w.dropped }

  batches-append_none : (items : List (Option B)) → batches (items ++ none ∷ []) ≡ batches items
  batches-append_none [] = refl
  batches-append_none (none ∷ items) = batches-append_none items
  batches-append_none (some batch ∷ items) = ap (λ l. batch ∷ l) (batches-append_none items)

  batches-append_some :
      (items : List (Option B)) (batch : B)
      → batches (items ++ some batch ∷ []) ≡ batches items ++ batch ∷ []
  batches-append_some [] batch = refl
  batches-append_some (none ∷ items) batch = batches-append_some items batch
  batches-append_some (some first ∷ items) batch =
      ap (λ l. first ∷ l) (batches-append_some items batch)

  replay-append :
      (es fs : List (Event B)) (o : Outbox B) → replay (es ++ fs) o ≡ replay fs (replay es o)
  replay-append [] fs o = refl
  replay-append (e ∷ es) fs o = replay-append es fs (perform e o)

  outbox-settle : (next : Thread B) (w : Worker B) → outbox (settle next w) ≡ outbox w
  unfolding settle task_done
  outbox-settle next w = ground arith

  outbox-submit :
      (batch : B) (w : Worker B)
      → outbox (submit batch w).1 ≡ replay (submit_events batch (submit batch w).0) (outbox w)
  unfolding submit put_nowait
  outbox-submit batch w = ground (arith, batches-append_some w.queue.items batch)

  outbox-take_item :
      (w : Worker B) → outbox (take_item w) ≡ replay (of_batch send w.queue.items) (outbox w)
  unfolding take_item get_nowait
  outbox-take_item w = ground arith

  outbox-advance_from :
      (b : Bool) (t : Thread B) (w : Worker B)
      → outbox (advance_from b t w) ≡ replay (advance_events t w.queue.items) (outbox w)
  outbox-advance_from b opening w = refl
  outbox-advance_from b waiting w = outbox-take_item w
  outbox-advance_from b (delivering batch) w = outbox-settle waiting w
  outbox-advance_from b stopping w = outbox-settle closing w
  outbox-advance_from b closing w = refl
  outbox-advance_from b stopped w = refl
  outbox-advance_from b unopened w = refl
  outbox-advance_from b unclosed w = refl
  outbox-advance_from b crashed w = refl

  Step-outbox :
      {v : Worker B} {es : List (Event B)} {w : Worker B}
      → Step v es w
      → outbox w ≡ replay es (outbox v)
  unfolding advance begin_shutdown drain_slot acknowledge retry_shutdown put_nowait get_nowait
      task_done
  Step-outbox (submitting batch {w} h) = outbox-submit batch w
  Step-outbox (advancing b {w}) = outbox-advance_from b w.thread w
  Step-outbox (asking {w} h) = ground (arith, batches-append_none w.queue.items)
  Step-outbox (making_room {w} h) = ground arith
  Step-outbox (counting {w} h) = ground arith
  Step-outbox (asking_again {w} h) = ground (arith, batches-append_none w.queue.items)
  Step-outbox (returning {w} h) = refl

  -- Whatever the order of the steps of the two threads, the batches of a worker are those of a
  -- first-in first-out queue that sees the same events: the accepted batches are sent in their
  -- order, a refused batch leaves the rest as it was, and only a shutdown that finds the queue full
  -- discards, and then only the oldest batch that waits.
  pub Run-outbox :
      {v : Worker B} {es : List (Event B)} {w : Worker B}
      → Run v es w
      → outbox w ≡ replay es (outbox v)
  Run-outbox nothing = refl
  Run-outbox {v = v} (after {es} {fs} run step) =
      rw (Step-outbox step, Run-outbox run, replay-append es fs (outbox v)) refl
