-- ===== src/AlertWorker.antt =====
-- lanfence/alert_worker.py: the delivery thread, its bounded queue, and the thread that calls
-- `submit` and `shutdown`.
pub mod Channel
pub mod Schedule
pub mod Outbox
pub mod Sound
pub mod Drain
use lan_fence.AlertWorker.Channel.{Queue, get_nowait, put_nowait, task_done}
use lan_fence.Base.{
  Bool, List, Option, [], false, if◌then◌else◌, none, some, true, ℕ, ◌++◌, ◌+◌, ◌∷◌,
}

-- Where the delivery thread stands in `_run`: before `DeviceStore`, at the blocking `get`, in
-- `alerts.dispatch` with a batch, at the `return` with `task_done` to come, before `store.close`, past
-- it, or ended by an exception of `DeviceStore`, of `store.close`, or of `task_done`.
pub data Thread {ℓ} (B : Type ℓ) : Type ℓ where
  opening waiting stopping closing stopped unopened unclosed crashed : Thread B
  delivering : B → Thread B

-- Where the thread of the monitor stands: outside, in `shutdown` after the queue was found full,
-- after a slot was drained, before the second attempt, in `join`, or ended by an exception.
pub data Caller : Type 0 where
  outside draining acknowledging retrying joining raised : Caller

-- `dispatched` lists the batches that were given to `alerts.dispatch`. Whether that call raises
-- makes no difference to the thread, which logs every exception.
pub record Worker {ℓ} (B : Type ℓ) : Type ℓ where
  pub queue : Queue (Option B)
  pub dropped : ℕ
  pub thread : Thread B
  pub caller : Caller
  pub dispatched : List B

module _ {ℓ} {B : Type ℓ} where
  -- `__init__`
  abbrev pub started : ℕ → Worker B
  started maxsize = record {
    queue = record { maxsize = maxsize; items = []; unfinished_tasks = 0 };
    dropped = 0;
    thread = opening;
    caller = outside;
    dispatched = [];
  }

  abbrev submitted : Worker B → Option (Queue (Option B)) → Bool × Worker B
  submitted w none = (false, record w { dropped = w.dropped + 1 })
  submitted w (some q) = (true, record w { queue = q })

  unfoldable pub submit : B → Worker B → Bool × Worker B
  submit batch w = submitted w (put_nowait (some batch) w.queue)

  -- `self._queue.task_done()`, after which the thread is at `next`
  abbrev settled : Thread B → Worker B → Option (Queue (Option B)) → Worker B
  settled next w none = record w { thread = crashed }
  settled next w (some q) = record w { queue = q; thread = next }

  unfoldable pub settle : Thread B → Worker B → Worker B
  settle next w = settled next w (task_done w.queue)

  abbrev taken : Worker B → Option (Option B × Queue (Option B)) → Worker B
  taken w none = w
  taken w (some (none, q)) = record w { queue = q; thread = stopping }
  taken w (some (some batch, q)) = record w {
    queue = q;
    thread = delivering batch;
    dispatched = w.dispatched ++ batch ∷ [];
  }

  -- `item = self._queue.get()`; on an empty queue the thread stays where it is
  unfoldable pub take_item : Worker B → Worker B
  take_item w = taken w (get_nowait w.queue)

  -- `succeeds` tells whether the call of the database that the step makes returns; neither call
  -- stands in a `try` that would catch its exception
  abbrev pub advance_from : Bool → Thread B → Worker B → Worker B
  advance_from succeeds opening w = record w { thread = if succeeds then waiting else unopened }
  advance_from succeeds waiting w = take_item w
  advance_from succeeds (delivering batch) w = settle waiting w
  advance_from succeeds stopping w = settle closing w
  advance_from succeeds closing w = record w { thread = if succeeds then stopped else unclosed }
  advance_from succeeds stopped w = w
  advance_from succeeds unopened w = w
  advance_from succeeds unclosed w = w
  advance_from succeeds crashed w = w

  -- one step of `_run`
  unfoldable pub advance : Bool → Worker B → Worker B
  advance succeeds w = advance_from succeeds w.thread w

  abbrev asked : Worker B → Option (Queue (Option B)) → Worker B
  asked w none = record w { caller = draining }
  asked w (some q) = record w { queue = q; caller = joining }

  -- `shutdown`, up to the first `put_nowait(None)`
  unfoldable pub begin_shutdown : Worker B → Worker B
  begin_shutdown w = asked w (put_nowait none w.queue)

  abbrev drained : Worker B → Option (Option B × Queue (Option B)) → Worker B
  drained w none = record w { caller = retrying }
  drained w (some (item, q)) = record w { queue = q; caller = acknowledging }

  -- `self._queue.get_nowait()`, with `queue.Empty` passed over
  unfoldable pub drain_slot : Worker B → Worker B
  drain_slot w = drained w (get_nowait w.queue)

  abbrev acknowledged : Worker B → Option (Queue (Option B)) → Worker B
  acknowledged w none = record w { caller = raised }
  acknowledged w (some q) = record w { queue = q; caller = retrying }

  -- `self._queue.task_done()` in `shutdown`
  unfoldable pub acknowledge : Worker B → Worker B
  acknowledge w = acknowledged w (task_done w.queue)

  abbrev retried : Worker B → Option (Queue (Option B)) → Worker B
  retried w none = record w { caller = joining }
  retried w (some q) = record w { queue = q; caller = joining }

  -- the second `put_nowait(None)`, with `queue.Full` passed over
  unfoldable pub retry_shutdown : Worker B → Worker B
  retry_shutdown w = retried w (put_nowait none w.queue)
