-- ===== src/AlertWorker/Sound.antt =====
-- lanfence/alert_worker.py: what holds of the worker at every point of every interleaving.
use lan_fence.AlertWorker.{
  Caller, Thread, Worker, acknowledge, acknowledging, advance, advance_from, begin_shutdown,
  closing, crashed, delivering, drain_slot, draining, joining, opening, outside, raised,
  retry_shutdown, retrying, settle, started, stopped, stopping, submit, take_item, unclosed,
  unopened, waiting,
}
use lan_fence.AlertWorker.Channel.{Queue, get_nowait, is_full, put_nowait, task_done}
use lan_fence.AlertWorker.Schedule.{
  Event, Run, Step, advancing, after, asking, asking_again, counting, making_room, nothing,
  returning, submitting,
}
use lan_fence.Base.{
  Bool, List, Option, [], any, ap, arith, false, is_none, length, ltb, none, refl, some, true, ℕ,
  ◌&&◌, ◌++◌, ◌+◌, ◌||◌, ◌∷◌, ◌≡◌,
}

abbrev pub owed : Caller → ℕ
owed acknowledging = 1
owed _ = 0

abbrev pub is_raised : Caller → Bool
is_raised raised = true
is_raised _ = false

module _ {ℓ} {B : Type ℓ} where
  -- the items that the thread has taken and not yet counted as done
  abbrev pub in_hand : Thread B → ℕ
  in_hand (delivering batch) = 1
  in_hand stopping = 1
  in_hand _ = 0

  abbrev pub has_sentinel : List (Option B) → Bool
  has_sentinel = any is_none

  abbrev pub is_ending : Thread B → Bool
  is_ending stopping = true
  is_ending closing = true
  is_ending stopped = true
  is_ending unclosed = true
  is_ending _ = false

  abbrev pub is_crashed : Thread B → Bool
  is_crashed crashed = true
  is_crashed _ = false

  -- the items of the queue and the places of the two threads
  abbrev SentinelAt : Caller → Thread B → List (Option B) → Type 0
  SentinelAt joining t items = (has_sentinel items || is_ending t) ≡ true
  SentinelAt _ t items = Unit

  abbrev RoomAt : Caller → Queue (Option B) → Type 0
  RoomAt acknowledging q = is_full q ≡ false
  RoomAt retrying q = is_full q ≡ false
  RoomAt _ q = Unit

  abbrev IsBounded : Queue (Option B) → Type 0
  IsBounded q = (ltb 0 q.maxsize && ltb q.maxsize (length q.items)) ≡ false

  -- a thread that has not opened the database has sent nothing
  abbrev pub UnsentAt : Thread B → List B → Type ℓ
  UnsentAt opening sent = sent ≡ []
  UnsentAt unopened sent = sent ≡ []
  UnsentAt _ sent = Unit

  pub record IsSound (w : Worker B) : Type ℓ where
    pub counted : w.queue.unfinished_tasks ≡ length w.queue.items + in_hand w.thread + owed w.caller
    pub bounded : IsBounded w.queue
    pub room : RoomAt w.caller w.queue
    pub sentinel : SentinelAt w.caller w.thread w.queue.items
    pub is_alive : is_crashed w.thread ≡ false
    pub unsent : UnsentAt w.thread w.dispatched
    pub is_safe : is_raised w.caller ≡ false

  length-append :
      (items : List (Option B)) (item : Option B) → length (items ++ item ∷ []) ≡ length items + 1
  length-append [] item = refl
  length-append (first ∷ items) item = omega (arith, length-append items item)

  has_sentinel-append :
      (items : List (Option B)) (item : Option B)
      → has_sentinel (items ++ item ∷ []) ≡ (has_sentinel items || is_none item)
  has_sentinel-append [] none = refl
  has_sentinel-append [] (some batch) = refl
  has_sentinel-append (first ∷ items) item = ground (arith, has_sentinel-append items item)

  submit-IsSound :
      (batch : B) (w : Worker B) → w.caller ≡ outside → IsSound w → IsSound (submit batch w).1
  unfolding submit put_nowait
  submit-IsSound batch w h s = ground (
    arith,
    length-append w.queue.items (some batch),
    has_sentinel-append w.queue.items (some batch),
  )

  begin_shutdown-IsSound :
      (w : Worker B) → w.caller ≡ outside → IsSound w → IsSound (begin_shutdown w)
  unfolding begin_shutdown put_nowait
  begin_shutdown-IsSound w h s =
      ground (arith, length-append w.queue.items none, has_sentinel-append w.queue.items none)

  retry_shutdown-IsSound :
      (w : Worker B) → w.caller ≡ retrying → IsSound w → IsSound (retry_shutdown w)
  unfolding retry_shutdown put_nowait
  retry_shutdown-IsSound w h s =
      ground (arith, length-append w.queue.items none, has_sentinel-append w.queue.items none)

  drain_slot-IsSound : (w : Worker B) → w.caller ≡ draining → IsSound w → IsSound (drain_slot w)
  unfolding drain_slot get_nowait
  drain_slot-IsSound w h s = ground arith

  acknowledge-IsSound :
      (w : Worker B) → w.caller ≡ acknowledging → IsSound w → IsSound (acknowledge w)
  unfolding acknowledge task_done
  acknowledge-IsSound w h s = ground arith

  return-IsSound :
      (w : Worker B) → w.caller ≡ joining → IsSound w → IsSound (record w { caller = outside })
  return-IsSound w h s = ground arith

  take_item-IsSound : (w : Worker B) → w.thread ≡ waiting → IsSound w → IsSound (take_item w)
  unfolding take_item get_nowait
  take_item-IsSound w h s = ground arith

  settle-IsSound :
      (t : Thread B) (w : Worker B)
      → in_hand w.thread ≡ 1
      → in_hand t ≡ 0
      → is_crashed t ≡ false
      → UnsentAt t w.dispatched
      → (is_ending w.thread ≡ is_ending t)
      → IsSound w
      → IsSound (settle t w)
  unfolding settle task_done
  settle-IsSound t w h k l u m s = ground arith

  open-IsSound :
      (b : Bool) (w : Worker B)
      → w.thread ≡ opening
      → IsSound w
      → IsSound (advance_from b opening w)
  open-IsSound true w h s = ground arith
  open-IsSound false w h s = ground arith

  close-IsSound :
      (b : Bool) (w : Worker B)
      → w.thread ≡ closing
      → IsSound w
      → IsSound (advance_from b closing w)
  close-IsSound true w h s = ground arith
  close-IsSound false w h s = ground arith

  advance_from-IsSound :
      (b : Bool) (t : Thread B) (w : Worker B)
      → w.thread ≡ t
      → IsSound w
      → IsSound (advance_from b t w)
  advance_from-IsSound b opening w h s = open-IsSound b w h s
  advance_from-IsSound b waiting w h s = take_item-IsSound w h s
  advance_from-IsSound b (delivering batch) w h s =
      settle-IsSound waiting w (ap in_hand h) refl refl tt (ap is_ending h) s
  advance_from-IsSound b stopping w h s =
      settle-IsSound closing w (ap in_hand h) refl refl tt (ap is_ending h) s
  advance_from-IsSound b closing w h s = close-IsSound b w h s
  advance_from-IsSound b stopped w h s = s
  advance_from-IsSound b unopened w h s = s
  advance_from-IsSound b unclosed w h s = s
  advance_from-IsSound b crashed w h s = s

  Step-IsSound :
      {v : Worker B} {es : List (Event B)} {w : Worker B} → Step v es w → IsSound v → IsSound w
  unfolding advance
  Step-IsSound (submitting batch {w} h) s = submit-IsSound batch w h s
  Step-IsSound (advancing b {w}) s = advance_from-IsSound b w.thread w refl s
  Step-IsSound (asking {w} h) s = begin_shutdown-IsSound w h s
  Step-IsSound (making_room {w} h) s = drain_slot-IsSound w h s
  Step-IsSound (counting {w} h) s = acknowledge-IsSound w h s
  Step-IsSound (asking_again {w} h) s = retry_shutdown-IsSound w h s
  Step-IsSound (returning {w} h) s = return-IsSound w h s

  started-IsSound : (maxsize : ℕ) → IsSound (started maxsize)
  started-IsSound maxsize = ground arith

  -- At every point of every interleaving: the queue's count of unfinished tasks is right, so that no
  -- `task_done` raises; the queue keeps to its size; `shutdown` never raises, and no exception but one
  -- of opening or closing the database ends the thread; a thread that has not opened it, or failed
  -- to, has sent nothing; a drained slot is still free when the sentinel is put again; and while
  -- `shutdown` waits in `join`, its sentinel is queued or the thread is on its way out.
  pub Run-IsSound :
      (maxsize : ℕ) {es : List (Event B)} {w : Worker B} → Run (started maxsize) es w → IsSound w
  Run-IsSound maxsize nothing = started-IsSound maxsize
  Run-IsSound maxsize (after run step) = Step-IsSound step (Run-IsSound maxsize run)
