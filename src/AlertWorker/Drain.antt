-- ===== src/AlertWorker/Drain.antt =====
-- lanfence/alert_worker.py: a shutdown that waits in `join` is never left waiting by the thread.
use mathlib.Core.Bool.{true≢false}
use mathlib.Core.List.{append-nil, append_assoc}
use lan_fence.AlertWorker.{
  Thread, Worker, advance, advance_from, closing, crashed, delivering, joining, opening, settle,
  started, stopped, stopping, take_item, unclosed, unopened, waiting,
}
use lan_fence.AlertWorker.Channel.{get_nowait, task_done}
use lan_fence.AlertWorker.Schedule.{Event, Run}
use lan_fence.AlertWorker.Sound.{IsSound, Run-IsSound, has_sentinel, in_hand, is_crashed, is_ending}
use lan_fence.Base.{
  Bool, List, Option, [], ap, arith, false, if◌then◌else◌, length, none, refl, some, sym, true, ℕ,
  ◌*◌, ◌++◌, ◌+◌, ◌-◌, ◌||◌, ◌∙◌, ◌∷◌, ◌≡◌, ◌≤◌,
}

module _ {ℓ} {B : Type ℓ} where
  -- the steps of the thread while the monitor waits, each with the outcome of its database call
  abbrev pub advances : List Bool → Worker B → Worker B
  advances [] w = w
  advances (b ∷ bs) w = advances bs (advance b w)

  -- The database is open, or the first step opens it.
  abbrev pub opens : Thread B → List Bool → Bool
  opens opening [] = false
  opens opening (b ∷ bs) = b
  opens unopened bs = false
  opens _ bs = true

  -- `_run` has returned, or `store.close` raised
  abbrev pub is_over : Thread B → Bool
  is_over stopped = true
  is_over unclosed = true
  is_over _ = false

  -- what was queued before the first sentinel
  abbrev pub before_sentinel : List (Option B) → List B
  before_sentinel [] = []
  before_sentinel (none ∷ items) = []
  before_sentinel (some batch ∷ items) = batch ∷ before_sentinel items

  -- the batches that the thread still sends
  abbrev pub owing : Worker B → List B
  owing w = if is_ending w.thread then [] else before_sentinel w.queue.items

  pub record IsDrained (w v : Worker B) : Type ℓ where
    pub has_ended : is_over v.thread ≡ true
    pub all_sent : v.dispatched ≡ w.dispatched ++ owing w

  advance-from :
      (b : Bool) (t : Thread B) (w : Worker B) → w.thread ≡ t → advance b w ≡ advance_from b t w
  unfolding advance
  advance-from b t w h = ap (λ t. advance_from b t w) h

  advance-over :
      (b : Bool) (t : Thread B) (w : Worker B) → w.thread ≡ t → is_over t ≡ true → advance b w ≡ w
  advance-over b stopped w h k = advance-from b stopped w h
  advance-over b unclosed w h k = advance-from b unclosed w h
  advance-over b opening w h k = cc
  advance-over b waiting w h k = cc
  advance-over b (delivering batch) w h k = cc
  advance-over b stopping w h k = cc
  advance-over b closing w h k = cc
  advance-over b unopened w h k = cc
  advance-over b crashed w h k = cc

  advances-over : (bs : List Bool) (w : Worker B) → is_over w.thread ≡ true → advances bs w ≡ w
  advances-over [] w h = refl
  advances-over (b ∷ bs) w h =
      ap (advances bs) (advance-over b w.thread w refl h) ∙ advances-over bs w h

  advances-IsDrained :
      (bs : List Bool) (w v : Worker B) → IsDrained w v → IsDrained w (advances bs v)
  advances-IsDrained bs w v d = rw (advances-over bs v d.has_ended) d

  settle-next :
      (t : Thread B) (w : Worker B)
      → 1 ≤ w.queue.unfinished_tasks
      → settle t w ≡ record w {
        queue = record w.queue { unfinished_tasks = w.queue.unfinished_tasks - 1 };
        thread = t;
      }
  unfolding settle task_done
  settle-next t w h = ground arith

  ending-IsDrained :
      (w v : Worker B)
      → is_ending w.thread ≡ true
      → is_over v.thread ≡ true
      → v.dispatched ≡ w.dispatched
      → IsDrained w v
  ending-IsDrained w v h k l = ground (arith, append-nil w.dispatched)

  close_over : (b : Bool) (w : Worker B) → is_over (advance_from b closing w).thread ≡ true
  close_over true w = refl
  close_over false w = refl

  -- the thread is before `store.close`
  close-IsDrained : (b : Bool) (w : Worker B) → w.thread ≡ closing → IsDrained w (advance b w)
  close-IsDrained b w h =
      rw (advance-from b closing w h)
        (ending-IsDrained w (advance_from b closing w) (ap is_ending h) (close_over b w) refl)

  -- `w` once the `task_done` that is to come was called
  abbrev settled_at : Thread B → Worker B → Worker B
  settled_at t w = record w {
    queue = record w.queue { unfinished_tasks = w.queue.unfinished_tasks - 1 };
    thread = t;
  }

  -- the thread is at the `return`
  return-IsDrained :
      (b c : Bool) (w : Worker B)
      → w.thread ≡ stopping
      → 1 ≤ w.queue.unfinished_tasks
      → IsDrained w (advance c (advance b w))
  return-IsDrained b c w h k =
      let d = close-IsDrained c (settled_at closing w) refl in
      rw (advance-from b stopping w h, settle-next closing w k)
        (ending-IsDrained w _ (ap is_ending h) d.has_ended (d.all_sent ∙ append-nil w.dispatched))

  advance-send :
      (b c : Bool) (batch : B) (rest : List (Option B)) (w : Worker B)
      → w.thread ≡ waiting
      → w.queue.items ≡ some batch ∷ rest
      → 1 ≤ w.queue.unfinished_tasks
      → advance c (advance b w) ≡ record w {
        queue = record w.queue { items = rest; unfinished_tasks = w.queue.unfinished_tasks - 1 };
        dispatched = w.dispatched ++ batch ∷ [];
      }
  unfolding advance take_item settle get_nowait task_done
  advance-send b c batch rest w h k l = ground arith

  -- `w` once it took the sentinel
  abbrev after_sentinel : List (Option B) → Worker B → Worker B
  after_sentinel rest w = record w { queue = record w.queue { items = rest }; thread = stopping }

  advance-sentinel :
      (b : Bool) (rest : List (Option B)) (w : Worker B)
      → w.thread ≡ waiting
      → w.queue.items ≡ none ∷ rest
      → advance b w ≡ after_sentinel rest w
  unfolding advance take_item get_nowait
  advance-sentinel b rest w h k = ground arith

  after_sentinel-IsDrained :
      (rest : List (Option B)) (w v : Worker B)
      → w.thread ≡ waiting
      → w.queue.items ≡ none ∷ rest
      → IsDrained (after_sentinel rest w) v
      → IsDrained w v
  after_sentinel-IsDrained rest w v h k d = ground arith

  -- `w` once its first batch is sent
  abbrev after_send : B → List (Option B) → Worker B → Worker B
  after_send batch rest w = record w {
    queue = record w.queue { items = rest; unfinished_tasks = w.queue.unfinished_tasks - 1 };
    dispatched = w.dispatched ++ batch ∷ [];
  }

  after_send-IsDrained :
      (batch : B) (rest : List (Option B)) (w v : Worker B)
      → w.thread ≡ waiting
      → w.queue.items ≡ some batch ∷ rest
      → IsDrained (after_send batch rest w) v
      → IsDrained w v
  after_send-IsDrained batch rest w v h k d =
      ground (arith, append_assoc w.dispatched (batch ∷ []) (before_sentinel rest))

  -- the thread is at the blocking `get`
  drain :
      (items : List (Option B)) (bs : List Bool) (w : Worker B)
      → w.queue.items ≡ items
      → w.thread ≡ waiting
      → has_sentinel items ≡ true
      → length items ≤ w.queue.unfinished_tasks
      → 2 * length items + 1 ≤ length bs
      → IsDrained w (advances bs w)
  drain [] bs w k h s l m = cc
  drain (item ∷ items) [] w k h s l m = absurd (omega arith)
  drain (item ∷ items) (b ∷ []) w k h s l m = absurd (omega arith)
  drain (item ∷ items) (b ∷ c ∷ []) w k h s l m = absurd (omega arith)
  drain (none ∷ items) (b ∷ c ∷ e ∷ bs) w k h s l m = rw (advance-sentinel b items w h k) (
      after_sentinel-IsDrained items w _ h k (
        advances-IsDrained bs (after_sentinel items w) _
          (return-IsDrained c e (after_sentinel items w) refl (omega arith))))
  drain (some batch ∷ items) (b ∷ c ∷ e ∷ bs) w k h s l m =
      rw (advance-send b c batch items w h k (omega arith)) (
        after_send-IsDrained batch items w _ h k
          (drain items (e ∷ bs) (after_send batch items w) refl h s (omega arith) (omega arith)))

  delivered-IsDrained :
      (batch : B) (w v : Worker B)
      → w.thread ≡ delivering batch
      → IsDrained (settled_at waiting w) v
      → IsDrained w v
  delivered-IsDrained batch w v h d = ground arith

  opened-IsDrained :
      (w v : Worker B)
      → w.thread ≡ opening
      → IsDrained (record w { thread = waiting }) v
      → IsDrained w v
  opened-IsDrained w v h d = ground arith

  -- at any place of the thread
  drain_from :
      (t : Thread B) (bs : List Bool) (w : Worker B)
      → w.thread ≡ t
      → opens t bs ≡ true
      → IsSound w
      → (has_sentinel w.queue.items || is_ending t) ≡ true
      → 2 * length w.queue.items + 2 ≤ length bs
      → IsDrained w (advances bs w)
  drain_from t [] w h o s k m = absurd (omega arith)
  drain_from opening (false ∷ bs) w h o s k m = cc
  drain_from opening (true ∷ bs) w h o s k m = rw (advance-from true opening w h) (
      opened-IsDrained w _ h (
        drain w.queue.items bs (record w { thread = waiting }) refl refl (ground (arith, k))
          (omega (arith, s.counted)) (omega arith)))
  drain_from waiting (b ∷ bs) w h o s k m =
      drain w.queue.items (b ∷ bs) w refl h (ground arith) (omega (arith, s.counted)) (omega arith)
  drain_from (delivering batch) (b ∷ bs) w h o s k m =
      rw
        (
          advance-from b (delivering batch) w h,
          settle-next waiting w (omega (arith, s.counted, ap in_hand h)),
        )
        (delivered-IsDrained batch w _ h (
          drain w.queue.items bs (settled_at waiting w) refl refl (ground (arith, k))
            (omega (arith, s.counted, ap in_hand h)) (omega arith)))
  drain_from stopping (b ∷ []) w h o s k m = absurd (omega arith)
  drain_from stopping (b ∷ c ∷ bs) w h o s k m =
      advances-IsDrained bs w _ (return-IsDrained b c w h (omega (arith, s.counted, ap in_hand h)))
  drain_from closing (b ∷ bs) w h o s k m = advances-IsDrained bs w _ (close-IsDrained b w h)
  drain_from stopped bs w h o s k m =
      advances-IsDrained bs w w (ending-IsDrained w w (ap is_ending h) (ap is_over h) refl)
  drain_from unclosed bs w h o s k m =
      advances-IsDrained bs w w (ending-IsDrained w w (ap is_ending h) (ap is_over h) refl)
  drain_from unopened bs w h o s k m = cc
  drain_from crashed bs w h o s k m = absurd (true≢false (sym (ap is_crashed h) ∙ s.is_alive))

  -- However the steps of the two threads were interleaved since the worker was started: once
  -- `shutdown` waits in `join`, and if the database was opened or is opened by the next step of the
  -- thread, the thread ends within two steps for each item that is queued and two more, whether or
  -- not the database can be closed, and it has then sent every batch that was queued before the
  -- sentinel, in order.
  pub Run-IsDrained :
      (maxsize : ℕ) (bs : List Bool) {es : List (Event B)} {w : Worker B}
      → Run (started maxsize) es w
      → w.caller ≡ joining
      → opens w.thread bs ≡ true
      → 2 * length w.queue.items + 2 ≤ length bs
      → IsDrained w (advances bs w)
  Run-IsDrained maxsize bs {w = w} run h o m =
      let s = Run-IsSound maxsize run in
      drain_from w.thread bs w refl o s (ground (arith, s.sentinel)) m
