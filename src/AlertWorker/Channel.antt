-- ===== src/AlertWorker/Channel.antt =====
-- Python's `queue.Queue`, as lanfence/alert_worker.py uses it: items oldest first.
use lan_fence.Base.{
  Bool, List, Option, [], if◌then◌else◌, leb, length, ltb, none, some, ℕ, ◌&&◌, ◌++◌, ◌+◌, ◌-◌, ◌∷◌,
}

pub record Queue {ℓ} (A : Type ℓ) : Type ℓ where
  pub maxsize : ℕ
  pub items : List A
  pub unfinished_tasks : ℕ

module _ {ℓ} {A : Type ℓ} where
  -- a `maxsize` of 0 sets no limit
  abbrev pub is_full : Queue A → Bool
  is_full q = ltb 0 q.maxsize && leb q.maxsize (length q.items)

  -- `none` stands for `queue.Full`
  unfoldable pub put_nowait : A → Queue A → Option (Queue A)
  put_nowait item q =
      if is_full q
      then none
      else some
          (record q { items = q.items ++ item ∷ []; unfinished_tasks = q.unfinished_tasks + 1 })

  -- `none` stands for `queue.Empty`
  abbrev popped : List A → Queue A → Option (A × Queue A)
  popped [] q = none
  popped (item ∷ rest) q = some (item, record q { items = rest })

  unfoldable pub get_nowait : Queue A → Option (A × Queue A)
  get_nowait q = popped q.items q

  -- `none` stands for the ValueError of a call too many
  unfoldable pub task_done : Queue A → Option (Queue A)
  task_done q =
      if leb q.unfinished_tasks 0
      then none
      else some (record q { unfinished_tasks = q.unfinished_tasks - 1 })
