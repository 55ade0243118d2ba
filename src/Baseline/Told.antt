-- ===== src/Baseline/Told.antt =====
-- What a comparison has recorded stays recorded: each step of it keeps the changes told before.
use lan_fence.Base.{
  Bool, List, Option, String, [], any, arith, elem, false, find, if◌then◌else◌, leb, ltb, none, not,
  some, str_eq, true, ◌&&◌, ◌++◌, ◌+◌, ◌||◌, ◌∷◌, ◌≡◌,
}
use lan_fence.Baseline.{
  Comparison, Progress, change_of, first_item, is_admin, judge_absences, judge_absent, judge_item,
  judge_signal, judge_values, last_seen_refresh, new_item_event, record_change, removed_change,
  save,
}
use lan_fence.Models.Baseline.{
  BaselineItem, BaselineSignal, is_advertised, is_port, is_prefix, signal_text,
}
use lan_fence.Models.Change.{ChangeEvent, Significance}
use lan_fence.Store.Items.{is_item}

module _ (q : ChangeEvent → Bool) where
  unfoldable pub Told : Progress → Type 0
  Told p = any q p.recorded ≡ true

  any-append : (xs ys : List ChangeEvent) → any q xs ≡ true → any q (xs ++ ys) ≡ true
  any-append [] ys h = cc
  any-append (x ∷ xs) ys h = ground (arith, any-append xs ys)

  pub any-last :
      (xs : List ChangeEvent) (e : ChangeEvent) → q e ≡ true → any q (xs ++ e ∷ []) ≡ true
  any-last [] e h = ground arith
  any-last (x ∷ xs) e h = ground (arith, any-last xs e h)

  Told-if : (b : Bool) (x y : Progress) → Told x → Told y → Told (if b then x else y)
  Told-if true x y h k = h
  Told-if false x y h k = k

  Told-record : (e : ChangeEvent) (p : Progress) → Told p → Told (record_change e p)
  unfolding Told
  Told-record e p h = any-append p.recorded (e ∷ []) h

  Told-judge_item :
      (c : Comparison) (signal : BaselineSignal) (value : String) (o : Option BaselineItem)
      (p : Progress)
      → Told p
      → Told (judge_item c signal value o p)
  unfolding judge_item Told
  Told-judge_item c signal value none p h =
      let saved = save c (first_item c signal value) p in
      Told-if (c.learning && not (is_admin signal value)) saved
        (record_change (new_item_event c signal value) saved) h
        (Told-record (new_item_event c signal value) saved h)
  Told-judge_item c signal value (some i) p h =
      let back = save c (record i { present = true; removed_at = none; last_seen = c.now }) p in
      let again = save c (record i { last_seen = c.now }) p in
      let told = record_change (new_item_event c signal value) back in
      Told-if (not i.present) (if i.in_baseline then back else told)
        (if leb (i.last_seen + last_seen_refresh) c.now then again else p)
        (Told-if i.in_baseline back told h (Told-record (new_item_event c signal value) back h))
        (Told-if (leb (i.last_seen + last_seen_refresh) c.now) again p h h)

  pub Told-judge_values :
      (c : Comparison) (known : List BaselineItem) (signal : BaselineSignal) (vs : List String)
      (p : Progress)
      → Told p
      → Told (judge_values c known signal vs p)
  unfolding judge_values
  Told-judge_values c known signal [] p h = h
  Told-judge_values c known signal (v ∷ vs) p h =
      let o = find (is_item signal v) known in
      Told-judge_values c known signal vs (judge_item c signal v o p)
        (Told-judge_item c signal v o p h)

  Told-judge_absent :
      (c : Comparison) (signal : BaselineSignal) (values : List String) (i : BaselineItem)
      (p : Progress)
      → Told p
      → Told (judge_absent c signal values i p)
  unfolding judge_absent Told
  Told-judge_absent c signal values i p h =
      let e =
        change_of c (removed_change signal) signal i.value
          (if i.in_baseline then Significance.low else Significance.info) in
      let gone = save c (record i { present = false; removed_at = some c.now }) p in
      let recent = not (is_port signal) && ltb c.now (i.last_seen + c.service_removal) in
      Told-if
        (not (str_eq (signal_text i.signal) (signal_text signal))
          || not i.present
          || elem i.value values)
        p (if recent then p else record_change e gone) h
        (Told-if recent p (record_change e gone) h (Told-record e gone h))

  pub Told-judge_absences :
      (c : Comparison) (signal : BaselineSignal) (values : List String) (is : List BaselineItem)
      (p : Progress)
      → Told p
      → Told (judge_absences c signal values is p)
  unfolding judge_absences
  Told-judge_absences c signal values [] p h = h
  Told-judge_absences c signal values (i ∷ is) p h =
      Told-judge_absences c signal values is (judge_absent c signal values i p)
        (Told-judge_absent c signal values i p h)

  pub Told-judge_signal :
      (c : Comparison) (known : List BaselineItem) (signal : BaselineSignal) (values : List String)
      (p : Progress)
      → Told p
      → Told (judge_signal c known signal values p)
  unfolding judge_signal
  Told-judge_signal c known signal values p h =
      let judged = judge_values c known signal values p in
      let swept = judge_absences c signal values known judged in
      let kept = Told-judge_values c known signal values p h in
      let last = if is_prefix signal then judged else swept in
      Told-if (is_port signal && not c.fresh) p
        (if is_advertised signal && not c.is_present then p else last) h
        (Told-if (is_advertised signal && not c.is_present) p last h (
          Told-if (is_prefix signal) judged swept kept
            (Told-judge_absences c signal values known judged kept)))
