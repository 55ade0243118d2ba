-- ===== src/Baseline/Learning.antt =====
-- What a baseline learns by itself, and what it never does.
use lan_fence.Base.{
  All, All-map, Bool, Bool-cases, List, Option, String, [], any, ap, arith, elem, eq_iff, false,
  find, if◌then◌else◌, inl, inr, leb, ltb, none, not, refl, some, str_eq, true, ◌&&◌, ◌+◌, ◌||◌,
  ◌∷◌, ◌≡◌,
}
use lan_fence.Baseline.{
  Comparison, Observed, Progress, change_of, compare_items, first_item, is_admin, judge_absences,
  judge_absent, judge_item, judge_signal, judge_values, last_seen_refresh, new_item_event,
  record_change, removed_change, save,
}
use lan_fence.Baseline.Saved.{All-save_baseline_item, Timeless}
use lan_fence.Models.Baseline.{
  BaselineItem, BaselineSignal, is_advertised, is_port, is_prefix, signal_text,
}
use lan_fence.Models.Change.{Significance}
use lan_fence.Store.Items.{is_item}

-- the item is in the baseline, for the same signal and value
abbrev was_in : BaselineItem → BaselineItem → Bool
was_in i k = is_item i.signal i.value k && k.in_baseline

-- An item of the baseline that needs approval, since it is a remote-administration service or the
-- learning is over, was in the baseline before.
abbrev pub is_approved_item : Comparison → List BaselineItem → BaselineItem → Bool
is_approved_item c known i =
    not (i.in_baseline && (is_admin i.signal i.value || not c.learning)) || any (was_in i) known

Approved : Comparison → List BaselineItem → BaselineItem → Type 0
Approved c known i = is_approved_item c known i ≡ true

any-cons_of_find :
    (p q : BaselineItem → Bool) (xs : List BaselineItem) (a : BaselineItem)
    → find p xs ≡ some a
    → q a ≡ true
    → any q xs ≡ true
any-cons_of_find p q [] a h k = cc
any-cons_of_find p q (x ∷ xs) a h k = elim (Bool-cases (p x)) [
  | inl e ↦ let same : x ≡ a = ground arith in ground (arith, ap q same)
  | inr e ↦ ground (arith, any-cons_of_find p q xs a)
]

was_in_refl : (i : BaselineItem) → i.in_baseline ≡ true → was_in i i ≡ true
was_in_refl i h =
    ground (arith, eq_iff (signal_text i.signal) (signal_text i.signal), eq_iff i.value i.value)

Approved-found :
    (c : Comparison) (known : List BaselineItem) (p : BaselineItem → Bool) (i : BaselineItem)
    → find p known ≡ some i
    → Approved c known i
unfolding Approved
Approved-found c known p i h =
    ground (arith, any-cons_of_find p (was_in i) known i h, was_in_refl i)

Approved-cons :
    (c : Comparison) (k : BaselineItem) (known : List BaselineItem) (i : BaselineItem)
    → Approved c known i
    → Approved c (k ∷ known) i
unfolding Approved
Approved-cons c k known i h = ground arith

Approved-self : (c : Comparison) (known : List BaselineItem) → All (Approved c known) known
unfolding Approved
Approved-self c [] = tt
Approved-self c (k ∷ known) = (
  ground (arith, was_in_refl k),
  All-map (Approved c known) (Approved c (k ∷ known)) known (Approved-cons c k known)
      (Approved-self c known),
)

Approved-first :
    (c : Comparison) (known : List BaselineItem) (signal : BaselineSignal) (value : String)
    → Timeless (Approved c known) (first_item c signal value)
unfolding Approved
Approved-first c known signal value t = ground arith

All-if :
    (P : BaselineItem → Type 0) (b : Bool) (x y : Progress)
    → All P x.items
    → All P y.items
    → All P (if b then x else y).items
All-if P true x y h k = h
All-if P false x y h k = k

-- an item that is saved as it was, but for when it was seen and whether it is there
Approved-save :
    (c : Comparison) (known : List BaselineItem) (new : BaselineItem) (p : Progress)
    → Approved c known new
    → All (Approved c known) p.items
    → All (Approved c known) (save c new p).items
unfolding Approved
Approved-save c known new p a h =
    All-save_baseline_item (Approved c known) c.cap new p.items (λ t. a) h

Approved-judge_item :
    (c : Comparison) (known : List BaselineItem) (signal : BaselineSignal) (value : String)
    (o : Option BaselineItem) (p : Progress)
    → find (is_item signal value) known ≡ o
    → All (Approved c known) p.items
    → All (Approved c known) (judge_item c signal value o p).items
unfolding judge_item Approved
Approved-judge_item c known signal value none p e h =
    let new = first_item c signal value in
    let saved = save c new p in
    let kept : All (Approved c known) saved.items =
      All-save_baseline_item (Approved c known) c.cap new p.items
        (Approved-first c known signal value) h in
    All-if (Approved c known) (c.learning && not (is_admin signal value)) saved
      (record_change (new_item_event c signal value) saved) kept kept
Approved-judge_item c known signal value (some i) p e h =
    let P = Approved c known in
    let approved : P i = Approved-found c known (is_item signal value) i e in
    let back = save c (record i { present = true; removed_at = none; last_seen = c.now }) p in
    let again = save c (record i { last_seen = c.now }) p in
    let returned =
      if i.in_baseline then back else record_change (new_item_event c signal value) back in
    let kept : All P back.items =
      Approved-save c known (record i { present = true; removed_at = none; last_seen = c.now }) p
        approved h in
    All-if P (not i.present) returned
      (if leb (i.last_seen + last_seen_refresh) c.now then again else p)
      (All-if P i.in_baseline back (record_change (new_item_event c signal value) back) kept kept)
      (All-if P (leb (i.last_seen + last_seen_refresh) c.now) again p
        (Approved-save c known (record i { last_seen = c.now }) p approved h) h)

Approved-judge_values :
    (c : Comparison) (known : List BaselineItem) (signal : BaselineSignal) (vs : List String)
    (p : Progress)
    → All (Approved c known) p.items
    → All (Approved c known) (judge_values c known signal vs p).items
unfolding judge_values
Approved-judge_values c known signal [] p h = h
Approved-judge_values c known signal (v ∷ vs) p h =
    let o = find (is_item signal v) known in
    Approved-judge_values c known signal vs (judge_item c signal v o p)
      (Approved-judge_item c known signal v o p refl h)

Approved-judge_absent :
    (c : Comparison) (known : List BaselineItem) (signal : BaselineSignal) (values : List String)
    (i : BaselineItem) (p : Progress)
    → Approved c known i
    → All (Approved c known) p.items
    → All (Approved c known) (judge_absent c signal values i p).items
unfolding judge_absent Approved
Approved-judge_absent c known signal values i p a h =
    let P = Approved c known in
    let gone : BaselineItem = record i { present = false; removed_at = some c.now } in
    let reported =
      record_change
        (change_of c (removed_change signal) signal i.value
          (if i.in_baseline then Significance.low else Significance.info))
        (save c gone p) in
    let recent = not (is_port signal) && ltb c.now (i.last_seen + c.service_removal) in
    All-if P
      (not (str_eq (signal_text i.signal) (signal_text signal))
        || not i.present
        || elem i.value values)
      p (if recent then p else reported) h
      (All-if P recent p reported h (Approved-save c known gone p a h))

Approved-judge_absences :
    (c : Comparison) (known : List BaselineItem) (signal : BaselineSignal) (values : List String)
    (is : List BaselineItem) (p : Progress)
    → All (Approved c known) is
    → All (Approved c known) p.items
    → All (Approved c known) (judge_absences c signal values is p).items
unfolding judge_absences
Approved-judge_absences c known signal values [] p a h = h
Approved-judge_absences c known signal values (i ∷ is) p a h =
    Approved-judge_absences c known signal values is (judge_absent c signal values i p) a.1
      (Approved-judge_absent c known signal values i p a.0 h)

Approved-judge_signal :
    (c : Comparison) (known : List BaselineItem) (signal : BaselineSignal) (values : List String)
    (p : Progress)
    → All (Approved c known) p.items
    → All (Approved c known) (judge_signal c known signal values p).items
unfolding judge_signal
Approved-judge_signal c known signal values p h =
    let P = Approved c known in
    let judged = judge_values c known signal values p in
    let swept = judge_absences c signal values known judged in
    let kept : All P judged.items = Approved-judge_values c known signal values p h in
    let last = if is_prefix signal then judged else swept in
    let next = if is_advertised signal && not c.is_present then p else last in
    All-if P (is_port signal && not c.fresh) p next h (
      All-if P (is_advertised signal && not c.is_present) p last h (
        All-if P (is_prefix signal) judged swept kept (
          Approved-judge_absences c known signal values known judged (Approved-self c known) kept)))

-- A comparison adds nothing to a baseline that needs approval: a remote-administration service in
-- the baseline after it was there before it, even while the device is still being learned; and once
-- the learning is over, so was every other item of the baseline.
pub compare_items-approved :
    (c : Comparison) (o : Observed) (known : List BaselineItem)
    → All (λ (i : BaselineItem). is_approved_item c known i ≡ true) (compare_items c o known).items
unfolding compare_items Approved
compare_items-approved c o known =
    let start : Progress = record { items = known; recorded = [] } in
    let a = judge_signal c known BaselineSignal.port o.ports start in
    let b = judge_signal c known BaselineSignal.mdns o.mdns_types a in
    let d = judge_signal c known BaselineSignal.ssdp o.ssdp_types b in
    Approved-judge_signal c known BaselineSignal.ipv6_prefix o.prefixes d (
      Approved-judge_signal c known BaselineSignal.ssdp o.ssdp_types b (
        Approved-judge_signal c known BaselineSignal.mdns o.mdns_types a (
          Approved-judge_signal c known BaselineSignal.port o.ports start (Approved-self c known))))
