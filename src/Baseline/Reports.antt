-- ===== src/Baseline/Reports.antt =====
-- Which changes a comparison records.
use mathlib.Core.Path.{subst}
use lan_fence.Base.{
  Bool, Bool-cases, List, String, [], any, arith, elem, eq_iff, false, find, if◌then◌else◌, inl,
  inr, none, not, opt_str_eq, some, str_eq, sym, true, ◌&&◌, ◌∷◌, ◌≡◌,
}
use lan_fence.Baseline.{
  Comparison, Observed, Progress, compare_items, first_item, is_admin, judge_absences, judge_item,
  judge_signal, judge_values, new_change, new_item_event, record_change, save,
}
use lan_fence.Baseline.Told.{
  Told, Told-judge_absences, Told-judge_signal, Told-judge_values, any-last,
}
use lan_fence.Models.Baseline.{BaselineItem, BaselineSignal, is_advertised, is_port}
use lan_fence.Models.Change.{ChangeEvent, change_eq}
use lan_fence.Store.Items.{is_item}

-- the change that announces this value of this signal
abbrev pub is_report : BaselineSignal → String → ChangeEvent → Bool
is_report signal value e =
    change_eq e.change_type (new_change signal) && opt_str_eq e.subject (some value)

Told-else :
    (q : ChangeEvent → Bool) (b : Bool) (x y : Progress)
    → b ≡ false
    → Told q y
    → Told q (if b then x else y)
Told-else q true x y h k = cc
Told-else q false x y h k = k

report-first :
    (c : Comparison) (signal : BaselineSignal) (value : String) (p : Progress)
    → (c.learning && not (is_admin signal value)) ≡ false
    → Told (is_report signal value) (judge_item c signal value none p)
unfolding judge_item Told new_item_event
report-first c signal value p a =
    let saved = save c (first_item c signal value) p in
    let e = new_item_event c signal value in
    let same : is_report signal value e ≡ true = ground (arith, eq_iff value value) in
    Told-else (is_report signal value) (c.learning && not (is_admin signal value)) saved
      (record_change e saved) a (any-last (is_report signal value) p.recorded e same)

judge_values-reports :
    (c : Comparison) (known : List BaselineItem) (signal : BaselineSignal) (value : String)
    (vs : List String) (p : Progress)
    → elem value vs ≡ true
    → find (is_item signal value) known ≡ none
    → (c.learning && not (is_admin signal value)) ≡ false
    → Told (is_report signal value) (judge_values c known signal vs p)
unfolding judge_values Told
judge_values-reports c known signal value [] p e f a = cc
judge_values-reports c known signal value (v ∷ vs) p e f a =
    let q = is_report signal value in
    let next : Progress = judge_item c signal v (find (is_item signal v) known) p in
    elim (Bool-cases (str_eq value v)) [
      | inl b ↦ Told-judge_values q c known signal vs next (
          subst (λ x. Told q (judge_item c signal x (find (is_item signal x) known) p))
            ((eq_iff value v).0 b)
            (subst (λ o. Told q (judge_item c signal value o p)) (sym f)
              (report-first c signal value p a)))
      | inr b ↦ judge_values-reports c known signal value vs next (ground arith) f a
    ]

-- whether the comparison looks at the signal at all
abbrev pub is_judged : Comparison → BaselineSignal → Bool
is_judged c signal =
    not (is_port signal && not c.fresh) && not (is_advertised signal && not c.is_present)

judge_signal-reports :
    (c : Comparison) (known : List BaselineItem) (signal : BaselineSignal) (value : String)
    (vs : List String) (p : Progress)
    → is_judged c signal ≡ true
    → elem value vs ≡ true
    → find (is_item signal value) known ≡ none
    → (c.learning && not (is_admin signal value)) ≡ false
    → Told (is_report signal value) (judge_signal c known signal vs p)
unfolding judge_signal Told
judge_signal-reports c known signal value vs p j e f a =
    let q = is_report signal value in
    let judged = judge_values c known signal vs p in
    let told : Told q judged = judge_values-reports c known signal value vs p e f a in
    let after : Told q (judge_absences c signal vs known judged) =
      Told-judge_absences q c signal vs known judged told in
    ground arith

abbrev pub values_of : Observed → BaselineSignal → List String
values_of o BaselineSignal.port = o.ports
values_of o BaselineSignal.mdns = o.mdns_types
values_of o BaselineSignal.ssdp = o.ssdp_types
values_of o BaselineSignal.ipv6_prefix = o.prefixes

-- what is told after the services of mDNS, or after the ports, is told in the end
last_signals :
    (q : ChangeEvent → Bool) (c : Comparison) (o : Observed) (known : List BaselineItem)
    (p : Progress)
    → Told q (judge_signal c known BaselineSignal.mdns o.mdns_types p)
    → Told q (
        judge_signal c known BaselineSignal.ipv6_prefix o.prefixes (
          judge_signal c known BaselineSignal.ssdp o.ssdp_types
            (judge_signal c known BaselineSignal.mdns o.mdns_types p)))
last_signals q c o known p h =
    let a = judge_signal c known BaselineSignal.mdns o.mdns_types p in
    Told-judge_signal q c known BaselineSignal.ipv6_prefix o.prefixes
      (judge_signal c known BaselineSignal.ssdp o.ssdp_types a)
      (Told-judge_signal q c known BaselineSignal.ssdp o.ssdp_types a h)

later_signals :
    (q : ChangeEvent → Bool) (c : Comparison) (o : Observed) (known : List BaselineItem)
    (p : Progress)
    → Told q (judge_signal c known BaselineSignal.port o.ports p)
    → Told q (
        judge_signal c known BaselineSignal.ipv6_prefix o.prefixes (
          judge_signal c known BaselineSignal.ssdp o.ssdp_types (
            judge_signal c known BaselineSignal.mdns o.mdns_types
              (judge_signal c known BaselineSignal.port o.ports p))))
later_signals q c o known p h =
    let a = judge_signal c known BaselineSignal.port o.ports p in
    last_signals q c o known a (Told-judge_signal q c known BaselineSignal.mdns o.mdns_types a h)

-- A comparison announces every value that it sees for the first time, of each signal that it judges
-- (ports only after a newer inspection, advertised services only while the device is online), unless
-- the baseline is still being learned and the value is no remote-administration service.
pub compare_items-reports :
    (c : Comparison) (o : Observed) (known : List BaselineItem) (signal : BaselineSignal)
    (value : String)
    → is_judged c signal ≡ true
    → elem value (values_of o signal) ≡ true
    → find (is_item signal value) known ≡ none
    → (c.learning && not (is_admin signal value)) ≡ false
    → any (is_report signal value) (compare_items c o known).recorded ≡ true
unfolding compare_items Told
compare_items-reports c o known BaselineSignal.port value j e f a =
    let q = is_report BaselineSignal.port value in
    let start : Progress = record { items = known; recorded = [] } in
    later_signals q c o known start
      (judge_signal-reports c known BaselineSignal.port value o.ports start j e f a)
compare_items-reports c o known BaselineSignal.mdns value j e f a =
    let q = is_report BaselineSignal.mdns value in
    let p =
      judge_signal c known BaselineSignal.port o.ports (record { items = known; recorded = [] }) in
    last_signals q c o known p
      (judge_signal-reports c known BaselineSignal.mdns value o.mdns_types p j e f a)
compare_items-reports c o known BaselineSignal.ssdp value j e f a =
    let p = judge_signal c known BaselineSignal.mdns o.mdns_types (
      judge_signal c known BaselineSignal.port o.ports (record { items = known; recorded = [] })) in
    Told-judge_signal (is_report BaselineSignal.ssdp value) c known BaselineSignal.ipv6_prefix
      o.prefixes (judge_signal c known BaselineSignal.ssdp o.ssdp_types p)
      (judge_signal-reports c known BaselineSignal.ssdp value o.ssdp_types p j e f a)
compare_items-reports c o known BaselineSignal.ipv6_prefix value j e f a =
    let p = judge_signal c known BaselineSignal.ssdp o.ssdp_types (
      judge_signal c known BaselineSignal.mdns o.mdns_types (
        judge_signal c known BaselineSignal.port o.ports
          (record { items = known; recorded = [] }))) in
    judge_signal-reports c known BaselineSignal.ipv6_prefix value o.prefixes p j e f a
