-- ===== src/Baseline/Recent/Tally.antt =====
-- lanfence/baseline.py: how often a change that was just ingested counts towards the risk.
use lan_fence.Base.{
  All, Bool, List, Option, String, [], any, ap, arith, filter, if◌then◌else◌, leb, length, ltb, not,
  refl, some, sort_desc, str_eq, suc, sum-sort_desc, take, true, zero, ℕ, ◌&&◌, ◌*◌, ◌++◌, ◌+◌, ◌-◌,
  ◌<◌, ◌||◌, ◌∙◌, ◌∷◌, ◌≡◌, ◌≤◌,
}
use lan_fence.Baseline.Ingest.{Detection, record_detected}
use lan_fence.Baseline.Recent.{
  is_about, is_recent_change, recent_by_mac, recent_changes, risk_event_window,
}
use lan_fence.Models.Change.{ChangeEvent, needs_attention}
use lan_fence.Models.Risk.{RiskContribution}
use lan_fence.Models.Signed.{abs}
use lan_fence.Risk.{
  RiskInputs, assess, behaviour_factor, contributions_of, identity_factor, private_mac_factor,
  service_factor, signature_factor, standing,
}
use lan_fence.Store.Changelog.{Changelog, change_events_since, record_change_event}

-- the changes of one device that count
abbrev tally : ℕ → String → List ChangeEvent → ℕ
tally now mac es = recent_changes now (filter (is_about mac) es)

abbrev pub weight : ℕ → String → ChangeEvent → ℕ
weight now mac e =
    if is_about mac e && needs_attention e now && is_recent_change now e then 1 else 0

tally-cons :
    (now : ℕ) (mac : String) (e : ChangeEvent) (es : List ChangeEvent)
    → tally now mac (e ∷ es) ≡ weight now mac e + tally now mac es
unfolding recent_changes
tally-cons now mac e es = ground arith

recent_changes-append :
    (now : ℕ) (xs ys : List ChangeEvent)
    → recent_changes now (xs ++ ys) ≡ recent_changes now xs + recent_changes now ys
unfolding recent_changes
recent_changes-append now [] ys = omega arith
recent_changes-append now (x ∷ xs) ys = ground (arith, recent_changes-append now xs ys)

-- rows within the cap and the retention
pub record Fits (e : ChangeEvent) (c : Changelog) : Type 0 where
  pub room : length c.rows < c.max_change_events
  pub kept : All (λ (r : ChangeEvent). e.occurred_at ≤ r.occurred_at + c.retention) c.rows

take_within {ℓ} : {A : Type ℓ} (n : ℕ) (xs : List A) → length xs ≤ n → take n xs ≡ xs
take_within zero [] h = refl
take_within zero (x ∷ xs) h = absurd (omega arith)
take_within (suc n) [] h = refl
take_within (suc n) (x ∷ xs) h = ap (λ l. x ∷ l) (take_within n xs (omega arith))

filter_retained :
    (t k : ℕ) (rows : List ChangeEvent)
    → All (λ (r : ChangeEvent). t ≤ r.occurred_at + k) rows
    → filter (λ (r : ChangeEvent). not (ltb (r.occurred_at + k) t)) rows ≡ rows
filter_retained t k [] h = refl
filter_retained t k (r ∷ rows) h = ground (arith, filter_retained t k rows h.1)

rows-record_change_event :
    (e : ChangeEvent) (c : Changelog)
    → Fits e c
    → (record_change_event e c).1.rows ≡ record e { id = some (c.seq + 1) } ∷ c.rows
unfolding record_change_event
rows-record_change_event e c h =
    let saved : ChangeEvent = record e { id = some (c.seq + 1) } in
    ap (take c.max_change_events)
      (filter_retained e.occurred_at c.retention (saved ∷ c.rows) (omega arith, h.kept))
    ∙ take_within c.max_change_events (saved ∷ c.rows) (omega (arith, h.room))

tally-sort_desc :
    (now : ℕ) (mac : String) (es : List ChangeEvent)
    → tally now mac (sort_desc (λ (r : ChangeEvent). r.occurred_at) es) ≡ tally now mac es
tally-sort_desc now mac es =
    sum-sort_desc (λ (r : ChangeEvent). r.occurred_at) (tally now mac) (λ e n. weight now mac e + n)
      (tally-cons now mac) (λ x y b. omega arith) es

-- the rows before the window weigh nothing
tally-since :
    (now : ℕ) (mac : String) (rows : List ChangeEvent)
    → tally now mac (filter (λ (r : ChangeEvent). leb (now - risk_event_window) r.occurred_at) rows)
      ≡ tally now mac rows
tally-since now mac [] = refl
tally-since now mac (r ∷ rows) = ground (
  arith,
  tally-cons now mac r rows,
  tally-cons now mac r
      (filter (λ (r : ChangeEvent). leb (now - risk_event_window) r.occurred_at) rows),
  tally-since now mac rows,
)

tally-append :
    (now : ℕ) (mac : String) (xs ys : List ChangeEvent)
    → tally now mac (xs ++ ys) ≡ tally now mac xs + tally now mac ys
unfolding recent_changes
tally-append now mac [] ys = omega arith
tally-append now mac (x ∷ xs) ys =
    omega
      (arith, tally-cons now mac x (xs ++ ys), tally-cons now mac x xs, tally-append now mac xs ys)

-- the changes counted are those of the table and those recorded in this run
recent_changes-recent_by_mac :
    (now : ℕ) (mac : String) (d : Detection)
    → recent_changes now (recent_by_mac now mac d)
      ≡ tally now mac d.log.rows + tally now mac d.recorded
unfolding recent_by_mac change_events_since
recent_changes-recent_by_mac now mac d =
    recent_changes-append now _ (filter (is_about mac) d.recorded)
    ∙ ap (λ n. n + tally now mac d.recorded)
        (tally-sort_desc now mac _ ∙ tally-since now mac d.log.rows)

weight-id :
    (now : ℕ) (mac : String) (e : ChangeEvent) (n : Option ℕ)
    → weight now mac (record e { id = n }) ≡ weight now mac e
unfolding needs_attention
weight-id now mac e n = refl

tally_one :
    (now : ℕ) (mac : String) (e : ChangeEvent) (n : Option ℕ) (es : List ChangeEvent)
    → tally now mac (record e { id = n } ∷ es) ≡ weight now mac e + tally now mac es
tally_one now mac e n es =
    tally-cons now mac (record e { id = n }) es
    ∙ ap (λ k. k + tally now mac es) (weight-id now mac e n)

tally_none : (now : ℕ) (mac : String) → tally now mac [] ≡ 0
unfolding recent_changes
tally_none now mac = refl

tally-saved :
    (now : ℕ) (mac : String) (e : ChangeEvent) (c : Changelog)
    → tally now mac ((record_change_event e c).0 ∷ []) ≡ weight now mac e + tally now mac []
unfolding record_change_event
tally-saved now mac e c = tally_one now mac e (some (c.seq + 1)) []

-- A change that a run of the detector ingests counts twice among the recent changes of its device,
-- once as a row of the table and once as recorded by the run, as long as the table has room for it
-- and no row is past the retention.
recent_changes-record_detected :
    (now : ℕ) (mac : String) (e : ChangeEvent) (d : Detection)
    → Fits e d.log
    → recent_changes now (recent_by_mac now mac (record_detected e d))
      ≡ 2 * weight now mac e + recent_changes now (recent_by_mac now mac d)
unfolding record_detected
recent_changes-record_detected now mac e d h =
    let saved : ChangeEvent = (record_change_event e d.log).0 in
    omega (
      arith,
      recent_changes-recent_by_mac now mac (record_detected e d),
      recent_changes-recent_by_mac now mac d,
      ap (tally now mac) (rows-record_change_event e d.log h),
      tally_one now mac e (some (d.log.seq + 1)) d.log.rows,
      tally-append now mac d.recorded (saved ∷ []),
      tally-saved now mac e d.log,
      tally_none now mac,
    )

abbrev pub is_many_changes : RiskContribution → Bool
is_many_changes c = str_eq c.factor "many_changes"

any-append :
    (xs ys : List RiskContribution)
    → any is_many_changes (xs ++ ys) ≡ (any is_many_changes xs || any is_many_changes ys)
any-append [] ys = refl
any-append (x ∷ xs) ys = ground (arith, any-append xs ys)

any-last :
    (xs ys : List RiskContribution)
    → any is_many_changes ys ≡ true
    → any is_many_changes (xs ++ ys) ≡ true
any-last xs ys h = ground (arith, any-append xs ys, h)

many_changes-behaviour :
    (i : RiskInputs)
    → leb 3 i.recent_changes ≡ true
    → any is_many_changes (behaviour_factor i) ≡ true
unfolding behaviour_factor
many_changes-behaviour i h =
    rw (any-append, any-append, any-append, any-append, any-append, any-append, h) (ground arith)

-- three changes or more count among the factors of an assessment
assess-many_changes :
    (i : RiskInputs) (now : ℕ)
    → 3 ≤ i.recent_changes
    → any is_many_changes (assess i now).contributions ≡ true
unfolding assess
assess-many_changes i now h =
    sum-sort_desc (λ (c : RiskContribution). abs c.points) (any is_many_changes)
      (λ c b. is_many_changes c || b) (λ c cs. refl) (λ x y b. ground arith)
      (contributions_of i now)
    ∙ any-last
        (standing i now
          ++ private_mac_factor i
          ++ signature_factor i
          ++ identity_factor i
          ++ service_factor i)
        (behaviour_factor i) (many_changes-behaviour i (ground arith))

-- Two changes that a run of the detector ingests, each of which counts for the device, make four
-- among its recent changes, and so the factor for three or more unreviewed changes is among its risk
-- factors, as long as the table has room for both and no row is past the retention.
pub record_detected-many_changes :
    (now : ℕ) (mac : String) (e f : ChangeEvent) (d : Detection) (i : RiskInputs)
    → Fits e d.log
    → Fits f (record_detected e d).log
    → weight now mac e ≡ 1
    → weight now mac f ≡ 1
    → let n =
        recent_changes now (recent_by_mac now mac (record_detected f (record_detected e d))) in
      (n ≡ 4 + recent_changes now (recent_by_mac now mac d))
      × (any is_many_changes (assess (record i { recent_changes = n }) now).contributions ≡ true)
record_detected-many_changes now mac e f d i room more one other =
    let four : recent_changes now (recent_by_mac now mac (record_detected f (record_detected e d)))
        ≡ 4 + recent_changes now (recent_by_mac now mac d) =
      omega (
        arith,
        recent_changes-record_detected now mac e d room,
        recent_changes-record_detected now mac f (record_detected e d) more,
        one,
        other,
      ) in
    (four, assess-many_changes _ now (omega (arith, four)))
