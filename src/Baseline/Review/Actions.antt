-- ===== src/Baseline/Review/Actions.antt =====
-- lanfence/baseline.py: what a review of one change does.
use mathlib.Core.Option
use lan_fence.Base.{
  List, Option, String, ap, arith, coalesce, false, find, find-holds, find-map, if-elim,
  if◌then◌else◌, map, none, refl, some, some_and, suc, true, zero, ℕ, ◌+◌, ◌==◌, ◌∙◌, ◌≡◌, ◌≢◌,
}
use lan_fence.Baseline.Review.{
  ReviewAction, annotate, fold_in, mark, new_snooze, new_state, review_change, snooze_for,
}
use lan_fence.Models.Change.{ChangeEvent, ChangeReviewState}
use lan_fence.Store.Baselines.{Baselines}
use lan_fence.Store.Changelog.{
  Changelog, get_change_event, has_id, reviewed_as, update_change_review,
}

abbrev edit : ℕ → (ChangeEvent → ChangeEvent) → ChangeEvent → ChangeEvent
edit n f r = if has_id n r then f r else r

has_id-edit :
    (n k : ℕ) (f : ChangeEvent → ChangeEvent)
    → ((e : ChangeEvent) → (f e).id ≡ e.id)
    → (r : ChangeEvent) → has_id k (edit n f r) ≡ has_id k r
has_id-edit n k f h r =
    if-elim (λ (x : ChangeEvent). has_id k x ≡ has_id k r) (has_id n r) (f r) r
      (λ e. ap (λ o. some_and o (λ j. j == k)) (h r)) (λ e. refl)

get_change_event-edit :
    (n k : ℕ) (f : ChangeEvent → ChangeEvent) (rows : List ChangeEvent)
    → ((e : ChangeEvent) → (f e).id ≡ e.id)
    → find (has_id k) (map (edit n f) rows) ≡ Option.map (edit n f) (find (has_id k) rows)
get_change_event-edit n k f rows h = find-map (has_id k) (edit n f) rows (has_id-edit n k f h)

-- the change as an action leaves it
abbrev pub reviewed_by : ReviewAction → ℕ → Option String → ChangeEvent → ChangeEvent
reviewed_by action now note e =
    reviewed_as (new_state action e) (coalesce note e.review_note) now (new_snooze action now e) e

module _ (n : ℕ) (action : ReviewAction) (now : ℕ) (note : Option String) (log : Changelog)
    (t : Baselines) where
  -- An action on a change writes its state, note and snooze, returns the change as it is then on
  -- record, and leaves every other change alone.
  review_change-event :
      (e : ChangeEvent)
      → get_change_event n log ≡ some e
      → let r = review_change n action now note log t in
        (r.0 ≡ some (reviewed_by action now note e))
        × (get_change_event n r.1 ≡ some (reviewed_by action now note e))
  unfolding review_change update_change_review get_change_event
  review_change-event e h =
      let f : ChangeEvent → ChangeEvent =
        reviewed_as (new_state action e) (coalesce note e.review_note) now
          (new_snooze action now e) in
      let own : has_id n e ≡ true = find-holds (has_id n) log.rows e h in
      let a : find (has_id n) (map (edit n f) log.rows) ≡ some (f e) =
        get_change_event-edit n n f log.rows (λ x. refl)
        ∙ ap (Option.map (edit n f)) h
        ∙ ap (λ b. some (if b then f e else e)) own in
      rw (review_change, h, update_change_review, h) (a, a)

  not_both :
      (k : ℕ) (o : Option ℕ)
      → k ≢ n
      → some_and o (λ j. j == k) ≡ true
      → some_and o (λ j. j == n) ≡ false
  not_both k none d h = refl
  not_both k (some j) d h = ground (arith, d)

  other :
      (f : ChangeEvent → ChangeEvent) (k : ℕ) (o : Option ChangeEvent)
      → k ≢ n
      → ((x : ChangeEvent) → o ≡ some x → has_id k x ≡ true)
      → Option.map (edit n f) o ≡ o
  other f k none d h = refl
  other f k (some x) d h = ap (λ b. some (if b then f x else x)) (not_both k x.id d (h x refl))

  review_change-frame :
      (e : ChangeEvent) (k : ℕ)
      → get_change_event n log ≡ some e
      → k ≢ n
      → get_change_event k (review_change n action now note log t).1 ≡ get_change_event k log
  unfolding review_change update_change_review get_change_event
  review_change-frame e k h d =
      let f : ChangeEvent → ChangeEvent =
        reviewed_as (new_state action e) (coalesce note e.review_note) now
          (new_snooze action now e) in
      rw (review_change, h, update_change_review, h)
        (get_change_event-edit n k f log.rows (λ x. refl)
          ∙ other f k (find (has_id k) log.rows) d (find-holds (has_id k) log.rows))

-- A change after a note was given, or none.
abbrev pub HasNote : Option String → ChangeEvent → ChangeEvent → Type 0
HasNote none e e' = e'.review_note ≡ e.review_note
HasNote (some text) e e' = e'.review_note ≡ some text

-- What is to become of a change by each action: its state and the end of its snooze.
abbrev pub IsReviewed : ReviewAction → ℕ → ChangeEvent → ChangeEvent → Type 0
IsReviewed annotate now e e' =
    (e'.review_state ≡ e.review_state) × (e'.snoozed_until ≡ e.snoozed_until)
IsReviewed (snooze_for none) now e e' =
    (e'.review_state ≡ ChangeReviewState.snoozed) × (e'.snoozed_until ≡ some (now + 86400000000))
IsReviewed (snooze_for (some zero)) now e e' =
    (e'.review_state ≡ ChangeReviewState.snoozed) × (e'.snoozed_until ≡ some (now + 86400000000))
IsReviewed (snooze_for (some (suc n))) now e e' =
    (e'.review_state ≡ ChangeReviewState.snoozed) × (e'.snoozed_until ≡ some (now + suc n))
IsReviewed (mark s) now e e' = (e'.review_state ≡ s) × (e'.snoozed_until ≡ none)

-- Only an acceptance touches the baselines.
abbrev pub KeepsBaselines : ReviewAction → Baselines → Baselines → Type 0
KeepsBaselines (mark ChangeReviewState.accepted) t t' = Unit
KeepsBaselines _ t t' = t' ≡ t

IsReviewed-reviewed_by :
    (action : ReviewAction) (now : ℕ) (note : Option String) (e : ChangeEvent)
    → IsReviewed action now e (reviewed_by action now note e)
IsReviewed-reviewed_by annotate now given e = (refl, refl)
IsReviewed-reviewed_by (snooze_for none) now given e = (refl, refl)
IsReviewed-reviewed_by (snooze_for (some zero)) now given e = (refl, refl)
IsReviewed-reviewed_by (snooze_for (some (suc n))) now given e = (refl, refl)
IsReviewed-reviewed_by (mark s) now given e = (refl, refl)

HasNote-reviewed_by :
    (action : ReviewAction) (now : ℕ) (note : Option String) (e : ChangeEvent)
    → HasNote note e (reviewed_by action now note e)
HasNote-reviewed_by action now none e = refl
HasNote-reviewed_by action now (some text) e = refl

KeepsBaselines-fold_in :
    (action : ReviewAction) (e : ChangeEvent) (t : Baselines)
    → KeepsBaselines action t (fold_in action e t)
KeepsBaselines-fold_in annotate e t = refl
KeepsBaselines-fold_in (snooze_for d) e t = refl
KeepsBaselines-fold_in (mark ChangeReviewState.accepted) e t = tt
KeepsBaselines-fold_in (mark ChangeReviewState.unreviewed) e t = refl
KeepsBaselines-fold_in (mark ChangeReviewState.reviewed) e t = refl
KeepsBaselines-fold_in (mark ChangeReviewState.investigating) e t = refl
KeepsBaselines-fold_in (mark ChangeReviewState.snoozed) e t = refl

module _ (n : ℕ) (action : ReviewAction) (now : ℕ) (note : Option String) (log : Changelog)
    (t : Baselines) where
  review_change-KeepsBaselines :
      (e : ChangeEvent)
      → get_change_event n log ≡ some e
      → KeepsBaselines action t (review_change n action now note log t).2
  unfolding review_change
  review_change-KeepsBaselines e h = rw (review_change, h) (KeepsBaselines-fold_in action e t)

  -- A review of a change returns it as it is then on record: a note alone keeps its state and the end
  -- of its snooze; a snooze ends after the time given, or a day if that is none or zero; any other
  -- state replaces the old one and ends the snooze. The note given replaces the old one, which stays
  -- if none is given. Every other change is left as it was, and so are the baselines, unless the
  -- change is accepted.
  pub review_change-recorded :
      (e : ChangeEvent) (k : ℕ)
      → get_change_event n log ≡ some e
      → k ≢ n
      → let r = review_change n action now note log t in
        (e' : ChangeEvent) × (r.0 ≡ some e')
        × (get_change_event n r.1 ≡ some e')
        × IsReviewed action now e e'
        × HasNote note e e'
        × (get_change_event k r.1 ≡ get_change_event k log)
        × KeepsBaselines action t r.2
  review_change-recorded e k h d =
      let a = review_change-event n action now note log t e h in
      (
        reviewed_by action now note e,
        a.0,
        a.1,
        IsReviewed-reviewed_by action now note e,
        HasNote-reviewed_by action now note e,
        review_change-frame n action now note log t e k h d,
        review_change-KeepsBaselines e h,
      )
