-- ===== src/Witnesses/Reviews.antt =====
-- An operator reviews the changes of one device.
use lan_fence.Base.{All, [], arith, false, lookup, none, refl, some, true, ◌∷◌, ◌≡◌}
use lan_fence.Baseline.Review.{accept_pending, review_change, snooze_for}
use lan_fence.Baseline.Review.Actions.{HasNote, IsReviewed, KeepsBaselines, review_change-recorded}
use lan_fence.Baseline.Review.Pending.{accept_pending_complete}
use lan_fence.Models.Baseline.{BaselineItem, port, seen_later}
use lan_fence.Models.Change.{ChangeEvent, ChangeReviewState, ChangeType, Significance, no_current}
use lan_fence.Store.Baselines.{Baselines, rows_of}
use lan_fence.Store.Changelog.{Changelog, get_change_event}

abbrev new_service : ChangeEvent
new_service = record {
  id = some 4;
  mac = some "aa:bb:cc:00:00:01";
  subject_id = none;
  change_type = ChangeType.service_new;
  occurred_at = 10;
  signal = some "port";
  subject = some "tcp/22";
  current = no_current;
  evidence = [];
  significance = Significance.high;
  suppressed = false;
  review_state = ChangeReviewState.unreviewed;
  review_note = none;
  reviewed_at = none;
  snoozed_until = none;
  policy_id = none;
  alerted_at = none;
}

abbrev other_service : ChangeEvent
other_service = record new_service { id = some 3; subject = some "tcp/80" }

abbrev two_changes : Changelog
two_changes = record {
  rows = new_service ∷ other_service ∷ [];
  seq = 4;
  cursors = [];
  max_change_events = 10;
  retention = 86400000000;
}

abbrev waiting_item : BaselineItem
waiting_item = record {
  signal = port;
  value = "tcp/22";
  in_baseline = false;
  origin = seen_later;
  present = true;
  first_seen = 10;
  last_seen = 10;
  removed_at = none;
}

abbrev reviewed_tables : Baselines
reviewed_tables = record {
  rows = [];
  items =
      (
        "aa:bb:cc:00:00:01",
        waiting_item ∷ record waiting_item { value = "tcp/80"; in_baseline = true } ∷ [],
      )
      ∷ [];
  max_items = 200;
}

review_change-recorded_example :
    let r = review_change 4 (snooze_for none) 20 (some "ask") two_changes reviewed_tables in
    (e' : ChangeEvent) × (r.0 ≡ some e')
    × (get_change_event 4 r.1 ≡ some e')
    × IsReviewed (snooze_for none) 20 new_service e'
    × HasNote (some "ask") new_service e'
    × (get_change_event 3 r.1 ≡ get_change_event 3 two_changes)
    × KeepsBaselines (snooze_for none) reviewed_tables r.2
unfolding get_change_event
review_change-recorded_example =
    review_change-recorded 4 (snooze_for none) 20 (some "ask") two_changes reviewed_tables
      new_service 3 refl (omega arith)

accept_pending_complete_example :
    let t' = (accept_pending "aa:bb:cc:00:00:01" 20 two_changes reviewed_tables).2 in
    All (λ (i : BaselineItem). i.in_baseline ≡ true) (rows_of "aa:bb:cc:00:00:01" t')
    × ((accept_pending "aa:bb:cc:00:00:01" 20 two_changes t').0 ≡ 0)
unfolding lookup
accept_pending_complete_example =
    accept_pending_complete "aa:bb:cc:00:00:01" 20 two_changes reviewed_tables
      ((refl, tt), (tt, tt))
