-- ===== src/Store/Review.antt =====
-- lanfence/db.py: review and snooze state of a device.
use lan_fence.Base.{
  ℕ, String, Bool, true, false, ◌&&◌, Option, none, some, ltb, some_and, lookup, upsert, erase,
  or_else, coalesce,
}
use lan_fence.Models.Device.{ReviewStateName, ReviewState, pending, snoozed, investigating}
use lan_fence.Store.State.{Store}

abbrev pub no_review : ReviewState
no_review = record { state = pending; notes = none; snoozed_until = none; updated_at = none }

unfoldable pub get_review : String → Store → ReviewState
get_review mac s = or_else (lookup mac s.review) no_review

unfoldable pub upsert_review : String → ReviewState → Store → Store
upsert_review mac r s = record s { review = upsert mac r s.review }

-- notes left as `None` keep the notes on file
unfoldable pub set_snoozed : String → ℕ → Option String → ℕ → Store → Store
unfolding upsert_review
set_snoozed mac until notes updated_at s =
    upsert_review mac
      (record {
        state = snoozed;
        notes = coalesce notes (get_review mac s).notes;
        snoozed_until = some until;
        updated_at = some updated_at;
      })
      s

unfoldable pub set_investigating : String → Option String → ℕ → Store → Store
unfolding upsert_review
set_investigating mac notes updated_at s =
    upsert_review mac
      (record {
        state = investigating;
        notes = notes;
        snoozed_until = none;
        updated_at = some updated_at;
      })
      s

unfoldable pub clear_review : String → Store → Store
clear_review mac s = record s { review = erase mac s.review }

abbrev pub is_snoozed_review : ReviewStateName → Bool
is_snoozed_review snoozed = true
is_snoozed_review _ = false

unfoldable pub is_snoozed : String → ℕ → Store → Bool
unfolding get_review
is_snoozed mac now s =
    let review = get_review mac s in
    is_snoozed_review review.state && some_and review.snoozed_until (λ until. ltb now until)
