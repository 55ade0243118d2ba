-- ===== src/Baseline/Ingest/Once.antt =====
-- lanfence/baseline.py: every lifecycle event becomes exactly one change.
use mathlib.Core.Option
use lan_fence.Base.{
  List, Table, [], ap, arith, drop, if-elim, length, length-filter, lookup, lookup-upsert, ltb,
  ltb→lt, map, none, refl, some, suc, sym, take, upsert, zero, ℕ, ◌++◌, ◌+◌, ◌<◌, ◌∙◌, ◌∷◌, ◌≡◌,
}
use lan_fence.Baseline.Ingest.{
  Detection, Watching, ingest_from, ingest_lifecycle, ingest_rows, lifecycle_change,
  record_detected, with_cursor,
}
use lan_fence.Baseline.Ingest.Pages.{length-drop, pages, shorter, take-drop, take_all}
use lan_fence.Models.Change.{ChangeEvent}
use lan_fence.Store.Changelog.{
  IsRising, after_id, events_after_id, get_cursor, last_id, record_change_event, set_cursor,
}
use lan_fence.Store.Lifecycle.{Reach, empty_store}
use lan_fence.Store.Lifecycle.Numbered.{Reach-IsNumbered}
use lan_fence.Store.State.{EventRow, Store}
use mathlib.Core.List.{append-nil, append_assoc}

-- the identifiers that the table gives to changes
abbrev pub numbered : ℕ → List ChangeEvent → List ChangeEvent
numbered n [] = []
numbered n (e ∷ es) = record e { id = some (n + 1) } ∷ numbered (n + 1) es

numbered-append :
    (n : ℕ) (xs ys : List ChangeEvent)
    → numbered n (xs ++ ys) ≡ numbered n xs ++ numbered (n + length xs) ys
numbered-append n [] ys = ap (λ m. numbered m ys) (omega arith)
numbered-append n (x ∷ xs) ys =
    ap (λ l. record x { id = some (n + 1) } ∷ l)
      (numbered-append (n + 1) xs ys ∙ ap (λ m. numbered (n + 1) xs ++ numbered m ys) (omega arith))

module _ (w : Watching) (s : Store) where
  abbrev pub changes : List EventRow → List ChangeEvent
  changes rows = map (lifecycle_change w s) rows

  length-changes : (rows : List EventRow) → length (changes rows) ≡ length rows
  length-changes [] = refl
  length-changes (row ∷ rows) = ap suc (length-changes rows)

  changes-append : (xs ys : List EventRow) → changes (xs ++ ys) ≡ changes xs ++ changes ys
  changes-append [] ys = refl
  changes-append (x ∷ xs) ys = ap (λ l. lifecycle_change w s x ∷ l) (changes-append xs ys)

  ingest_rows-recorded :
      (rows : List EventRow) (d : Detection)
      → (ingest_rows w s rows d).recorded ≡ d.recorded ++ numbered d.log.seq (changes rows)
  unfolding ingest_rows record_detected record_change_event
  ingest_rows-recorded [] d = sym (append-nil d.recorded)
  ingest_rows-recorded (row ∷ rows) d =
      ingest_rows-recorded rows (record_detected (lifecycle_change w s row) d)
      ∙ append_assoc d.recorded (numbered d.log.seq (changes (row ∷ [])))
          (numbered (d.log.seq + 1) (changes rows))

  ingest_rows-seq :
      (rows : List EventRow) (d : Detection)
      → (ingest_rows w s rows d).log.seq ≡ d.log.seq + length rows
  unfolding ingest_rows record_detected record_change_event
  ingest_rows-seq [] d = omega arith
  ingest_rows-seq (row ∷ rows) d =
      omega (arith, ingest_rows-seq rows (record_detected (lifecycle_change w s row) d))

  ingest_rows-cursors :
      (rows : List EventRow) (d : Detection) → (ingest_rows w s rows d).log.cursors ≡ d.log.cursors
  unfolding ingest_rows record_detected record_change_event
  ingest_rows-cursors [] d = refl
  ingest_rows-cursors (row ∷ rows) d =
      ingest_rows-cursors rows (record_detected (lifecycle_change w s row) d)

  -- What an ingestion from a cursor leaves: a change for each event after it, and a cursor that
  -- no event is after.
  pub record IsIngested (cursor : ℕ) (d e : Detection) : Type 0 where
    pub recorded :
        e.recorded ≡ d.recorded ++ numbered d.log.seq (changes (after_id cursor s.events))
    pub is_done : Option.map (λ n. after_id n s.events) (get_cursor "events" e.log) ≡ some []

  -- one page, by a limit of `k` rows
  abbrev page : ℕ → ℕ → Detection → Detection
  page k n d =
      let rows = take k (after_id n s.events) in
      with_cursor "events" (last_id n rows) (ingest_rows w s rows d)

  found :
      (m : ℕ) (c : Table ℕ)
      → after_id m s.events ≡ []
      → Option.map (λ n. after_id n s.events) (lookup "events" (upsert "events" m c)) ≡ some []
  found m c h = rw (lookup-upsert "events" "events" m c) (ap some h)

  -- the changes of a page and of the rest are those of all
  both_pages :
      (k seq : ℕ) (rows : List EventRow)
      → numbered seq (changes (take k rows))
          ++ numbered (seq + length (take k rows)) (changes (drop k rows))
        ≡ numbered seq (changes rows)
  both_pages k seq rows =
      ap (λ m. numbered seq (changes (take k rows)) ++ numbered (seq + m) (changes (drop k rows)))
        (sym (length-changes (take k rows)))
      ∙ sym (numbered-append seq (changes (take k rows)) (changes (drop k rows)))
      ∙ ap (numbered seq) (sym (changes-append (take k rows) (drop k rows)))
      ∙ ap (λ l. numbered seq (changes l)) (take-drop k rows)

  page-last :
      (k n : ℕ) (d : Detection)
      → IsRising s.events
      → length (take k (after_id n s.events)) < k
      → IsIngested n d (page k n d)
  unfolding get_cursor set_cursor lookup
  page-last k n d o h = record {
    recorded =
        ingest_rows-recorded (take k (after_id n s.events)) d
        ∙ ap (λ l. d.recorded ++ numbered d.log.seq (changes l))
            (take_all k (after_id n s.events) h);
    is_done =
        found (last_id n (take k (after_id n s.events)))
          (ingest_rows w s (take k (after_id n s.events)) d).log.cursors
          (pages k n s.events o ∙ length-drop k (after_id n s.events) h);
  }

  page-next :
      (k n : ℕ) (d e : Detection)
      → IsRising s.events
      → IsIngested (last_id n (take k (after_id n s.events))) (page k n d) e
      → IsIngested n d e
  unfolding get_cursor set_cursor lookup
  page-next k n d e o h = record {
    recorded =
        h.recorded
        ∙ ap
            (λ l.
              l
              ++ numbered (page k n d).log.seq
                  (changes (after_id (last_id n (take k (after_id n s.events))) s.events)))
            (ingest_rows-recorded (take k (after_id n s.events)) d)
        ∙ rw (ingest_rows-seq (take k (after_id n s.events)) d, pages k n s.events o)
            (append_assoc d.recorded (numbered d.log.seq (changes (take k (after_id n s.events)))) (
                numbered (d.log.seq + length (take k (after_id n s.events)))
                  (changes (drop k (after_id n s.events))))
              ∙ ap (λ l. d.recorded ++ l) (both_pages k d.log.seq (after_id n s.events)));
    is_done = h.is_done;
  }

  ingest_from-IsIngested :
      (fuel n : ℕ) (d : Detection)
      → IsRising s.events
      → length (after_id n s.events) < fuel
      → IsIngested n d (ingest_from fuel w s n d)
  unfolding ingest_from events_after_id
  ingest_from-IsIngested zero n d o h = absurd (omega arith)
  ingest_from-IsIngested (suc fuel) n d o h =
      let rows = take 1000 (after_id n s.events) in
      let rest = ingest_from fuel w s (last_id n rows) (page 1000 n d) in
      if-elim (IsIngested n d) (ltb (length rows) 1000) (page 1000 n d) rest
        (λ e. page-last 1000 n d o (ltb→lt (length rows) 1000 e))
        (λ e. page-next 1000 n d rest o (
          ingest_from-IsIngested fuel (last_id n rows) (page 1000 n d) o (
            rw (pages 1000 n s.events o)
              (shorter 1000 fuel (after_id n s.events) (omega arith) h e))))

  -- An ingestion from a cursor records exactly one change for each lifecycle event after the cursor,
  -- in the order of the events, whatever their number, and leaves a cursor that no event is after,
  -- so that the next ingestion takes only events that come later. This holds in every state of the
  -- database that its operations reach from a new one.
  pub ingest_lifecycle-IsIngested :
      (cap cursor : ℕ) (d : Detection)
      → Reach (empty_store cap) s
      → get_cursor "events" d.log ≡ some cursor
      → IsIngested cursor d (ingest_lifecycle w s d)
  unfolding ingest_lifecycle
  ingest_lifecycle-IsIngested cap cursor d r h =
      rw (ingest_lifecycle, h)
        (ingest_from-IsIngested (suc (length s.events)) cursor d
          (Reach-IsNumbered (record { is_rising = tt; below = tt }) r).is_rising
          (omega (arith, length-filter (λ (x : EventRow). ltb cursor x.id) s.events)))

  -- The first ingestion records no change: it starts after the last event.
  ingest_lifecycle-first :
      (d : Detection)
      → get_cursor "events" d.log ≡ none
      → (ingest_lifecycle w s d).recorded ≡ d.recorded
  unfolding ingest_lifecycle
  ingest_lifecycle-first d h = rw (ingest_lifecycle, h) refl
