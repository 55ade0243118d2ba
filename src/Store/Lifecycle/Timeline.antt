-- ===== src/Store/Lifecycle/Timeline.antt =====
-- Timelines under the three changes of the events table: none, one more event, a deletion.
use lan_fence.Base.{
  List, Option, String, [], arith, eq_iff, filter, if◌then◌else◌, not, refl, some, str_eq, ◌&&◌,
  ◌++◌, ◌∷◌, ◌≡◌,
}
use lan_fence.Models.Device.{EventType}
use lan_fence.Store.Lifecycle.{accepts, final, is_legal, timeline}
use lan_fence.Store.State.{EventRow}

pub timeline-append :
    (m : String) (rs : List EventRow) (r : EventRow)
    → timeline m (rs ++ r ∷ [])
      ≡ (if str_eq m r.event.mac then timeline m rs ++ r.event.event_type ∷ [] else timeline m rs)
timeline-append m [] r = ground arith
timeline-append m (x ∷ rs) r = ground (arith, timeline-append m rs r)

pub accepts-append :
    (last : Option EventType) (es : List EventType) (e : EventType)
    → accepts last (es ++ e ∷ []) ≡ (accepts last es && is_legal (final last es) e)
accepts-append last [] e = ground arith
accepts-append last (x ∷ es) e = ground (arith, accepts-append (some x) es e)

pub final-append :
    (last : Option EventType) (es : List EventType) (e : EventType)
    → final last (es ++ e ∷ []) ≡ some e
final-append last [] e = refl
final-append last (x ∷ es) e = final-append (some x) es e

pub timeline-filter :
    (k m : String) (rs : List EventRow)
    → timeline m (filter (λ (r : EventRow). not (str_eq k r.event.mac)) rs)
      ≡ (if str_eq m k then [] else timeline m rs)
timeline-filter k m [] = ground arith
timeline-filter k m (x ∷ rs) =
    ground (arith, timeline-filter k m rs, eq_iff m k, eq_iff k x.event.mac, eq_iff m x.event.mac)
