-- ===== src/Engine/Inventory/Queue.antt =====
-- Which devices the inventory lists for review.
use mathlib.Core.Option
use lan_fence.Allowlist.{AllowEntry, match_entry}
use lan_fence.Base.{
  All, All-sort_desc, AllAt, AllAt-self, IsKeyed, List, String, Table, [], ap, arith, is_none,
  lookup, map, not, some, sort_desc, ℕ, ◌&&◌, ◌∷◌, ◌≡◌,
}
use lan_fence.Engine.Inventory.{
  all_devices, build_device, build_inventory, is_investigating, is_review_needed,
  join_device_context, joined,
}
use lan_fence.Models.Device.{Device}
use lan_fence.Store.Review.{get_review, is_snoozed}
use lan_fence.Store.State.{Row, Store, get_device, row_to_device}

-- A device of the inventory is listed for review exactly if it is not on the allowlist, not flagged
-- for investigation, and not snoozed at that time.
pub is_review_needed-joined :
    (allowlist : List AllowEntry) (d : Device) (now : ℕ) (s : Store)
    → is_review_needed (joined allowlist s d) now ≡ (
        is_none (match_entry d.mac allowlist)
        && not (is_investigating (get_review d.mac s).state)
        && not (is_snoozed d.mac now s))
unfolding is_review_needed joined is_snoozed join_device_context
is_review_needed-joined allowlist d now s = ground arith

IsSame : List AllowEntry → Store → Device → Type 0
IsSame allowlist s d = build_device allowlist d.mac s ≡ some d

All-map-joined :
    (allowlist : List AllowEntry) (s : Store) (es : Table Row)
    → All (λ (e : String × Row). lookup e.0 s.devices ≡ some e.1) es
    → All
        (IsSame allowlist s)
        (map (joined allowlist s) (map (λ (e : String × Row). row_to_device e.0 e.1) es))
unfolding IsSame build_device get_device joined join_device_context
All-map-joined allowlist s [] h = tt
All-map-joined allowlist s (e ∷ es) h = (
  ap (λ o. Option.map (joined allowlist s) (Option.map (row_to_device e.0) o)) h.0,
  All-map-joined allowlist s es h.1,
)

All-found : (t es : Table Row) → AllAt t es → All (λ (e : String × Row). lookup e.0 t ≡ some e.1) es
All-found t [] h = tt
All-found t (e ∷ es) h = (h.0, All-found t es h.1)

-- Every device of the inventory is the one that a query for its MAC alone returns.
pub build_inventory-build_device :
    (allowlist : List AllowEntry) (s : Store)
    → IsKeyed s.devices
    → All (λ (d : Device). build_device allowlist d.mac s ≡ some d) (build_inventory allowlist s)
unfolding build_inventory all_devices IsSame
build_inventory-build_device allowlist s h =
    let last : String × Row → ℕ = λ e. e.1.last_seen in
    All-map-joined allowlist s (sort_desc last s.devices) (
      All-sort_desc last (λ (e : String × Row). lookup e.0 s.devices ≡ some e.1) s.devices
        (All-found s.devices s.devices (AllAt-self s.devices h)))
