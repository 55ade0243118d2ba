-- ===== src/Store/Coverage.antt =====
-- lanfence/db.py: which devices a sweep has examined (`_path_covered`).
use lan_fence.Base.{String, Bool, false, not, ◌&&◌, ◌||◌, Option, none_or, str_eq, if◌then◌else◌}
use lan_fence.Store.State.{Row}

-- the keyword arguments that say what a sweep covered
pub record Coverage : Type 0 where
  pub ipv4_covered : Bool
  pub ipv4_subnet : Option String
  pub ipv6_covered : Bool
  pub interface : Option String

-- `a is None or b is None or a == b`
abbrev agree : Option String → Option String → Bool
agree a b = none_or a (λ x. none_or b (λ y. str_eq y x))

unfoldable pub path_covered : Row → Coverage → Bool
path_covered row c =
    let interface_ok = agree c.interface row.last_interface in
    let subnet_ok = agree c.ipv4_subnet row.ipv4_subnet in
    let ipv4_ok = not row.seen_via_ipv4 || c.ipv4_covered && interface_ok && subnet_ok in
    let ipv6_ok = not row.seen_via_ipv6 || c.ipv6_covered && interface_ok in
    if not (row.seen_via_ipv4 || row.seen_via_ipv6) then false else ipv4_ok && ipv6_ok
