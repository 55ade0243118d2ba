-- ===== src/Store/Evidence.antt =====
-- lanfence/db.py: address and name evidence, and the preferred values computed from it.
pub mod Preferred
pub mod Bounds
use Prim.Native.Nat.{◌/◌, ◌^◌}
use lan_fence.Base.{
  Bool, List, Option, String, [], any, coalesce, false, filter, if◌then◌else◌, lookup, ltb, map,
  max, min, none, not, or_else, some, sort_desc, str_eq, take, true, update, upsert, ℕ, ◌&&◌, ◌-◌,
  ◌==◌, ◌||◌, ◌∷◌,
}
use lan_fence.Models.Device.{
  Address, AssociationKind, Ip, NameSource, Source, arp, dhcp_ack, dhcp_option_12, icmp, invalid,
  ipv6_nd, legacy_name, legacy_snapshot, name_source_index, reverse_dns, source_index, v4, v6,
}
use lan_fence.Store.State.{AddressRow, Family, NameRow, Row, Store, ipv4, ipv6}
use lan_fence.Text.{drop_root_dot, lower, str_lt, strip}
use mathlib.Core.Option

-- not unspecified, not multicast (224.0.0.0/4, ff00::/8), not 255.255.255.255
unfoldable pub is_usable_address : Address → Bool
is_usable_address invalid = false
is_usable_address (v4 n) = not (n == 0 || n / 2 ^ 28 == 14) && not (n == 2 ^ 32 - 1)
is_usable_address (v6 n) = not (n == 0 || n / 2 ^ 120 == 255)

abbrev family_of : Address → Family
family_of (v4 n) = ipv4
family_of _ = ipv6

unfoldable pub normalize_name_key : String → String
normalize_name_key name = drop_root_dot (lower (strip name))

-- the primary key of an address row
abbrev same_address : Ip → String → Source → AddressRow → Bool
same_address ip interface source r =
    str_eq r.ip.text ip.text
    && str_eq r.interface interface
    && source_index r.source == source_index source

abbrev widen_address : ℕ → AddressRow → AddressRow
widen_address seen_at r = record r {
  first_seen = min r.first_seen seen_at;
  last_seen = max r.last_seen seen_at;
}

-- The rows of one MAC after an observation: a repeat widens its row, a new row is inserted and
-- the rows beyond the cap, the longest unseen, are deleted (`_enforce_row_cap`).
unfoldable pub fold_address : ℕ → AddressRow → List AddressRow → List AddressRow
fold_address cap new rows =
    let same = same_address new.ip new.interface new.source in
    if any same rows
    then map (λ r. if same r then widen_address new.last_seen r else r) rows
    else take cap (sort_desc (λ r. r.last_seen) (new ∷ rows))

-- INSERT INTO device_addresses
abbrev pub new_address : Ip → String → Source → AssociationKind → ℕ → AddressRow
new_address ip interface source kind seen_at = record {
  ip = ip;
  family = family_of ip.address;
  interface = interface;
  source = source;
  kind = kind;
  first_seen = seen_at;
  last_seen = seen_at;
}

-- `interface` is `interface or ""`
unfoldable pub record_address_evidence :
    String → Ip → String → Source → AssociationKind → ℕ → Store → Store
unfolding fold_address
record_address_evidence mac ip interface source kind seen_at s =
    if not (is_usable_address ip.address) then s else record s {
      addresses =
          upsert mac
            (fold_address s.max_evidence_rows (new_address ip interface source kind seen_at)
              (or_else (lookup mac s.addresses) []))
            s.addresses;
    }

abbrev same_name : NameRow → NameRow → Bool
same_name new r =
    str_eq r.name_key new.name_key
    && name_source_index r.source == name_source_index new.source
    && str_eq r.ip new.ip
    && str_eq r.interface new.interface

abbrev widen_name : NameRow → NameRow → NameRow
widen_name new r = record r {
  name = new.name;
  first_seen = min r.first_seen new.last_seen;
  last_seen = max r.last_seen new.last_seen;
}

unfoldable pub fold_name : ℕ → NameRow → List NameRow → List NameRow
fold_name cap new rows =
    if any (same_name new) rows
    then map (λ r. if same_name new r then widen_name new r else r) rows
    else take cap (sort_desc (λ r. r.last_seen) (new ∷ rows))

-- INSERT INTO device_names
abbrev pub new_name : String → NameSource → String → String → ℕ → NameRow
new_name name source ip interface seen_at = record {
  name = name;
  name_key = normalize_name_key name;
  source = source;
  ip = ip;
  interface = interface;
  first_seen = seen_at;
  last_seen = seen_at;
}

-- a name of nothing but spaces is skipped
unfoldable pub record_name_evidence :
    String → String → NameSource → String → String → ℕ → Store → Store
unfolding fold_name
record_name_evidence mac name source ip interface seen_at s =
    let name' = strip name in
    if str_eq name' "" then s else record s {
      names =
          upsert mac
            (fold_name s.max_evidence_rows (new_name name' source ip interface seen_at)
              (or_else (lookup mac s.names) []))
            s.names;
    }

-- `_ADDRESS_SOURCE_PRIORITY.get(source, 99)`
abbrev pub address_priority : Source → ℕ
address_priority arp = 0
address_priority ipv6_nd = 0
address_priority icmp = 0
address_priority dhcp_ack = 1
address_priority legacy_snapshot = 2
address_priority _ = 99

-- `_NAME_SOURCE_PRIORITY.get(source, 99)`
abbrev pub name_priority : NameSource → ℕ
name_priority dhcp_option_12 = 0
name_priority reverse_dns = 1
name_priority legacy_name = 2

-- the order of the tuples (priority, -last_seen, text)
abbrev pub key_lt : ℕ → ℕ → String → ℕ → ℕ → String → Bool
key_lt p last text p' last' text' =
    if ltb p p'
    then true
    else if ltb p' p
    then false
    else if ltb last' last
    then true
    else if ltb last last'
    then false
    else str_lt text text'

abbrev pub address_lt : AddressRow → AddressRow → Bool
address_lt a b =
    key_lt (address_priority a.source) a.last_seen a.ip.text (address_priority b.source) b.last_seen
      b.ip.text

abbrev pub name_lt : NameRow → NameRow → Bool
name_lt a b =
    key_lt (name_priority a.source) a.last_seen a.name (name_priority b.source) b.last_seen b.name

-- Python's `min(rows, key=...)`: the first of the least
module _ {ℓ} {A : Type ℓ} (lt : A → A → Bool) where
  unfoldable pub min_from : A → List A → A
  min_from best [] = best
  min_from best (x ∷ xs) = min_from (if lt x best then x else best) xs

  abbrev pub min_by : List A → Option A
  min_by [] = none
  min_by (x ∷ xs) = some (min_from x xs)

unfoldable pub preferred_address : String → Store → Option Ip
preferred_address mac s =
    Option.map (λ (r : AddressRow). r.ip) (min_by address_lt (or_else (lookup mac s.addresses) []))

abbrev family_index : Family → ℕ
family_index ipv4 = 4
family_index ipv6 = 6

-- `preferred_addresses_by_family_for_macs`, for one MAC and one family
unfoldable pub preferred_in_family : Family → String → Store → Option Ip
preferred_in_family family mac s =
    Option.map (λ (r : AddressRow). r.ip)
      (min_by address_lt (
        filter (λ (r : AddressRow). family_index r.family == family_index family)
          (or_else (lookup mac s.addresses) [])))

unfoldable pub preferred_name : String → Store → Option String
preferred_name mac s =
    Option.map (λ (r : NameRow). r.name) (min_by name_lt (or_else (lookup mac s.names) []))

abbrev pub prefer : Option Ip → Option String → Row → Row
prefer ip name r = record r { ip = coalesce ip r.ip; hostname = coalesce name r.hostname }

unfoldable pub refresh_preferred_fields : String → Store → Store
refresh_preferred_fields mac s = record s {
  devices = update mac (prefer (preferred_address mac s) (preferred_name mac s)) s.devices;
}
