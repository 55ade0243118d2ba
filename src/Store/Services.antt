-- ===== src/Store/Services.antt =====
-- lanfence/db.py: the advertised services, put together from the tables of mDNS and SSDP.
pub mod Attributed
pub mod Listed
use lan_fence.Base.{
  Bool, List, Option, String, Table, [], any, coalesce, false, filter, if◌then◌else◌, is_none,
  lookup, ltb, map, none, none_or, not, or_else, or_empty, some, some_and, str_eq, true, truthy, ℕ,
  ◌&&◌, ◌++◌, ◌||◌, ◌∷◌,
}
use lan_fence.Discovery.Process.{srv, txt}
use lan_fence.Models.Baseline.{port}
use lan_fence.Models.Device.{Source, arp, icmp, ipv6_nd}
use lan_fence.Models.Service.{
  AdvertisedService, AdvertisedServiceStatus, DiscoveryProtocol, current, expired, withdrawn,
}
use lan_fence.Store.Adverts.{Advert, Adverts, InstanceKey, PtrContent, PtrKey, SsdpContent, SsdpKey}
use lan_fence.Store.State.{AddressRow, Store}
use lan_fence.Text.{lower, str_lt}
use mathlib.Core.Option

-- not a lease claim, and not imported
abbrev pub is_direct : Source → Bool
is_direct Source.arp = true
is_direct Source.ipv6_nd = true
is_direct Source.icmp = true
is_direct _ = false

abbrev pub holds_address : String → List AddressRow → Bool
holds_address ip rows = any (λ r. str_eq r.ip.text ip && is_direct r.source) rows

-- the one element of a set, `None` if it has none or more than one
abbrev pub the_only : List String → Option String
the_only [] = none
the_only (m ∷ ms) = if any (λ x. not (str_eq m x)) ms then none else some m

unfoldable pub directly_observed_mac_for_ip : String → Store → Option String
directly_observed_mac_for_ip ip s =
    the_only (map (λ e. e.0) (filter (λ e. holds_address ip e.1) s.addresses))

-- `_discovery_status`
abbrev pub discovery_status : {K A : Type 0} → Advert K A → ℕ → AdvertisedServiceStatus
discovery_status r now =
    if r.withdrawn
    then AdvertisedServiceStatus.withdrawn
    else if some_and r.expires_at (λ e. ltb e now)
    then AdvertisedServiceStatus.expired
    else AdvertisedServiceStatus.current

-- the last row of which `p` holds: the rows of a dict comprehension overwrite each other
abbrev pub find_last : {A : Type 0} → (A → Bool) → List A → Option A
find_last p [] = none
find_last p (x ∷ xs) = coalesce (find_last p xs) (if p x then some x else none)

-- keys of the joins that are done in Python
abbrev pub joins_instance : PtrKey → InstanceKey → Bool
joins_instance p k =
    str_eq p.interface k.interface && str_eq (lower p.fq_instance) (lower k.fq_instance)

-- the addresses of the host that a service is on, without the withdrawn ones
abbrev pub host_addresses : String → Option String → Adverts → List String
host_addresses interface none d = []
host_addresses interface (some host) d =
    if str_eq host ""
    then []
    else map (λ r. r.key.ip)
        (filter
          (λ r.
            str_eq interface r.key.interface
            && str_eq (lower host) (lower r.key.target_host)
            && not r.withdrawn)
          d.mdns_addr)

-- `if found_mac: candidate_macs.add(found_mac)`
abbrev pub add_candidate : Option String → List String → List String
add_candidate none macs = macs
add_candidate (some m) macs = m ∷ macs

abbrev pub candidate_macs : Store → List String → List String
candidate_macs s [] = []
candidate_macs s (ip ∷ ips) =
    add_candidate (directly_observed_mac_for_ip ip s) (candidate_macs s ips)

-- the text before the suffix, if the text ends in it
before_suffix : String → String → Option String
before_suffix suffix String.[] = if str_eq suffix "" then some "" else none
before_suffix suffix (String.◌∷◌ c s) =
    let rest = before_suffix suffix s in
    if str_eq (String.◌∷◌ c s) suffix then some "" else Option.map (λ t. String.◌∷◌ c t) rest

abbrev pub well_known_mdns_labels : Table String
well_known_mdns_labels =
    ("_ipp._tcp", "Printing")
    ∷ ("_ipps._tcp", "Printing")
    ∷ ("_airplay._tcp", "AirPlay")
    ∷ ("_raop._tcp", "Remote audio")
    ∷ ("_googlecast._tcp", "Cast")
    ∷ ("_http._tcp", "Web service")
    ∷ ("_https._tcp", "Web service")
    ∷ []

unfoldable pub well_known_mdns_label : String → Option String
unfolding before_suffix
well_known_mdns_label service_type =
    let normalized = lower service_type in
    lookup
      (or_else (coalesce (before_suffix ".local" normalized) (before_suffix ".local." normalized))
        normalized)
      well_known_mdns_labels

-- one service of `_mdns_advertised_services`
abbrev pub mdns_service : Store → Adverts → ℕ → Advert PtrKey PtrContent → AdvertisedService
mdns_service s d now p =
    let srv = find_last (λ r. joins_instance p.key r.key) d.mdns_srv in
    let txt = find_last (λ r. joins_instance p.key r.key) d.mdns_txt in
    let host = Option.map (λ r. r.content.target_host) srv in
    let addresses = host_addresses p.key.interface host d in
    let mac = the_only (candidate_macs s addresses) in
    record {
      protocol = DiscoveryProtocol.mdns;
      interface = p.key.interface;
      family = none;
      service_type = p.key.service_type;
      service_label = well_known_mdns_label p.key.service_type;
      instance_name = some p.content.instance_name;
      identity = p.key.fq_instance;
      target_host = host;
      target_port = Option.map (λ r. r.content.port) srv;
      addresses = addresses;
      mac = mac;
      attribution_basis = if truthy mac then some "target_address_match" else none;
      attributes = or_else (Option.map (λ r. r.content.attributes) txt) [];
      server = none;
      location = none;
      first_seen = p.first_seen;
      last_seen = p.last_seen;
      expires_at = p.expires_at;
      status = discovery_status p now;
    }

-- one service of `_ssdp_advertised_services`
abbrev pub ssdp_service : Store → ℕ → Advert SsdpKey SsdpContent → AdvertisedService
ssdp_service s now r =
    let mac =
      if truthy r.content.source_ip
      then directly_observed_mac_for_ip (or_empty r.content.source_ip) s
      else none in
    record {
      protocol = DiscoveryProtocol.ssdp;
      interface = r.key.interface;
      family = r.content.family;
      service_type = or_empty r.content.nt_or_st;
      service_label = none;
      instance_name = none;
      identity = r.key.usn;
      target_host = none;
      target_port = none;
      addresses = [];
      mac = mac;
      attribution_basis = if truthy mac then some "source_address_match" else none;
      attributes = [];
      server = r.content.server;
      location = r.content.location;
      first_seen = r.first_seen;
      last_seen = r.last_seen;
      expires_at = r.expires_at;
      status = discovery_status r now;
    }

unfoldable pub mdns_advertised_services : Store → Adverts → ℕ → List AdvertisedService
mdns_advertised_services s d now = map (mdns_service s d now) d.mdns_ptr

unfoldable pub ssdp_advertised_services : Store → Adverts → ℕ → List AdvertisedService
ssdp_advertised_services s d now = map (ssdp_service s now) d.ssdp_advertisements

abbrev pub protocol_text : DiscoveryProtocol → String
protocol_text DiscoveryProtocol.mdns = "mdns"
protocol_text DiscoveryProtocol.ssdp = "ssdp"

-- the keyword arguments of `advertised_services`; `protocol` is any text
pub record ServiceFilter : Type 0 where
  pub mac : Option String
  pub protocol : Option String
  pub include_expired : Bool
  pub unassociated_only : Bool

abbrev pub is_current : AdvertisedServiceStatus → Bool
is_current AdvertisedServiceStatus.current = true
is_current _ = false

abbrev pub service_lt : AdvertisedService → AdvertisedService → Bool
service_lt a b =
    let p = protocol_text a.protocol in
    let q = protocol_text b.protocol in
    str_lt p q
    || (str_eq p q
        && (str_lt a.service_type b.service_type
            || (str_eq a.service_type b.service_type && str_lt a.identity b.identity)))

insert_service : AdvertisedService → List AdvertisedService → List AdvertisedService
insert_service x [] = x ∷ []
insert_service x (y ∷ ys) =
    let rest = insert_service x ys in if service_lt y x then y ∷ rest else x ∷ y ∷ ys

-- `services.sort(key=...)`
sort_services : List AdvertisedService → List AdvertisedService
unfolding insert_service
sort_services [] = []
sort_services (x ∷ xs) = insert_service x (sort_services xs)

-- the tests that a listed service passes
abbrev pub is_wanted : ServiceFilter → AdvertisedService → Bool
is_wanted f v =
    (f.include_expired || is_current v.status)
    && none_or f.mac (λ m. some_and v.mac (λ n. str_eq n m))
    && (not f.unassociated_only || is_none v.mac)

unfoldable pub advertised_services : ServiceFilter → Store → Adverts → ℕ → List AdvertisedService
unfolding sort_services
advertised_services f s d now =
    let of_mdns =
      if none_or f.protocol (λ p. str_eq p "mdns") then mdns_advertised_services s d now else [] in
    let of_ssdp =
      if none_or f.protocol (λ p. str_eq p "ssdp") then ssdp_advertised_services s d now else [] in
    sort_services (filter (is_wanted f) (of_mdns ++ of_ssdp))
