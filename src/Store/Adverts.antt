-- ===== src/Store/Adverts.antt =====
-- lanfence/db.py: the tables of advertised services, of mDNS and of SSDP.
pub mod Bounded
pub mod Keyed
pub mod Kept
use lan_fence.Base.{
  Bool, List, Option, String, Table, [], any, false, filter, if◌then◌else◌, leb, length, ltb, map,
  min, none, not, some, some_and, str_eq, suc, true, zero, ℕ, ◌&&◌, ◌*◌, ◌++◌, ◌+◌, ◌-◌, ◌||◌, ◌∷◌,
}
use lan_fence.Text.{lower}

-- The columns that each of the tables has; `Content` holds the others.
pub record Advert (Key Content : Type 0) : Type 0 where
  pub key : Key
  pub content : Content
  pub first_seen : ℕ
  pub last_seen : ℕ
  pub expires_at : Option ℕ
  pub withdrawn : Bool

pub record PtrKey : Type 0 where
  pub interface : String
  pub service_type : String
  pub fq_instance : String

pub record PtrContent : Type 0 where
  pub instance_name : String
  pub ttl : ℕ
  pub source_ip : Option String
  pub source_mac : Option String

-- the key of a SRV or a TXT record
pub record InstanceKey : Type 0 where
  pub interface : String
  pub fq_instance : String

pub record SrvContent : Type 0 where
  pub target_host : String
  pub port : ℕ
  pub ttl : ℕ

pub record TxtContent : Type 0 where
  pub attributes : Table String
  pub ttl : ℕ

pub record HostKey : Type 0 where
  pub interface : String
  pub target_host : String
  pub family : String
  pub ip : String

pub record SsdpKey : Type 0 where
  pub interface : String
  pub usn : String

pub record SsdpContent : Type 0 where
  pub nt_or_st : Option String
  pub server : Option String
  pub location : Option String
  pub max_age : Option ℕ
  pub boot_id : Option String
  pub config_id : Option String
  pub source_ip : Option String
  pub source_mac : Option String
  pub family : Option String

pub record Adverts : Type 0 where
  pub mdns_ptr : List (Advert PtrKey PtrContent)
  pub mdns_srv : List (Advert InstanceKey SrvContent)
  pub mdns_txt : List (Advert InstanceKey TxtContent)
  pub mdns_addr : List (Advert HostKey ℕ)
  pub ssdp_advertisements : List (Advert SsdpKey SsdpContent)
  pub max_rows : ℕ

-- COLLATE NOCASE
abbrev pub same_name : String → String → Bool
same_name a b = str_eq (lower a) (lower b)

abbrev pub same_ptr : PtrKey → PtrKey → Bool
same_ptr a b =
    str_eq a.interface b.interface
    && same_name a.service_type b.service_type
    && same_name a.fq_instance b.fq_instance

abbrev pub same_instance : InstanceKey → InstanceKey → Bool
same_instance a b = str_eq a.interface b.interface && same_name a.fq_instance b.fq_instance

-- the records of one name and type
abbrev pub same_set : HostKey → HostKey → Bool
same_set a b =
    str_eq a.interface b.interface
    && same_name a.target_host b.target_host
    && str_eq a.family b.family

abbrev pub same_host : HostKey → HostKey → Bool
same_host a b = same_set a b && str_eq a.ip b.ip

abbrev pub same_usn : SsdpKey → SsdpKey → Bool
same_usn a b = str_eq a.interface b.interface && str_eq a.usn b.usn

abbrev pub seconds : ℕ → ℕ
seconds n = n * 1000000

-- _DISCOVERY_RETENTION: 30 days
abbrev pub discovery_retention : ℕ
discovery_retention = seconds 2592000

module _ {K A : Type 0} where
  -- a row that was first seen at `seen_at`
  abbrev pub fresh : K → A → ℕ → Option ℕ → Advert K A
  fresh key content seen_at expires_at = record {
    key = key;
    content = content;
    first_seen = seen_at;
    last_seen = seen_at;
    expires_at = expires_at;
    withdrawn = false;
  }

  -- UPDATE ... SET: the key stays as it was first written
  abbrev pub refreshed : Advert K A → Advert K A → Advert K A
  refreshed new old = record new { key = old.key; first_seen = min old.first_seen new.first_seen }

  unfoldable pub upsert_row : (K → K → Bool) → Advert K A → List (Advert K A) → List (Advert K A)
  upsert_row same new rows =
      let is_row : Advert K A → Bool = λ r. same new.key r.key in
      if any is_row rows
      then map (λ r. if is_row r then refreshed new r else r) rows
      else rows ++ new ∷ []

  -- UPDATE ... SET withdrawn = 1 WHERE ...
  unfoldable pub withdraw : (Advert K A → Bool) → List (Advert K A) → List (Advert K A)
  withdraw p rows = map (λ r. if p r then record r { withdrawn = true } else r) rows

  -- the last of the rows that were seen least lately goes; SQL leaves open which of them it is
  unfoldable pub remove_oldest : List (Advert K A) → List (Advert K A)
  remove_oldest [] = []
  remove_oldest (r ∷ rs) =
      let rest = remove_oldest rs in
      if any (λ x. leb x.last_seen r.last_seen) rs then r ∷ rest else rs

  unfoldable pub remove_oldest_rows : ℕ → List (Advert K A) → List (Advert K A)
  remove_oldest_rows zero rows = rows
  remove_oldest_rows (suc n) rows = remove_oldest_rows n (remove_oldest rows)

  -- `_enforce_row_cap`
  unfoldable pub enforce_row_cap : ℕ → List (Advert K A) → List (Advert K A)
  enforce_row_cap cap rows = remove_oldest_rows (length rows - cap) rows

  -- what `_prune_expired_discovery_evidence` deletes
  abbrev pub is_stale : ℕ → Advert K A → Bool
  is_stale as_of r =
      ltb (r.last_seen + discovery_retention) as_of
      && (r.withdrawn || some_and r.expires_at (λ e. ltb e as_of))

  unfoldable pub prune_rows : ℕ → ℕ → List (Advert K A) → List (Advert K A)
  prune_rows cap as_of rows = enforce_row_cap cap (filter (λ r. not (is_stale as_of r)) rows)

-- `_prune_expired_discovery_evidence`
unfoldable pub prune_expired : ℕ → Adverts → Adverts
prune_expired as_of d = record d {
  mdns_ptr = prune_rows d.max_rows as_of d.mdns_ptr;
  mdns_srv = prune_rows d.max_rows as_of d.mdns_srv;
  mdns_txt = prune_rows d.max_rows as_of d.mdns_txt;
  mdns_addr = prune_rows d.max_rows as_of d.mdns_addr;
  ssdp_advertisements = prune_rows d.max_rows as_of d.ssdp_advertisements;
}

unfoldable pub record_mdns_ptr : PtrKey → PtrContent → ℕ → Adverts → Adverts
record_mdns_ptr key c seen_at d =
    let row = fresh key c seen_at (some (seen_at + seconds c.ttl)) in
    prune_expired seen_at (record d { mdns_ptr = upsert_row same_ptr row d.mdns_ptr })

unfoldable pub withdraw_mdns_ptr : PtrKey → Adverts → Adverts
withdraw_mdns_ptr key d = record d { mdns_ptr = withdraw (λ r. same_ptr key r.key) d.mdns_ptr }

unfoldable pub record_mdns_srv : InstanceKey → SrvContent → ℕ → Adverts → Adverts
record_mdns_srv key c seen_at d =
    let row = fresh key c seen_at (some (seen_at + seconds c.ttl)) in
    prune_expired seen_at (record d { mdns_srv = upsert_row same_instance row d.mdns_srv })

unfoldable pub withdraw_mdns_srv : InstanceKey → Adverts → Adverts
withdraw_mdns_srv key d = record d { mdns_srv = withdraw (λ r. same_instance key r.key) d.mdns_srv }

unfoldable pub record_mdns_txt : InstanceKey → TxtContent → ℕ → Adverts → Adverts
record_mdns_txt key c seen_at d =
    let row = fresh key c seen_at (some (seen_at + seconds c.ttl)) in
    prune_expired seen_at (record d { mdns_txt = upsert_row same_instance row d.mdns_txt })

unfoldable pub withdraw_mdns_txt : InstanceKey → Adverts → Adverts
withdraw_mdns_txt key d = record d { mdns_txt = withdraw (λ r. same_instance key r.key) d.mdns_txt }

-- another address of the same name, last seen more than a second before
abbrev pub is_flushed : HostKey → ℕ → Advert HostKey ℕ → Bool
is_flushed key seen_at r =
    same_set key r.key
    && not (str_eq r.key.ip key.ip)
    && not r.withdrawn
    && ltb (r.last_seen + seconds 1) seen_at

unfoldable pub record_mdns_addr : HostKey → ℕ → ℕ → Bool → Adverts → Adverts
record_mdns_addr key ttl seen_at cache_flush d =
    let row = fresh key ttl seen_at (some (seen_at + seconds ttl)) in
    let rows = upsert_row same_host row d.mdns_addr in
    let kept = if cache_flush then withdraw (is_flushed key seen_at) rows else rows in
    prune_expired seen_at (record d { mdns_addr = kept })

unfoldable pub withdraw_mdns_addr : HostKey → Adverts → Adverts
withdraw_mdns_addr key d = record d { mdns_addr = withdraw (λ r. same_host key r.key) d.mdns_addr }

-- `seen_at + max_age`, unless there is none or it is 0
abbrev pub ssdp_expiry : ℕ → Option ℕ → Option ℕ
ssdp_expiry seen_at none = none
ssdp_expiry seen_at (some zero) = none
ssdp_expiry seen_at (some (suc n)) = some (seen_at + seconds (suc n))

unfoldable pub record_ssdp_advertisement : SsdpKey → SsdpContent → ℕ → Adverts → Adverts
record_ssdp_advertisement key c seen_at d =
    let row = fresh key c seen_at (ssdp_expiry seen_at c.max_age) in
    prune_expired seen_at
      (record d { ssdp_advertisements = upsert_row same_usn row d.ssdp_advertisements })

unfoldable pub withdraw_ssdp_advertisement : SsdpKey → ℕ → Adverts → Adverts
withdraw_ssdp_advertisement key seen_at d = record d {
  ssdp_advertisements =
      map
        (λ r. if same_usn key r.key then record r { withdrawn = true; last_seen = seen_at } else r)
        d.ssdp_advertisements;
}

unfoldable pub reset_adverts : Adverts → Adverts
reset_adverts d = record d {
  mdns_ptr = [];
  mdns_srv = [];
  mdns_txt = [];
  mdns_addr = [];
  ssdp_advertisements = [];
}
