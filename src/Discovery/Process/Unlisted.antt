-- ===== src/Discovery/Process/Unlisted.antt =====
-- lanfence/discovery.py: a service that said goodbye is not listed.
use mathlib.Core.Path.{subst}
use lan_fence.Base.{
  All, All-every, Bool, Bool-cases, List, [], arith, false, inl, inr, refl, true, ℕ, ◌&&◌, ◌||◌,
  ◌∷◌, ◌≡◌,
}
use lan_fence.Discovery.Process.{
  MdnsRecordSighting, RecordType, process_mdns_record_sighting, ptr_key,
}
use lan_fence.Discovery.Process.Goodbye.{IsGone, IsWithdrawn, process_mdns_record_sighting-goodbye}
use lan_fence.Models.Service.{AdvertisedService, DiscoveryProtocol}
use lan_fence.Store.Adverts.{Advert, Adverts, PtrContent, PtrKey, same_ptr}
use lan_fence.Store.Services.{
  ServiceFilter, advertised_services, discovery_status, is_current, is_wanted, mdns_service,
}
use lan_fence.Store.Services.Listed.{All-advertised_services}
use lan_fence.Store.State.{Store}

-- the key of the row that a listed mDNS service was made of
abbrev pub listed_key : AdvertisedService → PtrKey
listed_key v = record {
  interface = v.interface;
  service_type = v.service_type;
  fq_instance = v.identity;
}

-- The service is not the one of `key`.
abbrev pub IsOther : PtrKey → AdvertisedService → Type 0
IsOther key v = v.protocol ≡ DiscoveryProtocol.mdns → same_ptr key (listed_key v) ≡ false

wanted_status : (a b c : Bool) → (a && b && c) ≡ true → a ≡ true
wanted_status a b c h = ground arith

withdrawn_status :
    (p : Advert PtrKey PtrContent) (now : ℕ)
    → p.withdrawn ≡ true
    → is_current (discovery_status p now) ≡ false
withdrawn_status p now h = rw h refl

module _ (f : ServiceFilter) (s : Store) (d : Adverts) (now : ℕ)
    (h : f.include_expired ≡ false) where
  other_row :
      (key : PtrKey) (p : Advert PtrKey PtrContent)
      → (same_ptr key p.key ≡ true → p.withdrawn ≡ true)
      → is_wanted f (mdns_service s d now p) ≡ true
      → same_ptr key p.key ≡ false
  other_row key p k w = elim (Bool-cases (same_ptr key p.key)) [
    | inl e ↦
        let wanted : (f.include_expired || is_current (discovery_status p now)) ≡ true =
          wanted_status _ _ _ w in
        let not_current = withdrawn_status p now (k e) in cc
    | inr e ↦ e
  ]

  rest_of_table :
      (key : PtrKey) (rows : List (Advert PtrKey PtrContent))
      → IsWithdrawn (λ r. same_ptr key r.key) rows
      → All
          (λ p. is_wanted f (mdns_service s d now p) ≡ true → IsOther key (mdns_service s d now p))
          rows
  rest_of_table key [] k = tt
  rest_of_table key (p ∷ rows) k = ((λ w e. other_row key p k.0 w), rest_of_table key rows k.1)

  IsWithdrawn-IsOther :
      (key : PtrKey)
      → IsWithdrawn (λ r. same_ptr key r.key) d.mdns_ptr
      → All (IsOther key) (advertised_services f s d now)
  IsWithdrawn-IsOther key k =
      All-advertised_services (IsOther key) f s d now (rest_of_table key d.mdns_ptr k)
        (All-every _ d.ssdp_advertisements (λ r w e. cc))

-- After a service's pointer record says goodbye, no listing without expired services has it.
pub advertised_services-goodbye :
    (f : ServiceFilter) (s : Store) (d : Adverts) (now : ℕ) (g : MdnsRecordSighting)
    → f.include_expired ≡ false
    → g.rtype ≡ RecordType.ptr
    → g.ttl ≡ 0
    → All (IsOther (ptr_key g)) (advertised_services f s (process_mdns_record_sighting g d) now)
advertised_services-goodbye f s d now g h t k =
    let e = process_mdns_record_sighting g d in
    let gone = subst (λ r. IsGone r g d e) t (process_mdns_record_sighting-goodbye g d k) in
    IsWithdrawn-IsOther f s e now h (ptr_key g) gone.0
