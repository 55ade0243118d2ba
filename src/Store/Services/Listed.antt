-- ===== src/Store/Services/Listed.antt =====
-- lanfence/db.py: which services are listed.
use lan_fence.Base.{
  All, All-append, All-keep, Bool, List, [], false, filter, if-elim, if◌then◌else◌, map, none_or,
  str_eq, true, ℕ, ◌++◌, ◌∷◌, ◌≡◌,
}
use lan_fence.Models.Service.{AdvertisedService}
use lan_fence.Store.Adverts.{Adverts}
use lan_fence.Store.Services.{
  ServiceFilter, advertised_services, insert_service, is_wanted, mdns_advertised_services,
  mdns_service, service_lt, sort_services, ssdp_advertised_services, ssdp_service,
}
use lan_fence.Store.State.{Store}

module _ (Q : AdvertisedService → Type 0) where
  All-insert_service :
      (x : AdvertisedService) (xs : List AdvertisedService)
      → Q x
      → All Q xs
      → All Q (insert_service x xs)
  unfolding insert_service
  All-insert_service x [] h k = (h, tt)
  All-insert_service x (y ∷ ys) h k =
      if-elim (All Q) (service_lt y x) _ _ (λ e. (k.0, All-insert_service x ys h k.1)) (λ e. (h, k))

  All-sort_services : (xs : List AdvertisedService) → All Q xs → All Q (sort_services xs)
  unfolding sort_services
  All-sort_services [] h = tt
  All-sort_services (x ∷ xs) h =
      All-insert_service x (sort_services xs) h.0 (All-sort_services xs h.1)

  module _ (f : ServiceFilter) where
    -- what holds of those that are wanted
    abbrev pub IfWanted : AdvertisedService → Type 0
    IfWanted v = is_wanted f v ≡ true → Q v

    All-wanted : (xs : List AdvertisedService) → All IfWanted xs → All Q (filter (is_wanted f) xs)
    All-wanted [] h = tt
    All-wanted (x ∷ xs) h =
        All-keep Q (is_wanted f x) x (filter (is_wanted f) xs) h.0 (All-wanted xs h.1)

    All-mapped :
        {R : Type 0}
        → (g : R → AdvertisedService) (rows : List R) → All (λ r. IfWanted (g r)) rows
        → All IfWanted (map g rows)
    All-mapped g [] h = tt
    All-mapped g (r ∷ rows) h = (h.0, All-mapped g rows h.1)

    All-chosen :
        (b : Bool) (xs : List AdvertisedService)
        → All IfWanted xs
        → All IfWanted (if b then xs else [])
    All-chosen true xs h = h
    All-chosen false xs h = tt

    -- What holds of each wanted service that a row of either protocol makes holds of those listed.
    pub All-advertised_services :
        (s : Store) (d : Adverts) (now : ℕ)
        → All (λ p. IfWanted (mdns_service s d now p)) d.mdns_ptr
        → All (λ r. IfWanted (ssdp_service s now r)) d.ssdp_advertisements
        → All Q (advertised_services f s d now)
    unfolding advertised_services mdns_advertised_services ssdp_advertised_services
    All-advertised_services s d now h k =
        let mdns = map (mdns_service s d now) d.mdns_ptr in
        let ssdp = map (ssdp_service s now) d.ssdp_advertisements in
        let with_mdns = none_or f.protocol (λ p. str_eq p "mdns") in
        let with_ssdp = none_or f.protocol (λ p. str_eq p "ssdp") in
        let of_mdns = if with_mdns then mdns else [] in
        let of_ssdp = if with_ssdp then ssdp else [] in
        All-sort_services (filter (is_wanted f) (of_mdns ++ of_ssdp)) (
          All-wanted (of_mdns ++ of_ssdp) (
            All-append IfWanted of_mdns of_ssdp
              (All-chosen with_mdns mdns (All-mapped (mdns_service s d now) d.mdns_ptr h))
              (All-chosen with_ssdp ssdp
                (All-mapped (ssdp_service s now) d.ssdp_advertisements k))))
