-- ===== src/Store/Services/Attributed.antt =====
-- lanfence/db.py: which device a service is put down to.
use mathlib.Core.Option.{some-injective}
use lan_fence.Base.{
  All, All-every, All-map, All-map-keep, Bool, List, Option, String, [], any, ap, arith, eq_iff,
  false, filter, if-elim, if◌then◌else◌, inl, inr, map, none, not, refl, some, some_and, str_eq,
  true, ℕ, ◌&&◌, ◌||◌, ◌∙◌, ◌∷◌, ◌≡◌, ◌⊎◌,
}
use lan_fence.Models.Service.{AdvertisedService, DiscoveryProtocol}
use lan_fence.Store.Adverts.{Advert, Adverts, HostKey}
use lan_fence.Store.Services.{
  ServiceFilter, add_candidate, advertised_services, candidate_macs, directly_observed_mac_for_ip,
  host_addresses, mdns_service, the_only,
}
use lan_fence.Store.Services.Listed.{All-advertised_services}
use lan_fence.Store.State.{Store}
use lan_fence.Text.{lower}

none_differs :
    (m : String) (xs : List String) → any (λ x. not (str_eq m x)) xs ≡ false → All (λ x. x ≡ m) xs
none_differs m [] h = tt
none_differs m (x ∷ xs) h = (ground (arith, eq_iff m x), none_differs m xs (ground arith))

only_one : (m x : String) (b : Bool) → (if b then none else some x) ≡ some m → (b ≡ false) × (x ≡ m)
only_one m x true h = cc
only_one m x false h = (refl, some-injective x m h)

-- the only element of a set is each of them
the_only-element : (m : String) (xs : List String) → the_only xs ≡ some m → All (λ x. x ≡ m) xs
the_only-element m [] h = cc
the_only-element m (x ∷ xs) h =
    let one = only_one m x (any (λ y. not (str_eq x y)) xs) h in
    (one.1, All-map (λ y. y ≡ x) (λ y. y ≡ m) xs (λ y e. e ∙ one.1) (none_differs x xs one.0))

abbrev is_observed : String → Option String → Bool
is_observed m o = some_and o (λ n. str_eq n m)

candidates_agree :
    (m : String) (o : Option String) (macs : List String)
    → All (λ x. x ≡ m) (add_candidate o macs)
    → ((o ≡ none) ⊎ (o ≡ some m)) × All (λ x. x ≡ m) macs
candidates_agree m none macs h = (inl refl, h)
candidates_agree m (some n) macs h = (inr (ap some h.0), h.1)

module _ (s : Store) where
  -- The address is that of the device, and of no other; or it is not known whose it is.
  abbrev pub IsOf : String → String → Type 0
  IsOf m ip =
      (directly_observed_mac_for_ip ip s ≡ none) ⊎ (directly_observed_mac_for_ip ip s ≡ some m)

  each_address :
      (m : String) (ips : List String) → All (λ x. x ≡ m) (candidate_macs s ips) → All (IsOf m) ips
  each_address m [] h = tt
  each_address m (ip ∷ ips) h =
      let both = candidates_agree m (directly_observed_mac_for_ip ip s) (candidate_macs s ips) h in
      (both.0, each_address m ips both.1)

  abbrev one_of : String → List String → Bool
  one_of m ips = any (λ ip. is_observed m (directly_observed_mac_for_ip ip s)) ips

  add_one :
      (m : String) (o : Option String) (macs : List String) (b : Bool)
      → All (λ x. x ≡ m) (add_candidate o macs)
      → (macs ≡ []) ⊎ (b ≡ true)
      → (add_candidate o macs ≡ []) ⊎ ((is_observed m o || b) ≡ true)
  add_one m none macs b h k = k
  add_one m (some n) macs b h k = inr (ground (arith, eq_iff n m, h.0))

  some_of :
      (m : String) (ips : List String)
      → All (λ x. x ≡ m) (candidate_macs s ips)
      → (candidate_macs s ips ≡ []) ⊎ (one_of m ips ≡ true)
  some_of m [] h = inl refl
  some_of m (ip ∷ ips) h =
      let o = directly_observed_mac_for_ip ip s in
      add_one m o (candidate_macs s ips) (one_of m ips) h
        (some_of m ips (candidates_agree m o (candidate_macs s ips) h).1)

  not_empty :
      (m : String) (xs : List String) (b : Bool)
      → the_only xs ≡ some m
      → (xs ≡ []) ⊎ (b ≡ true)
      → b ≡ true
  not_empty m xs b h (inl e) = cc
  not_empty m xs b h (inr e) = e

module _ (s : Store) (d : Adverts) where
  -- a row of the address, for the host and on the interface, that is not withdrawn
  abbrev pub is_live : String → Option String → String → Advert HostKey ℕ → Bool
  is_live interface host ip r =
      str_eq r.key.ip ip
      && (str_eq interface r.key.interface
          && some_and host (λ h. str_eq (lower h) (lower r.key.target_host))
          && not r.withdrawn)

  -- What the addresses of an mDNS service are like, and what one that has a MAC is like.
  abbrev pub IsAttributed : AdvertisedService → Type 0
  IsAttributed v =
      v.protocol ≡ DiscoveryProtocol.mdns
      → All (λ ip. any (is_live v.interface v.target_host ip) d.mdns_addr ≡ true) v.addresses
        × ((m : String)
            → v.mac ≡ some m
            → All (IsOf s m) v.addresses × (one_of s m v.addresses ≡ true))

  attributed :
      (m : String) (ips : List String)
      → the_only (candidate_macs s ips) ≡ some m
      → All (IsOf s m) ips × (one_of s m ips ≡ true)
  attributed m ips h =
      let same = the_only-element m (candidate_macs s ips) h in
      (
        each_address s m ips same,
        not_empty s m (candidate_macs s ips) (one_of s m ips) h (some_of s m ips same),
      )

  kept_live :
      (p : Advert HostKey ℕ → Bool) (rows : List (Advert HostKey ℕ))
      → All
          (λ ip. any (λ (r : Advert HostKey ℕ). str_eq r.key.ip ip && p r) rows ≡ true)
          (map (λ (r : Advert HostKey ℕ). r.key.ip) (filter p rows))
  kept_live p [] = tt
  kept_live p (r ∷ rows) =
      let ip_of : Advert HostKey ℕ → String = λ x. x.key.ip in
      let later =
        All-map (λ ip. any (λ (x : Advert HostKey ℕ). str_eq x.key.ip ip && p x) rows ≡ true)
          (λ ip. any (λ (x : Advert HostKey ℕ). str_eq x.key.ip ip && p x) (r ∷ rows) ≡ true)
          (map ip_of (filter p rows)) (λ ip h. ground (arith, h)) (kept_live p rows) in
      All-map-keep
        (λ ip. any (λ (x : Advert HostKey ℕ). str_eq x.key.ip ip && p x) (r ∷ rows) ≡ true) ip_of
        (p r) r (filter p rows) (λ e. ground (arith, e, eq_iff r.key.ip r.key.ip)) later

  live_addresses :
      (interface : String) (host : Option String)
      → All
          (λ ip. any (is_live interface host ip) d.mdns_addr ≡ true)
          (host_addresses interface host d)
  live_addresses interface none = tt
  live_addresses interface (some host) =
      if-elim (All (λ ip. any (is_live interface (some host) ip) d.mdns_addr ≡ true))
        (str_eq host "") _ _ (λ e. tt)
        (λ e.
          kept_live
            (λ r.
              str_eq interface r.key.interface
              && str_eq (lower host) (lower r.key.target_host)
              && not r.withdrawn)
            d.mdns_addr)

  -- Each address of a listed mDNS service is, on record, one of the service's host on its interface,
  -- and is not withdrawn. The service has a MAC only if that is the directly observed MAC of one of
  -- its addresses, and each of the others either has that MAC too or no MAC that is certain.
  pub advertised_services-IsAttributed :
      (f : ServiceFilter) (now : ℕ) → All IsAttributed (advertised_services f s d now)
  advertised_services-IsAttributed f now =
      All-advertised_services IsAttributed f s d now
        (All-every _ d.mdns_ptr (λ p w e. (
          live_addresses p.key.interface (mdns_service s d now p).target_host,
          (λ m h. attributed m _ h),
        )))
        (All-every _ d.ssdp_advertisements (λ r w e. cc))
