-- ===== src/Engine/Coalesce.antt =====
-- lanfence/engine.py: `coalesce_sightings`, which drops the pure duplicates of a batch.
pub mod Keys
pub mod Lossless
use lan_fence.Base.{
  Bool, List, Option, String, [], if◌then◌else◌, leb, opt_str_eq, str_eq, ℕ, ◌&&◌, ◌==◌, ◌∷◌,
}
use lan_fence.Models.Device.{Source, source_index}

-- scanner.py: ArpSighting
pub record ArpSighting : Type 0 where
  pub ip : String
  pub mac : String
  pub seen_at : ℕ
  pub hostname : Option String
  pub source : Source
  pub interface : Option String

-- equality of the keys (mac, ip, hostname, source, interface)
unfoldable pub same_key : ArpSighting → ArpSighting → Bool
same_key a b =
    str_eq a.mac b.mac
    && str_eq a.ip b.ip
    && opt_str_eq a.hostname b.hostname
    && source_index a.source == source_index b.source
    && opt_str_eq a.interface b.interface

-- One step of the loop. The list holds `latest` in the order of `order`, by first occurrence.
unfoldable pub add_sighting : ArpSighting → List ArpSighting → List ArpSighting
add_sighting x [] = x ∷ []
add_sighting x (y ∷ ys) =
    let rest = add_sighting x ys in
    if same_key x y then (if leb y.seen_at x.seen_at then x else y) ∷ ys else y ∷ rest

unfoldable pub coalesce_from : List ArpSighting → List ArpSighting → List ArpSighting
coalesce_from latest [] = latest
coalesce_from latest (x ∷ xs) = coalesce_from (add_sighting x latest) xs

unfoldable pub coalesce_sightings : List ArpSighting → List ArpSighting
unfolding coalesce_from add_sighting
coalesce_sightings xs = coalesce_from [] xs
