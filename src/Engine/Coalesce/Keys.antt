-- ===== src/Engine/Coalesce/Keys.antt =====
-- The keys by which `coalesce_sightings` tells sightings apart.
use lan_fence.Base.{
  Bool, Option, String, ap, arith, eq_iff, none, opt_str_eq, refl, some, str_eq, sym, true, ℕ, ◌&&◌,
  ◌==◌, ◌∙◌, ◌≡◌,
}
use lan_fence.Engine.Coalesce.{ArpSighting, same_key}
use lan_fence.Models.Device.{source_index}

pub opt_str_eq_refl : (a : Option String) → opt_str_eq a a ≡ true
opt_str_eq_refl none = refl
opt_str_eq_refl (some a) = (eq_iff a a).1 refl

opt_str_eq-eq : (a b : Option String) → opt_str_eq a b ≡ true → a ≡ b
opt_str_eq-eq none none h = refl
opt_str_eq-eq none (some b) h = cc
opt_str_eq-eq (some a) none h = cc
opt_str_eq-eq (some a) (some b) h = ap some ((eq_iff a b).0 h)

-- what `same_key` compares
abbrev Key : Type 0
Key = record {
  mac : String;
  ip : String;
  hostname : Option String;
  source : ℕ;
  interface : Option String;
}

abbrev key_of : ArpSighting → Key
key_of a = record {
  mac = a.mac;
  ip = a.ip;
  hostname = a.hostname;
  source = source_index a.source;
  interface = a.interface;
}

five :
    (p q r s t : Bool)
    → (p && q && r && s && t) ≡ true
    → (p ≡ true) × (q ≡ true) × (r ≡ true) × (s ≡ true) × (t ≡ true)
five p q r s t h = ground arith

eq_of_== : (m n : ℕ) → (m == n) ≡ true → m ≡ n
eq_of_== m n h = ground arith

same_key-eq : (a b : ArpSighting) → same_key a b ≡ true → key_of a ≡ key_of b
unfolding same_key
same_key-eq a b h =
    let e =
      five (str_eq a.mac b.mac) (str_eq a.ip b.ip) (opt_str_eq a.hostname b.hostname)
        (source_index a.source == source_index b.source) (opt_str_eq a.interface b.interface) h in
    let mac : a.mac ≡ b.mac = (eq_iff a.mac b.mac).0 e.0 in
    let ip : a.ip ≡ b.ip = (eq_iff a.ip b.ip).0 e.1 in
    let hostname : a.hostname ≡ b.hostname = opt_str_eq-eq a.hostname b.hostname e.2 in
    let source : source_index a.source ≡ source_index b.source =
      eq_of_== (source_index a.source) (source_index b.source) e.3 in
    let interface : a.interface ≡ b.interface = opt_str_eq-eq a.interface b.interface e.4 in
    λ i. record {
      mac = mac i;
      ip = ip i;
      hostname = hostname i;
      source = source i;
      interface = interface i;
    }

same_key-of_eq : (a b : ArpSighting) → key_of a ≡ key_of b → same_key a b ≡ true
unfolding same_key
same_key-of_eq a b h =
    rw
      (
        ap (λ (k : Key). k.mac) h,
        ap (λ (k : Key). k.ip) h,
        ap (λ (k : Key). k.hostname) h,
        ap (λ (k : Key). k.source) h,
        ap (λ (k : Key). k.interface) h,
      )
      (ground (
        arith,
        eq_iff b.mac b.mac,
        eq_iff b.ip b.ip,
        opt_str_eq_refl b.hostname,
        opt_str_eq_refl b.interface,
      ))

pub same_key_refl : (a : ArpSighting) → same_key a a ≡ true
same_key_refl a = same_key-of_eq a a refl

pub same_key_trans :
    (a b c : ArpSighting) → same_key a b ≡ true → same_key b c ≡ true → same_key a c ≡ true
same_key_trans a b c h k = same_key-of_eq a c (same_key-eq a b h ∙ same_key-eq b c k)

pub same_key_sym : (a b : ArpSighting) → same_key a b ≡ true → same_key b a ≡ true
same_key_sym a b h = same_key-of_eq b a (sym (same_key-eq a b h))
