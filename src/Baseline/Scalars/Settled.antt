-- ===== src/Baseline/Scalars/Settled.antt =====
-- lanfence/baseline.py: what a comparison leaves of the address, the name, the identity, the trust
-- and the presence of a device is what the next one expects.
use lan_fence.Base.{
  Bool, Bool-cases, Option, String, arith, coalesce, eq_iff, false, inl, inr, is_none, none, not,
  refl, some, str_eq, true, ℕ, ◌&&◌, ◌||◌, ◌≡◌, ◌⊎◌,
}
use lan_fence.Baseline.Ingest.{Detection}
use lan_fence.Baseline.Scalars.{
  Subject, has_learned, is_ip_changed, is_learning, is_maker_changed, is_name_changed,
  is_unknown_present, judge_identity, judge_learning, judge_trust, judge_unknown, present_ip,
  present_text, same_bool,
}
use lan_fence.Engine.Inventory.{is_review_needed}
use lan_fence.Identity.{is_known}
use lan_fence.Models.Baseline.{DeviceBaseline}
use lan_fence.Models.Device.{Ip}
use lan_fence.Text.{lower}

-- an address that the comparison leaves as it is
abbrev pub SettledIp : Subject → Option Ip → Type 0
SettledIp c o =
    (is_ip_changed (present_ip o) (present_ip c.device.ipv4) ≡ false)
    × (coalesce (present_ip c.device.ipv4) o ≡ o)

abbrev pub SettledName : Subject → Option String → Type 0
SettledName c o =
    (is_name_changed (present_text o) (present_text c.device.hostname) ≡ false)
    × (coalesce (present_text c.device.hostname) o ≡ o)

abbrev pub SettledIdentity : Subject → Option String → Option String → Type 0
SettledIdentity c category maker =
    (not (is_known c.identity) ≡ true)
    ⊎ ((some c.identity.category ≡ category)
        × (is_maker_changed (present_text maker) (present_text c.identity.manufacturer) ≡ false)
        × (coalesce (present_text c.identity.manufacturer) maker ≡ maker))

abbrev pub SettledUnknown : Subject → Option ℕ → Type 0
SettledUnknown c id =
    ((is_unknown_present c && is_none id) ≡ false)
    × ((not (is_none id) && (c.device.allowlisted || not (is_review_needed c.device c.now)))
        ≡ false)

pub record IsSettled (c : Subject) (b : DeviceBaseline) : Type 0 where
  pub ip : SettledIp c b.ipv4
  pub name : SettledName c b.hostname
  pub identity : SettledIdentity c b.identity_category b.identity_manufacturer
  pub trust : same_bool c.device.allowlisted b.trusted ≡ true
  pub unknown : SettledUnknown c b.unknown_present_event_id
  pub learning : (is_learning b && has_learned c b) ≡ false

pub str_eq_self : (s : String) → str_eq s s ≡ true
str_eq_self s = (eq_iff s s).1 refl

pub settled_ip :
    (new old : Option Ip)
    → (is_ip_changed (present_ip (coalesce (present_ip new) old)) (present_ip new) ≡ false)
      × (coalesce (present_ip new) (coalesce (present_ip new) old) ≡ coalesce (present_ip new) old)
settled_ip none none = (refl, refl)
settled_ip none (some i) = ground arith
settled_ip (some i) old = ground (arith, str_eq_self i.text)

pub settled_name :
    (new old : Option String)
    → (is_name_changed (present_text (coalesce (present_text new) old)) (present_text new) ≡ false)
      × (coalesce (present_text new) (coalesce (present_text new) old)
          ≡ coalesce (present_text new) old)
settled_name none none = (refl, refl)
settled_name none (some i) = ground arith
settled_name (some i) old = ground (arith, str_eq_self (lower i))

settled_maker :
    (new old : Option String)
    → (is_maker_changed (present_text (coalesce (present_text new) old)) (present_text new) ≡ false)
      × (coalesce (present_text new) (coalesce (present_text new) old)
          ≡ coalesce (present_text new) old)
settled_maker none none = (refl, refl)
settled_maker none (some i) = ground arith
settled_maker (some i) old = ground (arith, str_eq_self i)

pub settled_unknown :
    (c : Subject) (b : DeviceBaseline) (d : Detection)
    → SettledUnknown c (judge_unknown c b d).0.unknown_present_event_id
unfolding judge_unknown is_unknown_present
settled_unknown c b d = ground arith

pub settled_identity :
    (c : Subject) (learning : Bool) (b : DeviceBaseline) (d : Detection)
    → let b' = (judge_identity c learning b d).0 in
      SettledIdentity c b'.identity_category b'.identity_manufacturer
unfolding judge_identity
settled_identity c learning b d = elim (Bool-cases (not (is_known c.identity))) [
  | inl e ↦ inl e
  | inr e ↦
      let m = settled_maker c.identity.manufacturer b.identity_manufacturer in
      rw e (inr (refl, m.0, m.1))
]

pub settled_trust :
    (c : Subject) (b : DeviceBaseline) (d : Detection)
    → same_bool c.device.allowlisted (judge_trust c b d).0.trusted ≡ true
unfolding judge_trust
settled_trust c b d = ground arith

pub settled_learning :
    (c : Subject) (b : DeviceBaseline) (d : Detection)
    → let b' = (judge_learning c b d).0 in (is_learning b' && has_learned c b') ≡ false
unfolding judge_learning
settled_learning c b d = ground arith

-- each comparison writes its own fields
pub trust-only :
    (c : Subject) (b : DeviceBaseline) (d : Detection)
    → (judge_trust c b d).0 ≡ record b { trusted = (judge_trust c b d).0.trusted }
unfolding judge_trust
trust-only c b d = ground arith

pub unknown-only :
    (c : Subject) (b : DeviceBaseline) (d : Detection)
    → (judge_unknown c b d).0
      ≡ record b { unknown_present_event_id = (judge_unknown c b d).0.unknown_present_event_id }
unfolding judge_unknown
unknown-only c b d = ground arith

pub identity-only :
    (c : Subject) (learning : Bool) (b : DeviceBaseline) (d : Detection)
    → let b' = (judge_identity c learning b d).0 in
      b' ≡ record b {
        identity_category = b'.identity_category;
        identity_manufacturer = b'.identity_manufacturer;
      }
unfolding judge_identity
identity-only c learning b d = ground arith
