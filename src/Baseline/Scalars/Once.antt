-- ===== src/Baseline/Scalars/Once.antt =====
-- lanfence/baseline.py: a change of the scalar observations is told once.
use mathlib.Core.Path.{subst}
use lan_fence.Base.{
  Bool, Bool-cases, List, Option, String, ap, arith, false, inl, inr, none, not, refl, some, sym,
  true, ◌&&◌, ◌∙◌, ◌≡◌,
}
use lan_fence.Baseline.{Observed, compare_items}
use lan_fence.Baseline.Ingest.{Detection}
use lan_fence.Baseline.Scalars.{
  Subject, has_learned, is_category_changed, is_learning, judge_address, judge_hostname,
  judge_identity, judge_learning, judge_trust, judge_unknown, same_bool,
}
use lan_fence.Baseline.Scalars.Settled.{
  IsSettled, SettledIdentity, SettledIp, SettledName, SettledUnknown, identity-only,
  settled_identity, settled_ip, settled_learning, settled_name, settled_trust, settled_unknown,
  str_eq_self, trust-only, unknown-only,
}
use lan_fence.Baseline.Whole.{compare_known, comparison, judge_scalars, note_inspection, record_all}
use lan_fence.Identity.{is_known}
use lan_fence.Models.Baseline.{BaselineItem, DeviceBaseline}

judge_address-settled :
    (c : Subject) (learning : Bool) (b : DeviceBaseline) (d : Detection)
    → SettledIp c b.ipv4
    → judge_address c learning b d ≡ (b, d)
unfolding judge_address
judge_address-settled c learning b d h = rw (h.0, h.1) refl

judge_hostname-settled :
    (c : Subject) (learning : Bool) (b : DeviceBaseline) (d : Detection)
    → SettledName c b.hostname
    → judge_hostname c learning b d ≡ (b, d)
unfolding judge_hostname
judge_hostname-settled c learning b d h = rw (h.0, h.1) refl

judge_trust-settled :
    (c : Subject) (b : DeviceBaseline) (d : Detection)
    → same_bool c.device.allowlisted b.trusted ≡ true
    → judge_trust c b d ≡ (b, d)
unfolding judge_trust
judge_trust-settled c b d h = rw h refl

judge_unknown-settled :
    (c : Subject) (b : DeviceBaseline) (d : Detection)
    → SettledUnknown c b.unknown_present_event_id
    → judge_unknown c b d ≡ (b, d)
unfolding judge_unknown
judge_unknown-settled c b d h = rw (h.0, h.1) refl

judge_learning-settled :
    (c : Subject) (b : DeviceBaseline) (d : Detection)
    → (is_learning b && has_learned c b) ≡ false
    → judge_learning c b d ≡ (b, d)
unfolding judge_learning
judge_learning-settled c b d h = rw h refl

is_category_changed_self :
    (s : String) (o : Option String) → some s ≡ o → is_category_changed o s ≡ false
is_category_changed_self s none h = refl
is_category_changed_self s (some k) h = ground (arith, str_eq_self s)

judge_identity-settled :
    (c : Subject) (learning : Bool) (b : DeviceBaseline) (d : Detection)
    → SettledIdentity c b.identity_category b.identity_manufacturer
    → judge_identity c learning b d ≡ (b, d)
unfolding judge_identity
judge_identity-settled c learning b d (inl e) = rw e refl
judge_identity-settled c learning b d (inr h) = elim (Bool-cases (not (is_known c.identity))) [
  | inl e ↦ rw e refl
  | inr e ↦
      rw (e, is_category_changed_self c.identity.category b.identity_category h.0, h.1, h.2, h.0)
        refl
]

judge_scalars-settled :
    (c : Subject) (learning : Bool) (b : DeviceBaseline) (d : Detection)
    → IsSettled c b
    → judge_scalars c learning b d ≡ (b, d)
unfolding judge_scalars
judge_scalars-settled c learning b d h =
    rw
      (
        judge_address-settled c learning b d h.ip,
        judge_hostname-settled c learning b d h.name,
        judge_identity-settled c learning b d h.identity,
        judge_trust-settled c b d h.trust,
      )
      (judge_unknown-settled c b d h.unknown)

judge_scalars-IsSettled :
    (c : Subject) (learning : Bool) (b : DeviceBaseline) (d : Detection)
    → (is_learning b && has_learned c b) ≡ false
    → IsSettled c (judge_scalars c learning b d).0
unfolding judge_scalars judge_address judge_hostname
judge_scalars-IsSettled c learning b d h =
    let a = judge_address c learning b d in
    let n = judge_hostname c learning a.0 a.1 in
    let i = judge_identity c learning n.0 n.1 in
    let t = judge_trust c i.0 i.1 in
    let u = judge_unknown c t.0 t.1 in
    let f : DeviceBaseline → DeviceBaseline =
      λ x. record x { unknown_present_event_id = u.0.unknown_present_event_id } in
    let g : DeviceBaseline → DeviceBaseline = λ x. f (record x { trusted = t.0.trusted }) in
    let known : u.0 ≡ g i.0 = unknown-only c t.0 t.1 ∙ ap f (trust-only c i.0 i.1) in
    let same : u.0
        ≡ g (record n.0 {
          identity_category = i.0.identity_category;
          identity_manufacturer = i.0.identity_manufacturer;
        }) =
      known ∙ ap g (identity-only c learning n.0 n.1) in
    record {
      ip =
          subst (SettledIp c) (sym (ap (λ (x : DeviceBaseline). x.ipv4) same))
            (settled_ip c.device.ipv4 b.ipv4);
      name =
          subst (SettledName c) (sym (ap (λ (x : DeviceBaseline). x.hostname) same))
            (settled_name c.device.hostname b.hostname);
      identity =
          subst
            (λ (x : DeviceBaseline). SettledIdentity c x.identity_category x.identity_manufacturer)
            (sym known) (settled_identity c learning n.0 n.1);
      trust =
          ap (λ (x : DeviceBaseline). same_bool c.device.allowlisted x.trusted)
            (unknown-only c t.0 t.1)
          ∙ settled_trust c i.0 i.1;
      unknown = settled_unknown c t.0 t.1;
      learning = ap (λ (x : DeviceBaseline). is_learning x && has_learned c x) same ∙ h;
    }

learned-note_inspection :
    (c : Subject) (b : DeviceBaseline)
    → (is_learning b && has_learned c b) ≡ false
    → let b' = note_inspection c b in (is_learning b' && has_learned c b') ≡ false
learned-note_inspection c b h = ground (arith, h)

-- A change of the address, the name, the identity, the trust or the presence of a device is told
-- once: when the same device is compared again at the same time with the baseline that the
-- comparison left, whatever else was recorded since, neither the end of the learning nor any of
-- these comparisons records a change, and the baseline stays as it is.
pub compare_known-settled :
    (c : Subject) (o : Observed) (learning : Bool) (b : DeviceBaseline) (items : List BaselineItem)
    (d e : Detection)
    → let b' = (compare_known c o b items d).0.0 in
      (judge_learning c b' e ≡ (b', e)) × (judge_scalars c learning b' e ≡ (b', e))
unfolding compare_known
compare_known-settled c o learning b items d e =
    let l = judge_learning c b d in
    let b2 = note_inspection c l.0 in
    let r = record_all (compare_items (comparison c b) o items).recorded l.1 in
    let s =
      judge_scalars-IsSettled c (is_learning b) b2 r
        (learned-note_inspection c l.0 (settled_learning c b d)) in
    let b' = (judge_scalars c (is_learning b) b2 r).0 in
    (judge_learning-settled c b' e s.learning, judge_scalars-settled c learning b' e s)
