-- ===== src/Store/Availability/Episodes.antt =====
-- An absence is reported for devices that are due, and once in an episode.
use lan_fence.Base.{
  All, All-map, AllAt, AllAt-self, Bool, Bool-cases, IsKeyed, List, Option, Option-cases, String,
  Table, [], any, arith, eq_iff, false, inl, inr, lookup, lookup-upsert, none, or_else, refl, some,
  str_eq, true, ℕ, ◌+◌, ◌∷◌, ◌≡◌, ◌≤◌,
}
use lan_fence.Models.Device.{PresenceState, is_always_on, is_online}
use lan_fence.Store.Availability.{
  Absence, absence, absences, effective_delay, evaluate_availability, mark_alerted,
}
use lan_fence.Store.Coverage.{Coverage, path_covered}
use lan_fence.Store.Presence.{get_presence, no_presence, set_availability_alerted}
use lan_fence.Store.State.{Row, Store}

-- whether the absence of a device was reported in its present episode
abbrev pub alerted : String → Store → Bool
alerted m s = (get_presence m s).availability_alerted

alerted-set :
    (k m : String) (t : ℕ) (s : Store)
    → alerted m s ≡ true
    → alerted m (set_availability_alerted k true t s) ≡ true
unfolding set_availability_alerted get_presence
alerted-set k m t s h = ground (
  arith,
  eq_iff m k,
  lookup-upsert k m
      (record {
        policy = (or_else (lookup k s.presence) no_presence).policy;
        offline_after = (or_else (lookup k s.presence) no_presence).offline_after;
        availability_alerted = true;
        updated_at = some t;
      })
      s.presence,
)

alerted-set_self :
    (m : String) (t : ℕ) (s : Store) → alerted m (set_availability_alerted m true t s) ≡ true
unfolding set_availability_alerted get_presence
alerted-set_self m t s = ground (
  arith,
  eq_iff m m,
  lookup-upsert m m
      (record {
        policy = (or_else (lookup m s.presence) no_presence).policy;
        offline_after = (or_else (lookup m s.presence) no_presence).offline_after;
        availability_alerted = true;
        updated_at = some t;
      })
      s.presence,
)

alerted-mark_alerted :
    (m : String) (t : ℕ) (due : List Absence) (s : Store)
    → alerted m s ≡ true
    → alerted m (mark_alerted t due s) ≡ true
unfolding mark_alerted
alerted-mark_alerted m t [] s h = h
alerted-mark_alerted m t (a ∷ due) s h =
    alerted-mark_alerted m t due (set_availability_alerted a.mac true t s)
      (alerted-set a.mac m t s h)

mark_alerted-All :
    (t : ℕ) (due : List Absence) (s : Store)
    → All (λ (a : Absence). alerted a.mac (mark_alerted t due s) ≡ true) due
unfolding mark_alerted
mark_alerted-All t [] s = tt
mark_alerted-All t (a ∷ due) s =
    let s' = set_availability_alerted a.mac true t s in
    (alerted-mark_alerted a.mac t due s' (alerted-set_self a.mac t s), mark_alerted-All t due s')

-- whether the absence of `m` is among those reported
abbrev pub reports : String → List Absence → Bool
reports m = any (λ (a : Absence). str_eq a.mac m)

absence_skips :
    (t d : ℕ) (c : Coverage) (m mac : String) (row : Row) (s : Store)
    → alerted m s ≡ true
    → str_eq mac m ≡ true
    → absence t d c mac row (lookup mac s.presence) ≡ none
unfolding absence get_presence
absence_skips t d c m mac row s h e = ground (arith, eq_iff mac m)

absence-mac :
    (t d : ℕ) (c : Coverage) (mac : String) (row : Row) (p : Option PresenceState) (a : Absence)
    → absence t d c mac row p ≡ some a
    → a.mac ≡ mac
unfolding absence
absence-mac t d c mac row none a h = cc
absence-mac t d c mac row (some p) a h = ground arith

absences_skip :
    (t d : ℕ) (c : Coverage) (m : String) (rows : Table Row) (s : Store)
    → alerted m s ≡ true
    → reports m (absences t d c s.presence rows) ≡ false
unfolding absences
absences_skip t d c m [] s h = refl
absences_skip t d c m ((mac, row) ∷ rows) s h =
    let ih = absences_skip t d c m rows s h in
    elim (Option-cases (absence t d c mac row (lookup mac s.presence))) [
      | inl e ↦ rw e ih
      | inr (a, e) ↦ elim (Bool-cases (str_eq mac m)) [
        | inl f ↦ cc (absence_skips t d c m mac row s h f, e)
        | inr f ↦ rw e (rw (absence-mac t d c mac row (lookup mac s.presence) a e) (rw f ih))
      ]
    ]

-- What is reported is not reported again: a later evaluation of the same database, whatever its
-- time, default delay and coverage, leaves out each device that this one reported.
pub evaluate_availability-once :
    (t d u d' : ℕ) (c c' : Coverage) (s : Store)
    → let (due, s') = evaluate_availability t d c s in
      All (λ (a : Absence). reports a.mac (evaluate_availability u d' c' s').0 ≡ false) due
unfolding evaluate_availability
evaluate_availability-once t d u d' c c' s =
    let due : List Absence = absences t d c s.presence s.devices in
    let s' = mark_alerted t due s in
    All-map (λ (a : Absence). alerted a.mac s' ≡ true)
      (λ (a : Absence). reports a.mac (absences u d' c' s'.presence s'.devices) ≡ false) due
      (λ a h. absences_skip u d' c' a.mac s'.devices s' h) (mark_alerted-All t due s)

-- a device whose absence is due for an alert
abbrev pub IsDue : ℕ → ℕ → Coverage → Store → Absence → Type 0
IsDue t d c s a =
    (row : Row) × (p : PresenceState) × (lookup a.mac s.devices ≡ some row)
    × (lookup a.mac s.presence ≡ some p)
    × (is_online row.status ≡ false)
    × (is_always_on p.policy ≡ true)
    × (p.availability_alerted ≡ false)
    × (path_covered row c ≡ true)
    × (row.last_seen + effective_delay p.offline_after d ≤ t)

absence-IsDue :
    (t d : ℕ) (c : Coverage) (mac : String) (row : Row) (s : Store) (a : Absence)
    → lookup mac s.devices ≡ some row
    → absence t d c mac row (lookup mac s.presence) ≡ some a
    → IsDue t d c s a
unfolding absence
absence-IsDue t d c mac row s a at h = elim (Option-cases (lookup mac s.presence)) [
  | inl e ↦ absurd (ground arith)
  | inr (p, e) ↦
      let same : a.mac ≡ mac = ground arith in
      (
        row,
        p,
        rw same at,
        rw same e,
        ground arith,
        ground arith,
        ground arith,
        ground arith,
        ground arith,
      )
]

absences-IsDue :
    (t d : ℕ) (c : Coverage) (rows : Table Row) (s : Store)
    → AllAt s.devices rows
    → All (IsDue t d c s) (absences t d c s.presence rows)
unfolding absences
absences-IsDue t d c [] s h = tt
absences-IsDue t d c ((mac, row) ∷ rows) s h =
    let ih = absences-IsDue t d c rows s h.1 in
    elim (Option-cases (absence t d c mac row (lookup mac s.presence))) [
      | inl e ↦ rw e ih
      | inr (a, e) ↦ rw e (absence-IsDue t d c mac row s a h.0 e, ih)
    ]

-- Each reported absence is of a device that is offline, expected to be always on, not yet alerted
-- on in this episode, known only by paths that the sweep examined, and last seen at least its
-- delay (its own if set and not 0, else the default) before the evaluation.
pub evaluate_availability-IsDue :
    (t d : ℕ) (c : Coverage) (s : Store)
    → IsKeyed s.devices
    → All (IsDue t d c s) (evaluate_availability t d c s).0
unfolding evaluate_availability
evaluate_availability-IsDue t d c s h = absences-IsDue t d c s.devices s (AllAt-self s.devices h)
