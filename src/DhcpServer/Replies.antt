-- ===== src/DhcpServer/Replies.antt =====
-- What a reply of a DHCP server leaves behind, and when it is reported.
use lan_fence.Base.{
  List, String, [], any, ap, arith, eq_iff, false, if◌then◌else◌, is_none, map, not, refl, str_eq,
  true, ℕ, ◌&&◌, ◌++◌, ◌+◌, ◌<◌, ◌∙◌, ◌∷◌, ◌≡◌,
}
use lan_fence.DhcpServer.{
  DhcpConfig, DhcpServerSighting, generation_key, interface_of, is_approved,
  process_dhcp_server_sighting, record_lease, reply_of, report_server,
}
use lan_fence.Models.Severity.{Severity, medium}
use lan_fence.Store.Alerts.{due_for_alert}
use lan_fence.Store.Alerts.Cooldown.{due_for_alert-again}
use lan_fence.Store.Dhcp.{
  DhcpReply, first_reply, is_server, next_reply, record_dhcp_server_finding,
  record_dhcp_server_observation,
}
use lan_fence.Store.Evidence.{record_address_evidence, refresh_preferred_fields}
use lan_fence.Store.State.{DhcpServerRow, Store}

-- how many replies of a server are on record
abbrev pub count_of : String → String → List DhcpServerRow → ℕ
count_of i d [] = 0
count_of i d (r ∷ rs) =
    let rest = count_of i d rs in if is_server i d r then r.observation_count else rest

abbrev counted_again : DhcpReply → DhcpServerRow → DhcpServerRow
counted_again o r = if is_server o.interface o.server_id r then next_reply o r else r

count_of_self :
    (o : DhcpReply) (rs : List DhcpServerRow)
    → any (is_server o.interface o.server_id) rs ≡ true
    → count_of o.interface o.server_id (map (counted_again o) rs)
      ≡ count_of o.interface o.server_id rs + 1
count_of_self o [] h = cc
count_of_self o (r ∷ rs) h = ground (arith, count_of_self o rs)

count_of-other :
    (i d : String) (o : DhcpReply) (rs : List DhcpServerRow)
    → (str_eq i o.interface && str_eq d o.server_id) ≡ false
    → count_of i d (map (counted_again o) rs) ≡ count_of i d rs
count_of-other i d o [] h = refl
count_of-other i d o (r ∷ rs) h = ground (
  arith,
  eq_iff i o.interface,
  eq_iff d o.server_id,
  eq_iff r.interface i,
  eq_iff r.server_id d,
  eq_iff r.interface o.interface,
  eq_iff r.server_id o.server_id,
  count_of-other i d o rs h,
)

count_of-first :
    (i d : String) (o : DhcpReply) (rs : List DhcpServerRow)
    → any (is_server o.interface o.server_id) rs ≡ false
    → count_of i d (rs ++ first_reply o ∷ [])
      ≡ count_of i d rs + (if str_eq i o.interface && str_eq d o.server_id then 1 else 0)
count_of-first i d o [] h =
    ground (
      arith,
      eq_iff i o.interface,
      eq_iff d o.server_id,
      eq_iff o.interface i,
      eq_iff o.server_id d,
    )
count_of-first i d o (r ∷ rs) h = ground (
  arith,
  eq_iff i o.interface,
  eq_iff d o.server_id,
  eq_iff r.interface i,
  eq_iff r.server_id d,
  eq_iff r.interface o.interface,
  eq_iff r.server_id o.server_id,
  count_of-first i d o rs,
)

count_of-record :
    (i d : String) (o : DhcpReply) (s : Store)
    → count_of i d (record_dhcp_server_observation o s).dhcp_servers
      ≡ count_of i d s.dhcp_servers
        + (if str_eq i o.interface && str_eq d o.server_id then 1 else 0)
unfolding record_dhcp_server_observation
count_of-record i d o s = ground (
  arith,
  eq_iff i o.interface,
  eq_iff d o.server_id,
  count_of_self o s.dhcp_servers,
  count_of-other i d o s.dhcp_servers,
  count_of-first i d o s.dhcp_servers,
)

-- what the recording of a reply leaves alone
recorded : DhcpServerSighting → Store → Store
recorded g s = record_lease g (record_dhcp_server_observation (reply_of g) s)

alert_log-recorded : (g : DhcpServerSighting) (s : Store) → (recorded g s).alert_log ≡ s.alert_log
unfolding recorded record_lease record_dhcp_server_observation record_address_evidence
    refresh_preferred_fields
alert_log-recorded g s = ground arith

dhcp_servers-recorded :
    (g : DhcpServerSighting) (s : Store)
    → (recorded g s).dhcp_servers ≡ (record_dhcp_server_observation (reply_of g) s).dhcp_servers
unfolding recorded record_lease record_address_evidence refresh_preferred_fields
dhcp_servers-recorded g s = ground arith

dhcp_servers-process :
    (g : DhcpServerSighting) (cfg : DhcpConfig) (s : Store)
    → (process_dhcp_server_sighting g cfg s).1.dhcp_servers ≡ (recorded g s).dhcp_servers
unfolding process_dhcp_server_sighting report_server due_for_alert record_dhcp_server_finding
    recorded
dhcp_servers-process g cfg s = ground arith

-- Whatever the configuration and the outcome, a reply is counted once for the server that sent it
-- on its interface, and no other server's count changes.
pub process_dhcp_server_sighting-counts :
    (i d : String) (g : DhcpServerSighting) (cfg : DhcpConfig) (s : Store)
    → count_of i d (process_dhcp_server_sighting g cfg s).1.dhcp_servers
      ≡ count_of i d s.dhcp_servers
        + (if str_eq i (interface_of g) && str_eq d g.server_id then 1 else 0)
process_dhcp_server_sighting-counts i d g cfg s =
    ap (count_of i d) (dhcp_servers-process g cfg s ∙ dhcp_servers-recorded g s)
    ∙ count_of-record i d (reply_of g) s

due_for_alert-alert_log :
    (key : String) (v : Severity) (now cooldown : ℕ) (s t : Store)
    → t.alert_log ≡ s.alert_log
    → (due_for_alert key v now cooldown t).0 ≡ (due_for_alert key v now cooldown s).0
unfolding due_for_alert
due_for_alert-alert_log key v now cooldown s t h = ground (arith, h)

-- A reply is reported exactly if detection is enabled, the server is not approved on its interface,
-- and the cooldown of the server has passed.
pub process_dhcp_server_sighting-reports :
    (g : DhcpServerSighting) (cfg : DhcpConfig) (s : Store)
    → not (is_none (process_dhcp_server_sighting g cfg s).0) ≡ (
        cfg.enabled
        && not (is_approved (interface_of g) g.server_id cfg)
        && (due_for_alert (generation_key g) medium g.observed_at cfg.alert_cooldown s).0)
unfolding process_dhcp_server_sighting report_server recorded
process_dhcp_server_sighting-reports g cfg s = ground (
  arith,
  due_for_alert-alert_log (generation_key g) medium g.observed_at cfg.alert_cooldown s
      (recorded g s) (alert_log-recorded g s),
)

alert_log-reported :
    (g : DhcpServerSighting) (cfg : DhcpConfig) (s : Store)
    → is_none (process_dhcp_server_sighting g cfg s).0 ≡ false
    → (process_dhcp_server_sighting g cfg s).1.alert_log
      ≡ (due_for_alert
          (generation_key g)
          medium
          g.observed_at
          cfg.alert_cooldown
          (recorded g s)).1.alert_log
unfolding process_dhcp_server_sighting report_server recorded record_dhcp_server_finding
alert_log-reported g cfg s h = ground arith

due-reported :
    (g : DhcpServerSighting) (cfg : DhcpConfig) (s : Store)
    → is_none (process_dhcp_server_sighting g cfg s).0 ≡ false
    → (due_for_alert (generation_key g) medium g.observed_at cfg.alert_cooldown (recorded g s)).0
      ≡ true
unfolding process_dhcp_server_sighting report_server recorded
due-reported g cfg s h = ground arith

generation_key-same :
    (g h : DhcpServerSighting)
    → interface_of h ≡ interface_of g
    → h.server_id ≡ g.server_id
    → generation_key h ≡ generation_key g
generation_key-same g h i d = rw (i, d) refl

-- Once a server was reported, a later reply of the same server on the same interface is not
-- reported before the cooldown has passed.
pub process_dhcp_server_sighting-again :
    (g h : DhcpServerSighting) (cfg : DhcpConfig) (s : Store)
    → 0 < cfg.alert_cooldown
    → interface_of h ≡ interface_of g
    → h.server_id ≡ g.server_id
    → h.observed_at < g.observed_at + cfg.alert_cooldown
    → is_none (process_dhcp_server_sighting g cfg s).0 ≡ false
    → is_none (process_dhcp_server_sighting h cfg (process_dhcp_server_sighting g cfg s).1).0 ≡ true
process_dhcp_server_sighting-again g h cfg s positive i d early reported =
    let s' : Store = (process_dhcp_server_sighting g cfg s).1 in
    let first =
      due_for_alert (generation_key g) medium g.observed_at cfg.alert_cooldown (recorded g s) in
    let held : (due_for_alert (generation_key h) medium h.observed_at cfg.alert_cooldown s').0
        ≡ false =
      rw (generation_key-same g h i d) (
        due_for_alert-alert_log (generation_key g) medium h.observed_at cfg.alert_cooldown first.1
          s' (alert_log-reported g cfg s reported)
        ∙ due_for_alert-again (generation_key g) medium medium g.observed_at h.observed_at
            cfg.alert_cooldown (recorded g s) positive (due-reported g cfg s reported)
        ∙ ground arith) in
    ground (arith, process_dhcp_server_sighting-reports h cfg s')
