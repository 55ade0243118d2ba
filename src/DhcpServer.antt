-- ===== src/DhcpServer.antt =====
-- lanfence/dhcp_server.py: replies of DHCP servers, and the finding about one that is not approved.
pub mod Replies
use lan_fence.Base.{
  Bool, List, Option, String, [], any, false, if◌then◌else◌, none, not, or_empty, some, str_eq, ℕ,
  ◌&&◌, ◌++◌, ◌||◌, ◌∷◌,
}
use lan_fence.Models.Change.{ChangeType, dhcp_server_unexpected}
use lan_fence.Models.Device.{AssociationKind, Ip, Source, dhcp_ack, lease_reported}
use lan_fence.Models.Finding.{Finding, FindingKind, network_service}
use lan_fence.Models.Severity.{medium}
use lan_fence.Netutil.{normalize_mac}
use lan_fence.Store.Alerts.{due_for_alert}
use lan_fence.Store.Dhcp.{DhcpReply, record_dhcp_server_finding, record_dhcp_server_observation}
use lan_fence.Store.Evidence.{record_address_evidence, refresh_preferred_fields}
use lan_fence.Store.State.{Store}
use lan_fence.Text.{or_text, upper, ◌+++◌}

-- scanner.py: DhcpServerSighting; `offered` is the address with what it parses to
pub record DhcpServerSighting : Type 0 where
  pub interface : Option String
  pub server_id : String
  pub message_type : String
  pub observed_at : ℕ
  pub source_ip : Option String
  pub source_mac : Option String
  pub relay_ip : Option String
  pub client_mac_evidence : Option String
  pub offered : Option Ip
  pub router : Option String
  pub dns : Option String

pub record ApprovedServer : Type 0 where
  pub interface : String
  pub server_ip : String

-- the section `dhcp_servers` of the configuration
pub record DhcpConfig : Type 0 where
  pub enabled : Bool
  pub approved : List ApprovedServer
  pub alert_cooldown : ℕ

-- `_is_approved`
unfoldable pub is_approved : String → String → DhcpConfig → Bool
is_approved interface server_id cfg =
    any (λ (e : ApprovedServer). str_eq e.interface interface && str_eq e.server_ip server_id)
      cfg.approved

-- `sighting.interface or "(unknown interface)"`
abbrev pub interface_of : DhcpServerSighting → String
interface_of g = or_text (or_empty g.interface) "(unknown interface)"

abbrev pub reply_of : DhcpServerSighting → DhcpReply
reply_of g = record {
  interface = interface_of g;
  server_id = g.server_id;
  message_type = g.message_type;
  observed_at = g.observed_at;
  source_ip = g.source_ip;
  source_mac = g.source_mac;
  relay_ip = g.relay_ip;
  router = g.router;
  dns = g.dns;
}

abbrev lease_for : DhcpServerSighting → Ip → Option String → Store → Store
lease_for g ip none s = s
lease_for g ip (some mac) s = refresh_preferred_fields mac (
    record_address_evidence mac ip (interface_of g) Source.dhcp_ack AssociationKind.lease_reported
      g.observed_at s)

abbrev leased : DhcpServerSighting → Option Ip → Option String → Store → Store
leased g (some ip) (some client) s =
    if str_eq ip.text "" || str_eq client "" then s else lease_for g ip (normalize_mac client) s
leased g _ _ s = s

-- a confirmed lease is address evidence of the client
unfoldable pub record_lease : DhcpServerSighting → Store → Store
record_lease g s =
    if str_eq g.message_type "ack" then leased g g.offered g.client_mac_evidence s else s

abbrev pub generation_key : DhcpServerSighting → String
generation_key g = "dhcp-server-finding#" +++ interface_of g +++ "#" +++ g.server_id

abbrev evidence_line : String → Option String → String → List String
evidence_line label none after = []
evidence_line label (some x) after = if str_eq x "" then [] else (label +++ x +++ after) ∷ []

abbrev address_text : Option Ip → Option String
address_text none = none
address_text (some ip) = some ip.text

unfoldable pub server_finding : DhcpServerSighting → Finding
server_finding g = record {
  mac = none;
  title = "Unexpected DHCP server observed";
  severity = medium;
  rationale =
      "A DHCP "
      +++ g.message_type
      +++ " reply claiming server identifier "
      +++ g.server_id
      +++ " was observed on "
      +++ interface_of g
      +++ ", which is not on the approved DHCP server list for this interface. This may be a legitimate router, a backup/failover DHCP server, or a misconfiguration - this observation alone does not establish malicious intent.";
  recommendation =
      "Check what " +++ g.server_id
      +++ " is on your network. If it's expected, add it to dhcp_servers.approved in your config to stop this finding.";
  evidence =
      (("Interface: " +++ interface_of g)
        ∷ ("DHCP server identifier (option 54): " +++ g.server_id)
        ∷ ("Message type: " +++ upper g.message_type)
        ∷ [])
      ++ evidence_line "Source IP: " g.source_ip ""
      ++ evidence_line "Source MAC: " g.source_mac
          " (the sender of this frame - a relay's MAC if relayed, not necessarily the DHCP server itself)"
      ++ evidence_line "Relay address (giaddr): " g.relay_ip " - this reply was relayed"
      ++ evidence_line "Offered/client address: " (address_text g.offered) ""
      ++ evidence_line "Advertised router: " g.router ""
      ++ evidence_line "Advertised DNS server: " g.dns ""
      ++ evidence_line "Client hardware address: " g.client_mac_evidence
          " (identifies the client this reply was for, not the server)";
  kind = FindingKind.network_service;
  subject_id = some (interface_of g +++ "/" +++ g.server_id);
  change_type = some ChangeType.dhcp_server_unexpected;
  policy_id = none;
  change_event_id = none;
  cooldown = none;
  cooldown_key = none;
}

-- the part on a server that is not approved
unfoldable pub report_server : DhcpServerSighting → DhcpConfig → Store → Option Finding × Store
unfolding server_finding
report_server g cfg s =
    let (due, s') = due_for_alert (generation_key g) medium g.observed_at cfg.alert_cooldown s in
    if due
    then (some (server_finding g), record_dhcp_server_finding (reply_of g) false s')
    else (none, s')

unfoldable pub process_dhcp_server_sighting :
    DhcpServerSighting → DhcpConfig → Store → Option Finding × Store
unfolding record_lease report_server is_approved
process_dhcp_server_sighting g cfg s =
    let s' = record_lease g (record_dhcp_server_observation (reply_of g) s) in
    if not cfg.enabled
    then (none, s')
    else if is_approved (interface_of g) g.server_id cfg
    then (none, s')
    else report_server g cfg s'
