-- ===== src/Store/Dhcp.antt =====
-- lanfence/db.py: the inventory of DHCP servers and the findings about them.
-- One reply of a server, as it is recorded: the keyword arguments of both methods.
use lan_fence.Base.{
  Bool, Option, String, [], any, if◌then◌else◌, map, str_eq, take, ℕ, ◌&&◌, ◌++◌, ◌+◌, ◌∷◌,
}
use lan_fence.Store.State.{DhcpFindingRow, DhcpServerRow, Store}

pub record DhcpReply : Type 0 where
  pub interface : String
  pub server_id : String
  pub message_type : String
  pub observed_at : ℕ
  pub source_ip : Option String
  pub source_mac : Option String
  pub relay_ip : Option String
  pub router : Option String
  pub dns : Option String

-- the primary key
abbrev pub is_server : String → String → DhcpServerRow → Bool
is_server interface server_id r = str_eq r.interface interface && str_eq r.server_id server_id

abbrev pub first_reply : DhcpReply → DhcpServerRow
first_reply o = record {
  interface = o.interface;
  server_id = o.server_id;
  first_seen = o.observed_at;
  last_seen = o.observed_at;
  observation_count = 1;
  last_message_type = o.message_type;
  last_source_ip = o.source_ip;
  last_source_mac = o.source_mac;
  last_relay_ip = o.relay_ip;
  last_router = o.router;
  last_dns = o.dns;
}

-- UPDATE dhcp_servers SET ...
abbrev pub next_reply : DhcpReply → DhcpServerRow → DhcpServerRow
next_reply o r = record r {
  last_seen = o.observed_at;
  observation_count = r.observation_count + 1;
  last_message_type = o.message_type;
  last_source_ip = o.source_ip;
  last_source_mac = o.source_mac;
  last_relay_ip = o.relay_ip;
  last_router = o.router;
  last_dns = o.dns;
}

unfoldable pub record_dhcp_server_observation : DhcpReply → Store → Store
record_dhcp_server_observation o s =
    let same = is_server o.interface o.server_id in
    if any same s.dhcp_servers
    then record s { dhcp_servers = map (λ r. if same r then next_reply o r else r) s.dhcp_servers }
    else record s { dhcp_servers = s.dhcp_servers ++ first_reply o ∷ [] }

-- The rows beyond the cap, those of the least `id`, are deleted.
unfoldable pub record_dhcp_server_finding : DhcpReply → Bool → Store → Store
record_dhcp_server_finding o approved s =
    let row : DhcpFindingRow = record {
      id = s.dhcp_seq + 1;
      interface = o.interface;
      server_id = o.server_id;
      observed_at = o.observed_at;
      approved_at_observation = approved;
      message_type = o.message_type;
      source_ip = o.source_ip;
      source_mac = o.source_mac;
      relay_ip = o.relay_ip;
      router = o.router;
      dns = o.dns;
    } in
    record s {
      dhcp_seq = s.dhcp_seq + 1;
      dhcp_findings = take s.max_dhcp_findings (row ∷ s.dhcp_findings);
    }
