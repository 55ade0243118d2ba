-- ===== src/Witnesses/Servers.antt =====
-- Runs of the DHCP server detection.
use lan_fence.Base.{[], is_none, none, not, some, true, ℕ, ◌&&◌, ◌≡◌}
use lan_fence.DhcpServer.{
  DhcpConfig, DhcpServerSighting, generation_key, is_approved, process_dhcp_server_sighting,
}
use lan_fence.DhcpServer.Replies.{process_dhcp_server_sighting-reports}
use lan_fence.Models.Severity.{medium}
use lan_fence.Store.Alerts.{due_for_alert}
use lan_fence.Witnesses.Data.{new_database}

abbrev offer : ℕ → DhcpServerSighting
offer t = record {
  interface = some "eth0";
  server_id = "192.168.1.250";
  message_type = "offer";
  observed_at = t;
  source_ip = some "192.168.1.250";
  source_mac = none;
  relay_ip = none;
  client_mac_evidence = none;
  offered = none;
  router = none;
  dns = none;
}

abbrev watch_all : DhcpConfig
watch_all = record { enabled = true; approved = []; alert_cooldown = 3600 }

process_dhcp_server_sighting-reports_example :
    not (is_none (process_dhcp_server_sighting (offer 5) watch_all new_database).0) ≡ (
      true
      && not (is_approved "eth0" "192.168.1.250" watch_all)
      && (due_for_alert (generation_key (offer 5)) medium 5 3600 new_database).0)
process_dhcp_server_sighting-reports_example =
    process_dhcp_server_sighting-reports (offer 5) watch_all new_database
