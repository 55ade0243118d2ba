-- ===== src/Witnesses/Adverts.antt =====
-- Records of a printer are captured.
use lan_fence.Base.{All, List, [], false, none, refl, some, true, ◌∷◌}
use lan_fence.Discovery.Process.{
  MdnsRecordSighting, RecordType, process_mdns_record_sighting, ptr_key,
}
use lan_fence.Discovery.Process.Flush.{IsCurrentSet, record_mdns_addr-IsCurrentSet}
use lan_fence.Discovery.Process.Goodbye.{IsGone, process_mdns_record_sighting-goodbye}
use lan_fence.Discovery.Process.Kept.{mdns_record, no_adverts, process_all, process_all-IsKept}
use lan_fence.Discovery.Process.Unlisted.{IsOther, advertised_services-goodbye}
use lan_fence.Models.Service.{AdvertisedService}
use lan_fence.Store.Adverts.{Adverts, HostKey, record_mdns_addr}
use lan_fence.Store.Adverts.Kept.{IsKept}
use lan_fence.Store.Services.{ServiceFilter, advertised_services}
use lan_fence.Store.Services.Attributed.{IsAttributed, advertised_services-IsAttributed}
use lan_fence.Witnesses.Data.{one_device}

abbrev printer : MdnsRecordSighting
printer = record {
  rtype = RecordType.ptr;
  ttl = 120;
  cache_flush = false;
  interface = "eth0";
  source_ip = some "10.0.0.9";
  source_mac = none;
  family = some "ipv4";
  seen_at = 5000000;
  service_type = "_ipp._tcp.local";
  instance_name = "Printer";
  fq_instance = "Printer._ipp._tcp.local";
  target_host = "";
  target_port = 0;
  attributes = [];
  address_owner = "";
  address = "";
}

abbrev host : MdnsRecordSighting
host = record printer {
  rtype = RecordType.host_a;
  address_owner = "printer.local";
  address = "10.0.0.9";
}

abbrev leaving : MdnsRecordSighting
leaving = record printer { ttl = 0; service_type = "_IPP._tcp.local"; seen_at = 9000000 }

process_all-IsKept_example :
    IsKept (
      process_all
        (mdns_record printer ∷ mdns_record host ∷ mdns_record leaving ∷ [])
        (no_adverts 1))
process_all-IsKept_example =
    process_all-IsKept (mdns_record printer ∷ mdns_record host ∷ mdns_record leaving ∷ []) 1

abbrev printer_seen : Adverts
printer_seen = process_all (mdns_record printer ∷ mdns_record host ∷ []) (no_adverts 10)

process_mdns_record_sighting-goodbye_example :
    IsGone RecordType.ptr leaving printer_seen (process_mdns_record_sighting leaving printer_seen)
process_mdns_record_sighting-goodbye_example =
    process_mdns_record_sighting-goodbye leaving printer_seen refl

abbrev new_host : HostKey
new_host = record {
  interface = "eth0";
  target_host = "Printer.local";
  family = "ipv4";
  ip = "10.0.0.10";
}

record_mdns_addr-IsCurrentSet_example :
    All
      (IsCurrentSet new_host 9000000)
      (record_mdns_addr new_host 120 9000000 true printer_seen).mdns_addr
record_mdns_addr-IsCurrentSet_example =
    record_mdns_addr-IsCurrentSet new_host 120 9000000 printer_seen

abbrev all_services : ServiceFilter
all_services = record {
  mac = none;
  protocol = none;
  include_expired = false;
  unassociated_only = false;
}

abbrev service : MdnsRecordSighting
service = record printer {
  rtype = RecordType.srv;
  target_host = "printer.local";
  target_port = 631;
}

-- the printer is at the address of the device on record, and no longer at the other one
abbrev printer_found : Adverts
printer_found =
    process_all
      (mdns_record printer
        ∷ mdns_record service
        ∷ mdns_record (record host { address = "192.168.1.5" })
        ∷ mdns_record host
        ∷ mdns_record (record host { ttl = 0 })
        ∷ [])
      (no_adverts 10)

-- one service, which has the MAC of the device
abbrev listed : List AdvertisedService
listed = advertised_services all_services one_device printer_found 9000000

advertised_services-IsAttributed_example : All (IsAttributed one_device printer_found) listed
advertised_services-IsAttributed_example =
    advertised_services-IsAttributed one_device printer_found all_services 9000000

advertised_services-goodbye_example : All (IsOther (ptr_key leaving)) (
    advertised_services all_services one_device
      (process_mdns_record_sighting leaving printer_seen)
      9000000)
advertised_services-goodbye_example =
    advertised_services-goodbye all_services one_device printer_seen 9000000 leaving refl refl refl
