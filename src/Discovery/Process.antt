-- ===== src/Discovery/Process.antt =====
-- lanfence/discovery.py: parsed records and messages go into the tables of advertised services.
pub mod Kept
pub mod Goodbye
pub mod Flush
pub mod Unlisted
use lan_fence.Base.{Bool, Option, String, Table, [], if◌then◌else◌, ℕ, ◌==◌, ◌∷◌}
use lan_fence.Models.Baseline.{port}
use lan_fence.Store.Adverts.{
  Adverts, HostKey, InstanceKey, PtrKey, SsdpKey, record_mdns_addr, record_mdns_ptr,
  record_mdns_srv, record_mdns_txt, record_ssdp_advertisement, withdraw_mdns_addr,
  withdraw_mdns_ptr, withdraw_mdns_srv, withdraw_mdns_txt, withdraw_ssdp_advertisement,
}

pub data RecordType : Type 0 where
  ptr srv txt host_a host_aaaa : RecordType

pub record MdnsRecordSighting : Type 0 where
  pub rtype : RecordType
  pub ttl : ℕ
  pub cache_flush : Bool
  pub interface : String
  pub source_ip : Option String
  pub source_mac : Option String
  pub family : Option String
  pub seen_at : ℕ
  pub service_type : String
  pub instance_name : String
  pub fq_instance : String
  pub target_host : String
  pub target_port : ℕ
  pub attributes : Table String
  pub address_owner : String
  pub address : String

pub data MessageType : Type 0 where
  alive updated byebye response : MessageType

pub record SsdpSighting : Type 0 where
  pub message_type : MessageType
  pub usn : String
  pub nt_or_st : Option String
  pub server : Option String
  pub location : Option String
  pub max_age : Option ℕ
  pub boot_id : Option String
  pub config_id : Option String
  pub interface : String
  pub source_ip : Option String
  pub source_mac : Option String
  pub family : Option String
  pub seen_at : ℕ

abbrev pub ptr_key : MdnsRecordSighting → PtrKey
ptr_key g = record {
  interface = g.interface;
  service_type = g.service_type;
  fq_instance = g.fq_instance;
}

abbrev pub instance_key : MdnsRecordSighting → InstanceKey
instance_key g = record { interface = g.interface; fq_instance = g.fq_instance }

abbrev pub host_key : String → MdnsRecordSighting → HostKey
host_key family g = record {
  interface = g.interface;
  target_host = g.address_owner;
  family = family;
  ip = g.address;
}

abbrev pub usn_key : SsdpSighting → SsdpKey
usn_key g = record { interface = g.interface; usn = g.usn }

abbrev pub process_ptr : MdnsRecordSighting → Adverts → Adverts
process_ptr g d =
    if g.ttl == 0
    then withdraw_mdns_ptr (ptr_key g) d
    else record_mdns_ptr (ptr_key g)
        (record {
          instance_name = g.instance_name;
          ttl = g.ttl;
          source_ip = g.source_ip;
          source_mac = g.source_mac;
        })
        g.seen_at d

abbrev pub process_srv : MdnsRecordSighting → Adverts → Adverts
process_srv g d =
    if g.ttl == 0
    then withdraw_mdns_srv (instance_key g) d
    else record_mdns_srv (instance_key g)
        (record { target_host = g.target_host; port = g.target_port; ttl = g.ttl }) g.seen_at d

-- a record without attributes is passed over
abbrev pub record_attributes : MdnsRecordSighting → Table String → Adverts → Adverts
record_attributes g [] d = d
record_attributes g (x ∷ xs) d =
    record_mdns_txt (instance_key g) (record { attributes = x ∷ xs; ttl = g.ttl }) g.seen_at d

abbrev pub process_txt : MdnsRecordSighting → Adverts → Adverts
process_txt g d =
    if g.ttl == 0 then withdraw_mdns_txt (instance_key g) d else record_attributes g g.attributes d

abbrev pub process_address : String → MdnsRecordSighting → Adverts → Adverts
process_address family g d =
    if g.ttl == 0
    then withdraw_mdns_addr (host_key family g) d
    else record_mdns_addr (host_key family g) g.ttl g.seen_at g.cache_flush d

unfoldable pub process_record : RecordType → MdnsRecordSighting → Adverts → Adverts
process_record RecordType.ptr g d = process_ptr g d
process_record RecordType.srv g d = process_srv g d
process_record RecordType.txt g d = process_txt g d
process_record RecordType.host_a g d = process_address "ipv4" g d
process_record RecordType.host_aaaa g d = process_address "ipv6" g d

unfoldable pub process_mdns_record_sighting : MdnsRecordSighting → Adverts → Adverts
unfolding process_record
process_mdns_record_sighting g d = process_record g.rtype g d

abbrev pub process_message : MessageType → SsdpSighting → Adverts → Adverts
process_message MessageType.byebye g d = withdraw_ssdp_advertisement (usn_key g) g.seen_at d
process_message _ g d =
    record_ssdp_advertisement (usn_key g)
      (record {
        nt_or_st = g.nt_or_st;
        server = g.server;
        location = g.location;
        max_age = g.max_age;
        boot_id = g.boot_id;
        config_id = g.config_id;
        source_ip = g.source_ip;
        source_mac = g.source_mac;
        family = g.family;
      })
      g.seen_at d

unfoldable pub process_ssdp_sighting : SsdpSighting → Adverts → Adverts
process_ssdp_sighting g d = process_message g.message_type g d
