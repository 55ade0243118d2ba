-- ===== src/Models/Service.antt =====
-- lanfence/models.py: an advertised service.
use lan_fence.Base.{List, Option, String, Table, ℕ}

pub data DiscoveryProtocol : Type 0 where
  mdns ssdp : DiscoveryProtocol

pub data AdvertisedServiceStatus : Type 0 where
  current expired withdrawn : AdvertisedServiceStatus

pub record AdvertisedService : Type 0 where
  pub protocol : DiscoveryProtocol
  pub interface : String
  pub family : Option String
  pub service_type : String
  pub service_label : Option String
  pub instance_name : Option String
  pub identity : String
  pub target_host : Option String
  pub target_port : Option ℕ
  pub addresses : List String
  pub mac : Option String
  pub attribution_basis : Option String
  pub attributes : Table String
  pub server : Option String
  pub location : Option String
  pub first_seen : ℕ
  pub last_seen : ℕ
  pub expires_at : Option ℕ
  pub status : AdvertisedServiceStatus
