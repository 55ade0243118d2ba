-- ===== src/Discovery/Process/Kept.antt =====
-- lanfence/discovery.py: whatever is captured, the tables of advertised services stay small.
use lan_fence.Base.{
  List, String, Table, [], arith, if-elim, if◌then◌else◌, refl, true, ℕ, ◌==◌, ◌∷◌, ◌≡◌,
}
use lan_fence.Discovery.Process.{
  MdnsRecordSighting, MessageType, RecordType, SsdpSighting, process_address,
  process_mdns_record_sighting, process_message, process_ptr, process_record, process_srv,
  process_ssdp_sighting, process_txt, record_attributes, usn_key,
}
use lan_fence.Store.Adverts.{
  Advert, Adverts, SsdpContent, SsdpKey, record_mdns_addr, record_mdns_ptr, record_mdns_srv,
  record_mdns_txt, record_ssdp_advertisement, same_host, same_instance, same_ptr, same_usn,
  withdraw_mdns_addr, withdraw_mdns_ptr, withdraw_mdns_srv, withdraw_mdns_txt,
  withdraw_ssdp_advertisement,
}
use lan_fence.Store.Adverts.Bounded.{length-map}
use lan_fence.Store.Adverts.Kept.{
  IsKept, addr_update-IsKept, prune_expired-IsKept, ptr_update-IsKept, put_ptr-IsKept,
  put_srv-IsKept, put_ssdp-IsKept, put_txt-IsKept, same_host_comm, srv_update-IsKept,
  ssdp_update-IsKept, txt_update-IsKept, withdraw-IsTable,
}
use lan_fence.Store.Adverts.Keyed.{IsUnique, map-IsUnique, upsert_row-IsUnique, withdraw-IsUnique}

-- What a capture passes on.
pub data Capture : Type 0 where
  mdns_record : MdnsRecordSighting → Capture
  ssdp_message : SsdpSighting → Capture

abbrev pub process : Capture → Adverts → Adverts
process (mdns_record g) d = process_mdns_record_sighting g d
process (ssdp_message g) d = process_ssdp_sighting g d

abbrev pub process_all : List Capture → Adverts → Adverts
process_all [] d = d
process_all (g ∷ gs) d = process_all gs (process g d)

-- the database before the first capture
abbrev pub no_adverts : ℕ → Adverts
no_adverts max_rows = record {
  mdns_ptr = [];
  mdns_srv = [];
  mdns_txt = [];
  mdns_addr = [];
  ssdp_advertisements = [];
  max_rows = max_rows;
}

module _ (g : MdnsRecordSighting) (d : Adverts) (h : IsKept d) where
  process_ptr-IsKept : IsKept (process_ptr g d)
  unfolding record_mdns_ptr withdraw_mdns_ptr
  process_ptr-IsKept =
      if-elim IsKept (g.ttl == 0) _ _
        (λ e.
          ptr_update-IsKept d h _ (withdraw-IsTable same_ptr d.max_rows _ d.mdns_ptr h.ptr_kept))
        (λ e. put_ptr-IsKept d h g.seen_at _)

  process_srv-IsKept : IsKept (process_srv g d)
  unfolding record_mdns_srv withdraw_mdns_srv
  process_srv-IsKept =
      if-elim IsKept (g.ttl == 0) _ _
        (λ e.
          srv_update-IsKept d h _
            (withdraw-IsTable same_instance d.max_rows _ d.mdns_srv h.srv_kept))
        (λ e. put_srv-IsKept d h g.seen_at _)

  record_attributes-IsKept : (as_read : Table String) → IsKept (record_attributes g as_read d)
  unfolding record_mdns_txt
  record_attributes-IsKept [] = h
  record_attributes-IsKept (x ∷ xs) = put_txt-IsKept d h g.seen_at _

  process_txt-IsKept : IsKept (process_txt g d)
  unfolding withdraw_mdns_txt
  process_txt-IsKept =
      if-elim IsKept (g.ttl == 0) _ _
        (λ e.
          txt_update-IsKept d h _
            (withdraw-IsTable same_instance d.max_rows _ d.mdns_txt h.txt_kept))
        (λ e. record_attributes-IsKept g.attributes)

  process_address-IsKept : (family : String) → IsKept (process_address family g d)
  unfolding record_mdns_addr withdraw_mdns_addr
  process_address-IsKept family =
      if-elim IsKept (g.ttl == 0) _ _
        (λ e.
          addr_update-IsKept d h _
            (withdraw-IsTable same_host d.max_rows _ d.mdns_addr h.addr_kept))
        (λ e.
          prune_expired-IsKept g.seen_at _ h.ptr_kept.0 h.srv_kept.0 h.txt_kept.0
            (if-elim (IsUnique same_host) g.cache_flush _ _
              (λ c.
                withdraw-IsUnique same_host _ _
                  (upsert_row-IsUnique same_host same_host_comm _ d.mdns_addr h.addr_kept.0))
              (λ c. upsert_row-IsUnique same_host same_host_comm _ d.mdns_addr h.addr_kept.0))
            h.ssdp_kept.0)

  process_record-IsKept : (t : RecordType) → IsKept (process_record t g d)
  unfolding process_record
  process_record-IsKept RecordType.ptr = process_ptr-IsKept
  process_record-IsKept RecordType.srv = process_srv-IsKept
  process_record-IsKept RecordType.txt = process_txt-IsKept
  process_record-IsKept RecordType.host_a = process_address-IsKept "ipv4"
  process_record-IsKept RecordType.host_aaaa = process_address-IsKept "ipv6"

process_message-IsKept :
    (t : MessageType) (g : SsdpSighting) (d : Adverts) → IsKept d → IsKept (process_message t g d)
unfolding record_ssdp_advertisement withdraw_ssdp_advertisement
process_message-IsKept MessageType.byebye g d h = ssdp_update-IsKept d h _ (
  map-IsUnique same_usn _
      (λ r.
        if-elim {A = Advert SsdpKey SsdpContent} (λ x. x.key ≡ r.key) (same_usn (usn_key g) r.key) _
          _ (λ e. refl) (λ e. refl))
      d.ssdp_advertisements h.ssdp_kept.0,
  omega (
    arith,
    length-map
        (λ (r : Advert SsdpKey SsdpContent).
          if same_usn (usn_key g) r.key
          then record r { withdrawn = true; last_seen = g.seen_at }
          else r)
        d.ssdp_advertisements,
    h.ssdp_kept.1,
  ),
)
process_message-IsKept MessageType.alive g d h = put_ssdp-IsKept d h g.seen_at _
process_message-IsKept MessageType.updated g d h = put_ssdp-IsKept d h g.seen_at _
process_message-IsKept MessageType.response g d h = put_ssdp-IsKept d h g.seen_at _

process-IsKept : (g : Capture) (d : Adverts) → IsKept d → IsKept (process g d)
unfolding process_mdns_record_sighting process_ssdp_sighting
process-IsKept (mdns_record g) d h = process_record-IsKept g d h g.rtype
process-IsKept (ssdp_message g) d h = process_message-IsKept g.message_type g d h

process_each-IsKept : (gs : List Capture) (d : Adverts) → IsKept d → IsKept (process_all gs d)
process_each-IsKept [] d h = h
process_each-IsKept (g ∷ gs) d h = process_each-IsKept gs (process g d) (process-IsKept g d h)

-- Whatever records and messages are captured, in any order and at any times, each of the five tables
-- of advertised services has at most as many rows as the cap allows, and no two rows of one key.
pub process_all-IsKept :
    (gs : List Capture) (max_rows : ℕ) → IsKept (process_all gs (no_adverts max_rows))
process_all-IsKept gs max_rows = process_each-IsKept gs (no_adverts max_rows) (record {
  ptr_kept = (tt, omega arith);
  srv_kept = (tt, omega arith);
  txt_kept = (tt, omega arith);
  addr_kept = (tt, omega arith);
  ssdp_kept = (tt, omega arith);
})
