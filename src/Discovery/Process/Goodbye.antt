-- ===== src/Discovery/Process/Goodbye.antt =====
-- lanfence/discovery.py: a record that says goodbye, and a set of addresses that replaces another.
use lan_fence.Base.{All, Bool, List, [], arith, length, true, ◌∷◌, ◌≡◌}
use lan_fence.Discovery.Process.{
  MdnsRecordSighting, RecordType, host_key, instance_key, process_mdns_record_sighting,
  process_record, ptr_key,
}
use lan_fence.Store.Adverts.{
  Advert, Adverts, same_host, same_instance, same_ptr, withdraw, withdraw_mdns_addr,
  withdraw_mdns_ptr, withdraw_mdns_srv, withdraw_mdns_txt,
}
use lan_fence.Store.Adverts.Bounded.{length-withdraw}

module _ {K A : Type 0} where
  -- the rows of which `p` holds are withdrawn
  abbrev pub IsWithdrawn : (Advert K A → Bool) → List (Advert K A) → Type 0
  IsWithdrawn p rows = All (λ r. p r ≡ true → r.withdrawn ≡ true) rows

  -- an update that withdraws the rows of which `p` holds, and adds none
  abbrev pub AreWithdrawn : (K → Bool) → List (Advert K A) → List (Advert K A) → Type 0
  AreWithdrawn p before after = IsWithdrawn (λ r. p r.key) after × (length after ≡ length before)

  withdraw-IsWithdrawn :
      (p : K → Bool) (rows : List (Advert K A))
      → IsWithdrawn (λ r. p r.key) (withdraw (λ r. p r.key) rows)
  unfolding withdraw
  withdraw-IsWithdrawn p [] = tt
  withdraw-IsWithdrawn p (r ∷ rs) = (ground arith, withdraw-IsWithdrawn p rs)

  withdraw-AreWithdrawn :
      (p : K → Bool) (rows : List (Advert K A)) → AreWithdrawn p rows (withdraw (λ r. p r.key) rows)
  withdraw-AreWithdrawn p rows = (withdraw-IsWithdrawn p rows, length-withdraw (λ r. p r.key) rows)

-- What a goodbye does to the table of its record type, before and after it.
abbrev pub IsGone : RecordType → MdnsRecordSighting → Adverts → Adverts → Type 0
IsGone RecordType.ptr g d e = AreWithdrawn (same_ptr (ptr_key g)) d.mdns_ptr e.mdns_ptr
IsGone RecordType.srv g d e = AreWithdrawn (same_instance (instance_key g)) d.mdns_srv e.mdns_srv
IsGone RecordType.txt g d e = AreWithdrawn (same_instance (instance_key g)) d.mdns_txt e.mdns_txt
IsGone RecordType.host_a g d e =
    AreWithdrawn (same_host (host_key "ipv4" g)) d.mdns_addr e.mdns_addr
IsGone RecordType.host_aaaa g d e =
    AreWithdrawn (same_host (host_key "ipv6" g)) d.mdns_addr e.mdns_addr

process_record-goodbye :
    (t : RecordType) (g : MdnsRecordSighting) (d : Adverts)
    → g.ttl ≡ 0
    → IsGone t g d (process_record t g d)
unfolding process_record withdraw_mdns_ptr withdraw_mdns_srv withdraw_mdns_txt withdraw_mdns_addr
process_record-goodbye RecordType.ptr g d h =
    rw h (withdraw-AreWithdrawn (same_ptr (ptr_key g)) d.mdns_ptr)
process_record-goodbye RecordType.srv g d h =
    rw h (withdraw-AreWithdrawn (same_instance (instance_key g)) d.mdns_srv)
process_record-goodbye RecordType.txt g d h =
    rw h (withdraw-AreWithdrawn (same_instance (instance_key g)) d.mdns_txt)
process_record-goodbye RecordType.host_a g d h =
    rw h (withdraw-AreWithdrawn (same_host (host_key "ipv4" g)) d.mdns_addr)
process_record-goodbye RecordType.host_aaaa g d h =
    rw h (withdraw-AreWithdrawn (same_host (host_key "ipv6" g)) d.mdns_addr)

-- A record whose time to live is 0 withdraws every row of its table that has its key, names compared
-- without regard to the case of letters, and adds no row, so one that was never seen stays unknown.
pub process_mdns_record_sighting-goodbye :
    (g : MdnsRecordSighting) (d : Adverts)
    → g.ttl ≡ 0
    → IsGone g.rtype g d (process_mdns_record_sighting g d)
unfolding process_mdns_record_sighting
process_mdns_record_sighting-goodbye g d h = process_record-goodbye g.rtype g d h
