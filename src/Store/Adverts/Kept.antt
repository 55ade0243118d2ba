-- ===== src/Store/Adverts/Kept.antt =====
-- lanfence/db.py: the tables of advertised services have unique keys and keep within their cap.
use lan_fence.Base.{Bool, List, String, arith, eq_iff, length, refl, str_eq, ℕ, ◌≡◌, ◌≤◌}
use lan_fence.Store.Adverts.{
  Advert, Adverts, HostKey, InstanceKey, PtrContent, PtrKey, SrvContent, SsdpContent, SsdpKey,
  TxtContent, prune_expired, prune_rows, same_host, same_instance, same_ptr, same_usn, upsert_row,
  withdraw,
}
use lan_fence.Store.Adverts.Bounded.{length-prune_rows, length-withdraw}
use lan_fence.Store.Adverts.Keyed.{
  IsUnique, prune_rows-IsUnique, upsert_row-IsUnique, withdraw-IsUnique,
}
use lan_fence.Text.{lower}

-- the rows have different keys, and there are no more than the cap allows
abbrev pub IsTable : {K A : Type 0} → (K → K → Bool) → ℕ → List (Advert K A) → Type 0
IsTable same cap rows = IsUnique same rows × (length rows ≤ cap)

pub record IsKept (d : Adverts) : Type 0 where
  pub ptr_kept : IsTable same_ptr d.max_rows d.mdns_ptr
  pub srv_kept : IsTable same_instance d.max_rows d.mdns_srv
  pub txt_kept : IsTable same_instance d.max_rows d.mdns_txt
  pub addr_kept : IsTable same_host d.max_rows d.mdns_addr
  pub ssdp_kept : IsTable same_usn d.max_rows d.ssdp_advertisements

str_eq_comm : (x y : String) → str_eq x y ≡ str_eq y x
str_eq_comm x y = ground (arith, eq_iff x y, eq_iff y x)

same_ptr_comm : (x y : PtrKey) → same_ptr x y ≡ same_ptr y x
same_ptr_comm x y =
    rw
      (
        str_eq_comm x.interface y.interface,
        str_eq_comm (lower x.service_type) (lower y.service_type),
        str_eq_comm (lower x.fq_instance) (lower y.fq_instance),
      )
      refl

same_instance_comm : (x y : InstanceKey) → same_instance x y ≡ same_instance y x
same_instance_comm x y =
    rw
      (str_eq_comm x.interface y.interface, str_eq_comm (lower x.fq_instance) (lower y.fq_instance))
      refl

pub same_host_comm : (x y : HostKey) → same_host x y ≡ same_host y x
same_host_comm x y =
    rw
      (
        str_eq_comm x.interface y.interface,
        str_eq_comm (lower x.target_host) (lower y.target_host),
        str_eq_comm x.family y.family,
        str_eq_comm x.ip y.ip,
      )
      refl

same_usn_comm : (x y : SsdpKey) → same_usn x y ≡ same_usn y x
same_usn_comm x y = rw (str_eq_comm x.interface y.interface, str_eq_comm x.usn y.usn) refl

module _ {K A : Type 0} (same : K → K → Bool) (cap : ℕ) where
  pub prune_rows-IsTable :
      (as_of : ℕ) (rows : List (Advert K A))
      → IsUnique same rows
      → IsTable same cap (prune_rows cap as_of rows)
  prune_rows-IsTable as_of rows h =
      (prune_rows-IsUnique same cap as_of rows h, length-prune_rows cap as_of rows)

  pub withdraw-IsTable :
      (p : Advert K A → Bool) (rows : List (Advert K A))
      → IsTable same cap rows
      → IsTable same cap (withdraw p rows)
  withdraw-IsTable p rows h =
      (withdraw-IsUnique same p rows h.0, omega (arith, length-withdraw p rows, h.1))

pub prune_expired-IsKept :
    (as_of : ℕ) (d : Adverts)
    → IsUnique same_ptr d.mdns_ptr
    → IsUnique same_instance d.mdns_srv
    → IsUnique same_instance d.mdns_txt
    → IsUnique same_host d.mdns_addr
    → IsUnique same_usn d.ssdp_advertisements
    → IsKept (prune_expired as_of d)
unfolding prune_expired
prune_expired-IsKept as_of d h i j k l = record {
  ptr_kept = prune_rows-IsTable same_ptr d.max_rows as_of _ h;
  srv_kept = prune_rows-IsTable same_instance d.max_rows as_of _ i;
  txt_kept = prune_rows-IsTable same_instance d.max_rows as_of _ j;
  addr_kept = prune_rows-IsTable same_host d.max_rows as_of _ k;
  ssdp_kept = prune_rows-IsTable same_usn d.max_rows as_of _ l;
}

module _ (d : Adverts) (h : IsKept d) where
  pub ptr_update-IsKept :
      (rows : List (Advert PtrKey PtrContent))
      → IsTable same_ptr d.max_rows rows
      → IsKept (record d { mdns_ptr = rows })
  ptr_update-IsKept rows k = record {
    ptr_kept = k;
    srv_kept = h.srv_kept;
    txt_kept = h.txt_kept;
    addr_kept = h.addr_kept;
    ssdp_kept = h.ssdp_kept;
  }

  pub put_ptr-IsKept :
      (seen_at : ℕ) (row : Advert PtrKey PtrContent)
      → IsKept (prune_expired seen_at (record d { mdns_ptr = upsert_row same_ptr row d.mdns_ptr }))
  put_ptr-IsKept seen_at row =
      prune_expired-IsKept seen_at (record d { mdns_ptr = upsert_row same_ptr row d.mdns_ptr })
        (upsert_row-IsUnique same_ptr same_ptr_comm row d.mdns_ptr h.ptr_kept.0) h.srv_kept.0
        h.txt_kept.0 h.addr_kept.0 h.ssdp_kept.0

  pub srv_update-IsKept :
      (rows : List (Advert InstanceKey SrvContent))
      → IsTable same_instance d.max_rows rows
      → IsKept (record d { mdns_srv = rows })
  srv_update-IsKept rows k = record {
    ptr_kept = h.ptr_kept;
    srv_kept = k;
    txt_kept = h.txt_kept;
    addr_kept = h.addr_kept;
    ssdp_kept = h.ssdp_kept;
  }

  pub put_srv-IsKept :
      (seen_at : ℕ) (row : Advert InstanceKey SrvContent)
      → IsKept
          (prune_expired seen_at (record d { mdns_srv = upsert_row same_instance row d.mdns_srv }))
  put_srv-IsKept seen_at row =
      prune_expired-IsKept seen_at (record d { mdns_srv = upsert_row same_instance row d.mdns_srv })
        h.ptr_kept.0
        (upsert_row-IsUnique same_instance same_instance_comm row d.mdns_srv h.srv_kept.0)
        h.txt_kept.0 h.addr_kept.0 h.ssdp_kept.0

  pub txt_update-IsKept :
      (rows : List (Advert InstanceKey TxtContent))
      → IsTable same_instance d.max_rows rows
      → IsKept (record d { mdns_txt = rows })
  txt_update-IsKept rows k = record {
    ptr_kept = h.ptr_kept;
    srv_kept = h.srv_kept;
    txt_kept = k;
    addr_kept = h.addr_kept;
    ssdp_kept = h.ssdp_kept;
  }

  pub put_txt-IsKept :
      (seen_at : ℕ) (row : Advert InstanceKey TxtContent)
      → IsKept
          (prune_expired seen_at (record d { mdns_txt = upsert_row same_instance row d.mdns_txt }))
  put_txt-IsKept seen_at row =
      prune_expired-IsKept seen_at (record d { mdns_txt = upsert_row same_instance row d.mdns_txt })
        h.ptr_kept.0 h.srv_kept.0
        (upsert_row-IsUnique same_instance same_instance_comm row d.mdns_txt h.txt_kept.0)
        h.addr_kept.0 h.ssdp_kept.0

  pub addr_update-IsKept :
      (rows : List (Advert HostKey ℕ))
      → IsTable same_host d.max_rows rows
      → IsKept (record d { mdns_addr = rows })
  addr_update-IsKept rows k = record {
    ptr_kept = h.ptr_kept;
    srv_kept = h.srv_kept;
    txt_kept = h.txt_kept;
    addr_kept = k;
    ssdp_kept = h.ssdp_kept;
  }

  pub put_addr-IsKept :
      (seen_at : ℕ) (row : Advert HostKey ℕ)
      → IsKept
          (prune_expired seen_at (record d { mdns_addr = upsert_row same_host row d.mdns_addr }))
  put_addr-IsKept seen_at row =
      prune_expired-IsKept seen_at (record d { mdns_addr = upsert_row same_host row d.mdns_addr })
        h.ptr_kept.0 h.srv_kept.0 h.txt_kept.0
        (upsert_row-IsUnique same_host same_host_comm row d.mdns_addr h.addr_kept.0) h.ssdp_kept.0

  pub ssdp_update-IsKept :
      (rows : List (Advert SsdpKey SsdpContent))
      → IsTable same_usn d.max_rows rows
      → IsKept (record d { ssdp_advertisements = rows })
  ssdp_update-IsKept rows k = record {
    ptr_kept = h.ptr_kept;
    srv_kept = h.srv_kept;
    txt_kept = h.txt_kept;
    addr_kept = h.addr_kept;
    ssdp_kept = k;
  }

  pub put_ssdp-IsKept :
      (seen_at : ℕ) (row : Advert SsdpKey SsdpContent)
      → IsKept (
          prune_expired seen_at
            (record d { ssdp_advertisements = upsert_row same_usn row d.ssdp_advertisements }))
  put_ssdp-IsKept seen_at row =
      prune_expired-IsKept seen_at
        (record d { ssdp_advertisements = upsert_row same_usn row d.ssdp_advertisements })
        h.ptr_kept.0 h.srv_kept.0 h.txt_kept.0 h.addr_kept.0
        (upsert_row-IsUnique same_usn same_usn_comm row d.ssdp_advertisements h.ssdp_kept.0)
