-- ===== src/Discovery/Process/Flush.antt =====
-- lanfence/discovery.py: a set of addresses that replaces another.
use lan_fence.Base.{
  All, List, [], arith, false, if◌then◌else◌, some, str_eq, true, ℕ, ◌+◌, ◌∷◌, ◌≡◌, ◌≤◌, ◌⊎◌,
}
use lan_fence.Store.Adverts.{
  Advert, Adverts, HostKey, fresh, is_flushed, prune_expired, record_mdns_addr, same_host, same_set,
  seconds, upsert_row, withdraw,
}
use lan_fence.Store.Adverts.Bounded.{All-prune_rows}

-- A row that is not withdrawn, and is of the set of `key`, is that address or is not a second old.
abbrev pub IsCurrentSet : HostKey → ℕ → Advert HostKey ℕ → Type 0
IsCurrentSet key seen_at r =
    same_set key r.key ≡ true
    → r.withdrawn ≡ false
    → (str_eq r.key.ip key.ip ≡ true) ⊎ (seen_at ≤ r.last_seen + seconds 1)

flush_row :
    (key : HostKey) (seen_at : ℕ) (r : Advert HostKey ℕ)
    → IsCurrentSet key seen_at
        (if is_flushed key seen_at r then record r { withdrawn = true } else r)
flush_row key seen_at r s w = ground arith

withdraw-IsCurrentSet :
    (key : HostKey) (seen_at : ℕ) (rows : List (Advert HostKey ℕ))
    → All (IsCurrentSet key seen_at) (withdraw (is_flushed key seen_at) rows)
unfolding withdraw
withdraw-IsCurrentSet key seen_at [] = tt
withdraw-IsCurrentSet key seen_at (r ∷ rs) =
    (flush_row key seen_at r, withdraw-IsCurrentSet key seen_at rs)

-- After an address record that asks to flush the cache, each address of the same name, interface and
-- family that is not withdrawn is the one of the record, or was seen in the second before it.
pub record_mdns_addr-IsCurrentSet :
    (key : HostKey) (ttl seen_at : ℕ) (d : Adverts)
    → All (IsCurrentSet key seen_at) (record_mdns_addr key ttl seen_at true d).mdns_addr
unfolding record_mdns_addr prune_expired
record_mdns_addr-IsCurrentSet key ttl seen_at d =
    All-prune_rows (IsCurrentSet key seen_at) d.max_rows seen_at _ (
      withdraw-IsCurrentSet key seen_at
        (upsert_row same_host (fresh key ttl seen_at (some (seen_at + seconds ttl))) d.mdns_addr))
