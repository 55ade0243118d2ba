-- ===== src/Store/Evidence/Bounds.antt =====
-- The cap on the evidence of one device.
use lan_fence.Base.{
  List, String, [], arith, if◌then◌else◌, length, length-take, lookup, lookup-upsert, map, or_else,
  refl, sort_desc, ℕ, ◌∷◌, ◌≡◌, ◌≤◌,
}
use lan_fence.Models.Device.{AssociationKind, Ip, NameSource, Source}
use lan_fence.Store.Evidence.{
  fold_address, fold_name, new_address, new_name, record_address_evidence, record_name_evidence,
  same_address, same_name, widen_address, widen_name,
}
use lan_fence.Store.State.{AddressRow, NameRow, Store}
use lan_fence.Text.{strip}

-- The evidence lists of each device are no longer than the cap.
pub record IsCapped (s : Store) : Type 0 where
  pub addresses : (m : String) → length (or_else (lookup m s.addresses) []) ≤ s.max_evidence_rows
  pub names : (m : String) → length (or_else (lookup m s.names) []) ≤ s.max_evidence_rows

length-map {ℓ κ} :
    {A : Type ℓ} {B : Type κ} (f : A → B) (xs : List A) → length (map f xs) ≡ length xs
length-map f [] = refl
length-map f (x ∷ xs) = omega (arith, length-map f xs)

length-fold_address :
    (cap : ℕ) (new : AddressRow) (rows : List AddressRow)
    → length rows ≤ cap
    → length (fold_address cap new rows) ≤ cap
unfolding fold_address
length-fold_address cap new rows h = ground (
  arith,
  length-map
      (λ (r : AddressRow).
        if same_address new.ip new.interface new.source r then widen_address new.last_seen r else r)
      rows,
  length-take cap (sort_desc (λ (r : AddressRow). r.last_seen) (new ∷ rows)),
)

length-fold_name :
    (cap : ℕ) (new : NameRow) (rows : List NameRow)
    → length rows ≤ cap
    → length (fold_name cap new rows) ≤ cap
unfolding fold_name
length-fold_name cap new rows h = ground (
  arith,
  length-map (λ (r : NameRow). if same_name new r then widen_name new r else r) rows,
  length-take cap (sort_desc (λ (r : NameRow). r.last_seen) (new ∷ rows)),
)

pub record_address_evidence-IsCapped :
    (mac : String) (ip : Ip) (interface : String) (source : Source) (kind : AssociationKind) (t : ℕ)
    (s : Store)
    → IsCapped s
    → IsCapped (record_address_evidence mac ip interface source kind t s)
unfolding record_address_evidence
record_address_evidence-IsCapped mac ip interface source kind t s h =
    let rows : List AddressRow = or_else (lookup mac s.addresses) [] in
    let new = new_address ip interface source kind t in
    record {
      addresses = λ m. ground (
        arith,
        lookup-upsert mac m (fold_address s.max_evidence_rows new rows) s.addresses,
        length-fold_address s.max_evidence_rows new rows (h.addresses mac),
        h.addresses m,
      );
      names = λ m. ground (arith, h.names m);
    }

pub record_name_evidence-IsCapped :
    (mac name : String) (source : NameSource) (ip interface : String) (t : ℕ) (s : Store)
    → IsCapped s
    → IsCapped (record_name_evidence mac name source ip interface t s)
unfolding record_name_evidence
record_name_evidence-IsCapped mac name source ip interface t s h =
    let rows : List NameRow = or_else (lookup mac s.names) [] in
    let new = new_name (strip name) source ip interface t in
    record {
      addresses = λ m. ground (arith, h.addresses m);
      names = λ m. ground (
        arith,
        lookup-upsert mac m (fold_name s.max_evidence_rows new rows) s.names,
        length-fold_name s.max_evidence_rows new rows (h.names mac),
        h.names m,
      );
    }
