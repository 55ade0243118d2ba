-- ===== src/Discovery/Message/Bounds.antt =====
-- lanfence/discovery.py: how many records of a message are taken.
use lan_fence.Base.{
  Bool, List, Option, String, [], arith, if-elim, leb, length, ltb, min, none, or_else, some, suc,
  zero, ℕ, ◌++◌, ◌+◌, ◌==◌, ◌∷◌, ◌≡◌, ◌≤◌,
}
use lan_fence.Discovery.Message.{
  Datagram, Parsed, address_of, and_then, labels_to_display, parse_data, parse_mdns_packet,
  parse_record, parse_records, parse_sections, pointer_to, read_u16, read_u32, server_at,
  sighting_of, skip_questions, starts_with, try_mdns_packet,
}
use lan_fence.Discovery.Names.{Label, bytes_at, max_depth, read_name}
use lan_fence.Discovery.Process.{MdnsRecordSighting, RecordType}
use lan_fence.Discovery.Txt.{Decoder}
use lan_fence.Text.{lower}

-- What holds of a value, if there is one.
abbrev pub IfSome {ℓ} : {A : Type ℓ} → (A → Type 0) → Option A → Type 0
IfSome P none = Unit
IfSome P (some a) = P a

pub IfSome-and_then {ℓ κ} :
    {A : Type ℓ} {B : Type κ} (P : B → Type 0) (o : Option A) (f : A → Option B)
    → ((a : A) → IfSome P (f a))
    → IfSome P (and_then o f)
IfSome-and_then P none f h = tt
IfSome-and_then P (some a) f h = h a

IfSome-after {ℓ κ} :
    {A : Type ℓ} {B : Type κ} (Q : A → Type 0) (P : B → Type 0) (o : Option A) (f : A → Option B)
    → IfSome Q o
    → ((a : A) → Q a → IfSome P (f a))
    → IfSome P (and_then o f)
IfSome-after Q P none f k h = tt
IfSome-after Q P (some a) f k h = h a k

-- no more sightings than records, which are at most 64
abbrev pub IsWithin : Parsed → Type 0
IsWithin st = (length st.sightings ≤ st.processed) × (st.processed ≤ 64)

abbrev AtMostOne : List MdnsRecordSighting → Type 0
AtMostOne found = length found ≤ 1

length-append_found : (xs ys : List MdnsRecordSighting) → length (xs ++ ys) ≡ length xs + length ys
length-append_found [] ys = omega arith
length-append_found (x ∷ xs) ys = omega (arith, length-append_found xs ys)

module _ (d : Decoder) (m : List ℕ) (g : Datagram) where
  module _ (ttl : ℕ) (flush : Bool) (owner : List Label) where
    pointer_to-AtMostOne :
        (target : List Label) → AtMostOne (pointer_to d m g ttl flush owner target)
    pointer_to-AtMostOne [] = omega arith
    pointer_to-AtMostOne (l ∷ ls) =
        if-elim AtMostOne
          (starts_with (lower (labels_to_display d owner)) "_services._dns-sd._udp.") _ _
          (λ e. omega arith) (λ e. omega arith)

    server_at-AtMostOne :
        (offset : ℕ) (rdata : List ℕ)
        → IfSome AtMostOne (server_at d m g ttl flush owner offset rdata)
    server_at-AtMostOne offset rdata =
        if-elim (IfSome AtMostOne) (ltb (length rdata) 6) _ _ (λ e. omega arith)
          (λ e. IfSome-and_then AtMostOne (read_u16 rdata 4) _ (λ port.
            IfSome-and_then AtMostOne (read_name max_depth m (offset + 6)) _ (λ t. omega arith)))

    address_of-AtMostOne :
        (rtype : RecordType) (size : ℕ) (show_address : List ℕ → String) (rdata : List ℕ)
        → AtMostOne (address_of d m g ttl flush owner rtype size show_address rdata)
    address_of-AtMostOne rtype size show_address rdata =
        if-elim AtMostOne (length rdata == size) _ _ (λ e. omega arith) (λ e. omega arith)

    sighting_of-AtMostOne :
        (rtype offset : ℕ) (rdata : List ℕ)
        → IfSome AtMostOne (sighting_of d m g ttl flush owner rtype offset rdata)
    sighting_of-AtMostOne rtype offset rdata =
        if-elim (IfSome AtMostOne) (rtype == 12) _ _
          (λ e.
            IfSome-and_then AtMostOne (read_name max_depth m offset) _
              (λ t. pointer_to-AtMostOne t.0))
          (λ e.
            if-elim (IfSome AtMostOne) (rtype == 33) _ _ (λ x. server_at-AtMostOne offset rdata)
              (λ x.
                if-elim (IfSome AtMostOne) (rtype == 16) _ _ (λ y. omega arith)
                  (λ y.
                    if-elim (IfSome AtMostOne) (rtype == 1) _ _
                      (λ z. address_of-AtMostOne RecordType.host_a 4 d.ipv4_text rdata)
                      (λ z.
                        if-elim (IfSome AtMostOne) (rtype == 28) _ _
                          (λ w. address_of-AtMostOne RecordType.host_aaaa 16 d.ipv6_text rdata)
                          (λ w. omega arith)))))

  parse_data-IsWithin :
      (owner : List Label) (at rtype rrclass ttl rdlength : ℕ) (st : Parsed)
      → IsWithin st
      → st.processed ≤ 63
      → IfSome IsWithin (parse_data d m g owner at rtype rrclass ttl rdlength st)
  parse_data-IsWithin owner at rtype rrclass ttl rdlength st h k =
      if-elim (IfSome IsWithin) (ltb (length m) (at + 10 + rdlength)) _ _ (λ e. tt)
        (λ e.
          IfSome-after AtMostOne IsWithin _ _
            (sighting_of-AtMostOne ttl (leb 32768 rrclass) owner rtype (at + 10)
              (bytes_at (at + 10) rdlength m))
            (λ found one.
              (omega (arith, length-append_found st.sightings found, one, h.0), omega (arith, k))))

  parse_record-IsWithin :
      (st : Parsed) → IsWithin st → st.processed ≤ 63 → IfSome IsWithin (parse_record d m g st)
  unfolding parse_record
  parse_record-IsWithin st h k =
      IfSome-and_then IsWithin (read_name max_depth m st.offset) _ (λ name.
        IfSome-and_then IsWithin (read_u16 m name.1) _ (λ rtype.
          IfSome-and_then IsWithin (read_u16 m (name.1 + 2)) _ (λ rrclass.
            IfSome-and_then IsWithin (read_u32 m (name.1 + 4)) _ (λ ttl.
              IfSome-and_then IsWithin (read_u16 m (name.1 + 8)) _ (λ rdlength.
                parse_data-IsWithin name.0 name.1 rtype rrclass ttl rdlength st h k)))))

  parse_records-IsWithin :
      (n : ℕ) (st : Parsed) → IsWithin st → IfSome IsWithin (parse_records d m g n st)
  unfolding parse_records
  parse_records-IsWithin zero st h = h
  parse_records-IsWithin (suc n) st h =
      if-elim (IfSome IsWithin) (leb 64 st.processed) _ _ (λ e. h)
        (λ e.
          IfSome-after IsWithin IsWithin (parse_record d m g st) (parse_records d m g n)
            (parse_record-IsWithin st h (ground arith)) (parse_records-IsWithin n))

  parse_sections-IsWithin : (offset : ℕ) → IfSome IsWithin (parse_sections d m g offset)
  parse_sections-IsWithin offset = IfSome-and_then IsWithin (read_u16 m 6) _ (λ ancount.
      IfSome-and_then IsWithin (read_u16 m 8) _ (λ nscount.
        IfSome-and_then IsWithin (read_u16 m 10) _ (λ arcount.
          IfSome-after IsWithin IsWithin _ _
            (parse_records-IsWithin (min ancount 64)
              (record { offset = offset; processed = 0; sightings = [] })
              (omega arith, omega arith))
            (λ a k.
              IfSome-after IsWithin IsWithin _ _ (parse_records-IsWithin (min nscount 64) a k)
                (parse_records-IsWithin (min arcount 64))))))

  abbrev AtMost64 : List MdnsRecordSighting → Type 0
  AtMost64 found = length found ≤ 64

  try_mdns_packet-AtMost64 : IfSome AtMost64 (try_mdns_packet d m g)
  unfolding try_mdns_packet
  try_mdns_packet-AtMost64 = IfSome-and_then AtMost64 (read_u16 m 2) _ (λ flags.
      if-elim (IfSome AtMost64) (leb 32768 flags) _ _
        (λ e. IfSome-and_then AtMost64 (read_u16 m 4) _ (λ qdcount.
          IfSome-and_then AtMost64 (skip_questions m (min qdcount 64) 12) _ (λ offset.
            IfSome-after IsWithin AtMost64 (parse_sections d m g offset) _
              (parse_sections-IsWithin offset) (λ st k. omega (arith, k)))))
        (λ e. omega arith))

  or_none : (o : Option (List MdnsRecordSighting)) → IfSome AtMost64 o → AtMost64 (or_else o [])
  or_none none h = omega arith
  or_none (some found) h = h

  -- Whatever counts a datagram claims, and however its names, pointers and records are made, at most
  -- 64 sightings come of it.
  pub parse_mdns_packet-bound : length (parse_mdns_packet d m g) ≤ 64
  unfolding parse_mdns_packet
  parse_mdns_packet-bound =
      if-elim AtMost64 (ltb (length m) 12) _ _ (λ e. omega arith)
        (λ e. or_none (try_mdns_packet d m g) try_mdns_packet-AtMost64)
