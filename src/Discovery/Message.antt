-- ===== src/Discovery/Message.antt =====
-- lanfence/discovery.py: the records of an mDNS message.
pub mod Bounds
use Prim.Native.Char.{code}
use lan_fence.Base.{
  Bool, List, Option, String, [], false, if◌then◌else◌, leb, length, ltb, min, none, or_else, some,
  suc, true, zero, ℕ, ◌*◌, ◌++◌, ◌+◌, ◌==◌, ◌∷◌,
}
use lan_fence.Discovery.Names.{Label, byte_at, bytes_at, max_depth, read_name}
use lan_fence.Discovery.Process.{MdnsRecordSighting, RecordType}
use lan_fence.Discovery.Txt.{Decoder, parse_txt_rdata}
use lan_fence.Sanitize.{clean_text}
use lan_fence.Text.{lower, ◌+++◌}

-- A _ParseError ends the parsing.
abbrev pub and_then {ℓ κ} : {A : Type ℓ} {B : Type κ} → Option A → (A → Option B) → Option B
and_then none f = none
and_then (some a) f = f a

-- the metadata of a capture
pub record Datagram : Type 0 where
  pub interface : String
  pub source_ip : Option String
  pub source_mac : Option String
  pub family : Option String
  pub seen_at : ℕ

unfoldable pub read_u16 : List ℕ → ℕ → Option ℕ
read_u16 m offset =
    and_then (byte_at offset m) (λ h. and_then (byte_at (offset + 1) m) (λ l. some (h * 256 + l)))

unfoldable pub read_u32 : List ℕ → ℕ → Option ℕ
unfolding read_u16
read_u32 m offset =
    and_then (read_u16 m offset)
      (λ h. and_then (read_u16 m (offset + 2)) (λ l. some (h * 65536 + l)))

-- `s.startswith(prefix)`
unfoldable pub starts_with : String → String → Bool
starts_with s String.[] = true
starts_with String.[] (String.◌∷◌ p prefix) = false
starts_with (String.◌∷◌ c s) (String.◌∷◌ p prefix) =
    let rest = starts_with s prefix in if code c == code p then rest else false

module _ (d : Decoder) where
  unfoldable pub decode_label : Label → String
  decode_label l = clean_text 256 (d.decode_utf8 l)

  unfoldable pub labels_to_display : List Label → String
  labels_to_display [] = ""
  labels_to_display (l ∷ []) = decode_label l
  labels_to_display (l ∷ ls) = decode_label l +++ "." +++ labels_to_display ls

  -- a record without the fields of its type
  abbrev pub bare : RecordType → ℕ → Bool → Datagram → MdnsRecordSighting
  bare rtype ttl cache_flush g = record {
    rtype = rtype;
    ttl = ttl;
    cache_flush = cache_flush;
    interface = g.interface;
    source_ip = g.source_ip;
    source_mac = g.source_mac;
    family = g.family;
    seen_at = g.seen_at;
    service_type = "";
    instance_name = "";
    fq_instance = "";
    target_host = "";
    target_port = 0;
    attributes = [];
    address_owner = "";
    address = "";
  }

  -- What the record of a type yields: at most one sighting, or a _ParseError.
  abbrev pub Yield : Type 0
  Yield = Option (List MdnsRecordSighting)

  module _ (m : List ℕ) (g : Datagram) (ttl : ℕ) (flush : Bool) (owner : List Label) where
    abbrev pub pointer_to : List Label → List MdnsRecordSighting
    pointer_to [] = []
    pointer_to (l ∷ ls) =
        if starts_with (lower (labels_to_display owner)) "_services._dns-sd._udp."
        then []
        else record (bare RecordType.ptr ttl flush g) {
          service_type = labels_to_display owner;
          instance_name = decode_label l;
          fq_instance = labels_to_display (l ∷ ls);
        }
          ∷ []

    abbrev pub server_at : ℕ → List ℕ → Yield
    server_at offset rdata =
        if ltb (length rdata) 6
        then some []
        else and_then (read_u16 rdata 4) (λ number.
          and_then (read_name max_depth m (offset + 6)) (λ target. some (
            record (bare RecordType.srv ttl flush g) {
              fq_instance = labels_to_display owner;
              target_host = labels_to_display target.0;
              target_port = number;
            }
            ∷ [])))

    abbrev pub address_of : RecordType → ℕ → (List ℕ → String) → List ℕ → List MdnsRecordSighting
    address_of rtype size show_address rdata =
        if length rdata == size
        then record (bare rtype ttl flush g) {
          address_owner = labels_to_display owner;
          address = show_address rdata;
        }
          ∷ []
        else []

    -- the branches on the type of the record
    abbrev pub sighting_of : ℕ → ℕ → List ℕ → Yield
    sighting_of rtype offset rdata =
        if rtype == 12
        then and_then (read_name max_depth m offset) (λ target. some (pointer_to target.0))
        else if rtype == 33
        then server_at offset rdata
        else if rtype == 16
        then some (
            record (bare RecordType.txt ttl flush g) {
              fq_instance = labels_to_display owner;
              attributes = parse_txt_rdata d rdata;
            }
            ∷ [])
        else if rtype == 1
        then some (address_of RecordType.host_a 4 d.ipv4_text rdata)
        else if rtype == 28
        then some (address_of RecordType.host_aaaa 16 d.ipv6_text rdata)
        else some []

-- `offset`, `processed` and `sightings`
pub record Parsed : Type 0 where
  pub offset : ℕ
  pub processed : ℕ
  pub sightings : List MdnsRecordSighting

unfoldable pub skip_question : List ℕ → ℕ → Option ℕ
skip_question m offset =
    and_then (read_name max_depth m offset)
      (λ r. let next = r.1 + 4 in if ltb (length m) next then none else some next)

unfoldable pub skip_questions : List ℕ → ℕ → ℕ → Option ℕ
skip_questions m zero offset = some offset
skip_questions m (suc n) offset = and_then (skip_question m offset) (skip_questions m n)

module _ (d : Decoder) (m : List ℕ) (g : Datagram) where
  -- the data of a record whose fixed part stands at `at`
  abbrev pub parse_data : List Label → ℕ → ℕ → ℕ → ℕ → ℕ → Parsed → Option Parsed
  parse_data owner at rtype rrclass ttl rdlength st =
      let rdata_offset = at + 10 in
      let rdata = bytes_at rdata_offset rdlength m in
      if ltb (length m) (rdata_offset + rdlength)
      then none
      else and_then (sighting_of d m g ttl (leb 32768 rrclass) owner rtype rdata_offset rdata)
          (λ found. some (record {
            offset = rdata_offset + rdlength;
            processed = st.processed + 1;
            sightings = st.sightings ++ found;
          }))

  -- one pass of the loop over the records of a section
  unfoldable pub parse_record : Parsed → Option Parsed
  parse_record st = and_then (read_name max_depth m st.offset) (λ name.
      and_then (read_u16 m name.1) (λ rtype. and_then (read_u16 m (name.1 + 2)) (λ rrclass.
        and_then (read_u32 m (name.1 + 4)) (λ ttl.
          and_then (read_u16 m (name.1 + 8))
            (λ rdlength. parse_data name.0 name.1 rtype rrclass ttl rdlength st)))))

  unfoldable pub parse_records : ℕ → Parsed → Option Parsed
  parse_records zero st = some st
  parse_records (suc n) st =
      if leb 64 st.processed then some st else and_then (parse_record st) (parse_records n)

  abbrev pub parse_section : ℕ → Parsed → Option Parsed
  parse_section count st = parse_records (min count 64) st

  -- the three sections; the counts stand in the header
  abbrev pub parse_sections : ℕ → Option Parsed
  parse_sections offset = and_then (read_u16 m 6) (λ ancount. and_then (read_u16 m 8) (λ nscount.
      and_then (read_u16 m 10) (λ arcount.
        and_then (parse_section ancount (record { offset = offset; processed = 0; sightings = [] }))
          (λ a. and_then (parse_section nscount a) (parse_section arcount)))))

  -- `_parse_mdns_packet`; bit 15 of the flags tells a response
  unfoldable pub try_mdns_packet : Option (List MdnsRecordSighting)
  try_mdns_packet = and_then (read_u16 m 2) (λ flags.
      if leb 32768 flags
      then and_then (read_u16 m 4) (λ qdcount.
        and_then (skip_questions m (min qdcount 64) 12)
          (λ offset. and_then (parse_sections offset) (λ st. some st.sightings)))
      else some [])

  -- `parse_mdns_packet`: a datagram that is malformed anywhere yields nothing
  unfoldable pub parse_mdns_packet : List MdnsRecordSighting
  parse_mdns_packet = if ltb (length m) 12 then [] else or_else try_mdns_packet []
