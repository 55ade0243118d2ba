-- ===== src/Witnesses/Messages.antt =====
-- Messages of mDNS, byte for byte.
use Prim.Native.String.{slice}
use lan_fence.Base.{List, String, [], if◌then◌else◌, length, none, some, ℕ, ◌-◌, ◌==◌, ◌∷◌, ◌≤◌}
use lan_fence.Discovery.Message.{Datagram, parse_mdns_packet}
use lan_fence.Discovery.Message.Bounds.{IfSome, parse_mdns_packet-bound}
use lan_fence.Discovery.Ssdp.{parse_ssdp_packet}
use lan_fence.Discovery.Ssdp.Expiry.{IsUsable, parse_ssdp_packet-IsUsable}
use lan_fence.Discovery.Txt.{Decoder, parse_txt_rdata}
use lan_fence.Discovery.Txt.Bounds.{IsSmall, parse_txt_rdata-IsSmall}
use lan_fence.Text.{show, ◌+++◌}

abbrev printable : String
printable =
    " !\"#$%&'()*+,-./0123456789:;<=>?@ABCDEFGHIJKLMNOPQRSTUVWXYZ[\\]^_`abcdefghijklmnopqrstuvwxyz{|}~"

-- the decoding of printable ASCII characters and of line breaks
abbrev ascii : List ℕ → String
ascii [] = ""
ascii (b ∷ bs) = (if b == 10 then "\n" else slice printable (b - 32) (b - 31)) +++ ascii bs

abbrev dotted : List ℕ → String
dotted [] = ""
dotted (b ∷ []) = show b
dotted (b ∷ bs) = show b +++ "." +++ dotted bs

abbrev letters : Decoder
letters = record { decode_utf8 = ascii; ipv4_text = dotted; ipv6_text = dotted }

-- "md=tv", "x=y", and a string that claims more than there is
abbrev txt_data : List ℕ
txt_data = 5 ∷ 109 ∷ 100 ∷ 61 ∷ 116 ∷ 118 ∷ 3 ∷ 120 ∷ 61 ∷ 121 ∷ 9 ∷ 97 ∷ []

parse_txt_rdata-IsSmall_example : IsSmall (parse_txt_rdata letters txt_data)
parse_txt_rdata-IsSmall_example = parse_txt_rdata-IsSmall letters txt_data

-- a response with one record, the address of the host "a"
abbrev response : List ℕ
response =
    0 ∷ 0 ∷ 132 ∷ 0 ∷ 0 ∷ 0 ∷ 0 ∷ 1 ∷ 0 ∷ 0 ∷ 0 ∷ 0 ∷ 1 ∷ 97 ∷ 0 ∷ 0 ∷ 1 ∷ 128 ∷ 1 ∷ 0 ∷ 0 ∷ 0 ∷ 120
    ∷ 0 ∷ 4 ∷ 10 ∷ 0 ∷ 0 ∷ 9 ∷ []

abbrev from_eth0 : Datagram
from_eth0 = record {
  interface = "eth0";
  source_ip = some "10.0.0.9";
  source_mac = none;
  family = some "ipv4";
  seen_at = 5;
}

parse_mdns_packet-bound_example : length (parse_mdns_packet letters response from_eth0) ≤ 64
parse_mdns_packet-bound_example = parse_mdns_packet-bound letters response from_eth0

-- a NOTIFY of "uuid:7" that would expire after a second
abbrev notify : List ℕ
notify =
    78 ∷ 79 ∷ 84 ∷ 73 ∷ 70 ∷ 89 ∷ 32 ∷ 42 ∷ 32 ∷ 72 ∷ 84 ∷ 84 ∷ 80 ∷ 47 ∷ 49 ∷ 46 ∷ 49 ∷ 10 ∷ 78
    ∷ 84 ∷ 83 ∷ 58 ∷ 32 ∷ 115 ∷ 115 ∷ 100 ∷ 112 ∷ 58 ∷ 97 ∷ 108 ∷ 105 ∷ 118 ∷ 101 ∷ 10 ∷ 85 ∷ 83
    ∷ 78 ∷ 58 ∷ 32 ∷ 117 ∷ 117 ∷ 105 ∷ 100 ∷ 58 ∷ 55 ∷ 10 ∷ 67 ∷ 65 ∷ 67 ∷ 72 ∷ 69 ∷ 45 ∷ 67 ∷ 79
    ∷ 78 ∷ 84 ∷ 82 ∷ 79 ∷ 76 ∷ 58 ∷ 32 ∷ 109 ∷ 97 ∷ 120 ∷ 45 ∷ 97 ∷ 103 ∷ 101 ∷ 61 ∷ 49 ∷ 10 ∷ []

parse_ssdp_packet-IsUsable_example : IfSome IsUsable (parse_ssdp_packet letters from_eth0 notify)
parse_ssdp_packet-IsUsable_example = parse_ssdp_packet-IsUsable letters from_eth0 notify
