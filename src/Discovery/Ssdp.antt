-- ===== src/Discovery/Ssdp.antt =====
-- lanfence/discovery.py: the parsing of SSDP messages.
pub mod Expiry
use Prim.Native.Char.{Char, code}
use lan_fence.Base.{
  Bool, List, Option, String, Table, [], coalesce, elem, if◌then◌else◌, leb, length, lookup, ltb,
  max, min, none, not, or_else, or_empty, some, some_and, str_eq, suc, take, true, truthy, zero, ℕ,
  ◌&&◌, ◌*◌, ◌++◌, ◌+◌, ◌-◌, ◌==◌, ◌||◌, ◌∷◌,
}
use lan_fence.Discovery.Message.{Datagram, and_then, starts_with}
use lan_fence.Discovery.Process.{MessageType, SsdpSighting, alive, byebye, response, updated}
use lan_fence.Discovery.Txt.{Decoder}
use lan_fence.Sanitize.{clean_text}
use lan_fence.Text.{has_char, lower, strip, upper}

abbrev pub prepend : Char → List String → List String
prepend c [] = String.◌∷◌ c "" ∷ []
prepend c (l ∷ ls) = String.◌∷◌ c l ∷ ls

-- `text.replace("\r\n", "\n").split("\n")`
unfoldable pub split_lines : String → List String
split_lines String.[] = "" ∷ []
split_lines (String.◌∷◌ c s) =
    let rest = split_lines s in
    if code c == 10
    then "" ∷ rest
    else if code c == 13 && starts_with s "\n"
    then rest
    else prepend c rest

-- `line.partition(":")` without the separator
unfoldable pub before_colon : String → String
before_colon String.[] = ""
before_colon (String.◌∷◌ c s) =
    let rest = before_colon s in if code c == 58 then "" else String.◌∷◌ c rest

unfoldable pub after_colon : String → String
after_colon String.[] = ""
after_colon (String.◌∷◌ c s) = let rest = after_colon s in if code c == 58 then s else rest

abbrev pub ssdp_identity_headers : List String
ssdp_identity_headers = "usn" ∷ "nt" ∷ "st" ∷ []

-- a header that is there already: the first value stays, unless the identity is ambiguous
abbrev pub again : String → String → Table String → Option String → Option (Table String)
again key value headers none = some (headers ++ (key, value) ∷ [])
again key value headers (some old) =
    if elem key ssdp_identity_headers && not (str_eq old value) then none else some headers

abbrev pub add_field : String → String → Table String → Option (Table String)
add_field key value headers =
    if str_eq key "" then some headers else again key value headers (lookup key headers)

abbrev pub add_header : String → Table String → Option (Table String)
add_header line headers =
    if has_char 58 line
    then add_field (lower (strip (before_colon line))) (clean_text 512 (strip (after_colon line)))
        headers
    else some headers

-- `_parse_ssdp_headers`, of the lines that are left
unfoldable pub parse_ssdp_headers : List String → Table String → Option (Table String)
parse_ssdp_headers [] headers = some headers
parse_ssdp_headers (line ∷ lines) headers =
    and_then (add_header line headers) (parse_ssdp_headers lines)

abbrev pub is_digit : ℕ → Bool
is_digit c = leb 48 c && leb c 57

-- `str.isdigit`, of ASCII digits
unfoldable pub all_digits : String → Bool
all_digits String.[] = true
all_digits (String.◌∷◌ c s) = is_digit (code c) && all_digits s

-- the number that a text begins with, after what was read of it
unfoldable pub number_from : Option ℕ → String → Option ℕ
number_from read String.[] = read
number_from read (String.◌∷◌ c s) =
    let rest = number_from (some (or_else read 0 * 10 + (code c - 48))) s in
    if is_digit (code c) then rest else read

abbrev pub is_blank : ℕ → Bool
is_blank c = (leb 9 c && leb c 13) || (leb 28 c && leb c 32)

unfoldable pub skip_blanks : String → String
skip_blanks String.[] = ""
skip_blanks (String.◌∷◌ c s) =
    let rest = skip_blanks s in if is_blank (code c) then rest else String.◌∷◌ c s

unfoldable pub number_after_equals : String → Option ℕ
unfolding number_from skip_blanks
number_after_equals String.[] = none
number_after_equals (String.◌∷◌ c s) =
    if code c == 61 then number_from none (skip_blanks s) else none

unfoldable pub drop_text : ℕ → String → String
drop_text zero s = s
drop_text (suc n) String.[] = ""
drop_text (suc n) (String.◌∷◌ c s) = drop_text n s

-- the number in the first place where _MAX_AGE_RE matches
unfoldable pub find_max_age : String → Option ℕ
unfolding number_after_equals skip_blanks drop_text
find_max_age String.[] = none
find_max_age (String.◌∷◌ c s) =
    let rest = find_max_age s in
    if starts_with (lower (String.◌∷◌ c s)) "max-age"
    then coalesce (number_after_equals (skip_blanks (drop_text 7 (String.◌∷◌ c s)))) rest
    else rest

abbrev pub clamp_max_age : Option ℕ → ℕ
clamp_max_age none = 900
clamp_max_age (some n) = max 60 (min 604800 n)

-- `_parse_ssdp_max_age`; a header is too short for `int` to refuse its digits
unfoldable pub parse_ssdp_max_age : Option String → ℕ
parse_ssdp_max_age none = 900
parse_ssdp_max_age (some text) = clamp_max_age (find_max_age text)

-- `s or None`
abbrev pub non_empty : Option String → Option String
non_empty o = if truthy o then o else none

-- a header that is a number
abbrev pub number_header : String → Table String → Option String
number_header key headers =
    if some_and (lookup key headers) (λ v. not (str_eq v "") && all_digits v)
    then lookup key headers
    else none

abbrev pub notify_type : String → Option MessageType
notify_type nts =
    if str_eq nts "ssdp:alive"
    then some MessageType.alive
    else if str_eq nts "ssdp:byebye"
    then some MessageType.byebye
    else if str_eq nts "ssdp:update"
    then some MessageType.updated
    else none

abbrev pub max_age_of : MessageType → Table String → Option ℕ
max_age_of MessageType.byebye headers = none
max_age_of _ headers = some (parse_ssdp_max_age (lookup "cache-control" headers))

module _ (d : Decoder) (g : Datagram) where
  abbrev pub sighting_from : MessageType → String → Option String → Table String → SsdpSighting
  sighting_from t usn nt_or_st headers = record {
    message_type = t;
    usn = usn;
    nt_or_st = non_empty nt_or_st;
    server = non_empty (lookup "server" headers);
    location = non_empty (lookup "location" headers);
    max_age = max_age_of t headers;
    boot_id = number_header "bootid.upnp.org" headers;
    config_id = number_header "configid.upnp.org" headers;
    interface = g.interface;
    source_ip = g.source_ip;
    source_mac = g.source_mac;
    family = g.family;
    seen_at = g.seen_at;
  }

  -- what follows the start line
  abbrev pub message_of : Bool → Table String → Option SsdpSighting
  message_of is_response headers =
      let usn = or_empty (lookup "usn" headers) in
      if str_eq usn ""
      then none
      else if is_response
      then some (sighting_from MessageType.response usn (lookup "st" headers) headers)
      else and_then (notify_type (lower (or_empty (lookup "nts" headers))))
          (λ t. some (sighting_from t usn (lookup "nt" headers) headers))

  abbrev pub message_lines : List String → Option SsdpSighting
  message_lines [] = none
  message_lines (first ∷ lines) =
      let start = upper (strip first) in
      let is_response = starts_with start "HTTP/1.1 200" || starts_with start "HTTP/1.0 200" in
      if starts_with start "M-SEARCH"
      then none
      else if starts_with start "NOTIFY" || is_response
      then and_then (parse_ssdp_headers lines []) (message_of is_response)
      else none

  -- `parse_ssdp_packet`
  unfoldable pub parse_ssdp_packet : List ℕ → Option SsdpSighting
  parse_ssdp_packet payload =
      if length payload == 0 || ltb 8192 (length payload)
      then none
      else message_lines (take 64 (split_lines (d.decode_utf8 payload)))
