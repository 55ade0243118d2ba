-- ===== src/Discovery/Ssdp/Expiry.antt =====
-- lanfence/discovery.py: an SSDP message that is taken expires.
use lan_fence.Base.{
  Bool, List, Option, String, Table, [], arith, false, if-elim, is_none, length, lookup, ltb, none,
  or_empty, refl, some, str_eq, suc, take, zero, ℕ, ◌+◌, ◌==◌, ◌||◌, ◌∷◌, ◌≡◌, ◌≤◌,
}
use lan_fence.Discovery.Message.{Datagram, starts_with}
use lan_fence.Discovery.Message.Bounds.{IfSome, IfSome-and_then}
use lan_fence.Discovery.Process.{MessageType, SsdpSighting}
use lan_fence.Discovery.Ssdp.{
  clamp_max_age, find_max_age, max_age_of, message_lines, message_of, notify_type,
  parse_ssdp_headers, parse_ssdp_max_age, parse_ssdp_packet, split_lines,
}
use lan_fence.Discovery.Txt.{Decoder}
use lan_fence.Store.Adverts.{seconds, ssdp_expiry}
use lan_fence.Text.{lower, strip, upper}

-- The row of an advertisement seen at `seen_at` expires a minute to a week later.
abbrev pub IsExpiry : ℕ → Option ℕ → Type 0
IsExpiry seen_at none = is_none {A = ℕ} none ≡ false
IsExpiry seen_at (some e) = (seen_at + seconds 60 ≤ e) × (e ≤ seen_at + seconds 604800)

abbrev pub IsExpiring : MessageType → ℕ → Option ℕ → Type 0
IsExpiring MessageType.byebye seen_at age = age ≡ none
IsExpiring _ seen_at age = IsExpiry seen_at (ssdp_expiry seen_at age)

-- an identity, and an expiry unless it is a goodbye
abbrev pub IsUsable : SsdpSighting → Type 0
IsUsable v = (str_eq v.usn "" ≡ false) × IsExpiring v.message_type v.seen_at v.max_age

clamp_max_age-bounds : (o : Option ℕ) → (60 ≤ clamp_max_age o) × (clamp_max_age o ≤ 604800)
clamp_max_age-bounds none = (omega arith, omega arith)
clamp_max_age-bounds (some n) = (omega arith, omega arith)

parse_ssdp_max_age-bounds :
    (o : Option String) → (60 ≤ parse_ssdp_max_age o) × (parse_ssdp_max_age o ≤ 604800)
unfolding parse_ssdp_max_age
parse_ssdp_max_age-bounds none = (omega arith, omega arith)
parse_ssdp_max_age-bounds (some text) = clamp_max_age-bounds (find_max_age text)

ssdp_expiry-IsExpiry :
    (seen_at n : ℕ) → 60 ≤ n → n ≤ 604800 → IsExpiry seen_at (ssdp_expiry seen_at (some n))
ssdp_expiry-IsExpiry seen_at zero h k = absurd (omega arith)
ssdp_expiry-IsExpiry seen_at (suc n) h k = (omega arith, omega arith)

max_age_of-IsExpiring :
    (t : MessageType) (seen_at : ℕ) (headers : Table String)
    → IsExpiring t seen_at (max_age_of t headers)
max_age_of-IsExpiring MessageType.byebye seen_at headers = refl
max_age_of-IsExpiring MessageType.alive seen_at headers =
    let b = parse_ssdp_max_age-bounds (lookup "cache-control" headers) in
    ssdp_expiry-IsExpiry seen_at _ b.0 b.1
max_age_of-IsExpiring MessageType.updated seen_at headers =
    let b = parse_ssdp_max_age-bounds (lookup "cache-control" headers) in
    ssdp_expiry-IsExpiry seen_at _ b.0 b.1
max_age_of-IsExpiring MessageType.response seen_at headers =
    let b = parse_ssdp_max_age-bounds (lookup "cache-control" headers) in
    ssdp_expiry-IsExpiry seen_at _ b.0 b.1

module _ (d : Decoder) (g : Datagram) where
  message_of-IsUsable :
      (is_response : Bool) (headers : Table String)
      → IfSome IsUsable (message_of d g is_response headers)
  message_of-IsUsable is_response headers =
      if-elim (IfSome IsUsable) (str_eq (or_empty (lookup "usn" headers)) "") _ _ (λ e. tt)
        (λ e.
          if-elim (IfSome IsUsable) is_response _ _
            (λ r. (e, max_age_of-IsExpiring MessageType.response g.seen_at headers))
            (λ r.
              IfSome-and_then IsUsable (notify_type (lower (or_empty (lookup "nts" headers)))) _
                (λ t. (e, max_age_of-IsExpiring t g.seen_at headers))))

  message_lines-IsUsable : (lines : List String) → IfSome IsUsable (message_lines d g lines)
  message_lines-IsUsable [] = tt
  message_lines-IsUsable (first ∷ lines) =
      let start = upper (strip first) in
      let is_response = starts_with start "HTTP/1.1 200" || starts_with start "HTTP/1.0 200" in
      if-elim (IfSome IsUsable) (starts_with start "M-SEARCH") _ _ (λ e. tt)
        (λ e.
          if-elim (IfSome IsUsable) (starts_with start "NOTIFY" || is_response) _ _
            (λ r.
              IfSome-and_then IsUsable (parse_ssdp_headers lines []) _
                (message_of-IsUsable is_response))
            (λ r. tt))

  -- Whatever the bytes of a datagram, an SSDP message that is taken of it has an identity; a goodbye
  -- has no age, and any other message, whatever its CACHE-CONTROL says, makes a row that expires at
  -- least a minute and at most a week after it was seen.
  pub parse_ssdp_packet-IsUsable :
      (payload : List ℕ) → IfSome IsUsable (parse_ssdp_packet d g payload)
  unfolding parse_ssdp_packet
  parse_ssdp_packet-IsUsable payload =
      if-elim (IfSome IsUsable) (length payload == 0 || ltb 8192 (length payload)) _ _ (λ e. tt)
        (λ e. message_lines-IsUsable (take 64 (split_lines (d.decode_utf8 payload))))
