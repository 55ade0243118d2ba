-- ===== src/Netutil.antt =====
-- lanfence/netutil.py: the bits of the first octet of a normalised MAC address, and the canonical form.
use mathlib.Core.Option
use lan_fence.Base.{
  Bool, Option, String, false, if◌then◌else◌, leb, none, refl, some, suc, true, zero, ℕ, ◌&&◌, ◌*◌,
  ◌+◌, ◌-◌, ◌==◌, ◌||◌, ◌≡◌,
}
use lan_fence.Text.{lower, strip, ◌+++◌}
use Prim.Native.Char.{Char, code}
use Prim.Native.Nat.{◌/◌, ◌%◌}

-- [0-9a-fA-F] and [:-] of the pattern `_MAC_RE`
abbrev is_hex : ℕ → Bool
is_hex c = (leb 48 c && leb c 57) || (leb 65 c && leb c 70) || (leb 97 c && leb c 102)

abbrev is_separator : ℕ → Bool
is_separator c = c == 58 || c == 45

-- two digits, in lower case
abbrev octet : Char → Char → String
octet a b = lower (String.◌∷◌ a (String.◌∷◌ b ""))

-- a text of this many octets before the last one, in canonical form
octets : ℕ → String → Option String
octets zero (String.◌∷◌ a (String.◌∷◌ b String.[])) =
    if is_hex (code a) && is_hex (code b) then some (octet a b) else none
octets (suc n) (String.◌∷◌ a (String.◌∷◌ b (String.◌∷◌ c rest))) =
    let more = octets n rest in
    if is_hex (code a) && is_hex (code b) && is_separator (code c)
    then Option.map (λ t. octet a b +++ ":" +++ t) more
    else none
octets _ _ = none

-- `normalize_mac`; `none` is the ValueError
unfoldable pub normalize_mac : String → Option String
unfolding octets
normalize_mac value = octets 5 (strip value)

normalize_mac_examples :
    (normalize_mac " AA-bb:CC:00:11:2F " ≡ some "aa:bb:cc:00:11:2f")
    × (normalize_mac "aa:bb:cc:00:11" ≡ none)
    × (normalize_mac "aa:bb:cc:00:11:zz" ≡ none)
unfolding normalize_mac strip lower
normalize_mac_examples = (refl, refl, refl)

-- the value of a hexadecimal digit in lower case
abbrev hex_value : ℕ → ℕ
hex_value c = if leb 97 c then c - 87 else c - 48

-- `int(mac.split(":")[0], 16)`
first_octet : String → ℕ
first_octet (String.◌∷◌ a (String.◌∷◌ b rest)) = 16 * hex_value (code a) + hex_value (code b)
first_octet _ = 0

-- bit 1, the U/L bit
unfoldable pub is_locally_administered : String → Bool
unfolding first_octet
is_locally_administered mac = first_octet mac / 2 % 2 == 1

-- bit 0, the I/G bit
unfoldable pub is_multicast : String → Bool
unfolding first_octet
is_multicast mac = first_octet mac % 2 == 1

bits_example :
    (is_locally_administered "02:00:00:00:00:01" ≡ true)
    × (is_locally_administered "b8:27:eb:00:00:01" ≡ false)
    × (is_multicast "01:00:5e:00:00:01" ≡ true)
unfolding is_locally_administered is_multicast
bits_example = (refl, refl, refl)
