-- ===== src/Changes.antt =====
-- lanfence/changes.py: which services administer a device, and how much a change matters.
pub mod Ports
use Prim.Native.Char.{code}
use lan_fence.Base.{
  Bool, List, Option, String, [], any, elem, false, if◌then◌else◌, leb, none, opt_str_eq, refl,
  some, some_and, str_eq, true, ℕ, ◌&&◌, ◌*◌, ◌+◌, ◌-◌, ◌==◌, ◌∷◌, ◌≡◌,
}
use lan_fence.Models.Change.{Significance, significance_index}
use lan_fence.Text.{show, ◌+++◌}

-- ADMIN_PORTS
abbrev admin_ports : List ℕ
admin_ports = 22 ∷ 23 ∷ 2222 ∷ 2375 ∷ 2376 ∷ 3389 ∷ 5900 ∷ 5901 ∷ 5985 ∷ 5986 ∷ 8291 ∷ 10000 ∷ []

-- the keys of ADMIN_MDNS_TYPES
abbrev admin_mdns_types : List String
admin_mdns_types = "_ssh._tcp" ∷ "_sftp-ssh._tcp" ∷ "_telnet._tcp" ∷ "_rfb._tcp" ∷ "_rdp._tcp" ∷ []

-- `int(s)` of a text of decimal digits, the number read so far first
int_from : ℕ → String → Option ℕ
int_from n String.[] = some n
int_from n (String.◌∷◌ c s) =
    let rest = int_from (10 * n + (code c - 48)) s in
    if leb 48 (code c) && leb (code c) 57 then rest else none

int : String → Option ℕ
unfolding int_from
int s = if str_eq s "" then none else int_from 0 s

unfoldable pub port_value : ℕ → String → String
port_value port_no protocol = protocol +++ "/" +++ show port_no

-- `value.split("/", 1)[1]`
after_slash : String → Option String
after_slash String.[] = none
after_slash (String.◌∷◌ c s) = let rest = after_slash s in if code c == 47 then some s else rest

-- `_port_number`; the values that `port_value` writes hold no sign, space or underscore
unfoldable pub port_number : String → Option ℕ
unfolding after_slash int
port_number value = elim (after_slash value) [ none ↦ none | some text ↦ int text ]

unfoldable pub is_admin_service : Option String → Option String → Bool
unfolding port_number
is_admin_service signal none = false
is_admin_service signal (some value) =
    if opt_str_eq signal (some "port")
    then some_and (port_number value) (λ n. any (λ p. n == p) admin_ports)
    else if opt_str_eq signal (some "mdns")
    then elem value admin_mdns_types
    else false

unfoldable pub significance_at_least : Significance → Significance → Bool
significance_at_least significance threshold =
    leb (significance_index threshold) (significance_index significance)

is_admin_service_examples :
    (is_admin_service (some "port") (some "tcp/22") ≡ true)
    × (is_admin_service (some "port") (some "tcp/80") ≡ false)
    × (is_admin_service (some "mdns") (some "_rfb._tcp") ≡ true)
    × (is_admin_service none (some "tcp/22") ≡ false)
unfolding is_admin_service
is_admin_service_examples = (refl, refl, refl, refl)
