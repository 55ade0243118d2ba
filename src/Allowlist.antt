-- ===== src/Allowlist.antt =====
-- lanfence/allowlist.py: the devices that the operator trusts. MACs are normalised.
use lan_fence.Base.{
  List, Option, String, [], filter, find, if◌then◌else◌, is_none, not, str_eq, ◌++◌, ◌∷◌,
}

pub record AllowEntry : Type 0 where
  pub mac : String
  pub name : String
  pub notes : String

-- `match`
unfoldable pub match_entry : String → List AllowEntry → Option AllowEntry
match_entry mac entries = find (λ (e : AllowEntry). str_eq e.mac mac) entries

-- `[e for e in self.entries if e.mac != norm]`
abbrev pub without : String → List AllowEntry → List AllowEntry
without mac entries = filter (λ (e : AllowEntry). not (str_eq e.mac mac)) entries

-- `add`
unfoldable pub add_entry : String → String → String → List AllowEntry → List AllowEntry
add_entry mac name notes entries =
    without mac entries ++ record { mac = mac; name = name; notes = notes } ∷ []

-- `remove`, with the entry that it returns
unfoldable pub remove_entry : String → List AllowEntry → Option AllowEntry × List AllowEntry
unfolding match_entry
remove_entry mac entries =
    let existing = match_entry mac entries in
    (existing, if is_none existing then entries else without mac entries)
