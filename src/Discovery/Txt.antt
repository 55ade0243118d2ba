-- ===== src/Discovery/Txt.antt =====
-- lanfence/discovery.py: the attributes of a TXT record.
pub mod Bounds
use lan_fence.Base.{
  List, String, Table, [], drop, elem, if◌then◌else◌, is_none, leb, length, lookup, ltb, not, suc,
  take, zero, ℕ, ◌++◌, ◌+◌, ◌==◌, ◌||◌, ◌∷◌,
}
use lan_fence.Sanitize.{clean_text, text_length}
use lan_fence.Text.{lower, strip}

-- Python's decoding of bytes and its printing of addresses
pub record Decoder : Type 0 where
  pub decode_utf8 : List ℕ → String
  pub ipv4_text : List ℕ → String
  pub ipv6_text : List ℕ → String

abbrev pub txt_attribute_allowlist : List String
txt_attribute_allowlist =
    "md" ∷ "model" ∷ "ty" ∷ "product" ∷ "note" ∷ "description" ∷ "usb_mfg" ∷ "usb_mdl" ∷ "fn" ∷ []

-- `entry.partition(b"=")` without the separator
abbrev pub before_equals : List ℕ → List ℕ
before_equals [] = []
before_equals (b ∷ bs) = let rest = before_equals bs in if b == 61 then [] else b ∷ rest

abbrev pub after_equals : List ℕ → List ℕ
after_equals [] = []
after_equals (b ∷ bs) = let rest = after_equals bs in if b == 61 then bs else rest

-- `attrs` and `total_bytes`
pub record Attributes : Type 0 where
  pub attrs : Table String
  pub total : ℕ

module _ (d : Decoder) where
  abbrev pub keep_attribute : String → String → Attributes → Attributes
  keep_attribute key value a =
      if not (elem key txt_attribute_allowlist) || not (is_none (lookup key a.attrs))
      then a
      else if ltb 512 (a.total + text_length value)
      then a
      else record { attrs = a.attrs ++ (key, value) ∷ []; total = a.total + text_length value }

  abbrev pub add_entry : List ℕ → Attributes → Attributes
  add_entry entry a =
      keep_attribute (lower (strip (d.decode_utf8 (before_equals entry))))
        (clean_text 128 (d.decode_utf8 (after_equals entry))) a

  -- the loop, over the bytes that are left
  unfoldable pub entries_from : ℕ → List ℕ → Attributes → Attributes
  entries_from zero bytes a = a
  entries_from (suc fuel) [] a = a
  entries_from (suc fuel) (size ∷ bytes) a =
      let rest = entries_from fuel (drop size bytes) (add_entry (take size bytes) a) in
      if leb 8 (length a.attrs) || ltb (length bytes) size then a else rest

  -- `_parse_txt_rdata`: each pass takes at least one byte
  unfoldable pub parse_txt_rdata : List ℕ → Table String
  parse_txt_rdata rdata =
      (entries_from (length rdata) rdata (record { attrs = []; total = 0 })).attrs
