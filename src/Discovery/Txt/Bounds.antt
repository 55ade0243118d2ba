-- ===== src/Discovery/Txt/Bounds.antt =====
-- lanfence/discovery.py: how much of a TXT record is kept.
use lan_fence.Base.{
  All, All-append, List, String, Table, [], ap, arith, drop, elem, if-elim, if◌then◌else◌, is_none,
  leb, length, lookup, ltb, not, refl, suc, take, true, zero, ℕ, ◌++◌, ◌+◌, ◌||◌, ◌∷◌, ◌≡◌, ◌≤◌,
}
use lan_fence.Discovery.Txt.{
  Attributes, Decoder, add_entry, after_equals, before_equals, entries_from, keep_attribute,
  parse_txt_rdata, txt_attribute_allowlist,
}
use lan_fence.Sanitize.{text_length, text_length-clean_text}
use lan_fence.Text.{lower, strip}

-- the characters of all values
abbrev pub total_length : Table String → ℕ
total_length [] = 0
total_length (e ∷ t) = text_length e.1 + total_length t

-- the limits, with room for `n` attributes
abbrev pub IsSmall : Table String → Type 0
IsSmall t =
    (length t ≤ 8)
    × (total_length t ≤ 512)
    × All (λ e. (text_length e.1 ≤ 128) × (elem e.0 txt_attribute_allowlist ≡ true)) t

length-append_one : (t : Table String) (e : String × String) → length (t ++ e ∷ []) ≡ suc (length t)
length-append_one [] e = refl
length-append_one (x ∷ t) e = ap suc (length-append_one t e)

total_length-append_one :
    (t : Table String) (e : String × String)
    → total_length (t ++ e ∷ []) ≡ total_length t + text_length e.1
total_length-append_one [] e = omega arith
total_length-append_one (x ∷ t) e = omega (arith, total_length-append_one t e)

-- within the limits, and the counter is right
abbrev IsCounted : Attributes → Type 0
IsCounted a = IsSmall a.attrs × (a.total ≡ total_length a.attrs)

module _ (d : Decoder) where
  keep_attribute-IsCounted :
      (key value : String) (a : Attributes)
      → text_length value ≤ 128
      → length a.attrs ≤ 7
      → IsCounted a
      → IsCounted (keep_attribute d key value a)
  keep_attribute-IsCounted key value a h l k =
      if-elim IsCounted
        (not (elem key txt_attribute_allowlist) || not (is_none (lookup key a.attrs))) _ _ (λ e. k)
        (λ e.
          if-elim IsCounted (ltb 512 (a.total + text_length value)) _ _ (λ g. k)
            (λ g. (
              (
                omega (arith, length-append_one a.attrs (key, value), l),
                ground (arith, total_length-append_one a.attrs (key, value), k.1),
                All-append _ a.attrs ((key, value) ∷ []) k.0.2 ((h, ground arith), tt),
              ),
              omega (arith, total_length-append_one a.attrs (key, value), k.1),
            )))

  entries_from-IsCounted :
      (fuel : ℕ) (bytes : List ℕ) (a : Attributes)
      → IsCounted a
      → IsCounted (entries_from d fuel bytes a)
  unfolding entries_from
  entries_from-IsCounted zero bytes a h = h
  entries_from-IsCounted (suc fuel) [] a h = h
  entries_from-IsCounted (suc fuel) (size ∷ bytes) a h =
      if-elim IsCounted (leb 8 (length a.attrs) || ltb (length bytes) size) _ _ (λ e. h)
        (λ e. entries_from-IsCounted fuel (drop size bytes) (add_entry d (take size bytes) a) (
          keep_attribute-IsCounted (lower (strip (d.decode_utf8 (before_equals (take size bytes)))))
            _ a
            (text_length-clean_text 128 (d.decode_utf8 (after_equals (take size bytes)))
              (omega arith))
            (ground arith) h))

  -- However the bytes of a TXT record are made, at most 8 attributes are kept of it, with allowlisted
  -- keys, values of at most 128 characters each, and 512 characters in all.
  pub parse_txt_rdata-IsSmall : (rdata : List ℕ) → IsSmall (parse_txt_rdata d rdata)
  unfolding parse_txt_rdata
  parse_txt_rdata-IsSmall rdata =
      (entries_from-IsCounted (length rdata) rdata (record { attrs = []; total = 0 })
        ((omega arith, omega arith, tt), refl)).0

length-drop : (n : ℕ) (xs : List ℕ) → length (drop n xs) ≤ length xs
length-drop zero xs = omega arith
length-drop (suc n) [] = omega arith
length-drop (suc n) (x ∷ xs) = omega (arith, length-drop n xs)

-- More fuel than there are bytes changes nothing.
entries_from-enough :
    (d : Decoder) (f g : ℕ) (bytes : List ℕ) (a : Attributes)
    → length bytes ≤ f
    → length bytes ≤ g
    → entries_from d f bytes a ≡ entries_from d g bytes a
unfolding entries_from
entries_from-enough d zero zero [] a h k = refl
entries_from-enough d zero (suc g) [] a h k = refl
entries_from-enough d (suc f) zero [] a h k = refl
entries_from-enough d (suc f) (suc g) [] a h k = refl
entries_from-enough d zero g (b ∷ bytes) a h k = absurd (omega arith)
entries_from-enough d (suc f) zero (b ∷ bytes) a h k = absurd (omega arith)
entries_from-enough d (suc f) (suc g) (b ∷ bytes) a h k =
    ap (λ r. if leb 8 (length a.attrs) || ltb (length bytes) b then a else r)
      (entries_from-enough d f g (drop b bytes) (add_entry d (take b bytes) a)
        (omega (arith, length-drop b bytes)) (omega (arith, length-drop b bytes)))
