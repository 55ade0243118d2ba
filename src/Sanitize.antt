-- ===== src/Sanitize.antt =====
-- lanfence/sanitize.py: cleaning of texts that a device supplies.
use Prim.Native.Char.{Char, code}
use lan_fence.Base.{
  Bool, String, arith, if◌then◌else◌, leb, ltb, suc, zero, ℕ, ◌&&◌, ◌-◌, ◌==◌, ◌||◌, ◌≤◌,
}
use lan_fence.Text.{strip, ◌+++◌}

-- _CONTROL_CHARS
abbrev pub is_control : ℕ → Bool
is_control c = leb c 8 || c == 11 || c == 12 || (leb 14 c && leb c 31) || (leb 127 c && leb c 159)

-- a control character becomes U+FFFD, a line break or a tab a space
abbrev pub clean_char : Char → String → String
clean_char c rest =
    if is_control (code c)
    then "�" +++ rest
    else if code c == 9 || code c == 10 || code c == 13
    then " " +++ rest
    else String.◌∷◌ c rest

unfoldable pub clean_chars : String → String
clean_chars String.[] = ""
clean_chars (String.◌∷◌ c s) = clean_char c (clean_chars s)

-- `len` of a text
unfoldable pub text_length : String → ℕ
text_length String.[] = 0
text_length (String.◌∷◌ c s) = suc (text_length s)

-- `text[:n] + "…"`
unfoldable pub cut : ℕ → String → String
cut zero s = "…"
cut (suc n) String.[] = "…"
cut (suc n) (String.◌∷◌ c s) = String.◌∷◌ c (cut n s)

unfoldable pub clean_text : ℕ → String → String
clean_text max_len value =
    let text = strip (clean_chars value) in
    if ltb max_len (text_length text) then cut (max_len - 1) text else text

text_length-cut : (n : ℕ) (s : String) → text_length (cut n s) ≤ suc n
unfolding text_length cut
text_length-cut zero s = omega arith
text_length-cut (suc n) String.[] = omega arith
text_length-cut (suc n) (String.◌∷◌ c s) = omega (arith, text_length-cut n s)

-- A text that was cleaned is no longer than the limit.
pub text_length-clean_text :
    (max_len : ℕ) (value : String) → 1 ≤ max_len → text_length (clean_text max_len value) ≤ max_len
unfolding clean_text
text_length-clean_text max_len value h =
    let text = strip (clean_chars value) in ground (arith, text_length-cut (max_len - 1) text)
