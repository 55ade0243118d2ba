-- ===== src/Text.antt =====
-- The methods of Python's `str` that the program uses: strip, lower, comparison.
use Prim.Native.Char.{Char, code}
use Prim.Native.String.{compare, slice, ◌++◌ as append}
use Prim.Native.Nat.{Ordering, ◌/◌, ◌%◌}
use text.Mathlib.Text.{find?}
use lan_fence.Base.{
  Bool, List, String, [], false, if◌then◌else◌, is_none, leb, ltb, not, refl, str_eq, suc, true,
  zero, ℕ, ◌&&◌, ◌+◌, ◌==◌, ◌||◌, ◌∷◌, ◌≡◌,
}

-- str.isspace of one character
abbrev is_space : ℕ → Bool
is_space c =
    (leb 9 c && leb c 13)
    || (leb 28 c && leb c 32)
    || c == 133
    || c == 160
    || c == 5760
    || (leb 8192 c && leb c 8202)
    || c == 8232
    || c == 8233
    || c == 8239
    || c == 8287
    || c == 12288

lstrip : String → String
lstrip String.[] = ""
lstrip (String.◌∷◌ c s) = if is_space (code c) then lstrip s else String.◌∷◌ c s

rstrip : String → String
rstrip String.[] = ""
rstrip (String.◌∷◌ c s) =
    let rest = rstrip s in if is_space (code c) && str_eq rest "" then "" else String.◌∷◌ c rest

unfoldable pub strip : String → String
unfolding lstrip rstrip
strip s = rstrip (lstrip s)

-- the character of the second text at the place where the first text has `c`
swap_char : Char → String → String → Char
swap_char c (String.◌∷◌ u us) (String.◌∷◌ l ls) = if code u == code c then l else swap_char c us ls
swap_char c _ _ = c

-- str.lower: names and MAC addresses hold ASCII letters; other characters are kept
unfoldable pub lower : String → String
unfolding swap_char
lower String.[] = ""
lower (String.◌∷◌ c s) =
    String.◌∷◌ (swap_char c "ABCDEFGHIJKLMNOPQRSTUVWXYZ" "abcdefghijklmnopqrstuvwxyz") (lower s)

-- str.upper, of ASCII letters
unfoldable pub upper : String → String
unfolding swap_char
upper String.[] = ""
upper (String.◌∷◌ c s) =
    String.◌∷◌ (swap_char c "abcdefghijklmnopqrstuvwxyz" "ABCDEFGHIJKLMNOPQRSTUVWXYZ") (upper s)

-- one trailing dot is dropped, unless the text is that dot
drop_dot : String → String
drop_dot String.[] = ""
drop_dot (String.◌∷◌ c s) =
    let rest = drop_dot s in if str_eq s "." then String.◌∷◌ c "" else String.◌∷◌ c rest

unfoldable pub drop_root_dot : String → String
unfolding drop_dot
drop_root_dot s = drop_dot s

-- `a < b` on `str`
abbrev pub str_lt : String → String → Bool
str_lt a b = elim (compare a b) [ Ordering.lt ↦ true | _ ↦ false ]

infixr 65 ◌+++◌
-- `a + b` on `str`
abbrev pub ◌+++◌ : String → String → String
a +++ b = append a b

-- `" ".join(xs)`
unfoldable pub join_spaces : List String → String
join_spaces [] = ""
join_spaces (x ∷ []) = x
join_spaces (x ∷ xs) = x +++ " " +++ join_spaces xs

-- `s or t`
abbrev pub or_text : String → String → String
or_text s t = if str_eq s "" then t else s

-- `part in s`
abbrev pub contains_text : String → String → Bool
contains_text s part = not (is_none (find? s part))

unfoldable pub digit : ℕ → String
digit n = slice "0123456789" n (n + 1)

unfoldable pub show_digits : ℕ → ℕ → String → String
show_digits zero n acc = acc
show_digits (suc fuel) n acc =
    let rest = show_digits fuel (n / 10) (digit (n % 10) +++ acc) in
    if ltb n 10 then digit n +++ acc else rest

-- `str(n)`: a number has fewer digits than its value plus one
unfoldable pub show : ℕ → String
unfolding show_digits digit
show n = show_digits (suc n) n ""

unfoldable pub has_char : ℕ → String → Bool
has_char k String.[] = false
has_char k (String.◌∷◌ c s) = code c == k || has_char k s

escaped : ℕ → Char → String
escaped quote c =
    if code c == quote
    then "\\" +++ String.◌∷◌ c ""
    else if code c == 92
    then "\\\\"
    else if code c == 9
    then "\\t"
    else if code c == 10
    then "\\n"
    else if code c == 13
    then "\\r"
    else String.◌∷◌ c ""

escape : ℕ → String → String
escape quote String.[] = ""
escape quote (String.◌∷◌ c s) = escaped quote c +++ escape quote s

-- `repr(s)` of a text with no other unprintable character
unfoldable pub repr : String → String
unfolding escape escaped has_char
repr s =
    if has_char 39 s && not (has_char 34 s)
    then "\"" +++ escape 34 s +++ "\""
    else "'" +++ escape 39 s +++ "'"

repr_examples : (repr "a'b" ≡ "\"a'b\"") × (repr "x" ≡ "'x'") × (show 1204 ≡ "1204")
unfolding repr show
repr_examples = (refl, refl, refl)
