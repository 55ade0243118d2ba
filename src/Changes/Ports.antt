-- ===== src/Changes/Ports.antt =====
-- lanfence/changes.py: the text of a port is read back as its number.
use Prim.Native.Char.{Char}
use text.Mathlib.TextLemmas.{cons-ne-nil, nil-append, cons-append}
use Prim.Native.Nat.{◌%◌, ◌/◌}
use native.Mathlib.Nat.{mod-lt, div-add-mod}
use lan_fence.Base.{
  Bool-cases, String, ap, arith, eq_iff, false, inl, inr, refl, some, str_eq, suc, zero, ℕ, ◌*◌,
  ◌+◌, ◌<◌, ◌∙◌, ◌≡◌,
}
use lan_fence.Changes.{after_slash, int, int_from, port_number, port_value}
use lan_fence.Text.{digit, has_char, show, show_digits, ◌+++◌}

one_char : (c : Char) (s : String) → String.◌∷◌ c "" +++ s ≡ String.◌∷◌ c s
one_char c s = cons-append c "" s ∙ ap (String.◌∷◌ c) (nil-append s)

-- the text `s` after a number that was read
int_from-digit :
    (a d : ℕ) (s : String) → d < 10 → int_from a (digit d +++ s) ≡ int_from (10 * a + d) s
unfolding int_from digit
int_from-digit a zero s h = ap (int_from a) (one_char _ s)
int_from-digit a (suc zero) s h = ap (int_from a) (one_char _ s)
int_from-digit a (suc (suc zero)) s h = ap (int_from a) (one_char _ s)
int_from-digit a (suc (suc (suc zero))) s h = ap (int_from a) (one_char _ s)
int_from-digit a (suc (suc (suc (suc zero)))) s h = ap (int_from a) (one_char _ s)
int_from-digit a (suc (suc (suc (suc (suc zero))))) s h = ap (int_from a) (one_char _ s)
int_from-digit a (suc (suc (suc (suc (suc (suc zero)))))) s h = ap (int_from a) (one_char _ s)
int_from-digit a (suc (suc (suc (suc (suc (suc (suc zero))))))) s h = ap (int_from a) (one_char _ s)
int_from-digit a (suc (suc (suc (suc (suc (suc (suc (suc zero)))))))) s h =
    ap (int_from a) (one_char _ s)
int_from-digit a (suc (suc (suc (suc (suc (suc (suc (suc (suc zero))))))))) s h =
    ap (int_from a) (one_char _ s)
int_from-digit a (suc (suc (suc (suc (suc (suc (suc (suc (suc (suc d)))))))))) s h =
    absurd (omega arith)

int_from-show_digits :
    (fuel n : ℕ) (s : String) → n < fuel → int_from 0 (show_digits fuel n s) ≡ int_from n s
unfolding show_digits
int_from-show_digits zero n s h = absurd (omega arith)
int_from-show_digits (suc fuel) n s h = ground (
  arith,
  mod-lt n {m = 10},
  div-add-mod n 10,
  int_from-show_digits fuel (n / 10) (digit (n % 10) +++ s),
  int_from-digit (n / 10) (n % 10) s,
  int_from-digit 0 n s,
)

cons-ne_empty : (c : Char) (s : String) → str_eq (String.◌∷◌ c s) "" ≡ false
cons-ne_empty c s = elim (Bool-cases (str_eq (String.◌∷◌ c s) "")) [
  | inl h ↦ absurd (cons-ne-nil c s ((eq_iff (String.◌∷◌ c s) "").0 h))
  | inr h ↦ h
]

int-int_from : (n : ℕ) (s : String) → int_from 0 s ≡ some (suc n) → int s ≡ some (suc n)
unfolding int int_from
int-int_from n String.[] h = ground arith
int-int_from n (String.◌∷◌ c s) h = rw (int, cons-ne_empty c s) h

int-show : (n : ℕ) → int (show n) ≡ some n
unfolding show int
int-show zero = refl
int-show (suc n) =
    int-int_from n (show_digits (suc (suc n)) (suc n) "")
      (int_from-show_digits (suc (suc n)) (suc n) "" (omega arith))

after_slash-append : (p s : String) → has_char 47 p ≡ false → after_slash (p +++ "/" +++ s) ≡ some s
unfolding after_slash has_char
after_slash-append String.[] s h = ap after_slash (nil-append ("/" +++ s) ∙ one_char _ s)
after_slash-append (String.◌∷◌ c p) s h =
    ap after_slash (cons-append c p ("/" +++ s)) ∙ ground (arith, after_slash-append p s)

-- A port's text names its number, whatever the protocol, which has no slash.
pub port_number-port_value :
    (n : ℕ) (protocol : String)
    → has_char 47 protocol ≡ false
    → port_number (port_value n protocol) ≡ some n
unfolding port_number port_value
port_number-port_value n protocol h =
    rw (port_number, after_slash-append protocol (show n) h) (int-show n)
