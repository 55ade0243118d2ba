-- ===== src/Base/Lists.antt =====
-- Lists: Boolean filters and quantifiers, lengths over the native numbers, a recursive `All`.
use Prim.Native.Nat.{ℕ, zero, suc, ◌≤◌}
use Prim.Native.String.{String}
use mathlib.Core.Path.{◌≡◌, refl}
use mathlib.Core.Bool.{Bool, true, false, ◌||◌}
use mathlib.Core.Option
use mathlib.Core.Option.{Option, none, some}
use mathlib.Core.List.{List, [], ◌∷◌, ◌++◌, map}
use native.Mathlib.Omega.{arith}
use text.Mathlib.Text.{◌==◌ as text_eq}

abbrev keep {ℓ} : {A : Type ℓ} → Bool → A → List A → List A
keep true x xs = x ∷ xs
keep false x xs = xs

module _ {ℓ} {A : Type ℓ} where
  abbrev pub length : List A → ℕ
  length [] = 0
  length (x ∷ xs) = suc (length xs)

  -- `[x for x in xs if p(x)]`
  abbrev pub filter : (A → Bool) → List A → List A
  filter p [] = []
  filter p (x ∷ xs) = keep (p x) x (filter p xs)

  abbrev pub any : (A → Bool) → List A → Bool
  any p [] = false
  any p (x ∷ xs) = p x || any p xs

  -- `next((x for x in xs if p(x)), None)`
  abbrev pub find : (A → Bool) → List A → Option A
  find p [] = none
  find p (x ∷ xs) = elim (p x) [ true ↦ some x | false ↦ find p xs ]

  -- `xs[:n]`
  abbrev pub take : ℕ → List A → List A
  take zero xs = []
  take (suc n) [] = []
  take (suc n) (x ∷ xs) = x ∷ take n xs

  -- `xs[n:]`
  abbrev pub drop : ℕ → List A → List A
  drop zero xs = xs
  drop (suc n) [] = []
  drop (suc n) (x ∷ xs) = drop n xs

  abbrev pub All {κ} : (A → Type κ) → List A → Type κ
  All P [] = Unit
  All P (x ∷ xs) = P x × All P xs

  pub length-take : (n : ℕ) (xs : List A) → length (take n xs) ≤ n
  length-take zero xs = omega arith
  length-take (suc n) [] = omega arith
  length-take (suc n) (x ∷ xs) = omega (arith, length-take n xs)

  pub length-filter : (p : A → Bool) (xs : List A) → length (filter p xs) ≤ length xs
  length-filter p [] = omega arith
  length-filter p (x ∷ xs) = ground (arith, length-filter p xs)

  pub All-keep {κ} :
      (P : A → Type κ) (b : Bool) (x : A) (xs : List A)
      → (b ≡ true → P x)
      → All P xs
      → All P (keep b x xs)
  All-keep P true x xs h k = (h refl, k)
  All-keep P false x xs h k = k

  pub All-filter {κ} :
      (P : A → Type κ) (p : A → Bool) (xs : List A)
      → ((x : A) → p x ≡ true → P x)
      → All P (filter p xs)
  All-filter P p [] h = tt
  All-filter P p (x ∷ xs) h = All-keep P (p x) x (filter p xs) (h x) (All-filter P p xs h)

  -- What holds of all elements holds of those that a filter keeps.
  pub All-filter_kept {κ} :
      (P : A → Type κ) (p : A → Bool) (xs : List A) → All P xs → All P (filter p xs)
  All-filter_kept P p [] h = tt
  All-filter_kept P p (x ∷ xs) h =
      All-keep P (p x) x (filter p xs) (λ e. h.0) (All-filter_kept P p xs h.1)

  pub All-every {κ} : (P : A → Type κ) (xs : List A) → ((x : A) → P x) → All P xs
  All-every P [] h = tt
  All-every P (x ∷ xs) h = (h x, All-every P xs h)

  pub All-map {κ} : (P Q : A → Type κ) (xs : List A) → ((x : A) → P x → Q x) → All P xs → All Q xs
  All-map P Q [] f h = tt
  All-map P Q (x ∷ xs) f h = (f x h.0, All-map P Q xs f h.1)

  pub All-append {κ} : (P : A → Type κ) (xs ys : List A) → All P xs → All P ys → All P (xs ++ ys)
  All-append P [] ys h k = k
  All-append P (x ∷ xs) ys h k = (h.0, All-append P xs ys h.1 k)

  -- What `find` returns passes the test.
  pub find-holds : (p : A → Bool) (xs : List A) (a : A) → find p xs ≡ some a → p a ≡ true
  find-holds p [] a h = cc
  find-holds p (x ∷ xs) a h = ground (arith, find-holds p xs a)

  -- A map that the test does not see.
  pub find-map :
      (p : A → Bool) (g : A → A) (xs : List A)
      → ((a : A) → p (g a) ≡ p a)
      → find p (map g xs) ≡ Option.map g (find p xs)
  find-map p g [] h = refl
  find-map p g (x ∷ xs) h = ground (arith, h x, find-map p g xs h)

pub All-map-keep {ℓ μ κ} :
    {A : Type ℓ} {B : Type μ} (P : B → Type κ) (f : A → B) (b : Bool) (x : A) (xs : List A)
    → (b ≡ true → P (f x))
    → All P (map f xs)
    → All P (map f (keep b x xs))
All-map-keep P f true x xs h k = (h refl, k)
All-map-keep P f false x xs h k = k

-- `s in xs`
abbrev pub elem : String → List String → Bool
elem s = any (text_eq s)
