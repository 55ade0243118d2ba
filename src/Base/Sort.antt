-- ===== src/Base/Sort.antt =====
-- Python's stable `sorted` with `key=lambda x: -rank(x)`: the greatest rank first.
use Prim.Native.Nat.{ℕ, ◌≤◌}
use mathlib.Core.Path.{◌≡◌, refl, sym, ap, ◌∙◌}
use mathlib.Core.Logic.{inl, inr}
use mathlib.Core.List.{List, [], ◌∷◌, Perm}
use mathlib.Core.List.Perm
use native.Mathlib.Omega.{arith}
use lan_fence.Base.Lists.{All}
use lan_fence.Base.Tests.{Bool-cases, if◌then◌else◌, ltb, ltb→lt}

module _ {ℓ} {A : Type ℓ} (rank : A → ℕ) where
  -- `x` stood before all of the list, so it goes before the first element of no greater rank.
  unfoldable pub insert_desc : A → List A → List A
  insert_desc x [] = x ∷ []
  insert_desc x (y ∷ ys) = if ltb (rank x) (rank y) then y ∷ insert_desc x ys else x ∷ y ∷ ys

  unfoldable pub sort_desc : List A → List A
  unfolding insert_desc
  sort_desc [] = []
  sort_desc (x ∷ xs) = insert_desc x (sort_desc xs)

  abbrev pub AtMost : ℕ → List A → Type 0
  AtMost n [] = Unit
  AtMost n (x ∷ xs) = rank x ≤ n

  abbrev pub IsDescending : List A → Type 0
  IsDescending [] = Unit
  IsDescending (x ∷ xs) = AtMost (rank x) xs × IsDescending xs

  AtMost-insert_desc :
      (n : ℕ) (x : A) (xs : List A) → rank x ≤ n → AtMost n xs → AtMost n (insert_desc x xs)
  unfolding insert_desc
  AtMost-insert_desc n x [] h k = h
  AtMost-insert_desc n x (y ∷ ys) h k = ground arith

  insert_desc-IsDescending :
      (x : A) (xs : List A) → IsDescending xs → IsDescending (insert_desc x xs)
  unfolding insert_desc
  insert_desc-IsDescending x [] h = (tt, tt)
  insert_desc-IsDescending x (y ∷ ys) h = elim (Bool-cases (ltb (rank x) (rank y))) [
    | inl e ↦
        rw (e, insert_desc)
          (
            AtMost-insert_desc (rank y) x ys (omega (arith, ltb→lt (rank x) (rank y) e)) h.0,
            insert_desc-IsDescending x ys h.1,
          )
    | inr e ↦ rw (e, insert_desc) (ground arith, h)
  ]

  pub sort_desc-IsDescending : (xs : List A) → IsDescending (sort_desc xs)
  unfolding sort_desc
  sort_desc-IsDescending [] = tt
  sort_desc-IsDescending (x ∷ xs) =
      insert_desc-IsDescending x (sort_desc xs) (sort_desc-IsDescending xs)

  insert_desc-perm : (x : A) (xs : List A) → Perm (insert_desc x xs) (x ∷ xs)
  unfolding insert_desc
  insert_desc-perm x [] = Perm.refl (x ∷ [])
  insert_desc-perm x (y ∷ ys) = elim (Bool-cases (ltb (rank x) (rank y))) [
    | inl e ↦
        rw (e, insert_desc) (Perm.trans (Perm.cons y (insert_desc-perm x ys)) (Perm.swap x y ys))
    | inr e ↦ rw (e, insert_desc) (Perm.refl (x ∷ y ∷ ys))
  ]

  -- Sorting keeps every element, as often as it stands in the list.
  pub sort_desc-perm : (xs : List A) → Perm (sort_desc xs) xs
  unfolding sort_desc
  sort_desc-perm [] = Perm.refl []
  sort_desc-perm (x ∷ xs) =
      Perm.trans (insert_desc-perm x (sort_desc xs)) (Perm.cons x (sort_desc-perm xs))

  pub All-insert_desc {κ} :
      (P : A → Type κ) (x : A) (xs : List A) → P x → All P xs → All P (insert_desc x xs)
  unfolding insert_desc
  All-insert_desc P x [] p h = (p, h)
  All-insert_desc P x (y ∷ ys) p h = elim (Bool-cases (ltb (rank x) (rank y))) [
    | inl e ↦ rw (e, insert_desc) (h.0, All-insert_desc P x ys p h.1)
    | inr e ↦ rw (e, insert_desc) (p, h)
  ]

  -- What holds of every element holds of every one of the sorted list.
  pub All-sort_desc {κ} : (P : A → Type κ) (xs : List A) → All P xs → All P (sort_desc xs)
  unfolding sort_desc
  All-sort_desc P [] h = h
  All-sort_desc P (x ∷ xs) h = All-insert_desc P x (sort_desc xs) h.0 (All-sort_desc P xs h.1)

  -- a sum over a list, whose step commutes, is that of the sorted list
  module _ {κ} {B : Type κ} (g : List A → B) (f : A → B → B)
      (step : (x : A) (xs : List A) → g (x ∷ xs) ≡ f x (g xs))
      (swap : (x y : A) (b : B) → f x (f y b) ≡ f y (f x b)) where
    sum-insert_desc : (x : A) (xs : List A) → g (insert_desc x xs) ≡ f x (g xs)
    unfolding insert_desc
    sum-insert_desc x [] = step x []
    sum-insert_desc x (y ∷ ys) = elim (Bool-cases (ltb (rank x) (rank y))) [
      | inl e ↦
          rw (e, insert_desc)
            (step y (insert_desc x ys)
              ∙ ap (f y) (sum-insert_desc x ys)
              ∙ swap y x (g ys)
              ∙ ap (f x) (sym (step y ys)))
      | inr e ↦ rw (e, insert_desc) (step x (y ∷ ys))
    ]

    pub sum-sort_desc : (xs : List A) → g (sort_desc xs) ≡ g xs
    unfolding sort_desc
    sum-sort_desc [] = refl
    sum-sort_desc (x ∷ xs) =
        sum-insert_desc x (sort_desc xs) ∙ ap (f x) (sum-sort_desc xs) ∙ sym (step x xs)
