-- ===== src/Store/Adverts/Bounded.antt =====
-- lanfence/db.py: each table of advertised services keeps within its row cap.
use lan_fence.Base.{
  All, All-filter_kept, Bool, List, [], any, ap, arith, if-elim, leb, length, map, not, refl, suc,
  zero, ℕ, ◌-◌, ◌∷◌, ◌≡◌, ◌≤◌,
}
use lan_fence.Store.Adverts.{
  Advert, enforce_row_cap, is_stale, prune_rows, remove_oldest, remove_oldest_rows, withdraw,
}

pub length-map {ℓ} : {B : Type ℓ} → (f : B → B) (xs : List B) → length (map f xs) ≡ length xs
length-map f [] = refl
length-map f (x ∷ xs) = ap suc (length-map f xs)

length-remove_oldest_none : (K A : Type 0) → length (remove_oldest {K = K} {A = A} []) ≡ 0
unfolding remove_oldest
length-remove_oldest_none K A = refl

module _ {K A : Type 0} where
  length-remove_oldest :
      (r : Advert K A) (rs : List (Advert K A)) → length (remove_oldest (r ∷ rs)) ≡ length rs
  unfolding remove_oldest
  length-remove_oldest r [] = refl
  length-remove_oldest r (s ∷ rs) =
      if-elim {A = List (Advert K A)} (λ xs. length xs ≡ suc (length rs))
        (any (λ x. leb x.last_seen r.last_seen) (s ∷ rs)) _ _
        (λ e. ap suc (length-remove_oldest s rs)) (λ e. refl)

  length-remove_oldest_rows :
      (n : ℕ) (rows : List (Advert K A)) → length (remove_oldest_rows n rows) ≤ length rows - n
  unfolding remove_oldest_rows
  length-remove_oldest_rows zero rows = omega arith
  length-remove_oldest_rows (suc n) [] =
      omega (arith, length-remove_oldest_rows n (remove_oldest []), length-remove_oldest_none K A)
  length-remove_oldest_rows (suc n) (r ∷ rs) =
      omega (arith, length-remove_oldest_rows n (remove_oldest (r ∷ rs)), length-remove_oldest r rs)

  length-enforce_row_cap :
      (cap : ℕ) (rows : List (Advert K A)) → length (enforce_row_cap cap rows) ≤ cap
  unfolding enforce_row_cap
  length-enforce_row_cap cap rows =
      omega (arith, length-remove_oldest_rows (length rows - cap) rows)

  pub length-prune_rows :
      (cap as_of : ℕ) (rows : List (Advert K A)) → length (prune_rows cap as_of rows) ≤ cap
  unfolding prune_rows
  length-prune_rows cap as_of rows = length-enforce_row_cap cap _

  pub length-withdraw :
      (p : Advert K A → Bool) (rows : List (Advert K A)) → length (withdraw p rows) ≡ length rows
  unfolding withdraw
  length-withdraw p rows = length-map _ rows

  -- What holds of all rows holds of those that the cap leaves.
  pub All-remove_oldest {κ} :
      (P : Advert K A → Type κ) (rows : List (Advert K A)) → All P rows → All P (remove_oldest rows)
  unfolding remove_oldest
  All-remove_oldest P [] h = tt
  All-remove_oldest P (r ∷ rs) h =
      if-elim (All P) (any (λ x. leb x.last_seen r.last_seen) rs) _ _
        (λ e. (h.0, All-remove_oldest P rs h.1)) (λ e. h.1)

  All-remove_oldest_rows {κ} :
      (P : Advert K A → Type κ) (n : ℕ) (rows : List (Advert K A))
      → All P rows
      → All P (remove_oldest_rows n rows)
  unfolding remove_oldest_rows
  All-remove_oldest_rows P zero rows h = h
  All-remove_oldest_rows P (suc n) rows h =
      All-remove_oldest_rows P n (remove_oldest rows) (All-remove_oldest P rows h)

  pub All-prune_rows {κ} :
      (P : Advert K A → Type κ) (cap as_of : ℕ) (rows : List (Advert K A))
      → All P rows
      → All P (prune_rows cap as_of rows)
  unfolding prune_rows enforce_row_cap
  All-prune_rows P cap as_of rows h =
      All-remove_oldest_rows P _ _ (All-filter_kept P (λ r. not (is_stale as_of r)) rows h)
