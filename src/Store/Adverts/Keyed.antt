-- ===== src/Store/Adverts/Keyed.antt =====
-- lanfence/db.py: the rows of a table of advertised services have different keys.
use lan_fence.Base.{
  All, All-append, Bool, List, [], any, ap, arith, false, filter, if-elim, leb, map, refl, suc, sym,
  zero, ℕ, ◌++◌, ◌∙◌, ◌∷◌, ◌≡◌,
}
use lan_fence.Store.Adverts.{
  Advert, enforce_row_cap, prune_rows, remove_oldest, remove_oldest_rows, upsert_row, withdraw,
}
use lan_fence.Store.Adverts.Bounded.{All-remove_oldest}
use mathlib.Core.Path.{subst}

module _ {K A : Type 0} (same : K → K → Bool) where
  abbrev pub IsNew : K → List (Advert K A) → Type 0
  IsNew k rows = All (λ r. same k r.key ≡ false) rows

  abbrev pub IsUnique : List (Advert K A) → Type 0
  IsUnique [] = Unit
  IsUnique (r ∷ rs) = IsNew r.key rs × IsUnique rs

  remove_oldest-IsUnique :
      (rows : List (Advert K A)) → IsUnique rows → IsUnique (remove_oldest rows)
  unfolding remove_oldest
  remove_oldest-IsUnique [] h = tt
  remove_oldest-IsUnique (r ∷ rs) h =
      if-elim IsUnique (any (λ x. leb x.last_seen r.last_seen) rs) _ _
        (λ e.
          (All-remove_oldest (λ s. same r.key s.key ≡ false) rs h.0, remove_oldest-IsUnique rs h.1))
        (λ e. h.1)

  remove_oldest_rows-IsUnique :
      (n : ℕ) (rows : List (Advert K A)) → IsUnique rows → IsUnique (remove_oldest_rows n rows)
  unfolding remove_oldest_rows
  remove_oldest_rows-IsUnique zero rows h = h
  remove_oldest_rows-IsUnique (suc n) rows h =
      remove_oldest_rows-IsUnique n (remove_oldest rows) (remove_oldest-IsUnique rows h)

  filter-IsNew :
      (k : K) (p : Advert K A → Bool) (rows : List (Advert K A))
      → IsNew k rows
      → IsNew k (filter p rows)
  filter-IsNew k p [] h = tt
  filter-IsNew k p (r ∷ rs) h = ground (arith, filter-IsNew k p rs h.1)

  filter-IsUnique :
      (p : Advert K A → Bool) (rows : List (Advert K A)) → IsUnique rows → IsUnique (filter p rows)
  filter-IsUnique p [] h = tt
  filter-IsUnique p (r ∷ rs) h =
      ground (arith, filter-IsNew r.key p rs h.0, filter-IsUnique p rs h.1)

  pub prune_rows-IsUnique :
      (cap as_of : ℕ) (rows : List (Advert K A))
      → IsUnique rows
      → IsUnique (prune_rows cap as_of rows)
  unfolding prune_rows enforce_row_cap
  prune_rows-IsUnique cap as_of rows h = remove_oldest_rows-IsUnique _ _ (filter-IsUnique _ rows h)

  module _ (f : Advert K A → Advert K A) (h : (r : Advert K A) → (f r).key ≡ r.key) where
    map-IsNew : (k : K) (rows : List (Advert K A)) → IsNew k rows → IsNew k (map f rows)
    map-IsNew k [] i = tt
    map-IsNew k (r ∷ rs) i = (ap (same k) (h r) ∙ i.0, map-IsNew k rs i.1)

    -- an update that keeps the keys
    pub map-IsUnique : (rows : List (Advert K A)) → IsUnique rows → IsUnique (map f rows)
    map-IsUnique [] i = tt
    map-IsUnique (r ∷ rs) i =
        (subst (λ k. IsNew k (map f rs)) (sym (h r)) (map-IsNew r.key rs i.0), map-IsUnique rs i.1)

  pub withdraw-IsUnique :
      (p : Advert K A → Bool) (rows : List (Advert K A))
      → IsUnique rows
      → IsUnique (withdraw p rows)
  unfolding withdraw
  withdraw-IsUnique p rows h =
      map-IsUnique _
        (λ r. if-elim {A = Advert K A} (λ x. x.key ≡ r.key) (p r) _ _ (λ e. refl) (λ e. refl)) rows
        h

  append-IsUnique :
      (new : Advert K A) (rows : List (Advert K A))
      → IsUnique rows
      → All (λ r. same r.key new.key ≡ false) rows
      → IsUnique (rows ++ new ∷ [])
  append-IsUnique new [] h k = (tt, tt)
  append-IsUnique new (r ∷ rs) h k = (
    All-append (λ s. same r.key s.key ≡ false) rs (new ∷ []) h.0 (k.0, tt),
    append-IsUnique new rs h.1 k.1,
  )

  module _ (commutes : (j k : K) → same j k ≡ same k j) where
    none_same :
        (k : K) (rows : List (Advert K A))
        → any (λ r. same k r.key) rows ≡ false
        → All (λ r. same r.key k ≡ false) rows
    none_same k [] h = tt
    none_same k (r ∷ rs) h = (commutes r.key k ∙ ground arith, none_same k rs (ground arith))

    pub upsert_row-IsUnique :
        (new : Advert K A) (rows : List (Advert K A))
        → IsUnique rows
        → IsUnique (upsert_row same new rows)
    unfolding upsert_row
    upsert_row-IsUnique new rows h =
        if-elim IsUnique (any (λ r. same new.key r.key) rows) _ _
          (λ e.
            map-IsUnique _
              (λ r.
                if-elim {A = Advert K A} (λ x. x.key ≡ r.key) (same new.key r.key) _ _ (λ d. refl)
                  (λ d. refl))
              rows h)
          (λ e. append-IsUnique new rows h (none_same new.key rows e))
