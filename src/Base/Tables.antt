-- ===== src/Base/Tables.antt =====
-- A table of the database with one row for each key: rows in insertion order.
use Prim.Native.String.{String}
use mathlib.Core.Path.{◌≡◌, refl}
use mathlib.Core.Bool.{Bool, true, false}
use mathlib.Core.Option
use mathlib.Core.Option.{Option, none, some}
use mathlib.Core.List.{List, [], ◌∷◌}
use native.Mathlib.Omega.{arith}
use text.Mathlib.Text.{◌==◌}
use text.Mathlib.TextEquality.{eq_iff}
use lan_fence.Base.Lists.{filter}
use lan_fence.Base.Tests.{if◌then◌else◌, is_none}

abbrev pub Table {ℓ} : Type ℓ → Type ℓ
Table V = List (String × V)

module _ {ℓ} {V : Type ℓ} where
  -- SELECT ... WHERE key = ?
  unfoldable pub lookup : String → Table V → Option V
  lookup k [] = none
  lookup k ((j, v) ∷ t) = if k == j then some v else lookup k t

  -- INSERT ... ON CONFLICT(key) DO UPDATE
  unfoldable pub upsert : String → V → Table V → Table V
  upsert k v [] = (k, v) ∷ []
  upsert k v ((j, w) ∷ t) = if k == j then (j, v) ∷ t else (j, w) ∷ upsert k v t

  -- UPDATE ... WHERE key = ?
  unfoldable pub update : String → (V → V) → Table V → Table V
  update k f [] = []
  update k f ((j, w) ∷ t) = if k == j then (j, f w) ∷ t else (j, w) ∷ update k f t

  -- DELETE ... WHERE key = ?
  unfoldable pub erase : String → Table V → Table V
  erase k [] = []
  erase k ((j, w) ∷ t) = let rest = erase k t in if k == j then rest else (j, w) ∷ rest

  pub lookup-upsert :
      (k j : String) (v : V) (t : Table V)
      → lookup j (upsert k v t) ≡ (if j == k then some v else lookup j t)
  unfolding lookup upsert
  lookup-upsert k j v [] = refl
  lookup-upsert k j v ((i, w) ∷ t) =
      ground (arith, eq_iff k j, eq_iff j k, eq_iff k i, eq_iff j i, lookup-upsert k j v t)

  pub lookup-update :
      (k j : String) (f : V → V) (t : Table V)
      → lookup j (update k f t) ≡ (if j == k then Option.map f (lookup j t) else lookup j t)
  unfolding lookup update
  lookup-update k j f [] = ground arith
  lookup-update k j f ((i, w) ∷ t) =
      ground (arith, eq_iff j k, eq_iff k i, eq_iff j i, lookup-update k j f t)

  pub lookup-erase :
      (k j : String) (t : Table V) → lookup j (erase k t) ≡ (if j == k then none else lookup j t)
  unfolding lookup erase
  lookup-erase k j [] = ground arith
  lookup-erase k j ((i, w) ∷ t) =
      ground (arith, eq_iff j k, eq_iff k i, eq_iff j i, lookup-erase k j t)

  -- No key has two rows.
  abbrev pub IsKeyed : Table V → Type 0
  IsKeyed [] = Unit
  IsKeyed ((k, v) ∷ t) = (is_none (lookup k t) ≡ true) × IsKeyed t

  pub upsert-IsKeyed : (k : String) (v : V) (t : Table V) → IsKeyed t → IsKeyed (upsert k v t)
  unfolding upsert lookup
  upsert-IsKeyed k v [] h = (refl, tt)
  upsert-IsKeyed k v ((j, w) ∷ t) h =
      ground (arith, eq_iff k j, eq_iff j k, lookup-upsert k j v t, upsert-IsKeyed k v t h.1)

  pub update-IsKeyed : (k : String) (f : V → V) (t : Table V) → IsKeyed t → IsKeyed (update k f t)
  unfolding update
  update-IsKeyed k f [] h = tt
  update-IsKeyed k f ((j, w) ∷ t) h =
      ground (arith, eq_iff k j, eq_iff j k, lookup-update k j f t, update-IsKeyed k f t h.1)

  pub erase-IsKeyed : (k : String) (t : Table V) → IsKeyed t → IsKeyed (erase k t)
  unfolding erase
  erase-IsKeyed k [] h = tt
  erase-IsKeyed k ((j, w) ∷ t) h = ground (arith, lookup-erase k j t, erase-IsKeyed k t h.1)

  abbrev filter_some : (V → Bool) → Option V → Option V
  filter_some p none = none
  filter_some p (some v) = if p v then some v else none

  -- A test on the rows of a table with keys is a test on what is found.
  pub lookup-filter :
      (p : V → Bool) (k : String) (t : Table V)
      → IsKeyed t
      → lookup k (filter (λ e. p e.1) t) ≡ filter_some p (lookup k t)
  unfolding lookup
  lookup-filter p k [] h = refl
  lookup-filter p k ((j, w) ∷ t) h = ground (arith, eq_iff k j, lookup-filter p k t h.1)

  pub filter-IsKeyed : (p : V → Bool) (t : Table V) → IsKeyed t → IsKeyed (filter (λ e. p e.1) t)
  filter-IsKeyed p [] h = tt
  filter-IsKeyed p ((j, w) ∷ t) h = ground (arith, lookup-filter p j t h.1, filter-IsKeyed p t h.1)

  -- Every row of a table is found under its key.
  abbrev pub AllFound : Table V → Table V → Type 0
  AllFound t [] = Unit
  AllFound t (e ∷ es) = (is_none (lookup e.0 t) ≡ false) × AllFound t es

  AllFound-cons : (e : String × V) (t es : Table V) → AllFound t es → AllFound (e ∷ t) es
  unfolding lookup
  AllFound-cons e t [] h = tt
  AllFound-cons e t (f ∷ es) h = (ground (arith, h.0), AllFound-cons e t es h.1)

  pub AllFound-self : (t : Table V) → AllFound t t
  unfolding lookup
  AllFound-self [] = tt
  AllFound-self (e ∷ t) = (ground (arith, eq_iff e.0 e.0), AllFound-cons e t t (AllFound-self t))

  pub AllFound-filter :
      (p : String × V → Bool) (t es : Table V) → AllFound t es → AllFound t (filter p es)
  AllFound-filter p t [] h = tt
  AllFound-filter p t (e ∷ es) h = ground (arith, AllFound-filter p t es h.1)

  -- Every row of a table with keys is the one that is found under its key.
  abbrev pub AllAt : Table V → Table V → Type ℓ
  AllAt t [] = Unit
  AllAt t (e ∷ es) = (lookup e.0 t ≡ some e.1) × AllAt t es

  AllAt-cons :
      (e : String × V) (t es : Table V)
      → is_none (lookup e.0 t) ≡ true
      → AllAt t es
      → AllAt (e ∷ t) es
  unfolding lookup
  AllAt-cons e t [] a h = tt
  AllAt-cons e t (f ∷ es) a h = (ground (arith, eq_iff f.0 e.0), AllAt-cons e t es a h.1)

  pub AllAt-self : (t : Table V) → IsKeyed t → AllAt t t
  unfolding lookup
  AllAt-self [] h = tt
  AllAt-self (e ∷ t) h = (ground (arith, eq_iff e.0 e.0), AllAt-cons e t t h.0 (AllAt-self t h.1))
