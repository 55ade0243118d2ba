-- ===== src/Baseline/Ingest/Pages.antt =====
-- lanfence/baseline.py: pages of rows in rising order of their identifiers.
use lan_fence.Base.{
  All, All-filter, List, [], ap, arith, drop, false, length, ltb, ltb→lt, refl, suc, sym, take,
  zero, ℕ, ◌++◌, ◌+◌, ◌<◌, ◌∙◌, ◌∷◌, ◌≡◌, ◌≤◌,
}
use lan_fence.Store.Changelog.{IsRising, after_id, last_id}
use lan_fence.Store.State.{EventRow}

All-after_id :
    (P : EventRow → Type 0) (n : ℕ) (rs : List EventRow) → All P rs → All P (after_id n rs)
All-after_id P n [] h = tt
All-after_id P n (r ∷ rs) h = ground (arith, All-after_id P n rs h.1)

after_id-IsRising : (n : ℕ) (rs : List EventRow) → IsRising rs → IsRising (after_id n rs)
after_id-IsRising n [] h = tt
after_id-IsRising n (r ∷ rs) h =
    ground
      (arith, All-after_id (λ (x : EventRow). r.id < x.id) n rs h.0, after_id-IsRising n rs h.1)

-- a higher cursor leaves out what a lower one does
after_id-after_id :
    (n m : ℕ) (rs : List EventRow) → n ≤ m → after_id m (after_id n rs) ≡ after_id m rs
after_id-after_id n m [] h = refl
after_id-after_id n m (r ∷ rs) h = ground (arith, after_id-after_id n m rs)

after_id_self :
    (n : ℕ) (rs : List EventRow) → All (λ (x : EventRow). n < x.id) rs → after_id n rs ≡ rs
after_id_self n [] h = refl
after_id_self n (r ∷ rs) h = ground (arith, after_id_self n rs h.1)

-- the last of the first rows that are taken is no less than the cursor before
last_id-take_le :
    (k n : ℕ) (rs : List EventRow)
    → All (λ (x : EventRow). n < x.id) rs
    → IsRising rs
    → n ≤ last_id n (take k rs)
last_id-take_le zero n rs h o = omega arith
last_id-take_le (suc k) n [] h o = omega arith
last_id-take_le (suc k) n (r ∷ rs) h o = omega (arith, h.0, last_id-take_le k r.id rs o.0 o.1)

after_id-last_id :
    (k n : ℕ) (rs : List EventRow)
    → All (λ (x : EventRow). n < x.id) rs
    → IsRising rs
    → after_id (last_id n (take k rs)) rs ≡ drop k rs
after_id-last_id zero n rs h o = after_id_self n rs h
after_id-last_id (suc k) n [] h o = refl
after_id-last_id (suc k) n (r ∷ rs) h o =
    ground (arith, last_id-take_le k r.id rs o.0 o.1, after_id-last_id k r.id rs o.0 o.1)

-- The next page starts where the last one ended.
pub pages :
    (k n : ℕ) (rs : List EventRow)
    → IsRising rs
    → after_id (last_id n (take k (after_id n rs))) rs ≡ drop k (after_id n rs)
pages k n rs h =
    let above : All (λ (x : EventRow). n < x.id) (after_id n rs) =
      All-filter (λ (x : EventRow). n < x.id) (λ (x : EventRow). ltb n x.id) rs
        (λ (x : EventRow) e. ltb→lt n x.id e) in
    let rising = after_id-IsRising n rs h in
    sym (
      after_id-after_id n (last_id n (take k (after_id n rs))) rs
        (last_id-take_le k n (after_id n rs) above rising))
    ∙ after_id-last_id k n (after_id n rs) above rising

pub take-drop {ℓ} : {A : Type ℓ} (k : ℕ) (xs : List A) → take k xs ++ drop k xs ≡ xs
take-drop zero xs = refl
take-drop (suc k) [] = refl
take-drop (suc k) (x ∷ xs) = ap (λ l. x ∷ l) (take-drop k xs)

pub length-take-drop {ℓ} :
    {A : Type ℓ} (k : ℕ) (xs : List A) → length (take k xs) + length (drop k xs) ≡ length xs
length-take-drop zero xs = omega arith
length-take-drop (suc k) [] = refl
length-take-drop (suc k) (x ∷ xs) = omega (arith, length-take-drop k xs)

pub length-drop {ℓ} : {A : Type ℓ} (k : ℕ) (xs : List A) → length (take k xs) < k → drop k xs ≡ []
length-drop zero xs h = absurd (omega arith)
length-drop (suc k) [] h = refl
length-drop (suc k) (x ∷ xs) h = length-drop k xs (omega arith)

pub take_all {ℓ} : {A : Type ℓ} (k : ℕ) (xs : List A) → length (take k xs) < k → take k xs ≡ xs
take_all zero xs h = absurd (omega arith)
take_all (suc k) [] h = refl
take_all (suc k) (x ∷ xs) h = ap (λ l. x ∷ l) (take_all k xs (omega arith))

pub shorter {ℓ} :
    {A : Type ℓ} (k fuel : ℕ) (xs : List A)
    → 0 < k
    → length xs < suc fuel
    → ltb (length (take k xs)) k ≡ false
    → length (drop k xs) < fuel
shorter k fuel xs h l e = ground (arith, length-take-drop k xs)
