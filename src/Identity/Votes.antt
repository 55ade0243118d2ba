-- ===== src/Identity/Votes.antt =====
-- lanfence/identity.py: the value of a field is the one with the most weight.
use lan_fence.Base.{
  List, Option, String, Table, [], arith, eq_iff, if◌then◌else◌, lookup, lookup-upsert, none,
  opt_str_eq, or_else, some, ℕ, ◌+◌, ◌∷◌, ◌≡◌, ◌≤◌,
}
use lan_fence.Identity.{
  IdentityField, IdentityRule, add_vote, best_weight, field_totals, first_best, winner,
}

-- the weight of the rules that assert the value
abbrev pub votes_for : IdentityField → String → List IdentityRule → ℕ
votes_for f v [] = 0
votes_for f v (r ∷ rs) =
    (if opt_str_eq (r.asserts f) (some v) then r.weight else 0) + votes_for f v rs

total_of : String → Table ℕ → ℕ
total_of v t = or_else (lookup v t) 0

total_of-add_vote :
    (v : String) (o : Option String) (n : ℕ) (t : Table ℕ)
    → total_of v (add_vote o n t) ≡ total_of v t + (if opt_str_eq o (some v) then n else 0)
unfolding total_of
total_of-add_vote v none n t = omega arith
total_of-add_vote v (some k) n t =
    ground (arith, lookup-upsert k v (or_else (lookup k t) 0 + n) t, eq_iff v k, eq_iff k v)

total_of-field_totals :
    (f : IdentityField) (v : String) (rs : List IdentityRule) (t : Table ℕ)
    → total_of v (field_totals f rs t) ≡ total_of v t + votes_for f v rs
unfolding field_totals
total_of-field_totals f v [] t = omega arith
total_of-field_totals f v (r ∷ rs) t = omega (
  arith,
  total_of-field_totals f v rs (add_vote (r.asserts f) r.weight t),
  total_of-add_vote v (r.asserts f) r.weight t,
)

total_of-best_weight : (v : String) (t : Table ℕ) → total_of v t ≤ best_weight t
unfolding total_of lookup
total_of-best_weight v [] = omega arith
total_of-best_weight v ((k, n) ∷ t) = ground (arith, total_of-best_weight v t)

-- what is found has the best total
first_best-holds :
    (f : IdentityField) (t : Table ℕ) (rs : List IdentityRule) (v : String)
    → first_best f t rs ≡ some v
    → total_of v t ≡ best_weight t
unfolding total_of
first_best-holds f t [] v h = cc
first_best-holds f t (r ∷ rs) v h = ground (arith, first_best-holds f t rs v)

-- No value of a field has more weight, summed over the matched rules that assert it, than the value
-- that is chosen.
pub winner-best :
    (f : IdentityField) (v w : String) (matched : List IdentityRule)
    → winner f matched ≡ some v
    → votes_for f w matched ≤ votes_for f v matched
unfolding winner total_of lookup
winner-best f v w matched h =
    let t = field_totals f matched [] in
    omega (
      arith,
      total_of-field_totals f v matched [],
      total_of-field_totals f w matched [],
      first_best-holds f t matched v h,
      total_of-best_weight w t,
    )
