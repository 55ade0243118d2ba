-- ===== src/Discovery/Names/Termination.antt =====
-- lanfence/discovery.py: the loop over the labels of a name ends.
use lan_fence.Base.{List, Option, arith, length, none, refl, some, suc, zero, ℕ, ◌+◌, ◌<◌, ◌≡◌}
use lan_fence.Discovery.Names.{Name, byte_at, label_case, labels_from, read_name}
use lan_fence.Discovery.Names.Bounds.{byte_at_end}

module _ (follow : ℕ → Name) (message : List ℕ) (start : ℕ) where
  -- two continuations that agree
  same_case :
      (pos : ℕ) (r s : ℕ → Name) (o : Option ℕ)
      → ((size : ℕ) → r size ≡ s size)
      → label_case follow message start pos r o ≡ label_case follow message start pos s o
  same_case pos r s none h = refl
  same_case pos r s (some size) h = rw (h size) refl

  -- However much more fuel than the bytes left is given, the labels read are the same.
  labels_from-enough :
      (f g pos : ℕ)
      → length message < f + pos
      → length message < g + pos
      → labels_from follow message start f pos ≡ labels_from follow message start g pos
  unfolding labels_from
  labels_from-enough zero zero pos h k = refl
  labels_from-enough zero (suc g) pos h k = rw (byte_at_end pos message (omega arith)) refl
  labels_from-enough (suc f) zero pos h k = rw (byte_at_end pos message (omega arith)) refl
  labels_from-enough (suc f) (suc g) pos h k =
      same_case pos _ _ (byte_at pos message)
        (λ size. labels_from-enough f g (pos + 1 + size) (omega arith) (omega arith))

-- The fuel never decides what is read: any number of passes that is more than the bytes of the
-- message gives the name that `read_name` reads.
pub read_name-enough :
    (fuel depth : ℕ) (message : List ℕ) (offset : ℕ)
    → length message < fuel
    → labels_from (λ target. read_name depth message target) message offset fuel offset
      ≡ read_name (suc depth) message offset
unfolding read_name
read_name-enough fuel depth message offset h =
    labels_from-enough (λ target. read_name depth message target) message offset fuel
      (suc (length message)) offset (omega arith) (omega arith)
