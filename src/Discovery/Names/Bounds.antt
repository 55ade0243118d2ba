-- ===== src/Discovery/Names/Bounds.antt =====
-- lanfence/discovery.py: a name is read within the message, and there is not too much of it.
use native.Mathlib.Nat.{suc-mul}
use mathlib.Core.Path.{subst}
use lan_fence.Base.{
  All, List, Option, [], ap, arith, false, if-elim, leb, length, ltb, none, refl, some, suc, zero,
  ℕ, ◌*◌, ◌+◌, ◌-◌, ◌<◌, ◌==◌, ◌∷◌, ◌≡◌, ◌≤◌,
}
use lan_fence.Discovery.Names.{
  Label, Name, add_label, byte_at, bytes_at, follow_pointer, label_case, labels_from, pointed,
  read_name,
}

byte_at-lt : (pos : ℕ) (m : List ℕ) (b : ℕ) → byte_at pos m ≡ some b → pos < length m
unfolding byte_at
byte_at-lt zero [] b h = cc
byte_at-lt (suc pos) [] b h = cc
byte_at-lt zero (x ∷ m) b h = omega arith
byte_at-lt (suc pos) (x ∷ m) b h = omega (arith, byte_at-lt pos m b h)

pub byte_at_end : (pos : ℕ) (m : List ℕ) → length m ≤ pos → byte_at pos m ≡ none
unfolding byte_at
byte_at_end zero [] h = refl
byte_at_end (suc pos) [] h = refl
byte_at_end zero (x ∷ m) h = absurd (omega arith)
byte_at_end (suc pos) (x ∷ m) h = byte_at_end pos m (omega arith)

length-bytes_at : (pos n : ℕ) (m : List ℕ) → pos + n ≤ length m → length (bytes_at pos n m) ≡ n
length-bytes_at zero zero m h = refl
length-bytes_at zero (suc n) [] h = absurd (omega arith)
length-bytes_at zero (suc n) (x ∷ m) h = ap suc (length-bytes_at zero n m (omega arith))
length-bytes_at (suc pos) zero [] h = refl
length-bytes_at (suc pos) (suc n) [] h = absurd (omega arith)
length-bytes_at (suc pos) n (x ∷ m) h = length-bytes_at pos n m (omega arith)

abbrev pub IsLabel : Label → Type 0
IsLabel l = (1 ≤ length l) × (length l ≤ 63)

-- What a name that starts at `pos` is like, with at most `n` labels: it ends after its start and
-- within the message.
abbrev pub IsNameAt : List ℕ → ℕ → ℕ → Name → Type 0
IsNameAt m pos n none = Unit
IsNameAt m pos n (some (ls, end)) =
    (pos < end) × (end ≤ length m) × (length ls ≤ n) × All IsLabel ls

IsNameAt-add_label :
    (m : List ℕ) (pos next n : ℕ) (l : Label) (r : Name)
    → pos < next
    → IsLabel l
    → IsNameAt m next n r
    → IsNameAt m pos (suc n) (add_label l r)
IsNameAt-add_label m pos next n l none h k i = tt
IsNameAt-add_label m pos next n l (some (ls, end)) h k i =
    (omega (arith, h, i.0), i.1, omega (arith, i.2), (k, i.3))

IsNameAt-pointed :
    (m : List ℕ) (pos t n : ℕ) (r : Name)
    → pos + 1 < length m
    → IsNameAt m t n r
    → IsNameAt m pos n (pointed (pos + 2) r)
IsNameAt-pointed m pos t n none h i = tt
IsNameAt-pointed m pos t n (some (ls, end)) h i = (omega arith, omega arith, i.2, i.3)

-- a label that fits is as long as its first byte says
sized :
    (pos size : ℕ) (m : List ℕ)
    → (size == 0) ≡ false
    → leb 64 size ≡ false
    → ltb (length m) (pos + 1 + size) ≡ false
    → IsLabel (bytes_at (pos + 1) size m)
sized pos size m e a b =
    rw (length-bytes_at (pos + 1) size m (ground arith)) (ground arith, ground arith)

module _ (follow : ℕ → Name) (message : List ℕ) (start k : ℕ)
    (good : (t : ℕ) → IsNameAt message t k (follow t)) where
  IsNameAt-follow_pointer :
      (pos size : ℕ) (o : Option ℕ)
      → byte_at (pos + 1) message ≡ o
      → IsNameAt message pos k (follow_pointer follow start pos size o)
  IsNameAt-follow_pointer pos size none h = tt
  IsNameAt-follow_pointer pos size (some low) h =
      let target = (size - 192) * 256 + low in
      if-elim (IsNameAt message pos k) (leb start target) none (pointed (pos + 2) (follow target))
        (λ e. tt)
        (λ e.
          IsNameAt-pointed message pos target k (follow target) (byte_at-lt (pos + 1) message low h)
            (good target))

  weaken : (pos m n : ℕ) (r : Name) → m ≤ n → IsNameAt message pos m r → IsNameAt message pos n r
  weaken pos m n none h i = tt
  weaken pos m n (some (ls, end)) h i = (i.0, i.1, omega (arith, h, i.2), i.3)

  IsNameAt-label_case :
      (pos n : ℕ) (rest : ℕ → Name) (o : Option ℕ)
      → byte_at pos message ≡ o
      → k ≤ n
      → ((size : ℕ) → IsNameAt message (pos + 1 + size) n (rest size))
      → IsNameAt message pos (suc n) (label_case follow message start pos rest o)
  IsNameAt-label_case pos n rest none h l g = tt
  IsNameAt-label_case pos n rest (some size) h l g =
      if-elim (IsNameAt message pos (suc n)) (size == 0) _ _
        (λ e. (omega arith, omega (arith, byte_at-lt pos message size h), omega arith, tt))
        (λ e.
          if-elim (IsNameAt message pos (suc n)) (leb 192 size) _ _
            (λ f. weaken pos k (suc n) _ (omega arith) (IsNameAt-follow_pointer pos size _ refl))
            (λ f.
              if-elim (IsNameAt message pos (suc n)) (leb 64 size) _ _ (λ a. tt)
                (λ a.
                  if-elim (IsNameAt message pos (suc n)) (ltb (length message) (pos + 1 + size)) _ _
                    (λ b. tt)
                    (λ b.
                      IsNameAt-add_label message pos (pos + 1 + size) n
                        (bytes_at (pos + 1) size message) (rest size) (omega arith)
                        (sized pos size message e a b) (g size)))))

  IsNameAt-labels_from :
      (fuel pos : ℕ) → IsNameAt message pos (fuel + k) (labels_from follow message start fuel pos)
  unfolding labels_from
  IsNameAt-labels_from zero pos = tt
  IsNameAt-labels_from (suc fuel) pos =
      subst (λ n. IsNameAt message pos n (labels_from follow message start (suc fuel) pos))
        (omega arith)
        (IsNameAt-label_case pos (fuel + k) _ (byte_at pos message) refl (omega arith)
          (λ size. IsNameAt-labels_from fuel (pos + 1 + size)))

-- A name that is read ends after its start and within the message, each label has 1 to 63 bytes, and
-- there are at most as many labels as the depth times one more than the bytes of the message, however
-- its pointers lead.
pub read_name-IsNameAt :
    (depth : ℕ) (message : List ℕ) (offset : ℕ)
    → IsNameAt message offset (depth * suc (length message)) (read_name depth message offset)
unfolding read_name
read_name-IsNameAt zero message offset = tt
read_name-IsNameAt (suc depth) message offset =
    subst (λ n. IsNameAt message offset n (read_name (suc depth) message offset))
      (omega (arith, suc-mul depth (suc (length message))))
      (IsNameAt-labels_from (λ target. read_name depth message target) message offset
        (depth * suc (length message)) (read_name-IsNameAt depth message) (suc (length message))
        offset)
