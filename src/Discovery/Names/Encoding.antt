-- ===== src/Discovery/Names/Encoding.antt =====
-- lanfence/discovery.py: a name that is written without pointers is read back.
use mathlib.Core.Path.{subst}
use mathlib.Core.List.{append_assoc}
use lan_fence.Base.{
  All, List, [], ap, arith, drop, false, leb, length, ltb, refl, some, suc, sym, take, zero, ℕ,
  ◌++◌, ◌+◌, ◌<◌, ◌==◌, ◌∙◌, ◌∷◌, ◌≡◌, ◌≤◌,
}
use lan_fence.Discovery.Names.{Label, Name, byte_at, bytes_at, label_case, labels_from, read_name}
use lan_fence.Discovery.Names.Bounds.{IsLabel}

-- RFC 1035, section 3.1: each label after its length, and a zero byte
abbrev pub encode : List Label → List ℕ
encode [] = 0 ∷ []
encode (l ∷ ls) = length l ∷ l ++ encode ls

byte_at-append :
    (pre : List ℕ) (b : ℕ) (rest : List ℕ) → byte_at (length pre) (pre ++ b ∷ rest) ≡ some b
unfolding byte_at
byte_at-append [] b rest = refl
byte_at-append (x ∷ pre) b rest = byte_at-append pre b rest

drop-append :
    (pre : List ℕ) (b : ℕ) (rest : List ℕ) → drop (suc (length pre)) (pre ++ b ∷ rest) ≡ rest
drop-append [] b rest = refl
drop-append (x ∷ pre) b rest = drop-append pre b rest

take-append : (l rest : List ℕ) → take (length l) (l ++ rest) ≡ l
take-append [] rest = refl
take-append (x ∷ l) rest = ap (λ r. x ∷ r) (take-append l rest)

length-append : (xs ys : List ℕ) → length (xs ++ ys) ≡ length xs + length ys
length-append [] ys = omega arith
length-append (x ∷ xs) ys = omega (arith, length-append xs ys)

fitting :
    (pre l rest : List ℕ)
    → ltb (length (pre ++ (length l ∷ (l ++ rest)))) (length pre + 1 + length l) ≡ false
fitting pre l rest =
    ground (arith, length-append pre (length l ∷ (l ++ rest)), length-append l rest)

-- there are no more labels than bytes
length-encode : (ls : List Label) → length ls ≤ length (encode ls)
length-encode [] = omega arith
length-encode (l ∷ ls) = omega (arith, length-encode ls, length-append l (encode ls))

module _ (follow : ℕ → Name) (start : ℕ) where
  -- the first label of a message whose rest is read
  label-append :
      (pre l rest : List ℕ) (ls : List Label) (end : ℕ) (r : ℕ → Name)
      → IsLabel l
      → r (length l) ≡ some (ls, end)
      → label_case follow (pre ++ (length l ∷ (l ++ rest))) start (length pre) r (some (length l))
        ≡ some (l ∷ ls, end)
  label-append pre l rest ls end r h k =
      let m = pre ++ (length l ∷ (l ++ rest)) in
      let some_bytes : (length l == 0) ≡ false = ground arith in
      let no_pointer : leb 192 (length l) ≡ false = ground arith in
      let not_reserved : leb 64 (length l) ≡ false = ground arith in
      let fits : ltb (length m) (length pre + 1 + length l) ≡ false = fitting pre l rest in
      let next_byte : length pre + 1 ≡ suc (length pre) = omega arith in
      let cut : bytes_at (length pre + 1) (length l) m ≡ l =
        ap (λ n. take (length l) (drop n m)) next_byte
        ∙ ap (take (length l)) (drop-append pre (length l) (l ++ rest))
        ∙ take-append l rest in
      rw (some_bytes, no_pointer, not_reserved, fits, cut, k) refl

  labels_from-encode :
      (ls : List Label) (pre post : List ℕ) (fuel : ℕ)
      → All IsLabel ls
      → length ls < fuel
      → labels_from follow (pre ++ (encode ls ++ post)) start fuel (length pre)
        ≡ some (ls, length pre + length (encode ls))
  unfolding labels_from
  labels_from-encode ls pre post zero h k = absurd (omega arith)
  labels_from-encode [] pre post (suc fuel) h k = rw (byte_at-append pre 0 post) refl
  labels_from-encode (l ∷ ls) pre post (suc fuel) h k =
      let rest = encode ls ++ post in
      let end = length pre + suc (length (l ++ encode ls)) in
      let before = pre ++ (length l ∷ l) in
      let m = pre ++ (length l ∷ (l ++ rest)) in
      let same_end : length before + length (encode ls) ≡ end =
        omega (arith, length-append pre (length l ∷ l), length-append l (encode ls)) in
      let there : length before ≡ length pre + 1 + length l =
        omega (arith, length-append pre (length l ∷ l)) in
      let read : labels_from follow m start fuel (length pre + 1 + length l) ≡ some (ls, end) =
        subst (λ x. labels_from follow x start fuel (length pre + 1 + length l) ≡ some (ls, end))
          (append_assoc pre (length l ∷ l) rest)
          (subst (λ n. labels_from follow (before ++ rest) start fuel n ≡ some (ls, end)) there
            (labels_from-encode ls before post fuel h.1 (omega (arith, k))
              ∙ ap (λ n. some (ls, n)) same_end)) in
      subst
        (λ x.
          labels_from follow (pre ++ (length l ∷ x)) start (suc fuel) (length pre)
          ≡ some (l ∷ ls, end))
        (sym (append_assoc l (encode ls) post))
        (rw (byte_at-append pre (length l) (l ++ rest)) (
          label-append pre l rest ls end (λ n. labels_from follow m start fuel (length pre + 1 + n))
            h.0 read))

-- A name written label by label, anywhere in a message, is read as those labels, up to the byte
-- after it. The labels have 1 to 63 bytes.
pub read_name-encode :
    (depth : ℕ) (ls : List Label) (pre post : List ℕ)
    → All IsLabel ls
    → read_name (suc depth) (pre ++ (encode ls ++ post)) (length pre)
      ≡ some (ls, length pre + length (encode ls))
unfolding read_name
read_name-encode depth ls pre post h =
    let m = pre ++ (encode ls ++ post) in
    labels_from-encode (λ target. read_name depth m target) (length pre) ls pre post
      (suc (length m)) h
      (omega (
        arith,
        length-encode ls,
        length-append pre (encode ls ++ post),
        length-append (encode ls) post,
      ))
