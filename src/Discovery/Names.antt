-- ===== src/Discovery/Names.antt =====
-- lanfence/discovery.py: the names of a DNS message. A byte is a number below 256.
pub mod Encoding
pub mod Termination
pub mod Bounds
use lan_fence.Base.{
  List, Option, [], drop, if◌then◌else◌, leb, length, ltb, none, refl, some, suc, take, zero, ℕ,
  ◌*◌, ◌+◌, ◌-◌, ◌==◌, ◌∷◌, ◌≡◌,
}

-- `data[pos]`; `none` stands for the end of the data
unfoldable pub byte_at : ℕ → List ℕ → Option ℕ
byte_at pos [] = none
byte_at zero (b ∷ bs) = some b
byte_at (suc pos) (b ∷ bs) = byte_at pos bs

-- `data[pos : pos + n]`
abbrev pub bytes_at : ℕ → ℕ → List ℕ → List ℕ
bytes_at pos n message = take n (drop pos message)

abbrev pub Label : Type 0
Label = List ℕ

-- the labels of a name and the position after it; `none` stands for a _ParseError
abbrev pub Name : Type 0
Name = Option (List Label × ℕ)

abbrev pub add_label : Label → Name → Name
add_label l none = none
add_label l (some (ls, end)) = some (l ∷ ls, end)

-- after a pointer, the name ends where the pointer does
abbrev pub pointed : ℕ → Name → Name
pointed end none = none
pointed end (some (ls, e)) = some (ls, end)

-- the target of a pointer, which has to stand before the name that started at `start`
abbrev pub follow_pointer : (ℕ → Name) → ℕ → ℕ → ℕ → Option ℕ → Name
follow_pointer follow start pos high none = none
follow_pointer follow start pos high (some low) =
    let target = (high - 192) * 256 + low in
    if leb start target then none else pointed (pos + 2) (follow target)

module _ (follow : ℕ → Name) (message : List ℕ) (start : ℕ) where
  -- what the byte at `pos` begins, and `rest` after a label
  abbrev pub label_case : ℕ → (ℕ → Name) → Option ℕ → Name
  label_case pos rest none = none
  label_case pos rest (some size) =
      if size == 0
      then some ([], pos + 1)
      else if leb 192 size
      then follow_pointer follow start pos size (byte_at (pos + 1) message)
      else if leb 64 size
      then none
      else if ltb (length message) (pos + 1 + size)
      then none
      else add_label (bytes_at (pos + 1) size message) (rest size)

  -- the loop of `_read_name`, with at most `fuel` labels
  unfoldable pub labels_from : ℕ → ℕ → Name
  labels_from zero pos = none
  labels_from (suc fuel) pos =
      label_case pos (λ size. labels_from fuel (pos + 1 + size)) (byte_at pos message)

-- `_read_name`, which may follow pointers `depth` times; a label takes at least two bytes, so there
-- are fewer labels than bytes
unfoldable pub read_name : ℕ → List ℕ → ℕ → Name
read_name zero message offset = none
read_name (suc depth) message offset =
    labels_from (λ target. read_name depth message target) message offset (suc (length message))
      offset

-- _MAX_NAME_POINTER_DEPTH, and the name itself
abbrev pub max_depth : ℕ
max_depth = 21

-- "example" with a name, and a pointer to it
read_name_examples :
    (read_name max_depth (1 ∷ 97 ∷ 2 ∷ 98 ∷ 99 ∷ 0 ∷ []) 0
      ≡ some ((97 ∷ []) ∷ (98 ∷ 99 ∷ []) ∷ [], 6))
    × (read_name max_depth (1 ∷ 97 ∷ 0 ∷ 1 ∷ 98 ∷ 192 ∷ 0 ∷ []) 3
        ≡ some ((98 ∷ []) ∷ (97 ∷ []) ∷ [], 7))
    × (read_name max_depth (192 ∷ 0 ∷ []) 0 ≡ none)
unfolding read_name labels_from byte_at
read_name_examples = (refl, refl, refl)
