-- ===== src/Witnesses/Names.antt =====
-- Names of DNS messages.
use lan_fence.Base.{[], arith, some, ◌++◌, ◌∷◌, ◌≡◌}
use lan_fence.Discovery.Names.{labels_from, max_depth, read_name}
use lan_fence.Discovery.Names.Bounds.{IsNameAt, read_name-IsNameAt}
use lan_fence.Discovery.Names.Encoding.{encode, read_name-encode}
use lan_fence.Discovery.Names.Termination.{read_name-enough}

-- the name "ab.c" after a byte, with a byte behind it
read_name-encode_example :
    read_name max_depth (7 ∷ (encode ((97 ∷ 98 ∷ []) ∷ (99 ∷ []) ∷ []) ++ (9 ∷ []))) 1
    ≡ some ((97 ∷ 98 ∷ []) ∷ (99 ∷ []) ∷ [], 7)
read_name-encode_example =
    read_name-encode 20 ((97 ∷ 98 ∷ []) ∷ (99 ∷ []) ∷ []) (7 ∷ []) (9 ∷ [])
      ((omega arith, omega arith), ((omega arith, omega arith), tt))

-- the name "b", and a pointer to the name "a"
read_name-IsNameAt_example :
    IsNameAt
      (1 ∷ 97 ∷ 0 ∷ 1 ∷ 98 ∷ 192 ∷ 0 ∷ [])
      3
      168
      (read_name max_depth (1 ∷ 97 ∷ 0 ∷ 1 ∷ 98 ∷ 192 ∷ 0 ∷ []) 3)
read_name-IsNameAt_example = read_name-IsNameAt max_depth (1 ∷ 97 ∷ 0 ∷ 1 ∷ 98 ∷ 192 ∷ 0 ∷ []) 3

read_name-enough_example :
    labels_from (λ target. read_name 20 (1 ∷ 97 ∷ 0 ∷ []) target) (1 ∷ 97 ∷ 0 ∷ []) 0 9 0
    ≡ read_name max_depth (1 ∷ 97 ∷ 0 ∷ []) 0
read_name-enough_example = read_name-enough 9 20 (1 ∷ 97 ∷ 0 ∷ []) 0 (omega arith)
