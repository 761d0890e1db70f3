-- ===== src/WordFilter/Tests.antt =====
-- The filter on a short text, with texts that are all in upper case.
use fkgo_server.Base.{ℕ, ◌≡◌, true, some, List, [], ◌∷◌, arith, length}
use fkgo_server.Base.Map.{bytes_eq, lookup}
use fkgo_server.WordFilter.{filter}
use fkgo_server.WordFilter.Clean.{filter_correct}

abbrev same : List ℕ → List ℕ
same w = w

-- The dirty word is the two bytes 66, 65.
filter_correct_example :
    filter same same length []
      ((66 ∷ 65 ∷ [], true) ∷ [])
      (67 ∷ 66 ∷ 65 ∷ [])
      ((0, 1) ∷ (1, 3) ∷ [])
    ≡ some (67 ∷ 42 ∷ 42 ∷ [])
unfolding lookup
filter_correct_example =
    filter_correct same same length [] ((66 ∷ 65 ∷ [], true) ∷ []) ((67 ∷ []) ∷ (66 ∷ 65 ∷ []) ∷ [])
      (omega arith)
