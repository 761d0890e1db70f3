-- ===== src/Rank/SortedSet/Tests.antt =====
-- The ranking on a small board.
use fkgo_server.Base.{ℕ, ◌≡◌, refl, ap, ◌≢◌, some, [], ◌∷◌, arith}
use fkgo_server.Base.Int.{pos, negsuc, pos_part, to_int32}
use mathlib.Core.List.{Perm}
use fkgo_server.Rank.SortedSet.{
  Sortpair, SortedSet, insert, grow, rshift, copy_within, assign, lower_from, delete, locate,
  update, get_list, grow, rshift, copy_within, assign, lower_from,
}
use fkgo_server.Rank.SortedSet.Order.{IsSorted, place}
use fkgo_server.Rank.SortedSet.Insert.{
  insert-eq-place, insert_correct, locate_correct, delete_lem, delete-IsSorted,
}
use fkgo_server.Rank.SortedSet.Update.{update_rises, update_falls}
use fkgo_server.Rank.SortedSet.Range.{get_list_correct}

abbrev entry : ℕ → ℕ → Sortpair
entry id score = record { id = pos id; score = pos score }

abbrev board : SortedSet
board = entry 1 90 ∷ entry 2 70 ∷ entry 3 70 ∷ entry 4 10 ∷ []

board-IsSorted : IsSorted board
board-IsSorted = omega arith

other : (m n : ℕ) → m ≢ n → pos m ≢ pos n
other m n h e = h (ap pos_part e)

insert_run :
    insert board (pos 5) (pos 70)
    ≡ some (entry 1 90 ∷ entry 2 70 ∷ entry 3 70 ∷ entry 5 70 ∷ entry 4 10 ∷ [])
unfolding insert grow rshift copy_within assign lower_from
insert_run = refl

insert_correct_example :
    (out : SortedSet) × (insert board (pos 5) (pos 70) ≡ some out)
    × IsSorted out
    × Perm out (entry 5 70 ∷ board)
insert_correct_example = insert_correct board (pos 5) (pos 70) board-IsSorted

insert-eq-place_run : insert board (pos 5) (pos 70) ≡ some (place (entry 5 70) board)
insert-eq-place_run = insert-eq-place board (pos 5) (pos 70)

locate_correct_run : (locate board (pos 3) ≡ pos 3) × (locate board (pos 9) ≡ negsuc 0)
unfolding to_int32
locate_correct_run =
    locate_correct (entry 1 90 ∷ entry 2 70 ∷ []) (entry 3 70) (entry 4 10 ∷ []) (pos 9)
      (other 1 3 (omega arith), (other 2 3 (omega arith), tt))
      (
        other 1 9 (omega arith),
        (other 2 9 (omega arith), (other 3 9 (omega arith), (other 4 9 (omega arith), tt))),
      )

delete_lem_run : delete board (pos 2) ≡ entry 1 90 ∷ entry 3 70 ∷ entry 4 10 ∷ []
delete_lem_run =
    delete_lem (entry 1 90 ∷ []) (entry 2 70) (entry 3 70 ∷ entry 4 10 ∷ [])
      (other 1 2 (omega arith), tt)

delete-IsSorted_run : IsSorted (delete board (pos 2))
delete-IsSorted_run = delete-IsSorted (pos 2) board board-IsSorted

update_rises_example :
    (out : SortedSet) × (update board (pos 4) (pos 80) ≡ some out)
    × (out ≡ place (entry 4 80) (entry 1 90 ∷ entry 2 70 ∷ entry 3 70 ∷ []))
    × IsSorted out
update_rises_example =
    update_rises (entry 1 90 ∷ entry 2 70 ∷ entry 3 70 ∷ []) (entry 4 10) [] (pos 80)
      (other 1 4 (omega arith), (other 2 4 (omega arith), (other 3 4 (omega arith), tt)))
      board-IsSorted (omega arith)

update_falls_example :
    (out : SortedSet) × (update board (pos 2) (pos 60) ≡ some out) × ¬ IsSorted out
update_falls_example =
    update_falls (entry 1 90 ∷ []) (entry 2 70) (entry 3 70 ∷ []) (entry 4 10) [] (pos 60)
      (other 1 2 (omega arith), tt) (omega arith) (omega arith)

get_list_correct_run : get_list board 2 3 ≡ some (pos 2 ∷ pos 3 ∷ [], pos 70 ∷ pos 70 ∷ [])
get_list_correct_run =
    get_list_correct (entry 1 90 ∷ []) (entry 2 70 ∷ entry 3 70 ∷ entry 4 10 ∷ []) 1 (omega arith)
