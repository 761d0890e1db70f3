-- ===== src/Rank/Tree/Tests.antt =====
-- The tree on a small board.
use fkgo_server.Base.{◌≡◌, refl, inr, some, [], ◌∷◌, arith}
use fkgo_server.Base.Int.{pos}
use fkgo_server.Rank.SortedSet.{Sortpair, SortedSet}
use fkgo_server.Rank.SortedSet
use fkgo_server.Rank.SortedSet.Order.{place}
use fkgo_server.Rank.Tree.{
  red, black, Tree, leaf, node, at_right, Found, locate, lookup_from, locate_in, index_from,
  get_list,
}
use fkgo_server.Rank.Tree.Groups.{groups}
use fkgo_server.Rank.Tree.Entries.{entry, entries, same_score, expand}
use fkgo_server.Rank.Tree.Balance.{Rebalanced}
use fkgo_server.Rank.Tree.Insert.{insert, insert_from, insert_case1}
use fkgo_server.Rank.Tree.Insert.Correct.{IsValid, insert_refines}
use fkgo_server.Rank.Tree.Remove.{
  delete, delete_at, remove_last, remove_node, delete_case1, delete_case2, delete_case3,
}
use fkgo_server.Rank.Tree.Remove.Climb.{delete_case1_lem}
use fkgo_server.Rank.Tree.Remove.Refines.{Deleted, delete_refines}
use fkgo_server.Rank.Tree.Locate.{locate_complete}
use fkgo_server.Rank.Tree.Ranks.{get_list-entries}

abbrev first : Tree
first = node leaf black 1 (pos 90) (pos 1 ∷ []) leaf

abbrev last : Tree
last = node leaf black 1 (pos 10) (pos 4 ∷ []) leaf

abbrev board : Tree
board = node first black 4 (pos 70) (pos 2 ∷ pos 3 ∷ []) last

board-IsValid : IsValid board
unfolding groups
board-IsValid = record {
  balanced = (
    refl,
    2,
    inr (refl, 1, refl, inr (refl, 0, refl, refl, refl), inr (refl, 0, refl, refl, refl)),
  );
  ordered = omega arith;
  sized = omega arith;
  filled = omega arith;
}

insert_run :
    insert board (pos 80) (pos 5)
    ≡ some (
        node
          (node leaf black 2 (pos 90) (pos 1 ∷ []) (node leaf red 1 (pos 80) (pos 5 ∷ []) leaf))
          black
          5
          (pos 70)
          (pos 2 ∷ pos 3 ∷ [])
          last)
unfolding insert insert_from insert_case1
insert_run = refl

-- The last node goes: its sibling turns red.
delete_run :
    delete (pos 4) (locate board (pos 10) (pos 4))
    ≡ some (
        node
          (node leaf red 1 (pos 90) (pos 1 ∷ []) leaf)
          black
          3
          (pos 70)
          (pos 2 ∷ pos 3 ∷ [])
          leaf)
unfolding locate lookup_from locate_in index_from delete delete_at remove_last remove_node
    delete_case1 delete_case2 delete_case3
delete_run = refl

insert_refines_example :
    (u : Tree) × (insert board (pos 80) (pos 5) ≡ some u)
    × IsValid u
    × (entries u ≡ place (entry (pos 80) (pos 5)) (entries board))
insert_refines_example = insert_refines board (pos 80) (pos 5) board-IsValid

abbrev found : Found
found = record {
  rank = 4;
  at = last;
  path = at_right first black 4 (pos 70) (pos 2 ∷ pos 3 ∷ []) ∷ [];
}

delete_refines_example : Deleted board (pos 10) (pos 4) 4 (delete (pos 4) (some found))
unfolding locate lookup_from locate_in index_from
delete_refines_example = delete_refines board (pos 10) (pos 4) found board-IsValid refl

locate_complete_example : (n : Found) × (locate board (pos 70) (pos 3) ≡ some n)
unfolding entries expand groups same_score
locate_complete_example =
    locate_complete board (pos 70) (pos 3) (entry (pos 90) (pos 1) ∷ entry (pos 70) (pos 2) ∷ [])
      (entry (pos 10) (pos 4) ∷ []) board-IsValid refl

get_list-entries_example : get_list board 2 3 ≡ SortedSet.get_list (entries board) 2 3
get_list-entries_example = get_list-entries board 2 3 (omega arith) (omega arith)

delete_case1_lem_example :
    Rebalanced (delete_case1 2 0 leaf (at_right first black 3 (pos 70) (pos 2 ∷ pos 3 ∷ []) ∷ []))
delete_case1_lem_example =
    delete_case1_lem 2 0 0 leaf (at_right first black 3 (pos 70) (pos 2 ∷ pos 3 ∷ []) ∷ [])
      (omega arith) refl (inr (refl, 0, refl, refl, refl), inr (refl, tt)) tt
