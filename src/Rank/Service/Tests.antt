-- ===== src/Rank/Service/Tests.antt =====
-- The server with a bucket that is a map from keys to values.
use fkgo_server.Base.{ℕ, ◌≡◌, refl, ◌≢◌, Option, none, some, List, [], ◌∷◌, arith}
use fkgo_server.Base.Int.{ℤ, pos}
use mathlib.Core.List.Perm
use fkgo_server.Base.Map.{
  GoMap, lookup, put, remove, int_eq, nat_eq, bytes_eq, lookup-put_ne, lookup-remove_ne,
}
use fkgo_server.Rank.Set.{RankSet, new_rank_set}
use fkgo_server.Rank.Service.{
  Server, Bucket, Persisted, change, timer, signal, restore, rank_change, delete_set, is_marked,
  set_or_new,
}
use fkgo_server.Rank.Service.Requests.{AllConsistent, rank_change_correct}
use fkgo_server.Rank.Service.Store.{all_scores, restore_correct}
use fkgo_server.Rank.Service.Deleted.{
  BucketLaws, Later, now, woken, changed, set_deleted, delete_set_not_stored,
}

abbrev in_order : GoMap ℤ ℤ → List (ℤ × ℤ)
in_order m = m

abbrev empty : Server
empty = record { ranks = []; pending = [] }

rank_change_correct_example :
    (out : Server) × (rs : RankSet) × (rank_change in_order 7 (pos 1) (pos 50) empty ≡ some out)
    × AllConsistent out.ranks
    × (lookup 7 out.ranks ≡ some rs)
    × (rs.scores ≡ put (pos 1) (pos 50) [])
    × ((j : ℕ) → 7 ≢ j → lookup j out.ranks ≡ none)
    × (out.pending ≡ 7 ∷ [])
unfolding lookup
rank_change_correct_example =
    rank_change_correct in_order (λ m. Perm.refl m) 7 (pos 1) (pos 50) empty
      (λ id rs found. absurd (ground arith)) refl

abbrev parse_key : List ℕ → Option ℕ
parse_key (n ∷ []) = some n
parse_key _ = none

abbrev Keys : Type 0
Keys = GoMap (List ℕ) (List ℕ)

abbrev bucket : Bucket Keys
bucket = record {
  put_key = put;
  delete_key = remove;
  contents = λ b. b;
  sprint = λ n. n ∷ [];
  parse_uint = parse_key;
}

-- One user's id and score as two bytes.
abbrev decode_one : List ℕ → Option (GoMap ℤ ℤ)
decode_one (a ∷ b ∷ []) = some ((pos a, pos b) ∷ [])
decode_one _ = none

restore_correct_example :
    (out : Server) × (restore Keys bucket in_order decode_one ((7 ∷ [], 1 ∷ 50 ∷ []) ∷ [])
      ≡ some out)
    × AllConsistent out.ranks
    × (all_scores out.ranks ≡ (7, (pos 1, pos 50) ∷ []) ∷ [])
    × (out.pending ≡ [])
unfolding put lookup
restore_correct_example =
    restore_correct in_order decode_one Keys bucket (λ m. Perm.refl m)
      ((7, (pos 1, pos 50) ∷ []) ∷ []) ((7 ∷ [], 1 ∷ 50 ∷ []) ∷ []) (refl, refl, (refl, tt), tt)

first_byte : {m n : ℕ} → m ∷ [] ≡ n ∷ [] → m ≡ n
first_byte same = ground (arith, same)

-- Lookup in this bucket.
abbrev bucket_laws : BucketLaws Keys bucket lookup
bucket_laws = record {
  fetch-put_ne = λ k j v b apart. lookup-put_ne k j v b apart;
  fetch-delete_ne = λ k j b apart. lookup-remove_ne k j b apart;
  sprint-injective = λ m n same. first_byte same;
}

abbrev idle : Persisted Keys
idle = record {
  server = record { ranks = (7, new_rank_set) ∷ []; pending = [] };
  changes = [];
  store = (7 ∷ [], []) ∷ [];
}

abbrev idle_deleted : Persisted Keys
idle_deleted = record idle { server = delete_set 7 idle.server }

none_left : lookup (pos 1) (set_or_new (lookup 8 idle_deleted.server.ranks)).scores ≡ none
unfolding lookup delete_set remove
none_left = refl

none_consistent : AllConsistent idle_deleted.server.ranks
unfolding lookup delete_set remove
none_consistent = λ id rs found. absurd (ground arith)

-- The set 8 changes behind the deletion of the set 7 and goes through the channel into the bucket, and a
-- set 9 is deleted.
goes_on : (q : Persisted Keys) × Later in_order Keys bucket (λ m. some []) 7 idle_deleted q
goes_on =
    let (sv, _, done, _, _, _, _, _) =
      rank_change_correct in_order (λ m. Perm.refl m) 8 (pos 1) (pos 50) idle_deleted.server
        none_consistent none_left in
    (
      _,
      changed 8 (pos 1) (pos 50) sv (omega arith) done
          (woken change (woken timer (set_deleted 9 (woken signal now)))),
    )

delete_set_not_stored_example :
    (lookup 7 goes_on.0.server.ranks ≡ none)
    × (lookup (7 ∷ []) goes_on.0.store ≡ lookup (7 ∷ []) idle.store)
unfolding is_marked
delete_set_not_stored_example =
    delete_set_not_stored in_order Keys bucket (λ m. some []) 7 lookup bucket_laws idle goes_on.0
      refl refl goes_on.1
