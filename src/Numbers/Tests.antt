-- ===== src/Numbers/Tests.antt =====
-- One sheet with a header and a row.
use fkgo_server.Base.{◌≡◌, refl, ◌↔◌, Bool, true, some, List, [], ◌∷◌}
use fkgo_server.Base.Map.{GoMap, lookup, put, bytes_eq}
use fkgo_server.Numbers.{
  Text, Fields, Tables, parse, get, set_value, set_field, set_sheet, set_rows, set_row, set_cells,
  dump_keys, is_field_exists, get_record, get_field,
}
use fkgo_server.Numbers.Access.{get-set_value, is_field_exists_correct}

abbrev keys_of : GoMap Text Fields → List Text
keys_of [] = []
keys_of ((k, _) ∷ m) = k ∷ keys_of m

abbrev parsed : Tables × Bool
parsed = parse keys_of ((7 ∷ [], ([] ∷ (1 ∷ []) ∷ []) ∷ ((5 ∷ []) ∷ (9 ∷ []) ∷ []) ∷ []) ∷ []) []

get_run : get (7 ∷ []) (5 ∷ []) (1 ∷ []) parsed.0 ≡ some (9 ∷ [])
unfolding get get_record get_field parse set_sheet set_rows set_row set_cells set_value set_field
    dump_keys lookup put
get_run = refl

get-set_value_example :
    get (7 ∷ []) (5 ∷ []) (1 ∷ []) (set_value (7 ∷ []) (5 ∷ []) (1 ∷ []) (8 ∷ []) parsed.0)
    ≡ some (8 ∷ [])
get-set_value_example =
    get-set_value (7 ∷ []) (5 ∷ []) (1 ∷ []) (8 ∷ []) (7 ∷ []) (5 ∷ []) (1 ∷ []) parsed.0

is_field_exists_run :
    (is_field_exists (7 ∷ []) (5 ∷ []) (1 ∷ []) parsed.0 ≡ true)
    ↔ ((v : Text) × (get (7 ∷ []) (5 ∷ []) (1 ∷ []) parsed.0 ≡ some v))
is_field_exists_run = is_field_exists_correct (7 ∷ []) (5 ∷ []) (1 ∷ []) parsed.0
