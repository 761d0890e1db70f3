-- ===== src/Numbers.antt =====
-- FKLib_Common/Utils/Numbers.go: tables of game data, read from the sheets of a spreadsheet.
-- A sheet is its name and its rows of cells. `range` is the order in which Go visits a map; a float, its
-- parsing and its conversion are parameters. A panic is `none`; `parse` recovers from one, which its flag
-- says, and keeps what it has.
pub mod Access
mod Tests
use fkgo_server.Base.{
  ℕ, zero, suc, ◌+◌, ◌-◌, ◌*◌, ◌/◌, ◌%◌, ◌^◌, ◌≤◌, ◌<◌, min, ◌≡◌, refl, sym, ap, ap₂, ◌∙◌, subst,
  ◌≢◌, ◌↔◌, ◌⊎◌, inl, inr, Bool, true, false, ◌&&◌, ◌||◌, not, Option, none, some, List, [], ◌∷◌,
  ◌++◌, map, append_assoc, append-nil, arith, dec_lt, ℕ_discrete, length, get_elem?, set, take,
  drop, replicate, length-append, length-take, length-drop, length-replicate, length-map,
  take-append-drop, take-append, drop-append, append_cons, take_at, drop_at, drop-drop, set-take,
  set-drop, set-append, set_at, get_elem?-append, ltb, leb, ◌==◌, if◌then◌else◌, ltb→lt, lt→ltb,
  leb→le, ==_iff, tests, Bool-cases, Option-cases, if_both,
}
use fkgo_server.Base.Int.{
  ℤ, pos, negsuc, pos_part, neg_part, sub_ℕ, ◌+ℤ◌, ◌-ℤ◌, ◌≤ℤ◌, ◌<ℤ◌, ltb_ℤ, leb_ℤ, eqb_ℤ,
  eq_of_parts, eqb_ℤ→eq, eqb_ℤ_refl, eqb_ℤ_ne, +ℤ_parts, -ℤ_parts, int_laws, signed16, signed32,
  signed64, unsigned, to_int32, to_int32-eq_of_lt, pos_part-sub, ℤ-cases,
}
use mathlib.Core.Option
use fkgo_server.Base.Map.{GoMap, lookup, put, bytes_eq}

abbrev pub Text : Type 0
Text = List ℕ

-- `record`
abbrev pub Fields : Type 0
Fields = GoMap Text Text

pub record Table : Type 0 where
  pub records : GoMap Text Fields
  pub keys : List Text

-- `numbers`
abbrev pub Tables : Type 0
Tables = GoMap Text Table

abbrev pub table_or_new : Option Table → Table
table_or_new none = record { records = []; keys = [] }
table_or_new (some tbl) = tbl

abbrev pub fields_or_new : Option Fields → Fields
fields_or_new none = []
fields_or_new (some rec) = rec

-- `set` on the table of a name.
unfoldable pub set_field : Text → Text → Text → Table → Table
set_field rowname fieldname value tbl = record tbl {
  records =
      put rowname (put fieldname value (fields_or_new (lookup rowname tbl.records))) tbl.records;
}

-- The method `set`.
unfoldable pub set_value : Text → Text → Text → Text → Tables → Tables
set_value tblname rowname fieldname value ns =
    put tblname (set_field rowname fieldname value (table_or_new (lookup tblname ns))) ns

-- The loop over the cells of a row, beside those of the header; a header that is too short panics.
unfoldable pub set_cells : Text → Text → List Text → List Text → Tables → Tables × Bool
set_cells name rowname header [] ns = (ns, true)
set_cells name rowname [] (value ∷ cells) ns = (ns, false)
set_cells name rowname (fieldname ∷ header) (value ∷ cells) ns =
    set_cells name rowname header cells (set_value name rowname fieldname value ns)

-- A row with its first cell as its name; a row without cells sets nothing.
unfoldable pub set_row : Text → List Text → List Text → Tables → Tables × Bool
set_row name header [] ns = (ns, true)
set_row name header (rowname ∷ cells) ns = set_cells name rowname header (rowname ∷ cells) ns

abbrev pub and_next : (Tables → Tables × Bool) → Tables × Bool → Tables × Bool
and_next next (ns, false) = (ns, false)
and_next next (ns, true) = next ns

unfoldable pub set_rows : Text → List Text → List (List Text) → Tables → Tables × Bool
set_rows name header [] ns = (ns, true)
set_rows name header (row ∷ rows) ns =
    and_next (set_rows name header rows) (set_row name header row ns)

unfoldable pub set_sheet : Text → List (List Text) → Tables → Tables × Bool
set_sheet name [] ns = (ns, true)
set_sheet name (header ∷ rows) ns = set_rows name header rows ns

module _ (range : GoMap Text Fields → List Text) where
  unfoldable pub dump_keys : Text → Tables → Tables × Bool
  dump_keys tblname ns = elim (lookup tblname ns) [
    | none ↦ (ns, false)
    | some tbl ↦ (put tblname (record tbl { keys = tbl.keys ++ range tbl.records }) ns, true)
  ]

  unfoldable pub parse : List (Text × List (List Text)) → Tables → Tables × Bool
  parse [] ns = (ns, true)
  parse ((name, rows) ∷ sheets) ns =
      and_next (parse sheets) (and_next (dump_keys name) (set_sheet name rows ns))

-- `get`, which every reader goes through.
unfoldable pub get_field : Text → Option Fields → Option Text
get_field fieldname none = none
get_field fieldname (some rec) = lookup fieldname rec

unfoldable pub get_record : Text → Text → Option Table → Option Text
get_record rowname fieldname none = none
get_record rowname fieldname (some tbl) = get_field fieldname (lookup rowname tbl.records)

unfoldable pub get : Text → Text → Text → Tables → Option Text
get tblname rowname fieldname ns = get_record rowname fieldname (lookup tblname ns)

unfoldable pub get_string : Text → Text → Text → Tables → Option Text
get_string tblname rowname fieldname ns = get tblname rowname fieldname ns

module _ (F : Type 0) (zero_float : F) (parse_float : Text → Option F) (to_int : F → ℤ) where
  abbrev pub float_of : Option Text → Option F
  float_of none = none
  float_of (some []) = some zero_float
  float_of (some (c ∷ val)) = parse_float (c ∷ val)

  unfoldable pub get_float : Text → Text → Text → Tables → Option F
  get_float tblname rowname fieldname ns = float_of (get tblname rowname fieldname ns)

  abbrev pub int_of : Option Text → Option ℤ
  int_of none = none
  int_of (some []) = some (pos 0)
  int_of (some (c ∷ val)) = Option.map to_int (parse_float (c ∷ val))

  unfoldable pub get_int : Text → Text → Text → Tables → Option ℤ
  get_int tblname rowname fieldname ns = int_of (get tblname rowname fieldname ns)

unfoldable pub get_keys : Text → Tables → Option (List Text)
get_keys tblname ns = Option.map (λ tbl. tbl.keys) (lookup tblname ns)

unfoldable pub count : Text → Tables → Option ℤ
count tblname ns = Option.map (λ tbl. to_int32 (length tbl.records)) (lookup tblname ns)

unfoldable pub is_table_exists : Text → Tables → Bool
is_table_exists tblname ns = elim (lookup tblname ns) [ none ↦ false | some tbl ↦ true ]

unfoldable pub is_record_exists : Text → Text → Tables → Bool
is_record_exists tblname rowname ns = elim (lookup tblname ns) [
  | none ↦ false
  | some tbl ↦ elim (lookup rowname tbl.records) [ none ↦ false | some rec ↦ true ]
]

unfoldable pub is_field_exists : Text → Text → Text → Tables → Bool
is_field_exists tblname rowname fieldname ns = elim (lookup tblname ns) [
  | none ↦ false
  | some tbl ↦ elim (lookup rowname tbl.records) [
    | none ↦ false
    | some rec ↦ elim (lookup fieldname rec) [ none ↦ false | some value ↦ true ]
  ]
]

-- `configs`: the spreadsheets by name.
unfoldable pub set_numbers : Text → Tables → GoMap Text Tables → GoMap Text Tables
set_numbers name ns numbers = put name ns numbers

unfoldable pub numbers_of : Text → GoMap Text Tables → Option Tables
numbers_of name numbers = lookup name numbers
