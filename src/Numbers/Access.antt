-- ===== src/Numbers/Access.antt =====
-- Writing and reading the values of the tables.
use fkgo_server.Base.{
  ◌≡◌, refl, ap, ◌∙◌, ◌↔◌, inl, inr, true, false, ◌&&◌, Option, none, some, arith, if◌then◌else◌,
  Bool-cases,
}
use fkgo_server.Base.Map.{lookup, put, bytes_eq, bytes_eqb, bytes_eqb_iff, lookup-put}
use fkgo_server.Numbers.{
  Text, Fields, Table, Tables, table_or_new, fields_or_new, set_field, set_value, get_field,
  get_record, get, is_field_exists,
}

lookup-fields_or_new :
    (fieldname : Text) (o : Option Fields)
    → lookup fieldname (fields_or_new o) ≡ get_field fieldname o
unfolding lookup get_field
lookup-fields_or_new fieldname none = refl
lookup-fields_or_new fieldname (some rec) = refl

get_record-table_or_new :
    (rowname fieldname : Text) (o : Option Table)
    → get_field fieldname (lookup rowname (table_or_new o).records) ≡ get_record rowname fieldname o
unfolding lookup get_field get_record
get_record-table_or_new rowname fieldname none = refl
get_record-table_or_new rowname fieldname (some tbl) = refl

get_record-set_field :
    (r f v r' f' : Text) (tbl : Table)
    → get_record r' f' (some (set_field r f v tbl))
      ≡ (if bytes_eqb r r' && bytes_eqb f f' then some v else get_record r' f' (some tbl))
unfolding get_record get_field set_field
get_record-set_field r f v r' f' tbl = elim (Bool-cases (bytes_eqb r r')) [
  | inl e ↦
      let same : r ≡ r' = (bytes_eqb_iff r r').0 e in
      let old = fields_or_new (lookup r tbl.records) in
      rw (lookup-put r r' (put f v old) tbl.records, e)
        (lookup-put f f' v old
          ∙ ap (λ z. if bytes_eqb f f' then some v else z)
              (lookup-fields_or_new f' (lookup r tbl.records)
                ∙ ap (λ x. get_field f' (lookup x tbl.records)) same))
  | inr e ↦ rw (lookup-put, e) refl
]

-- A value that is set is read back, and no other value has changed.
pub get-set_value :
    (t r f v t' r' f' : Text) (ns : Tables)
    → get t' r' f' (set_value t r f v ns)
      ≡ (if bytes_eqb t t' && bytes_eqb r r' && bytes_eqb f f' then some v else get t' r' f' ns)
unfolding get set_value get_record get_field
get-set_value t r f v t' r' f' ns = elim (Bool-cases (bytes_eqb t t')) [
  | inl e ↦
      let same : t ≡ t' = (bytes_eqb_iff t t').0 e in
      let old = table_or_new (lookup t ns) in
      rw (lookup-put t t' (set_field r f v old) ns, e)
        (get_record-set_field r f v r' f' old
          ∙ ap (λ z. if bytes_eqb r r' && bytes_eqb f f' then some v else z)
              (get_record-table_or_new r' f' (lookup t ns)
                ∙ ap (λ x. get_record r' f' (lookup x ns)) same))
  | inr e ↦ rw (lookup-put, e) refl
]

value_exists :
    (o : Option Text)
    → (elim o [ none ↦ false | some value ↦ true ] ≡ true) ↔ ((v : Text) × (o ≡ some v))
value_exists none = (λ e. absurd (ground arith), λ (v, e). absurd (ground arith))
value_exists (some x) = (λ e. (x, refl), λ h. refl)

field_exists :
    (f : Text) (o : Option Fields)
    → (elim o [ none ↦ false | some rec ↦ elim (lookup f rec) [ none ↦ false | some value ↦ true ] ]
        ≡ true)
      ↔ ((v : Text) × (get_field f o ≡ some v))
unfolding get_field
field_exists f none = (λ e. absurd (ground arith), λ (v, e). absurd (ground arith))
field_exists f (some rec) = value_exists (lookup f rec)

record_exists :
    (r f : Text) (o : Option Table)
    → (elim o [
      | none ↦ false
      | some tbl ↦ elim (lookup r tbl.records) [
        | none ↦ false
        | some rec ↦ elim (lookup f rec) [ none ↦ false | some value ↦ true ]
      ]
    ]
        ≡ true)
      ↔ ((v : Text) × (get_record r f o ≡ some v))
unfolding get_record
record_exists r f none = (λ e. absurd (ground arith), λ (v, e). absurd (ground arith))
record_exists r f (some tbl) = field_exists f (lookup r tbl.records)

-- A field exists exactly if reading it does not panic.
pub is_field_exists_correct :
    (t r f : Text) (ns : Tables)
    → (is_field_exists t r f ns ≡ true) ↔ ((v : Text) × (get t r f ns ≡ some v))
unfolding is_field_exists get get_record get_field
is_field_exists_correct t r f ns = record_exists r f (lookup t ns)
