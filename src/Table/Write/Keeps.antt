-- ===== src/Table/Write/Keeps.antt =====
-- src/storage/table.rs: what `insert`, `update` and `delete` do with the invariant of a table.
use fsql.Common.{
  ℕ, Str, Bool, true, false, List, [], ◌∷◌, Option, none, some, Result, ok, err, Error, ◌≡◌, refl,
  ◌∙◌, ap, arith, unwrap_or, length, if◌then◌else◌,
}
use fsql.Ordered.{nat_ord, str_ord}
use fsql.BTreeMap
use fsql.BTreeMap.{BTreeMap, set_contains}
use fsql.BTreeMap.Laws.{get-remove}
use fsql.Table.{AccessPath, Table, TableRuntimeOptions}
use fsql.BTreeMap.Sorted.{IsSorted, insert-IsSorted, remove-IsSorted, adjust-IsSorted}
use fsql.Table.Keys.{index_key}
use fsql.Table.Rebuild.{check_key_value, rebuild_with}
use fsql.Exec.{raise, continue_induction, Exec, continue, continue_ok, sequence_ok, pure}
use fsql.Platform.{Platform}
use fsql.Sql.Ast.{Filter}
use fsql.Table.Query.{filter_rows}
use fsql.Table.Rebuild.Built.{IsBuilt, rebuild_with-IsBuilt, rebuild_with-frame}
use fsql.Value.{Row, Value}
use fsql.Table.Write.{
  add_row, build_row, column_names, insert, insert_row, validate_primary_insert, check_primary,
  remove_rows, assign_rows, delete, update, replace_rows, keep_or_restore, normalize_assignments,
  assign_columns,
}

check_key-state :
    (b : Bool) (x : Error) (t : Table) → ((if b then raise {A = Unit {0}} x else pure tt) t).1 ≡ t
check_key-state true x t = refl
check_key-state false x t = refl

check_primary-state : (key : Option Str) (row : Row) (t : Table) → (check_primary key row t).1 ≡ t
unfolding check_primary
check_primary-state none row t = refl
check_primary-state (some c) row t =
    continue_induction (λ m. m.1 ≡ t) (check_key_value (BTreeMap.get c row)) t _ (λ _. refl)
      (λ v.
        continue_induction (λ m. m.1 ≡ t) (index_key v) t _ (λ _. refl)
          (λ k. check_key-state (BTreeMap.contains_key k t.primary) _ t))

-- the check of the primary key changes nothing
pub validate_primary_insert-state : (row : Row) (t : Table) → (validate_primary_insert row t).1 ≡ t
unfolding validate_primary_insert
validate_primary_insert-state row t = check_primary-state t.primary_key row t

get-remove_rows :
    (r : ℕ) (ids : List ℕ) (rows : BTreeMap ℕ Row)
    → BTreeMap.get r (remove_rows ids rows)
      ≡ (if set_contains r ids then none else BTreeMap.get r rows)
unfolding remove_rows set_contains
get-remove_rows r [] rows = refl
get-remove_rows r (i ∷ ids) rows =
    ground (arith, get-remove_rows r ids (BTreeMap.remove i rows), get-remove r i rows)

remove_rows-IsSorted :
    (ids : List ℕ) (rows : BTreeMap ℕ Row) → IsSorted rows → IsSorted (remove_rows ids rows)
unfolding remove_rows
remove_rows-IsSorted [] rows h = h
remove_rows-IsSorted (i ∷ ids) rows h = remove_rows-IsSorted ids _ (remove-IsSorted i rows h)

assign_rows-IsSorted :
    (values : List (Str × Value)) (ids : List ℕ) (rows : BTreeMap ℕ Row)
    → IsSorted rows
    → IsSorted (assign_rows values ids rows)
unfolding assign_rows
assign_rows-IsSorted values [] rows h = h
assign_rows-IsSorted values (i ∷ ids) rows h =
    assign_rows-IsSorted values ids _ (adjust-IsSorted i (assign_columns values) rows h)

module _ (p : Platform) (o : TableRuntimeOptions) where
  insert_row-rebuild :
      (row : Row) (t : Table)
      → (insert_row p row o t).0 ≡ ok tt
      → insert_row p row o t ≡ rebuild_with p o (add_row row t)
  unfolding insert_row
  insert_row-rebuild row t e =
      let v = validate_primary_insert row t in
      (sequence_ok v.0 v.1 (λ s. rebuild_with p o (add_row row s)) e).1
      ∙ ap (λ s. rebuild_with p o (add_row row s)) (validate_primary_insert-state row t)

  insert_row-IsBuilt :
      (row : Row) (t : Table)
      → IsSorted t.rows
      → IsSorted t.indexes
      → (insert_row p row o t).0 ≡ ok tt
      → IsBuilt (insert_row p row o t).1
        × ((insert_row p row o t).1.rows ≡ BTreeMap.insert t.next_row_id row t.rows)
  insert_row-IsBuilt row t rs is e =
      let same = insert_row-rebuild row t e in
      let e' : (rebuild_with p o (add_row row t)).0 ≡ ok tt = rw same at e in
      rw same (
        rebuild_with-IsBuilt p o (add_row row t)
            (unfold add_row in insert-IsSorted t.next_row_id row t.rows rs) (unfold add_row in is)
            e',
        unfold add_row in (rebuild_with-frame p o (add_row row t)).same_rows,
      )

  abbrev delete_found : List ℕ → Exec Table ℕ
  delete_found ids t =
      let r = rebuild_with p o (record t { rows = remove_rows ids t.rows }) in
      continue r.0 (λ _. pure (length ids)) r.1

  abbrev update_found : List ℕ → List (Str × Value) → Table → Exec Table ℕ
  update_found ids assignments t s =
      continue (normalize_assignments p t o assignments)
        (λ values. replace_rows p (assign_rows values ids t.rows) (length ids) o) s

  keep_or_restore-ok :
      (original : BTreeMap ℕ Row) (count : ℕ) (r : Result (Unit {0})) (u : Table) {n : ℕ}
      → (keep_or_restore p original count o r u).0 ≡ ok n
      → (r ≡ ok tt) × ((keep_or_restore p original count o r u).1 ≡ u)
  unfolding keep_or_restore
  keep_or_restore-ok original count (ok _) u e = (refl, refl)
  keep_or_restore-ok original count (err x) u e = absurd (cc)

  replace_rows-ok :
      (updated : BTreeMap ℕ Row) (count : ℕ) (t : Table) {n : ℕ}
      → (replace_rows p updated count o t).0 ≡ ok n
      → ((rebuild_with p o (record t { rows = updated })).0 ≡ ok tt)
        × ((replace_rows p updated count o t).1
            ≡ (rebuild_with p o (record t { rows = updated })).1)
  unfolding replace_rows
  replace_rows-ok updated count t e =
      let r = rebuild_with p o (record t { rows = updated }) in
      keep_or_restore-ok t.rows count r.0 r.1 e

  keep_or_restore-err :
      (original : BTreeMap ℕ Row) (count : ℕ) (r : Result (Unit {0})) (u : Table) (x : Error)
      → (keep_or_restore p original count o r u).0 ≡ err x
      → (keep_or_restore p original count o r u).1.rows ≡ original
  unfolding keep_or_restore
  keep_or_restore-err original count (ok _) u x e = absurd (cc)
  keep_or_restore-err original count (err y) u x e =
      (rebuild_with-frame p o (record u { rows = original })).same_rows

  replace_rows-err :
      (updated : BTreeMap ℕ Row) (count : ℕ) (t : Table) (x : Error)
      → (replace_rows p updated count o t).0 ≡ err x
      → (replace_rows p updated count o t).1.rows ≡ t.rows
  unfolding replace_rows
  replace_rows-err updated count t x e =
      let r = rebuild_with p o (record t { rows = updated }) in
      keep_or_restore-err t.rows count r.0 r.1 x e

  -- On a table whose rows and indexes are in order, an insertion that succeeds gives the table its
  -- invariant, and adds the row that is built from the values under the next number.
  pub insert-IsBuilt :
      (columns : Option (List Str)) (values : List Value) (t : Table)
      → IsSorted t.rows
      → IsSorted t.indexes
      → (insert p columns values o t).0 ≡ ok tt
      → (row : Row) × (build_row p t o (unwrap_or columns (column_names t.columns)) values ≡ ok row)
        × IsBuilt (insert p columns values o t).1
        × ((insert p columns values o t).1.rows ≡ BTreeMap.insert t.next_row_id row t.rows)
  unfolding insert
  insert-IsBuilt columns values t rs is e =
      let (row, built, same) =
        continue_ok (build_row p t o (unwrap_or columns (column_names t.columns)) values) t
          (λ row. insert_row p row o) e in
      let (valid, rows) = insert_row-IsBuilt row t rs is (rw same at e) in
      (row, built, rw same valid, rw same rows)

  -- On a table whose rows and indexes are in order, a deletion that succeeds gives the table its
  -- invariant, counts the rows that the filter selects, and removes these and no others.
  pub delete-IsBuilt :
      (filter : Option Filter) (t : Table) (n : ℕ)
      → IsSorted t.rows
      → IsSorted t.indexes
      → (delete p filter o t).0 ≡ ok n
      → (found : List ℕ × AccessPath) × (filter_rows p t filter o ≡ ok found)
        × (n ≡ length found.0)
        × IsBuilt (delete p filter o t).1
        × ((r : ℕ)
            → BTreeMap.get r (delete p filter o t).1.rows
              ≡ (if set_contains r found.0 then none else BTreeMap.get r t.rows))
  unfolding delete
  delete-IsBuilt filter t n rs is e =
      let (found, selected, same) =
        continue_ok (filter_rows p t filter o) t (λ found. delete_found found.0) e in
      let u = record t { rows = remove_rows found.0 t.rows } in
      let r = rebuild_with p o u in
      let (good, last) = sequence_ok r.0 r.1 (pure (length found.0)) (rw same at e) in
      let whole = same ∙ last in
      let counted : (delete p filter o t).0 ≡ ok (length found.0) = ap (λ m. m.0) whole in
      (
        found,
        selected,
        cc (e, counted),
        rw whole (rebuild_with-IsBuilt p o u (remove_rows-IsSorted found.0 t.rows rs) is good),
        λ i. rw whole (
            ap (BTreeMap.get i) (rebuild_with-frame p o u).same_rows
            ∙ get-remove_rows i found.0 t.rows),
      )

  -- On a table whose rows and indexes are in order, an update that succeeds gives the table its
  -- invariant.
  pub update-IsBuilt :
      (assignments : List (Str × Value)) (filter : Option Filter) (t : Table) (n : ℕ)
      → IsSorted t.rows
      → IsSorted t.indexes
      → (update p assignments filter o t).0 ≡ ok n
      → IsBuilt (update p assignments filter o t).1
  unfolding update
  update-IsBuilt assignments filter t n rs is e =
      let (found, _, same) =
        continue_ok (filter_rows p t filter o) t (λ found. update_found found.0 assignments t) e in
      let (values, _, same') =
        continue_ok (normalize_assignments p t o assignments) t
          (λ values. replace_rows p (assign_rows values found.0 t.rows) (length found.0) o)
          (rw same at e) in
      let updated = assign_rows values found.0 t.rows in
      let (good, last) = replace_rows-ok updated (length found.0) t (rw (same ∙ same') at e) in
      rw (same ∙ same') (
        rw last (
          rebuild_with-IsBuilt p o (record t { rows = updated })
            (assign_rows-IsSorted values found.0 t.rows rs) is good))

  -- An update that fails leaves the rows as they were.
  pub update-rows_of_error :
      (assignments : List (Str × Value)) (filter : Option Filter) (t : Table) (x : Error)
      → (update p assignments filter o t).0 ≡ err x
      → (update p assignments filter o t).1.rows ≡ t.rows
  unfolding update
  update-rows_of_error assignments filter t x =
      continue_induction (λ m. m.0 ≡ err x → m.1.rows ≡ t.rows) (filter_rows p t filter o) t _
        (λ _ _. refl)
        (λ found.
          continue_induction (λ m. m.0 ≡ err x → m.1.rows ≡ t.rows)
            (normalize_assignments p t o assignments) t _ (λ _ _. refl)
            (λ values. replace_rows-err (assign_rows values found.0 t.rows) (length found.0) t x))
