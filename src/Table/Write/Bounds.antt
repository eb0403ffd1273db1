-- ===== src/Table/Write/Bounds.antt =====
-- src/storage/table.rs: what `insert`, `update`, `delete` and the creation of indexes do with the
-- numbers of the rows.
use fsql.BTreeMap.{BTreeMap}
use fsql.BTreeMap.Entries.{All-insert, All-remove, All-adjust}
use fsql.Common.{
  subst, sym, ℕ, ◌+◌, ◌%◌, ◌^◌, ◌<◌, ◌≤◌, Str, List, [], ◌∷◌, Option, Result, ok, err, ◌≡◌, refl,
  arith, length, codes,
}
use fsql.Exec.{continue, continue_induction}
use fsql.Ordered.{nat_ord, str_ord}
use fsql.Platform.{Platform}
use fsql.Sql.Ast.{Filter, ColumnType}
use fsql.Table.{Table, TableRuntimeOptions, default_runtime_options}
use fsql.Table.Columns.{column}
use fsql.Table.Query.{filter_rows, require_type}
use fsql.Table.Rebuild.{rebuild_with, rebuild}
use fsql.Table.Rebuild.Below.{RowsBelow, IsBounded, rebuild_with-IsBounded, RowsBelow-mono}
use fsql.Table.Write.{
  fresh_name, add_row, build_row, validate_primary_insert, insert_row, insert, remove_rows,
  assign_rows, assign_columns, replace_rows, keep_or_restore, update, delete, add_index,
  create_index, add_fulltext_index, create_fulltext_index, normalize_assignments,
}
use fsql.Table.Write.Keeps.{validate_primary_insert-state}
use fsql.Value.{Row, Value}

-- from one bounded table to another, whose next number is that of the first or, at most, `k` more
pub record Grown (k : ℕ) (t u : Table) : Type 0 where
  pub bounded : IsBounded u
  pub at_least : t.next_row_id ≤ u.next_row_id
  pub at_most : u.next_row_id ≤ t.next_row_id + k

Grown-refl : (k : ℕ) (t : Table) → IsBounded t → Grown k t t
Grown-refl k t b = record { bounded = b; at_least = omega arith; at_most = omega arith }

-- a rebuild after the rows have changed
rebuilt-Grown :
    (p : Platform) (o : TableRuntimeOptions) (k : ℕ) (t u : Table)
    → RowsBelow u.next_row_id u.rows
    → t.next_row_id ≤ u.next_row_id
    → u.next_row_id ≤ t.next_row_id + k
    → Grown k t (rebuild_with p o u).1
rebuilt-Grown p o k t u below low high =
    let (bounded, same) = rebuild_with-IsBounded p o u below in
    record {
      bounded = bounded;
      at_least = omega (arith, same, low);
      at_most = omega (arith, same, high);
    }

add_row-Below :
    (row : Row) (t : Table)
    → t.next_row_id + 1 < 2 ^ 64
    → RowsBelow t.next_row_id t.rows
    → RowsBelow (add_row row t).next_row_id (add_row row t).rows
      × ((add_row row t).next_row_id ≡ t.next_row_id + 1)
unfolding add_row
add_row-Below row t room below =
    let next : (t.next_row_id + 1) % 2 ^ 64 ≡ t.next_row_id + 1 = omega arith in
    (
      rw next (
          All-insert (λ (e : ℕ × Row). e.0 < t.next_row_id + 1) t.next_row_id row t.rows
            (omega arith)
            (RowsBelow-mono t.next_row_id (t.next_row_id + 1) (omega arith) t.rows below)),
      next,
    )

module _ (p : Platform) (o : TableRuntimeOptions) (t : Table) (b : IsBounded t) where
  insert_row-Grown : (row : Row) → t.next_row_id + 1 < 2 ^ 64 → Grown 1 t (insert_row p row o t).1
  unfolding insert_row
  insert_row-Grown row room =
      let v = validate_primary_insert row t in
      let same = validate_primary_insert-state row t in
      let (below, next) = add_row-Below row t room b.rows in
      continue_induction (λ m. Grown 1 t m.1) v.0 v.1 _
        (λ e. subst (Grown 1 t) (sym same) (Grown-refl 1 t b))
        (λ u.
          subst (λ s. Grown 1 t (rebuild_with p o (add_row row s)).1) (sym same)
            (rebuilt-Grown p o 1 t (add_row row t) below (omega (arith, next))
              (omega (arith, next))))

  -- An insertion into a bounded table whose numbers are not used up leaves it bounded, whatever it
  -- gives, and counts on by one at most.
  pub insert-Grown :
      (columns : Option (List Str)) (values : List Value)
      → t.next_row_id + 1 < 2 ^ 64
      → Grown 1 t (insert p columns values o t).1
  unfolding insert
  insert-Grown columns values room =
      continue_induction (λ m. Grown 1 t m.1) (build_row p t o _ values) t _ (λ e. Grown-refl 1 t b)
        (λ row. insert_row-Grown row room)

  assign_rows-Below :
      (n : ℕ) (values : List (Str × Value)) (ids : List ℕ) (rows : BTreeMap ℕ Row)
      → RowsBelow n rows
      → RowsBelow n (assign_rows values ids rows)
  unfolding assign_rows
  assign_rows-Below n values [] rows h = h
  assign_rows-Below n values (i ∷ ids) rows h =
      assign_rows-Below n values ids _
        (All-adjust (λ (e : ℕ × Row). e.0 < n) i (assign_columns values) rows (λ j v lt. lt) h)

  remove_rows-Below :
      (n : ℕ) (ids : List ℕ) (rows : BTreeMap ℕ Row)
      → RowsBelow n rows
      → RowsBelow n (remove_rows ids rows)
  unfolding remove_rows
  remove_rows-Below n [] rows h = h
  remove_rows-Below n (i ∷ ids) rows h =
      remove_rows-Below n ids _ (All-remove (λ (e : ℕ × Row). e.0 < n) i rows h)

  keep_or_restore-Grown :
      (count : ℕ) (r : Result (Unit {0})) (u : Table)
      → Grown 0 t u
      → Grown 0 t (keep_or_restore p t.rows count o r u).1
  unfolding keep_or_restore
  keep_or_restore-Grown count (ok x) u g = g
  keep_or_restore-Grown count (err e) u g =
      rebuilt-Grown p o 0 t (record u { rows = t.rows })
        (RowsBelow-mono t.next_row_id u.next_row_id g.at_least t.rows b.rows) g.at_least g.at_most

  replace_rows-Grown :
      (rows : BTreeMap ℕ Row) (count : ℕ)
      → RowsBelow t.next_row_id rows
      → Grown 0 t (replace_rows p rows count o t).1
  unfolding replace_rows
  replace_rows-Grown rows count below =
      let u = record t { rows = rows } in
      keep_or_restore-Grown count (rebuild_with p o u).0 (rebuild_with p o u).1
        (rebuilt-Grown p o 0 t u below (omega arith) (omega arith))

  -- An update of a bounded table leaves it bounded, whatever it gives.
  pub update-Grown :
      (assignments : List (Str × Value)) (filter : Option Filter)
      → Grown 0 t (update p assignments filter o t).1
  unfolding update
  update-Grown assignments filter =
      continue_induction (λ m. Grown 0 t m.1) (filter_rows p t filter o) t _ (λ e. Grown-refl 0 t b)
        (λ found.
          continue_induction (λ m. Grown 0 t m.1) (normalize_assignments p t o assignments) t _
            (λ e. Grown-refl 0 t b)
            (λ values.
              replace_rows-Grown _ (length found.0)
                (assign_rows-Below t.next_row_id values found.0 t.rows b.rows)))

  -- A deletion from a bounded table leaves it bounded, whatever it gives.
  pub delete-Grown : (filter : Option Filter) → Grown 0 t (delete p filter o t).1
  unfolding delete
  delete-Grown filter =
      continue_induction (λ m. Grown 0 t m.1) (filter_rows p t filter o) t _ (λ e. Grown-refl 0 t b)
        (λ found.
          let u = record t { rows = remove_rows found.0 t.rows } in
          let g =
            rebuilt-Grown p o 0 t u (remove_rows-Below t.next_row_id found.0 t.rows b.rows)
              (omega arith) (omega arith) in
          continue_induction (λ m. Grown 0 t m.1) (rebuild_with p o u).0 (rebuild_with p o u).1 _
            (λ e. g) (λ x. g))

  -- before the rebuild: an error has changed nothing, and otherwise the rows are the same
  Adds : Result (Unit {0}) × Table → Type 0
  Adds (ok x, u) = (u.rows ≡ t.rows) × (u.next_row_id ≡ t.next_row_id)
  Adds (err e, u) = u ≡ t

  added-Grown :
      (options : TableRuntimeOptions) (m : Result (Unit {0}) × Table)
      → Adds m
      → Grown 0 t (continue m.0 (λ x. rebuild_with p options) m.1).1
  unfolding Adds
  added-Grown options (ok x, u) (rows, next) =
      rebuilt-Grown p options 0 t u (rw (rows, next) b.rows) (omega (arith, next))
        (omega (arith, next))
  added-Grown options (err e, u) same = subst (Grown 0 t) (sym same) (Grown-refl 0 t b)

  add_index-Adds : (name on : Str) → Adds (add_index p name on t)
  unfolding add_index Adds
  add_index-Adds name on =
      continue_induction Adds (column t on) t _ (λ e. refl)
        (λ c. continue_induction Adds (fresh_name name t) t _ (λ e. refl) (λ x. (refl, refl)))

  add_fulltext_index-Adds : (name on : Str) → Adds (add_fulltext_index p name on t)
  unfolding add_fulltext_index Adds
  add_fulltext_index-Adds name on =
      continue_induction Adds (column t on) t _ (λ e. refl)
        (λ c.
          continue_induction Adds
            (require_type (codes "full-text indexes can only be created on text columns") c.ty
              ColumnType.text)
            t _ (λ e. refl)
            (λ x. continue_induction Adds (fresh_name name t) t _ (λ e. refl) (λ x. (refl, refl))))

  -- The creation of an index leaves a bounded table bounded, whatever it gives.
  pub create_index-Grown : (name on : Str) → Grown 0 t (create_index p name on t).1
  unfolding create_index rebuild
  create_index-Grown name on =
      added-Grown default_runtime_options (add_index p name on t) (add_index-Adds name on)

  pub create_fulltext_index-Grown :
      (name on : Str) → Grown 0 t (create_fulltext_index p name on o t).1
  unfolding create_fulltext_index
  create_fulltext_index-Grown name on =
      added-Grown o (add_fulltext_index p name on t) (add_fulltext_index-Adds name on)
