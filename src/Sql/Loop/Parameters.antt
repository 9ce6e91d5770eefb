-- ===== src/Sql/Loop/Parameters.antt =====
-- What `mapBindParameters` of packages/core/src/utils/sql.ts finds in a query of plain SQL with
-- parameters, in postgres.
use sequelize.Base.{
  ℕ, ◌≡◌, refl, ap, ◌∙◌, Bool, false, some, List, [], ◌∷◌, ◌++◌, Text, codes, length, drop, All, ok,
  arith,
}
use sequelize.Sql.Chars.{dollar}
use sequelize.Sql.Collector.{specified_ordered, collect, get_bind_parameter_order}
use sequelize.Sql.Dialect.{postgres, tick_char_left, create_bind_collector}
use sequelize.Sql.Scan.{Escaper, binds, Scan, sql_at, start, add_name, on_bind, at_dollar}
use sequelize.Sql.Loop.{
  step, in_sql, at_replacement, advance, loop, map_bind_parameters, MappedSql, no_values,
}
use sequelize.Sql.Loop.Outcomes.{IsQuiet, IsWord, advance_of_IsWord, tick_char_left_not_word}
use sequelize.Sql.Loop.Containment.{back}
use sequelize.Sql.Loop.Faithful.{on_bind-IsQuiet}
use sequelize.Sql.Loop.Order.{collect-position}
use sequelize.Sql.Loop.Queries.{
  IsOrdinary, IsQuery, first_met, add_name-eq, name_words, at_dollar-parameter,
}

module _ {Value : Type 0} (e : Escaper Value) (standard : Bool) where
  advance_of_IsOrdinary :
      (before after : Text) (c : ℕ) (s : Scan)
      → IsQuiet s
      → IsOrdinary c
      → advance e (postgres standard) false binds before c after s s.skip ≡ ok s
  unfolding step in_sql at_replacement tick_char_left
  advance_of_IsOrdinary before after c s q o = ground arith

  advance-at_dollar :
      (before after : Text) (s : Scan)
      → IsQuiet s
      → advance e (postgres standard) false binds before dollar after s s.skip
        ≡ ok (at_dollar {Value = Value} binds before after s)
  unfolding step in_sql tick_char_left
  advance-at_dollar before after s q = ground arith

  loop-name :
      (before name rest : Text) (s : Scan)
      → IsQuiet s
      → All IsWord name
      → loop e (postgres standard) false binds before (name ++ rest) s
        ≡ loop e (postgres standard) false binds (back before name) rest s
  unfolding loop
  loop-name before [] rest s q w = refl
  loop-name before (c ∷ name) rest s q (w, ws) =
      rw
        (advance_of_IsWord e (postgres standard) false binds before (name ++ rest) c s
          (tick_char_left_not_word (postgres standard)) q w)
        (loop-name (c ∷ before) name rest s q ws)

  -- The end of the loop on such a query.
  record Found (names : List Text) (s t : Scan) : Type 0 where
    closed : t.is_string ≡ false
    order : t.collector ≡ specified_ordered (codes "$") t.parameter_set
    met : t.parameter_set ≡ first_met s.parameter_set names

  bound :
      (sql : Text) (i : ℕ) (name : Text) (s : Scan)
      → s.collector ≡ specified_ordered (codes "$") s.parameter_set
      → let u = on_bind sql i name s in
        (u.collector ≡ specified_ordered (codes "$") u.parameter_set)
        × (u.parameter_set ≡ add_name name s.parameter_set)
  unfolding on_bind
  bound sql i name s o =
      let (_, collected, _) = collect-position (codes "$") name s.parameter_set in
      (ap (λ k. (collect name k).1) o ∙ ap (λ r. r.1) collected, refl)

  loop-IsQuery :
      (before rest : Text) (names : List Text) (s : Scan)
      → IsQuery before rest names
      → IsQuiet s
      → s.collector ≡ specified_ordered (codes "$") s.parameter_set
      → (t : Scan) × (loop e (postgres standard) false binds before rest s ≡ ok t) × Found names s t
  unfolding loop first_met
  loop-IsQuery before _ _ s IsQuery.end q o =
      (s, refl, record { closed = q.no_string; order = o; met = refl })
  loop-IsQuery before (c ∷ after) names s (IsQuery.char ordinary h) q o =
      let (t, run, found) = loop-IsQuery (c ∷ before) after names s h q o in
      (t, rw (advance_of_IsOrdinary before after c s q ordinary) run, found)
  loop-IsQuery (c ∷ before) _ _ s
        (IsQuery.parameter {rest = rest} {name = name} {names = names} p n e' h) q o =
      let sql = sql_at (c ∷ before) (dollar ∷ (name ++ rest)) in
      let s1 : Scan = on_bind sql (length (c ∷ before)) name s in
      let (order, set) = bound sql (length (c ∷ before)) name s o in
      let (t, run, found) =
        loop-IsQuery (back (dollar ∷ c ∷ before) name) rest names s1 h
          (on_bind-IsQuiet sql (length (c ∷ before)) name s q) order in
      (
        t,
        rw
            (advance-at_dollar (c ∷ before) (name ++ rest) s q
              ∙ ap ok (at_dollar-parameter Value before rest name c s p n e'))
            (loop-name (dollar ∷ c ∷ before) name rest s1
                (on_bind-IsQuiet sql (length (c ∷ before)) name s q) (name_words name n)
              ∙ run),
        record {
          closed = found.closed;
          order = found.order;
          met =
              found.met
              ∙ ap (λ seen. first_met seen names) (set ∙ add_name-eq name s.parameter_set);
        },
      )

-- In postgres, a query of ordinary characters and parameters is mapped, and its bind order is the
-- names of its parameters, each once, where it is first met. A parameter is a `$` behind a space,
-- `(`, `,` or `=`, with a name behind it that begins with a letter or `_` and ends at a space, `)`,
-- `,`, `;` or the end of the query. Ordinary characters are all but `'`, `"`, `-`, `/` and `$`.
pub map_bind_parameters-bind_order :
    (standard : Bool) (sql : Text) (names : List Text)
    → IsQuery [] sql names
    → (m : MappedSql) × (map_bind_parameters (postgres standard) sql ≡ ok m)
      × (m.bind_order ≡ some (first_met [] names))
      × (m.parameter_set ≡ first_met [] names)
unfolding map_bind_parameters create_bind_collector start
map_bind_parameters-bind_order standard sql names h =
    let (t, run, found) =
      loop-IsQuery no_values standard [] sql names (start (specified_ordered (codes "$") [])) h
        (record {
          no_tag = refl;
          no_string = refl;
          no_column = refl;
          no_single_line_comment = refl;
          no_comment_block = refl;
          no_skip = refl;
        })
        refl in
    (
      record {
        sql = t.output ++ drop t.previous_slice_end sql;
        bind_order = get_bind_parameter_order t.collector;
        parameter_set = t.parameter_set;
      },
      rw run (rw found.closed refl),
      ap get_bind_parameter_order found.order ∙ ap some found.met,
      found.met,
    )
