-- ===== src/Fragments/Tests.antt =====
-- Runs of `joinSQLFragments`, and the theorem about it at a concrete input.
use sequelize.Base.{◌≡◌, refl, codes, ok, throw}
use sequelize.Fragments.Join.{
  text, falsy, other, array, Fragments, nil, cons, not_a_string, joined_with, join_trimmed,
  join_sql_fragments,
}
use sequelize.Fragments.Splice.{texts_of, join_sql_fragments-texts_of}

-- ['INSERT INTO t', ['(', ' a ', [',', 'b'], ')'], null, ';']
abbrev insert_sql : Fragments
insert_sql = cons (text (codes "INSERT INTO t")) (
    cons
      (array (
        cons (text (codes "(")) (
          cons (text (codes " a ")) (
            cons (array (cons (text (codes ",")) (cons (text (codes "b")) nil)))
              (cons (text (codes ")")) nil)))))
      (cons falsy (cons (text (codes ";")) nil)))

insert_run : join_sql_fragments insert_sql ≡ ok (codes "INSERT INTO t (a, b);")
unfolding join_sql_fragments
insert_run = refl

refused_run : join_sql_fragments (cons (array (cons other nil)) nil) ≡ throw not_a_string
unfolding join_sql_fragments
refused_run = refl

join_sql_fragments-texts_of_example :
    join_sql_fragments insert_sql ≡ joined_with join_trimmed (texts_of insert_sql)
join_sql_fragments-texts_of_example = join_sql_fragments-texts_of insert_sql
