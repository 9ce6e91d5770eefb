-- ===== src/Sql/Loop/Faithful.antt =====
-- What the loop of packages/core/src/utils/sql.ts has written at each position, against the query.
use sequelize.Base.{
  ℕ, zero, suc, ◌+◌, ◌≤◌, ◌≡◌, refl, sym, ap, ◌∙◌, ◌⊎◌, inl, inr, false, none, some, [], ◌∷◌, ◌++◌,
  Text, codes, length, take, drop, slice, All, take-append-drop, take-length-append,
  take-append-slice, if◌then◌else◌, ok, throw, >>=-ok, ok_inj, ok_of_never, arith, Bool-cases,
}
use sequelize.Sql.Chars.{dollar, bind_name}
use sequelize.Sql.Collector.{Collector, named_param, collect}
use sequelize.Sql.Dialect.{Dialect, create_bind_collector}
use sequelize.Sql.Scan.{
  Escaper, binds, Scan, sql_at, on_bind, open_string, start, unterminated_string,
}
use sequelize.Sql.Loop.{in_sql, at_replacement, step, advance, loop, map_bind_parameters, no_values}
-- No string, identifier, comment or skipped part is open.
use sequelize.Sql.Loop.Outcomes.{
  IsQuiet, SameWrites, IsBound, IsWord, advance-Outcome, advance_of_IsWord, tick_char_left_not_word,
  bind_name-prefix, take-sql_at,
}

-- The output is the part of the query that `previousSliceEnd` marks off. Where that end is ahead of
-- the position, the loop is inside the name of the last parameter.
record Kept (before rest : Text) (s : Scan) : Type 0 where
  written : s.output ≡ take s.previous_slice_end (sql_at before rest)
  identity : s.collector ≡ named_param (codes "$")
  ahead :
      (s.previous_slice_end ≤ length before)
      ⊎ (IsQuiet s
          × ((k : ℕ) × (s.previous_slice_end ≡ length before + k) × All IsWord (take k rest)))

module _ (before after : Text) (c : ℕ) (s t : Scan) where
  SameWrites-Kept :
      s.previous_slice_end ≤ length before
      → SameWrites s t
      → Kept before (c ∷ after) s
      → Kept (c ∷ before) after t
  SameWrites-Kept le same k = record {
    written = rw (same.output, same.previous) k.written;
    identity = same.collector ∙ k.identity;
    ahead = inl (rw (same.previous) (omega arith));
  }

module _ (sql : Text) (i : ℕ) (name : Text) (s : Scan) (q : IsQuiet s) where
  pub on_bind-IsQuiet : IsQuiet (on_bind sql i name s)
  unfolding on_bind
  on_bind-IsQuiet = record {
    no_tag = q.no_tag;
    no_string = q.no_string;
    no_column = q.no_column;
    no_single_line_comment = q.no_single_line_comment;
    no_comment_block = q.no_comment_block;
    no_skip = q.no_skip;
  }

  on_bind_named :
      s.collector ≡ named_param (codes "$")
      → let t = on_bind sql i name s in
        (t.output ≡ (s.output ++ slice sql s.previous_slice_end i) ++ dollar ∷ name)
        × (t.previous_slice_end ≡ i + (length name + 1))
        × (t.collector ≡ named_param (codes "$"))
  unfolding on_bind collect
  on_bind_named h = (rw h, refl, rw h)

-- The `$` and the name after it are the next characters of the query.
take_bound :
    (before after name rest : Text)
    → after ≡ name ++ rest
    → take (length before) (sql_at before (dollar ∷ after)) ++ dollar ∷ name
      ≡ take (length before + (length name + 1)) (sql_at before (dollar ∷ after))
take_bound before after name rest h =
    ap (λ t. take (length before) (sql_at before (dollar ∷ after)) ++ t) (sym cut)
    ∙ sym (take-sql_at before (dollar ∷ after) (length name + 1))
  where
    one_more : length name + 1 ≡ suc (length name)
    one_more = omega arith

    cut : take (length name + 1) (dollar ∷ after) ≡ dollar ∷ name
    cut =
        ap (λ k. take k (dollar ∷ after)) one_more
        ∙ ap (λ t. dollar ∷ t) (ap (take (length name)) h ∙ take-length-append name rest)

dollar_bound-Kept :
    (before after name : Text) (s : Scan)
    → s.previous_slice_end ≤ length before
    → IsQuiet s
    → bind_name after ≡ some name
    → Kept before (dollar ∷ after) s
    → Kept (dollar ∷ before) after (on_bind (sql_at before (dollar ∷ after)) (length before) name s)
dollar_bound-Kept before after name s le q m k =
    let sql : Text = sql_at before (dollar ∷ after) in
    let (rest, split, words) = bind_name-prefix after name m in
    let (written, previous, identity) = on_bind_named sql (length before) name s q k.identity in
    record {
      written =
          written
          ∙ ap (λ t. (t ++ slice sql s.previous_slice_end (length before)) ++ dollar ∷ name)
              k.written
          ∙ ap (λ t. t ++ dollar ∷ name)
              (take-append-slice s.previous_slice_end (length before) sql le)
          ∙ take_bound before after name rest split
          ∙ sym (ap (λ n. take n sql) previous);
      identity = identity;
      ahead = inr (
        on_bind-IsQuiet sql (length before) name s q,
        (length name, previous ∙ omega arith, rw split (rw (take-length-append name rest) words)),
      );
    }

IsBound-Kept :
    (before after : Text) (c : ℕ) (s t : Scan)
    → s.previous_slice_end ≤ length before
    → IsQuiet s
    → IsBound before c after s t
    → Kept before (c ∷ after) s
    → Kept (c ∷ before) after t
IsBound-Kept before after c s t le q b k =
    rw (b.is_dollar, b.bound)
      (dollar_bound-Kept before after b.name s le q b.matched (rw (b.is_dollar) at k))

module _ {Value : Type 0} (e : Escaper Value) (d : Dialect) where
  advance-Kept :
      (before after : Text) (c : ℕ) (s t : Scan)
      → Kept before (c ∷ after) s
      → advance e d false binds before c after s s.skip ≡ ok t
      → Kept (c ∷ before) after t
  advance-Kept before after c s t k h = split k.ahead
    where
      behind : s.previous_slice_end ≤ length before → Kept (c ∷ before) after t
      behind le = elim (advance-Outcome e d before after c s t s.skip refl h) [
        | inl same ↦ SameWrites-Kept before after c s t le same k
        | inr (q, b) ↦ IsBound-Kept before after c s t le q b k
      ]

      inside :
          IsQuiet s
          → (n : ℕ) → s.previous_slice_end ≡ length before + n
          → All IsWord (take n (c ∷ after))
          → Kept (c ∷ before) after t
      inside q zero p w = behind (omega arith)
      inside q (suc n) p w =
          let same : s ≡ t = ok_inj (
            sym
              (advance_of_IsWord e d false binds before after c s (tick_char_left_not_word d) q w.0)
            ∙ h) in
          rw (← same) (record {
            written = k.written;
            identity = k.identity;
            ahead = inr (q, (n, omega arith, w.1));
          })

      split :
          (s.previous_slice_end ≤ length before)
            ⊎ (IsQuiet s
                × ((n : ℕ) × (s.previous_slice_end ≡ length before + n)
                    × All IsWord (take n (c ∷ after))))
          → Kept (c ∷ before) after t
      split (inl le) = behind le
      split (inr (q, (n, p, w))) = inside q n p w

  loop_written :
      (before rest : Text) (s t : Scan)
      → Kept before rest s
      → loop e d false binds before rest s ≡ ok t
      → (t.output ≡ take t.previous_slice_end (sql_at before rest))
        × (t.collector ≡ named_param (codes "$"))
  unfolding loop
  loop_written before [] s t k h = rw (← ok_inj h) (k.written, k.identity)
  loop_written before (c ∷ after) s t k h =
      let (s', now, later) = >>=-ok _ _ h in
      loop_written (c ∷ before) after s' t (advance-Kept before after c s s' k now) later

  -- Looking for bind parameters throws nothing.
  advance_total :
      (before after : Text) (c : ℕ) (s : Scan)
      → (t : Scan) × (advance e d false binds before c after s s.skip ≡ ok t)
  unfolding step in_sql at_replacement
  advance_total before after c s = ok_of_never _ (λ err h. ground arith)

  pub loop_total :
      (before rest : Text) (s : Scan) → (t : Scan) × (loop e d false binds before rest s ≡ ok t)
  unfolding loop
  loop_total before [] s = (s, refl)
  loop_total before (c ∷ after) s =
      let (s', now) = advance_total before after c s in
      let (t, later) = loop_total (c ∷ before) after s' in (t, rw now later)

start-Kept : (sql : Text) → Kept [] sql (start (named_param (codes "$")))
unfolding start
start-Kept sql = record { written = refl; identity = refl; ahead = inl (omega arith) }

abbrev dollar_names : Collector
dollar_names = named_param (codes "$")

-- For a dialect that keeps the `$name` form (sqlite3, turso), `mapBindParameters` returns the query
-- character for character, whatever the query holds, with no bind order and the names that the scan
-- has found, and it throws exactly if the scan ends inside a string that is not closed.
pub map_bind_parameters-sql :
    (d : Dialect) (sql : Text)
    → create_bind_collector d ≡ named_param (codes "$")
    → (t : Scan) × (loop no_values d false binds [] sql (start (named_param (codes "$"))) ≡ ok t)
      × (map_bind_parameters d sql ≡ (
          if t.is_string
          then throw unterminated_string
          else ok (record { sql = sql; bind_order = none; parameter_set = t.parameter_set })))
unfolding map_bind_parameters
map_bind_parameters-sql d sql h =
    let (t, run) = loop_total no_values d [] sql (start dollar_names) in
    let (written, identity) =
      loop_written no_values d [] sql (start dollar_names) t (start-Kept sql) run in
    let same : t.output ++ drop t.previous_slice_end sql ≡ sql =
      ap (λ o. o ++ drop t.previous_slice_end sql) written
      ∙ take-append-drop t.previous_slice_end sql in
    (
      t,
      run,
      rw (h, run)
          (elim (Bool-cases t.is_string) [
            | inl open_string ↦ rw open_string refl
            | inr closed ↦ rw closed (rw (same, identity) refl)
          ]),
    )
