-- ===== src/Transaction/Environments.antt =====
-- `prepareEnvironment` of packages/core/src/transaction.ts: what a root transaction sends to begin, and
-- what is left of one that could not begin.
use sequelize.Base.{
  ℕ, ◌≡◌, refl, ap, ◌∙◌, Bool, true, false, ◌&&◌, Option, none, some, List, [], ◌∷◌, ◌++◌,
  if◌then◌else◌, Result, ok, throw,
}
use sequelize.Transaction.World.{
  rollback, IsolationLevel, ConstraintChecking, Query, rollback_transaction, set_isolation_level,
  start_transaction, set_constraint_checking, acquire, query, Effect, Error, external, Environment,
  World, M, Transaction, bind_result, catch_result, outcome, perform, pure, raise,
  isolation_unsupported,
}
use sequelize.Transaction.Methods.{query_raw, set_finished}
use sequelize.Transaction.Start.{
  set_level, level_before, level_after, start_query, begin_with, begin, defer_with, set_deferrable,
  connection_of, bind_connection, rollback_then_throw, begin_environment, with_connection,
  prepare_environment,
}
use sequelize.Transaction.Effects.{
  IsOpen, close_with, attempt, performed, query_raw-unfinished, then-performed,
}
use sequelize.Transaction.Completion.{completion_effects, rollback_method-close_with, update-same}

module _ (env : Environment) where
  -- The isolation level is set before the transaction starts, or after it where the dialect
  -- supports that.
  abbrev pub effects_before : ℕ → ℕ → Option IsolationLevel → List Effect
  effects_before t c none = []
  effects_before t c (some level) =
      if env.supports_setting_isolation_level_during_transaction
      then []
      else query c (set_isolation_level t level) ∷ []

  abbrev pub effects_after : ℕ → ℕ → Option IsolationLevel → List Effect
  effects_after t c none = []
  effects_after t c (some level) =
      if env.supports_setting_isolation_level_during_transaction
      then query c (set_isolation_level t level) ∷ []
      else []

  abbrev pub checking_effects : ℕ → ℕ → Option ConstraintChecking → List Effect
  checking_effects t c none = []
  checking_effects t c (some checking) = query c (set_constraint_checking t checking) ∷ []

  abbrev start_effect : ℕ → ℕ → Transaction → Effect
  start_effect t c x =
      query c (start_transaction t (env.supports_read_only && x.options.read_only) x.name)

  -- What a root transaction sends on its connection to begin, in this order.
  abbrev pub begin_effects : ℕ → ℕ → Transaction → List Effect
  begin_effects t c x =
      (effects_before t c x.options.isolation_level
        ++ start_effect t c x ∷ effects_after t c x.options.isolation_level)
      ++ checking_effects t c x.options.constraint_checking

  -- The end of `prepareEnvironment` by what these effects did: the first error is thrown, whatever
  -- happens after it, once the transaction is rolled back.
  abbrev pub prepared_with :
      ℕ → ℕ → World → Option ℕ × List Effect → Result Error (Unit {0}) × World
  prepared_with t c w (none, log) = (ok tt, record w { log = log })
  prepared_with t c w (some x, log) =
      let y = w.transactions t in
      (
        throw (external x),
        (close_with env t c
            (completion_effects env t c (rollback_transaction t) y.after_rollback_hooks
              y.after_hooks)
            (set_finished env t rollback (record w { log = log }))).1,
      )

  module _ (t c : ℕ) (w : World) (o : IsOpen env t c w)
      (n : (w.transactions t).finished ≡ none) where
    abbrev Sends : List Effect → M (Unit {0}) → Type 0
    Sends es m =
        (l : List Effect) → m (record w { log = l }) ≡ performed env es (record w { log = l })

    query-Sends : (q : Query) → Sends (query c q ∷ []) (query_raw env false t q)
    query-Sends q l = query_raw-unfinished env t c q (record w { log = l }) o.1 n

    if-Sends :
        (b : Bool) (m k : M (Unit {0})) (es fs : List Effect)
        → Sends es m
        → Sends fs k
        → Sends (if b then es else fs) (if b then m else k)
    if-Sends true m k es fs h h' = h
    if-Sends false m k es fs h h' = h'

    level_before-Sends :
        (level : Option IsolationLevel)
        → Sends (effects_before t c level) (level_before env t level)
    level_before-Sends none l = unfold attempt in refl
    level_before-Sends (some level) l =
        if-Sends env.supports_setting_isolation_level_during_transaction (pure tt)
          (query_raw env false t (set_isolation_level t level)) [] _ (λ l'. unfold attempt in refl)
          (query-Sends (set_isolation_level t level)) l

    level_after-Sends :
        (level : Option IsolationLevel) → Sends (effects_after t c level) (level_after env t level)
    unfolding set_level
    level_after-Sends none l = unfold attempt in refl
    level_after-Sends (some level) l =
        supported env.supports_setting_isolation_level_during_transaction l
      where
        -- `set_level` looks at the same flag again.
        supported :
            (b : Bool)
            → Sends (if b then query c (set_isolation_level t level) ∷ [] else []) (
                if b
                then if b
                  then query_raw env false t (set_isolation_level t level)
                  else raise isolation_unsupported
                else pure tt)
        supported true l' = query-Sends (set_isolation_level t level) l'
        supported false l' = unfold attempt in refl

    start_query-Sends :
        (x : Transaction)
        → Sends
            (effects_before t c x.options.isolation_level
              ++ start_effect t c x ∷ effects_after t c x.options.isolation_level)
            (start_query env t x)
    unfolding start_query
    start_query-Sends x l =
        then-performed env (level_before env t x.options.isolation_level) _
          (effects_before t c x.options.isolation_level) _ (record w { log = l })
          (level_before-Sends x.options.isolation_level l)
          (λ l'.
            then-performed env
              (query_raw env false t
                (start_transaction t (env.supports_read_only && x.options.read_only) x.name))
              (level_after env t x.options.isolation_level) (start_effect t c x ∷ [])
              (effects_after t c x.options.isolation_level) (record w { log = l' })
              (query-Sends _ l') (level_after-Sends x.options.isolation_level))

    begin-Sends :
        let x = w.transactions t in
        Sends
          (effects_before t c x.options.isolation_level
            ++ start_effect t c x ∷ effects_after t c x.options.isolation_level)
          (begin env t)
    unfolding begin
    begin-Sends l =
        ap (λ p. begin_with env t (w.transactions t) p (record w { log = l })) o.0
        ∙ start_query-Sends (w.transactions t) l

    set_deferrable-Sends :
        Sends
          (checking_effects t c (w.transactions t).options.constraint_checking)
          (set_deferrable env t)
    unfolding set_deferrable
    set_deferrable-Sends l = go (w.transactions t).options.constraint_checking
      where
        go :
            (checking : Option ConstraintChecking)
            → defer_with env t checking (record w { log = l })
              ≡ performed env (checking_effects t c checking) (record w { log = l })
        go none = unfold attempt in refl
        go (some checking) = query-Sends (set_constraint_checking t checking) l

    begin_environment-prepared_with :
        begin_environment env t w
        ≡ prepared_with t c w (attempt env w.log (begin_effects t c (w.transactions t)))
    unfolding begin_environment rollback_then_throw
    begin_environment-prepared_with =
        ap (catch_result (rollback_then_throw env t)) (
          then-performed env (begin env t) (set_deferrable env t) _ _ w (begin-Sends w.log)
            set_deferrable-Sends)
        ∙ caught (attempt env w.log (begin_effects t c (w.transactions t)))
      where
        caught :
            (r : Option ℕ × List Effect)
            → catch_result (rollback_then_throw env t) (outcome r.0, record w { log = r.1 })
              ≡ prepared_with t c w r
        caught (none, log) = refl
        caught (some x, log) =
            ap (λ r. (throw (external x), r.1))
              (rollback_method-close_with env t c (record w { log = log }) o n)

  bind_connection-same :
      (t c : ℕ) (w : World)
      → (bind_connection env t c w).transactions t
        ≡ record (w.transactions t) { connection = some c }
  bind_connection-same t c w =
      update-same env w.transactions t (record (w.transactions t) { connection = some c })

  bind_connection-IsOpen :
      (t c : ℕ) (w : World)
      → (w.transactions t).parent ≡ none
      → IsOpen env t c (bind_connection env t c w)
  bind_connection-IsOpen t c w p = (
    ap (λ x. x.parent) (bind_connection-same t c w) ∙ p,
    ap (λ x. x.connection) (bind_connection-same t c w),
    ((w.transactions t).id, update-same env w.uuids c (some (w.transactions t).id)),
  )

  -- The world in which a root transaction begins: the pool has given it a connection.
  abbrev pub acquired : ℕ → World → World
  acquired t w =
      bind_connection env t (env.pool_gives w.log)
        (record w { log = acquire (w.transactions t).options.read_only ∷ w.log })

  -- A root transaction that is not finished and gets a connection from the pool sends on it the
  -- queries that begin it: its isolation level, if it has one, and then the start, or these two in
  -- the other order where the dialect supports that, and last its constraint checking, if it has
  -- one. If all go through, it has begun and has that connection. Otherwise it sends none after the
  -- first that throws, and `prepareEnvironment` throws that error, whatever happens after it, and
  -- gives the connection back by a rollback: ROLLBACK, the hooks, and the release of the
  -- connection, or its destruction at the first of these that throws.
  pub prepare_environment-prepared_with :
      (t : ℕ) (w : World)
      → (w.transactions t).parent ≡ none
      → (w.transactions t).finished ≡ none
      → env.throws w.log (acquire (w.transactions t).options.read_only) ≡ none
      → let c = env.pool_gives w.log in
        prepare_environment env t w
        ≡ prepared_with t c
            (acquired t w)
            (attempt env (acquired t w).log (begin_effects t c (w.transactions t)))
  unfolding prepare_environment perform
  prepare_environment-prepared_with t w p n a =
      let c = env.pool_gives w.log in
      let read_only = (w.transactions t).options.read_only in
      let w' = record w { log = acquire read_only ∷ w.log } in
      ap (λ o. bind_result (with_connection env t) (connection_of env o read_only w)) p
      ∙ ap
          (λ o.
            bind_result (with_connection env t)
              (bind_result (λ _ w''. (ok (some c), w'')) (outcome o, w')))
          a
      ∙ begin_environment-prepared_with t c (acquired t w) (bind_connection-IsOpen t c w' p)
          (ap (λ x. x.finished) (bind_connection-same t c w') ∙ n)
      ∙ ap
          (λ x.
            prepared_with t c (acquired t w) (attempt env (acquired t w).log (begin_effects t c x)))
          (bind_connection-same t c w')
