-- ===== src/Transaction/Start.antt =====
-- How a transaction begins: `prepareEnvironment`, `#begin`, `#setDeferrable` and `setIsolationLevel` of
-- packages/core/src/transaction.ts, with the methods of
-- packages/core/src/abstract-dialect/query-interface-typescript.ts below them.
use sequelize.Base.{ℕ, Bool, false, ◌&&◌, Option, none, some, if◌then◌else◌, ok, throw}
use sequelize.Transaction.World.{
  IsolationLevel, ConstraintChecking, Transaction, create_savepoint, set_isolation_level,
  start_transaction, set_constraint_checking, acquire, Error, no_connection, isolation_unsupported,
  Environment, World, M, pure, raise, ◌>>=◌, ◌>>◌, try_catch, update, put, perform,
}
use sequelize.Transaction.Methods.{query_raw, rollback_method, guard_savepoints}

module _ (env : Environment) where
  -- `_setIsolationLevel`.
  unfoldable pub set_level : ℕ → IsolationLevel → M (Unit {0})
  unfolding query_raw
  set_level t level =
      if env.supports_setting_isolation_level_during_transaction
      then query_raw env false t (set_isolation_level t level)
      else raise isolation_unsupported

  abbrev pub level_before : ℕ → Option IsolationLevel → M (Unit {0})
  level_before t none = pure tt
  level_before t (some level) =
      if env.supports_setting_isolation_level_during_transaction
      then pure tt
      else query_raw env false t (set_isolation_level t level)

  abbrev pub level_after : ℕ → Option IsolationLevel → M (Unit {0})
  level_after t none = pure tt
  level_after t (some level) =
      if env.supports_setting_isolation_level_during_transaction then set_level t level else pure tt

  -- `_startTransaction`.
  unfoldable pub start_query : ℕ → Transaction → M (Unit {0})
  start_query t x = do
    level_before t x.options.isolation_level
    query_raw env false t
        (start_transaction t (env.supports_read_only && x.options.read_only) x.name)
    level_after t x.options.isolation_level

  abbrev pub begin_with : ℕ → Transaction → Option ℕ → M (Unit {0})
  begin_with t x none = start_query t x
  begin_with t x (some parent) =
      guard_savepoints env (query_raw env false parent (create_savepoint parent x.name))

  unfoldable pub begin : ℕ → M (Unit {0})
  unfolding start_query set_level query_raw
  begin t w = begin_with t (w.transactions t) (w.transactions t).parent w

  abbrev pub defer_with : ℕ → Option ConstraintChecking → M (Unit {0})
  defer_with t none = pure tt
  defer_with t (some checking) = query_raw env false t (set_constraint_checking t checking)

  unfoldable pub set_deferrable : ℕ → M (Unit {0})
  unfolding query_raw
  set_deferrable t w = defer_with t (w.transactions t).options.constraint_checking w

  abbrev pub connection_of : Option ℕ → Bool → M (Option ℕ)
  connection_of (some parent) read_only w = (ok (w.transactions parent).connection, w)
  connection_of none read_only w =
      (perform env (acquire read_only) >>= λ _ w'. (ok (some (env.pool_gives w.log)), w')) w

  abbrev pub bind_connection : ℕ → ℕ → World → World
  bind_connection t c w =
      let w' = record w { uuids = update w.uuids c (some (w.transactions t).id) } in
      put t (record (w'.transactions t) { connection = some c }) w'

  -- `try { await this.rollback() } finally { throw error }`.
  unfoldable pub rollback_then_throw : ℕ → Error → M (Unit {0})
  unfolding rollback_method
  rollback_then_throw t e w = (throw e, (rollback_method env t w).1)

  unfoldable pub begin_environment : ℕ → M (Unit {0})
  unfolding begin set_deferrable rollback_then_throw
  begin_environment t = try_catch (begin t >> set_deferrable t) (rollback_then_throw t)

  abbrev pub with_connection : ℕ → Option ℕ → M (Unit {0})
  with_connection t none w = raise no_connection w
  with_connection t (some c) w = begin_environment t (bind_connection t c w)

  unfoldable pub prepare_environment : ℕ → M (Unit {0})
  unfolding begin_environment
  prepare_environment t w =
      (connection_of (w.transactions t).parent (w.transactions t).options.read_only
          >>= with_connection t)
        w

  -- The methods of the class with the same names in the source's spelling.
  unfoldable pub set_isolation_level_method : ℕ → IsolationLevel → M (Unit {0})
  unfolding set_level
  set_isolation_level_method t level = set_level t level
