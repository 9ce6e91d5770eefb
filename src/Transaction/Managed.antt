-- ===== src/Transaction/Managed.antt =====
-- The constructor of `Transaction`, the options and the methods that add hooks of packages/core/src/transaction.ts,
-- and `sequelize.transaction` and `startUnmanagedTransaction` of
-- packages/core/src/sequelize-typescript.ts.
use sequelize.Base.{
  ℕ, suc, Bool, true, false, ◌&&◌, Option, none, some, List, [], ◌∷◌, ◌++◌, ◌==◌, if◌then◌else◌,
  length, Result, ok, throw, text_eq, not,
}
use sequelize.Transaction.World.{
  IsolationLevel, read_uncommitted, read_committed, repeatable_read, serializable, TransactionType,
  deferred, immediate, exclusive, ConstraintChecking, check_deferred, check_immediate, Options,
  TransactionOptions, NestMode, reuse, nest_savepoint, separate, root, savepoint, Transaction,
  Error, types_unsupported, incompatible_isolation_level, incompatible_read_only, incompatible_type,
  incompatible_constraint_checking, Environment, World, M, pure, ◌>>=◌, ◌>>◌, try_catch, put,
}
use sequelize.Transaction.Methods.{commit_method, rollback_method}
use sequelize.Transaction.Start.{prepare_environment}

-- `a ?? b`.
abbrev pub or_else : {A : Type 0} → Option A → A → A
or_else none b = b
or_else (some a) b = a

abbrev pub or_else_option : {A : Type 0} → Option A → Option A → Option A
or_else_option none b = b
or_else_option (some a) b = some a

abbrev pub is_some : {A : Type 0} → Option A → Bool
is_some none = false
is_some (some a) = true

-- `Set.add` at the end of the set, where it is not in it.
unfoldable pub includes : ℕ → List ℕ → Bool
includes k [] = false
includes k (j ∷ rest) = if j == k then true else includes k rest

abbrev pub add : List ℕ → ℕ → List ℕ
add hooks k = if includes k hooks then hooks else hooks ++ (k ∷ [])

abbrev pub after_commit : ℕ → ℕ → World → World
after_commit t callback w =
    let x = w.transactions t in
    put t (record x { after_commit_hooks = add x.after_commit_hooks callback }) w

abbrev pub after_rollback : ℕ → ℕ → World → World
after_rollback t callback w =
    let x = w.transactions t in
    put t (record x { after_rollback_hooks = add x.after_rollback_hooks callback }) w

abbrev pub after_transaction : ℕ → ℕ → World → World
after_transaction t callback w =
    let x = w.transactions t in put t (record x { after_hooks = add x.after_hooks callback }) w

-- A place in the order of the source for the types that are compared by `!==`.
abbrev pub level_number : Option IsolationLevel → ℕ
level_number none = 0
level_number (some read_uncommitted) = 1
level_number (some read_committed) = 2
level_number (some repeatable_read) = 3
level_number (some serializable) = 4

abbrev pub type_number : Option TransactionType → ℕ
type_number none = 0
type_number (some deferred) = 1
type_number (some immediate) = 2
type_number (some exclusive) = 3

abbrev pub bool_eq : Bool → Bool → Bool
bool_eq true b = b
bool_eq false true = false
bool_eq false false = true

-- `isEqual` of the two classes of packages/core/src/deferrable.ts, none being undefined.
abbrev pub checking_eq : Option ConstraintChecking → Option ConstraintChecking → Bool
checking_eq none none = true
checking_eq none (some c) = false
checking_eq (some c) none = false
checking_eq (some (check_deferred cs)) (some (check_deferred ds)) = text_eq cs ds
checking_eq (some (check_deferred cs)) (some (check_immediate ds)) = false
checking_eq (some (check_immediate cs)) (some (check_deferred ds)) = false
checking_eq (some (check_immediate cs)) (some (check_immediate ds)) = text_eq cs ds

-- `assertTransactionIsCompatibleWithOptions`.
unfoldable pub assert_transaction_is_compatible_with_options :
    Transaction → Options → Result Error (Unit {0})
assert_transaction_is_compatible_with_options t options =
    if level_number options.isolation_level == level_number t.options.isolation_level
    then (if bool_eq options.read_only t.options.read_only
        then (if type_number options.transaction_type == type_number t.options.transaction_type
            then (if checking_eq options.constraint_checking t.options.constraint_checking
                then ok tt
                else throw incompatible_constraint_checking)
            else throw incompatible_type)
        else throw incompatible_read_only)
    else throw incompatible_isolation_level

abbrev pub from_result : {A : Type 0} → Result Error A → M A
from_result r w = (r, w)

module _ (env : Environment) where
  -- `normalizeTransactionOptions`, less the transaction, with `assertSupportedTransactionOptions`.
  unfoldable pub normalize_transaction_options : TransactionOptions → Result Error Options
  normalize_transaction_options options =
      let transaction_type =
        or_else_option options.given_type
          (if env.supports_transaction_type then some env.default_transaction_type else none) in
      let isolation_level = or_else options.given_level env.default_isolation_level in
      let read_only = or_else options.given_read_only false in
      if is_some options.given_type && not env.supports_transaction_type
      then throw types_unsupported
      else (if is_some options.normalized_type && not env.supports_transaction_type
          then throw types_unsupported
          else ok record {
            isolation_level = isolation_level;
            read_only = read_only;
            transaction_type = transaction_type;
            constraint_checking = options.given_constraint_checking;
          })

  -- The object that `normalizeTransactionOptions` returns, which holds its argument.
  unfoldable pub spread_options : TransactionOptions → Options → TransactionOptions
  spread_options options normalized = record options {
    given_level = some normalized.isolation_level;
    given_read_only = some normalized.read_only;
    normalized_type = normalized.transaction_type;
  }

  abbrev pub with_parent : ℕ → Options → Option ℕ → World → ℕ × World
  with_parent t options none w =
      let id = env.generate_transaction_id t in
      (
        t,
        put t
            record {
              after_commit_hooks = [];
              after_rollback_hooks = [];
              after_hooks = [];
              name = root id;
              savepoints = [];
              options = options;
              parent = none;
              id = id;
              finished = none;
              connection = none;
            }
            (record w { next = suc t }),
      )
  with_parent t options (some parent) w =
      let p = w.transactions parent in
      let name = savepoint p.id (length p.savepoints) in
      let w' = put parent (record p { savepoints = p.savepoints ++ (name ∷ []) }) w in
      (
        t,
        put t
            record {
              after_commit_hooks = [];
              after_rollback_hooks = [];
              after_hooks = [];
              name = name;
              savepoints = [];
              options = options;
              parent = some parent;
              id = p.id;
              finished = none;
              connection = none;
            }
            (record w' { next = suc t }),
      )

  abbrev pub allocated : ℕ × World → Result Error ℕ × World
  allocated (t, w) = (ok t, w)

  -- `new Transaction(sequelize, options)`.
  unfoldable pub new_transaction : TransactionOptions → M ℕ
  unfolding normalize_transaction_options
  new_transaction options = do
    normalized ← from_result (normalize_transaction_options options)
    λ w. allocated (with_parent w.next normalized options.transaction w)

  abbrev effective_nest_mode : Option NestMode → NestMode
  effective_nest_mode none = env.default_nest_mode
  effective_nest_mode (some mode) = mode

  -- The transaction of the options after `setTransactionFromCls`: `current` is
  -- `getCurrentClsTransaction`.
  abbrev pub joined : NestMode → Option ℕ → Option ℕ → Option ℕ
  joined separate given current = none
  joined reuse none current = current
  joined nest_savepoint none current = current
  joined reuse (some t) current = some t
  joined nest_savepoint (some t) current = some t

  abbrev pub check_compatible : Option ℕ → Options → M (Unit {0})
  check_compatible none options w = pure tt w
  check_compatible (some t) options w =
      from_result (assert_transaction_is_compatible_with_options (w.transactions t) options) w

  module _ {A : Type 0} (callback : ℕ → M A) where
    -- `try { await transaction.rollback() } catch {}` and then `throw error`.
    abbrev pub rollback_quietly : ℕ → Error → M A
    rollback_quietly t e w = (throw e, (rollback_method env t w).1)

    -- `wrappedCallback` where the transaction is not reused.
    unfoldable pub run_new : ℕ → M A
    unfolding prepare_environment
    run_new t = do
      prepare_environment env t
      result ← try_catch (callback t) (rollback_quietly t)
      commit_method env t
      pure result

    abbrev pub create_and_run : TransactionOptions → M A
    create_and_run options = new_transaction options >>= run_new

    -- `wrappedCallback`, whose `isReusedTransaction` is reuse mode with a transaction.
    unfoldable pub run_in : NestMode → Option ℕ → TransactionOptions → M A
    unfolding run_new new_transaction
    run_in reuse none options = create_and_run (record options { transaction = none })
    run_in reuse (some t) options = callback t
    run_in nest_savepoint parent options = create_and_run (record options { transaction = parent })
    run_in separate parent options = create_and_run (record options { transaction = parent })

    -- `sequelize.transaction`.
    unfoldable pub transaction : Option NestMode → TransactionOptions → Option ℕ → M A
    unfolding run_in
    transaction nest_mode options current = do
      let mode = effective_nest_mode nest_mode
      let parent = joined mode options.transaction current
      normalized ← from_result (normalize_transaction_options options)
      check_compatible parent normalized
      run_in mode parent (spread_options options normalized)

  -- `sequelize.startUnmanagedTransaction`.
  unfoldable pub start_unmanaged_transaction : TransactionOptions → M ℕ
  unfolding new_transaction
  start_unmanaged_transaction options = do
    t ← new_transaction options
    prepare_environment env t
    pure t
