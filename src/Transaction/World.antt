-- ===== src/Transaction/World.antt =====
-- The objects of packages/core/src/transaction.ts in memory, what the code does outside of it, and
-- the monad of the methods.
-- A transaction is named by its place in the store, a connection, a callback and a transaction id by
-- a number. An asynchronous method is modelled from its call to its end, with nothing else running
-- in between.
use sequelize.Base.{ℕ, Bool, Option, none, some, List, ◌∷◌, ◌==◌, if◌then◌else◌, Result, ok, throw}

pub data Completion : Type 0 where
  commit rollback : Completion

pub data IsolationLevel : Type 0 where
  read_uncommitted read_committed repeatable_read serializable : IsolationLevel

pub data TransactionType : Type 0 where
  deferred immediate exclusive : TransactionType

-- `ConstraintChecking`: the constraints that are deferred or checked at once, none for all.
pub data ConstraintChecking : Type 0 where
  check_deferred check_immediate : (constraints : List ℕ) → ConstraintChecking

-- `NormalizedTransactionOptions`.
pub record Options : Type 0 where
  pub isolation_level : Option IsolationLevel
  pub read_only : Bool
  pub transaction_type : Option TransactionType
  pub constraint_checking : Option ConstraintChecking

-- `#name`: the id of a transaction, or `${id}-sp-${number}` of a savepoint.
pub data Name : Type 0 where
  root : (id : ℕ) → Name
  savepoint : (id number : ℕ) → Name

-- The fields of `Transaction`.
pub record Transaction : Type 0 where
  pub after_commit_hooks : List ℕ
  pub after_rollback_hooks : List ℕ
  pub after_hooks : List ℕ
  pub name : Name
  pub savepoints : List Name
  pub options : Options
  pub parent : Option ℕ
  pub id : ℕ
  pub finished : Option Completion
  pub connection : Option ℕ

-- `TransactionOptions`, and what `normalizeTransactionOptions` adds to them. The isolation level is
-- none where it is not given, and some none for the default of the database.
pub record TransactionOptions : Type 0 where
  pub transaction : Option ℕ
  pub given_level : Option (Option IsolationLevel)
  pub given_read_only : Option Bool
  pub given_type : Option TransactionType
  pub normalized_type : Option TransactionType
  pub given_constraint_checking : Option ConstraintChecking

pub data NestMode : Type 0 where
  reuse nest_savepoint separate : NestMode

pub data Query : Type 0 where
  commit_transaction rollback_transaction : (transaction : ℕ) → Query
  create_savepoint rollback_savepoint : (transaction : ℕ) (name : Name) → Query
  set_isolation_level : (transaction : ℕ) (level : IsolationLevel) → Query
  start_transaction : (transaction : ℕ) (read_only : Bool) (name : Name) → Query
  set_constraint_checking : (transaction : ℕ) (checking : ConstraintChecking) → Query

-- What leaves the memory of the program.
pub data Effect : Type 0 where
  acquire : (read_only : Bool) → Effect
  release destroy : (connection : ℕ) → Effect
  query : (connection : ℕ) → Query → Effect
  hook : (callback transaction : ℕ) → Effect

pub data Error : Type 0 where
  already_finished : Completion → Error
  used_after : Completion → Error
  never_started not_bound no_connection savepoints_unsupported isolation_unsupported : Error
  types_unsupported : Error
  incompatible_isolation_level incompatible_read_only incompatible_type : Error
  incompatible_constraint_checking : Error
  external : ℕ → Error

-- The database, the pool and the callbacks, which may throw at each effect, depending on all that
-- went before; what the dialect supports; and the defaults of the Sequelize options.
pub record Environment : Type 0 where
  pub throws : List Effect → Effect → Option ℕ
  pub pool_gives : List Effect → ℕ
  pub supports_savepoints : Bool
  pub supports_setting_isolation_level_during_transaction : Bool
  pub supports_read_only : Bool
  pub supports_transaction_type : Bool
  pub default_transaction_type : TransactionType
  pub default_isolation_level : Option IsolationLevel
  pub default_nest_mode : NestMode
  pub generate_transaction_id : ℕ → ℕ

-- The store with its first free place, `connection.uuid` of each connection, and the effects so far, the last one first.
pub record World : Type 0 where
  pub transactions : ℕ → Transaction
  pub next : ℕ
  pub uuids : ℕ → Option ℕ
  pub log : List Effect

-- A method leaves a world also where it throws.
abbrev pub M : Type 0 → Type 0
M A = World → Result Error A × World

abbrev pub pure : {A : Type 0} → A → M A
pure a w = (ok a, w)

abbrev pub raise : {A : Type 0} → Error → M A
raise e w = (throw e, w)

abbrev pub bind_result :
    {A B : Type 0} → (A → M B) → Result Error A × World → Result Error B × World
bind_result f (ok a, w) = f a w
bind_result f (throw e, w) = (throw e, w)

infixl 5 ◌>>◌
abbrev pub ◌>>◌ : {B : Type 0} → M (Unit {0}) → M B → M B
◌>>◌ first next w = bind_result (λ _. next) (first w)

infixl 5 ◌>>=◌
abbrev pub ◌>>=◌ : {A B : Type 0} → M A → (A → M B) → M B
◌>>=◌ m f w = bind_result f (m w)

abbrev pub catch_result :
    {A : Type 0} → (Error → M A) → Result Error A × World → Result Error A × World
catch_result handler (ok a, w) = (ok a, w)
catch_result handler (throw e, w) = handler e w

-- `try { m } catch (error) { handler }`.
abbrev pub try_catch : {A : Type 0} → M A → (Error → M A) → M A
try_catch m handler w = catch_result handler (m w)

-- `try { m } finally { f }`, where `f` assigns only.
abbrev pub finally : {A : Type 0} → M A → (World → World) → M A
finally m f w = let (r, w') = m w in (r, f w')

abbrev pub update : {A : Type 0} → (ℕ → A) → ℕ → A → ℕ → A
update f k v j = if j == k then v else f j

abbrev pub put : ℕ → Transaction → World → World
put t x w = record w { transactions = update w.transactions t x }

abbrev pub outcome : Option ℕ → Result Error (Unit {0})
outcome none = ok tt
outcome (some e) = throw (external e)

-- An effect takes place, and may throw.
unfoldable pub perform : Environment → Effect → M (Unit {0})
perform env e w = (outcome (env.throws w.log e), record w { log = e ∷ w.log })
