-- ===== src/Transaction/Methods.antt =====
-- The methods of `Transaction` in packages/core/src/transaction.ts.
use sequelize.Base.{ℕ, Bool, true, false, Option, none, some, List, [], ◌∷◌, if◌then◌else◌, ok}
use sequelize.Transaction.World.{
  Completion, commit, rollback, Query, commit_transaction, rollback_transaction, rollback_savepoint,
  release, destroy, query, hook, Error, already_finished, used_after, never_started, not_bound,
  savepoints_unsupported, Environment, World, M, pure, raise, ◌>>◌, try_catch, finally, update, put,
  perform,
}

module _ (env : Environment) where
  abbrev run_on : Query → Option ℕ → M (Unit {0})
  run_on q none = raise not_bound
  run_on q (some c) = perform env (query c q)

  abbrev pub checked : Bool → Query → Option ℕ → Option Completion → M (Unit {0})
  checked completes q connection none = run_on q connection
  checked true q connection (some f) = run_on q connection
  checked false q connection (some f) = raise (used_after f)

  -- `sequelize.queryRaw` with `{ transaction }`; `completes` is the flag `COMPLETES_TRANSACTION`.
  unfoldable pub query_raw : Bool → ℕ → Query → M (Unit {0})
  query_raw completes t q w =
      checked completes q (w.transactions t).connection (w.transactions t).finished w

  -- `for (const hook of hooks) await hook(this)`.
  unfoldable pub dispatch_hooks : ℕ → List ℕ → M (Unit {0})
  dispatch_hooks t [] = pure tt
  dispatch_hooks t (h ∷ hooks) = perform env (hook h t) >> dispatch_hooks t hooks

  abbrev clear_uuid : ℕ → World → World
  clear_uuid c w = record w { uuids = update w.uuids c none }

  abbrev pub clear_connection : ℕ → ℕ → World → World
  clear_connection t c w = put t (record (w.transactions t) { connection = none }) (clear_uuid c w)

  -- The connection of a root transaction that has a uuid: what `#cleanup` and `#forceCleanup` go on
  -- with.
  abbrev held_if : ℕ → Option ℕ → Option ℕ
  held_if c none = none
  held_if c (some uuid) = some c

  abbrev pub held : World → Option ℕ → Option ℕ → Option ℕ
  held w (some parent) connection = none
  held w none none = none
  held w none (some c) = held_if c (w.uuids c)

  abbrev pub cleanup_held : ℕ → Option ℕ → M (Unit {0})
  cleanup_held t none = pure tt
  cleanup_held t (some c) = do perform env (release c); λ w. (ok tt, clear_connection t c w)

  unfoldable pub cleanup : ℕ → M (Unit {0})
  cleanup t w = cleanup_held t (held w (w.transactions t).parent (w.transactions t).connection) w

  abbrev pub force_cleanup_held : ℕ → Option ℕ → M (Unit {0})
  force_cleanup_held t none w = pure tt w
  force_cleanup_held t (some c) w = perform env (destroy c) (clear_connection t c w)

  unfoldable pub force_cleanup : ℕ → M (Unit {0})
  force_cleanup t w =
      force_cleanup_held t (held w (w.transactions t).parent (w.transactions t).connection) w

  abbrev pub set_finished : ℕ → Completion → World → World
  set_finished t c w = put t (record (w.transactions t) { finished = some c }) w

  -- The `catch` of `commit` and `rollback`.
  unfoldable pub on_failure : ℕ → Error → M (Unit {0})
  unfolding force_cleanup
  on_failure t e = force_cleanup t >> raise e

  -- The `try` block of `commit`, with its `catch`.
  unfoldable pub commit_steps : ℕ → M (Unit {0})
  unfolding query_raw dispatch_hooks cleanup on_failure
  commit_steps t =
      try_catch
        (do
          query_raw true t (commit_transaction t)
          λ w. dispatch_hooks t (w.transactions t).after_commit_hooks w
          λ w. dispatch_hooks t (w.transactions t).after_hooks w
          cleanup t)
        (on_failure t)

  unfoldable pub commit_root : ℕ → M (Unit {0})
  unfolding commit_steps
  commit_root t = finally (commit_steps t) (set_finished t commit)

  abbrev pub commit_unfinished : ℕ → Option ℕ → M (Unit {0})
  commit_unfinished t (some parent) = pure tt
  commit_unfinished t none = commit_root t

  abbrev pub commit_if : ℕ → Option Completion → M (Unit {0})
  commit_if t (some f) w = raise (already_finished f) w
  commit_if t none w = commit_unfinished t (w.transactions t).parent (set_finished t commit w)

  unfoldable pub commit_method : ℕ → M (Unit {0})
  unfolding commit_root
  commit_method t w = commit_if t (w.transactions t).finished w

  abbrev pub guard_savepoints : M (Unit {0}) → M (Unit {0})
  guard_savepoints m = if env.supports_savepoints then m else raise savepoints_unsupported

  abbrev pub send_rollback : ℕ → Option ℕ → M (Unit {0})
  send_rollback t (some parent) w =
      guard_savepoints (query_raw true parent (rollback_savepoint parent (w.transactions t).name)) w
  send_rollback t none w = query_raw true t (rollback_transaction t) w

  unfoldable pub rollback_started : ℕ → M (Unit {0})
  unfolding query_raw dispatch_hooks cleanup on_failure
  rollback_started t =
      try_catch
        (do
          λ w. send_rollback t (w.transactions t).parent w
          λ w. dispatch_hooks t (w.transactions t).after_rollback_hooks w
          λ w. dispatch_hooks t (w.transactions t).after_hooks w
          cleanup t)
        (on_failure t)

  abbrev pub rollback_if : ℕ → Option Completion → Option ℕ → M (Unit {0})
  rollback_if t (some f) connection w = raise (already_finished f) w
  rollback_if t none none w = raise never_started w
  rollback_if t none (some c) w = rollback_started t (set_finished t rollback w)

  unfoldable pub rollback_method : ℕ → M (Unit {0})
  unfolding rollback_started
  rollback_method t w = rollback_if t (w.transactions t).finished (w.transactions t).connection w
