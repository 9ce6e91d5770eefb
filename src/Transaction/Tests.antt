-- ===== src/Transaction/Tests.antt =====
-- The theorems on packages/core/src/transaction.ts and on `sequelize.transaction` at a concrete
-- transaction, in an environment where nothing throws.
use sequelize.Base.{ℕ, ◌≡◌, refl, true, false, Option, none, some, [], ◌∷◌, ok}
use sequelize.Transaction.World.{
  commit, rollback, Options, TransactionOptions, reuse, root, Transaction, deferred, Environment,
  World, M, commit_transaction, rollback_transaction, hook, release, query, perform, Effect,
  start_transaction,
}
use sequelize.Transaction.Methods.{
  commit_method, rollback_method, set_finished, query_raw, dispatch_hooks, cleanup, commit_root,
  commit_steps,
}
use sequelize.Transaction.Start.{
  prepare_environment, begin_environment, begin, set_deferrable, start_query,
}
use sequelize.Transaction.Managed.{
  normalize_transaction_options, spread_options, new_transaction, run_new,
}
use sequelize.Transaction.Effects.{IsOpen, close_with, attempt}
use sequelize.Transaction.Completion.{
  completion_effects, commit_method-close_with, rollback_method-close_with,
}
use sequelize.Transaction.Once.{complete, complete_all, complete_all-complete}
use sequelize.Transaction.Environments.{
  begin_effects, prepared_with, acquired, prepare_environment-prepared_with,
}
use sequelize.Transaction.Runs.{
  ended, run_new-ended, normalize_transaction_options-spread_options, nested_savepoint_name,
}

abbrev calm : Environment
calm = record {
  throws = λ log e. none;
  pool_gives = λ log. 7;
  supports_savepoints = true;
  supports_setting_isolation_level_during_transaction = true;
  supports_read_only = true;
  supports_transaction_type = false;
  default_transaction_type = deferred;
  default_isolation_level = none;
  default_nest_mode = reuse;
  generate_transaction_id = λ t. 3;
}

abbrev plain : Options
plain = record {
  isolation_level = none;
  read_only = false;
  transaction_type = none;
  constraint_checking = none;
}

abbrev with_connection : Option ℕ → Transaction
with_connection connection = record {
  after_commit_hooks = 1 ∷ 2 ∷ [];
  after_rollback_hooks = 4 ∷ [];
  after_hooks = 5 ∷ [];
  name = root 3;
  savepoints = [];
  options = plain;
  parent = none;
  id = 3;
  finished = none;
  connection = connection;
}

abbrev world_with : Option ℕ → World
world_with connection = record {
  transactions = λ t. with_connection connection;
  next = 1;
  uuids = λ c. some 3;
  log = [];
}

abbrev started : World
started = world_with (some 7)

abbrev waiting : World
waiting = world_with none

started-IsOpen : IsOpen calm 0 7 started
started-IsOpen = (refl, refl, (3, refl))

-- The effects of a commit.
commit_log :
    (commit_method calm 0 started).1.log
    ≡ release 7 ∷ hook 5 0 ∷ hook 2 0 ∷ hook 1 0 ∷ query 7 (commit_transaction 0) ∷ []
unfolding commit_method commit_root commit_steps query_raw dispatch_hooks cleanup perform
commit_log = refl

commit_method-close_with_example : commit_method calm 0 started ≡ (
    let r =
      close_with calm 0 7
        (completion_effects calm 0 7 (commit_transaction 0) (1 ∷ 2 ∷ []) (5 ∷ []))
        (set_finished calm 0 commit started) in
    (r.0, set_finished calm 0 commit r.1))
commit_method-close_with_example = commit_method-close_with calm 0 7 started started-IsOpen refl

rollback_method-close_with_example :
    rollback_method calm 0 started
    ≡ close_with calm 0 7
        (completion_effects calm 0 7 (rollback_transaction 0) (4 ∷ []) (5 ∷ []))
        (set_finished calm 0 rollback started)
rollback_method-close_with_example = rollback_method-close_with calm 0 7 started started-IsOpen refl

complete_all-complete_example :
    complete_all calm 0 (rollback ∷ commit ∷ []) (complete calm 0 commit started).1
    ≡ (complete calm 0 commit started).1
complete_all-complete_example =
    complete_all-complete calm 0 7 commit (rollback ∷ commit ∷ []) started refl

-- A database that refuses the start of a transaction.
abbrev refused : Effect → Option ℕ
refused (query c (start_transaction t read_only name)) = some 5
refused e = none

abbrev refusing : Environment
refusing = record calm { throws = λ log e. refused e }

prepare_environment-prepared_with_example :
    prepare_environment refusing 0 waiting
    ≡ prepared_with refusing 0 7 (acquired refusing 0 waiting) (
        attempt refusing
          (acquired refusing 0 waiting).log
          (begin_effects refusing 0 7 (waiting.transactions 0)))
prepare_environment-prepared_with_example =
    prepare_environment-prepared_with refusing 0 waiting refl refl refl

abbrev answer : ℕ → M ℕ
answer t w = (ok 42, w)

abbrev prepared : World
prepared = (prepare_environment calm 0 waiting).1

prepare_run : prepare_environment calm 0 waiting ≡ (ok tt, prepared)
unfolding prepare_environment begin_environment begin set_deferrable start_query query_raw perform
prepare_run = refl

prepared-IsOpen : IsOpen calm 0 7 prepared
unfolding prepare_environment begin_environment begin set_deferrable start_query query_raw perform
prepared-IsOpen = (refl, refl, (3, refl))

prepared_unfinished : (prepared.transactions 0).finished ≡ none
unfolding prepare_environment begin_environment begin set_deferrable start_query query_raw perform
prepared_unfinished = refl

run_new-ended_example : run_new calm answer 0 waiting ≡ ended calm answer 0 7 (ok 42) prepared
run_new-ended_example =
    run_new-ended calm answer 0 7 (ok 42) waiting prepared prepared prepare_run refl prepared-IsOpen
      prepared_unfinished

abbrev requested : Option ℕ → TransactionOptions
requested parent = record {
  transaction = parent;
  given_level = none;
  given_read_only = none;
  given_type = none;
  normalized_type = none;
  given_constraint_checking = none;
}

normalize_run : normalize_transaction_options calm (requested (some 0)) ≡ ok plain
unfolding normalize_transaction_options
normalize_run = refl

normalize_transaction_options-spread_options_example :
    normalize_transaction_options calm (spread_options calm (requested (some 0)) plain) ≡ ok plain
normalize_transaction_options-spread_options_example =
    normalize_transaction_options-spread_options calm (requested (some 0)) plain normalize_run

abbrev after_outer : World
after_outer = (new_transaction calm (requested (some 0)) started).1

abbrev after_inner : World
after_inner = (new_transaction calm (requested (some 1)) after_outer).1

outer_run : new_transaction calm (requested (some 0)) started ≡ (ok 1, after_outer)
unfolding new_transaction normalize_transaction_options
outer_run = refl

inner_run : new_transaction calm (requested (some 1)) after_outer ≡ (ok 2, after_inner)
unfolding new_transaction normalize_transaction_options
inner_run = refl

nested_savepoint_name_example :
    (after_inner.transactions 2).name ≡ (after_outer.transactions 1).name
nested_savepoint_name_example =
    nested_savepoint_name calm (requested (some 0)) (requested (some 1)) 0 1 2 started after_outer
      after_inner refl refl outer_run refl inner_run
