-- ===== src/Transaction/Runs.antt =====
-- `sequelize.transaction` of packages/core/src/sequelize-typescript.ts from its callback to its end,
-- and the options and the names of the transactions it creates.
use sequelize.Base.{
  ℕ, ◌≡◌, refl, sym, ap, subst, ◌∙◌, none, some, [], Result, ok, throw, ok_inj, length, ==_refl,
  arith,
}
use sequelize.Transaction.World.{
  commit, rollback, Options, TransactionOptions, savepoint, commit_transaction,
  rollback_transaction, Error, Environment, World, M, Transaction, bind_result, catch_result,
}
use sequelize.Transaction.Methods.{set_finished, commit_method}
use sequelize.Transaction.Start.{prepare_environment}
use sequelize.Transaction.Managed.{
  normalize_transaction_options, spread_options, new_transaction, run_new, with_parent, allocated,
  rollback_quietly,
}
use sequelize.Transaction.Effects.{IsOpen, close_with}
use sequelize.Transaction.Completion.{
  completion_effects, commit_method-close_with, rollback_method-close_with,
}

module _ (env : Environment) {A : Type 0} (callback : ℕ → M A) where
  -- The end of a managed transaction on connection `c` by what its callback did.
  abbrev pub ended : ℕ → ℕ → Result Error A → World → Result Error A × World
  ended t c (ok a) w =
      let x = w.transactions t in
      let r =
        close_with env t c
          (completion_effects env t c (commit_transaction t) x.after_commit_hooks x.after_hooks)
          (set_finished env t commit w) in
      bind_result (λ _ w'. (ok a, w')) (r.0, set_finished env t commit r.1)
  ended t c (throw e) w =
      let x = w.transactions t in
      (
        throw e,
        (close_with env t c
            (completion_effects env t c (rollback_transaction t) x.after_rollback_hooks
              x.after_hooks)
            (set_finished env t rollback w)).1,
      )

  -- A managed transaction that began, and whose callback left it open and unfinished, commits if the
  -- callback returned, with the value of the callback unless the commit throws, and rolls back if it
  -- threw, with the error of the callback whatever the rollback does.
  pub run_new-ended :
      (t c : ℕ) (r : Result Error A) (w w1 w2 : World)
      → prepare_environment env t w ≡ (ok tt, w1)
      → callback t w1 ≡ (r, w2)
      → IsOpen env t c w2
      → (w2.transactions t).finished ≡ none
      → run_new env callback t w ≡ ended t c r w2
  unfolding run_new
  run_new-ended t c r w w1 w2 h k o n = ap (bind_result (λ _. body)) h ∙ ap finishing k ∙ go r
    where
      finishing : Result Error A × World → Result Error A × World
      finishing s =
          bind_result (λ a w'. bind_result (λ _ w''. (ok a, w'')) (commit_method env t w'))
            (catch_result (rollback_quietly env callback t) s)

      body : M A
      body w' = finishing (callback t w')

      go : (r : Result Error A) → finishing (r, w2) ≡ ended t c r w2
      go (ok a) = ap (bind_result (λ _ w'. (ok a, w'))) (commit_method-close_with env t c w2 o n)
      go (throw e) = ap (λ s. (throw e, s.1)) (rollback_method-close_with env t c w2 o n)

module _ (env : Environment) where
  -- Normalizing the options that `normalizeTransactionOptions` returned changes nothing, as the
  -- constructor of `Transaction` does for `sequelize.transaction`.
  pub normalize_transaction_options-spread_options :
      (options : TransactionOptions) (normalized : Options)
      → normalize_transaction_options env options ≡ ok normalized
      → normalize_transaction_options env (spread_options env options normalized) ≡ ok normalized
  unfolding normalize_transaction_options spread_options
  normalize_transaction_options-spread_options options normalized h = ground (arith, h)

  allocated_inj : (p : ℕ × World) (t : ℕ) (w : World) → allocated env p ≡ (ok t, w) → p ≡ (t, w)
  allocated_inj (a, v) t w h =
      let first : a ≡ t = ok_inj (ap (λ r. r.0) h) in let second : v ≡ w = ap (λ r. r.1) h in cc

  allocated-eq :
      (options : TransactionOptions) (w w' : World) (t : ℕ)
      → new_transaction env options w ≡ (ok t, w')
      → (n : Options) × (with_parent env w.next n options.transaction w ≡ (t, w'))
  unfolding new_transaction
  allocated-eq options w w' t h = go (normalize_transaction_options env options) h
    where
      go :
          (r : Result Error Options)
          → bind_result
              (λ n w. allocated env (with_parent env w.next n options.transaction w))
              (r, w)
            ≡ (ok t, w')
          → (n : Options) × (with_parent env w.next n options.transaction w ≡ (t, w'))
      go (ok n) h = (n, allocated_inj (with_parent env w.next n options.transaction w) t w' h)
      go (throw e) h = cc

  -- What the constructor gives to a savepoint of `p`.
  IsSavepointOf : ℕ → World → Transaction → Type 0
  IsSavepointOf p w x =
      (x.name ≡ savepoint (w.transactions p).id (length (w.transactions p).savepoints))
      × (x.id ≡ (w.transactions p).id)
      × (x.savepoints ≡ [])

  new_transaction-IsSavepointOf :
      (options : TransactionOptions) (p s : ℕ) (w w1 : World)
      → options.transaction ≡ some p
      → new_transaction env options w ≡ (ok s, w1)
      → IsSavepointOf p w (w1.transactions s)
  unfolding IsSavepointOf
  new_transaction-IsSavepointOf options p s w w1 o h =
      let (n, e) = allocated-eq options w w1 s h in
      subst (λ r. IsSavepointOf p w (r.1.transactions r.0))
        (ap (λ parent. with_parent env w.next n parent w) (sym o) ∙ e)
        (rw (==_refl w.next) (refl, refl, refl))

  -- A savepoint in the first savepoint of a root transaction gets the name that the first one has:
  -- the number in the name counts the savepoints of the parent alone, and the id in it is that of
  -- the root.
  pub nested_savepoint_name :
      (outer inner : TransactionOptions) (p s s' : ℕ) (w w1 w2 : World)
      → (w.transactions p).savepoints ≡ []
      → outer.transaction ≡ some p
      → new_transaction env outer w ≡ (ok s, w1)
      → inner.transaction ≡ some s
      → new_transaction env inner w1 ≡ (ok s', w2)
      → (w2.transactions s').name ≡ (w1.transactions s).name
  unfolding IsSavepointOf
  nested_savepoint_name outer inner p s s' w w1 w2 none_yet o h o' h' =
      let (name, id, fresh) = new_transaction-IsSavepointOf outer p s w w1 o h in
      let (name', id', fresh') = new_transaction-IsSavepointOf inner s s' w1 w2 o' h' in
      rw (name, name', id, fresh, none_yet) refl
