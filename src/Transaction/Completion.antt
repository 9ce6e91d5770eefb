-- ===== src/Transaction/Completion.antt =====
-- `commit` and `rollback` of packages/core/src/transaction.ts against the list of their effects.
use sequelize.Base.{ℕ, ◌≡◌, refl, ap, ◌∙◌, true, none, some, List, [], ◌∷◌, ◌++◌, ==_refl}
use sequelize.Transaction.World.{
  Completion, commit, rollback, Query, commit_transaction, rollback_transaction, Effect, release,
  query, Environment, World, M, bind_result, catch_result, update, Transaction,
}
use sequelize.Transaction.Methods.{
  query_raw, dispatch_hooks, cleanup, set_finished, on_failure, commit_root, commit_steps,
  rollback_started, commit_unfinished, commit_if, rollback_if, commit_method, rollback_method,
  send_rollback,
}
use sequelize.Transaction.Effects.{
  attempt, performed, hook_effects, dispatch_hooks-performed, close_with, IsOpen, cleanup-IsOpen,
  bind-cleared, concluded, query_raw-performed,
}

module _ (env : Environment) where
  -- The effects of a completion that meets no error.
  abbrev pub completion_effects : ℕ → ℕ → Query → List ℕ → List ℕ → List Effect
  completion_effects t c q hooks after_hooks =
      query c q ∷ (hook_effects env t hooks ++ (hook_effects env t after_hooks ++ (release c ∷ [])))

  -- The `try` block that `commit` and `rollback` share, and its `catch`.
  try-close :
      (t c : ℕ) (q : Query) (hooks after : Transaction → List ℕ) (m : M (Unit {0})) (w : World)
      → IsOpen env t c w
      → m w ≡ performed env (query c q ∷ []) w
      → catch_result (on_failure env t) (
          bind_result
            (λ _ w1.
              bind_result
                (λ _ w2.
                  bind_result
                    (λ _ w3. cleanup env t w3)
                    (dispatch_hooks env t (after (w2.transactions t)) w2))
                (dispatch_hooks env t (hooks (w1.transactions t)) w1))
            (m w))
        ≡ close_with env t c
            (completion_effects t c q (hooks (w.transactions t)) (after (w.transactions t)))
            w
  try-close t c q hooks after m w o h =
      let x = w.transactions t in
      ap (catch_result (on_failure env t)) (
        bind-cleared env t c m _ (query c q ∷ [])
          (hook_effects env t (hooks x) ++ (hook_effects env t (after x) ++ (release c ∷ []))) w h
          λ l.
            bind-cleared env t c (dispatch_hooks env t (hooks x)) _ (hook_effects env t (hooks x))
              (hook_effects env t (after x) ++ (release c ∷ [])) (record w { log = l })
              (dispatch_hooks-performed env t (hooks x) (record w { log = l }))
              λ l'.
                bind-cleared env t c (dispatch_hooks env t (after x)) _
                  (hook_effects env t (after x)) (release c ∷ []) (record w { log = l' })
                  (dispatch_hooks-performed env t (after x) (record w { log = l' }))
                  λ l''. cleanup-IsOpen env t c (record w { log = l'' }) o)
      ∙ concluded env t c w (attempt env w.log (completion_effects t c q (hooks x) (after x))).0
          (attempt env w.log (completion_effects t c q (hooks x) (after x))).1 o

  pub update-same : {A : Type 0} (f : ℕ → A) (k : ℕ) (a : A) → update f k a k ≡ a
  update-same f k a = rw (==_refl k) refl

  pub finished-same :
      (t : ℕ) (f : Completion) (w : World)
      → (set_finished env t f w).transactions t ≡ record (w.transactions t) { finished = some f }
  finished-same t f w =
      update-same w.transactions t (record (w.transactions t) { finished = some f })

  set_finished-IsOpen :
      (t c : ℕ) (f : Completion) (w : World)
      → IsOpen env t c w
      → IsOpen env t c (set_finished env t f w)
  set_finished-IsOpen t c f w (p, k, h) = (
    ap (λ x. x.parent) (finished-same t f w) ∙ p,
    ap (λ x. x.connection) (finished-same t f w) ∙ k,
    h,
  )

  commit_root-close_with :
      (t c : ℕ) (w : World)
      → IsOpen env t c w
      → commit_root env t w ≡ (
          let x = w.transactions t in
          let r =
            close_with env t c
              (completion_effects t c (commit_transaction t) x.after_commit_hooks x.after_hooks)
              w in
          (r.0, set_finished env t commit r.1))
  unfolding commit_root commit_steps
  commit_root-close_with t c w o =
      ap (λ r. (r.0, set_finished env t commit r.1))
        (try-close t c (commit_transaction t) (λ x. x.after_commit_hooks) (λ x. x.after_hooks)
          (query_raw env true t (commit_transaction t)) w o
          (query_raw-performed env t c (commit_transaction t) w o.1))

  send_rollback-performed :
      (t c : ℕ) (w : World)
      → IsOpen env t c w
      → send_rollback env t (w.transactions t).parent w
        ≡ performed env (query c (rollback_transaction t) ∷ []) w
  send_rollback-performed t c w (p, k, h) =
      ap (λ parent. send_rollback env t parent w) p
      ∙ query_raw-performed env t c (rollback_transaction t) w k

  rollback_started-close_with :
      (t c : ℕ) (w : World)
      → IsOpen env t c w
      → rollback_started env t w ≡ (
          let x = w.transactions t in
          close_with env t c
            (completion_effects t c (rollback_transaction t) x.after_rollback_hooks x.after_hooks)
            w)
  unfolding rollback_started
  rollback_started-close_with t c w o =
      try-close t c (rollback_transaction t) (λ x. x.after_rollback_hooks) (λ x. x.after_hooks)
        (λ w'. send_rollback env t (w'.transactions t).parent w') w o
        (send_rollback-performed t c w o)

  -- Committing a root transaction that is open and not finished sends COMMIT, calls the hooks of
  -- `afterCommit` and then those of `afterTransaction`, each in the order they were added, and
  -- releases the connection; at the first of these that throws it stops, destroys the connection in
  -- place of releasing it and throws. In both cases the transaction ends without a connection,
  -- finished by a commit.
  pub commit_method-close_with :
      (t c : ℕ) (w : World)
      → IsOpen env t c w
      → (w.transactions t).finished ≡ none
      → commit_method env t w ≡ (
          let x = w.transactions t in
          let r =
            close_with env t c
              (completion_effects t c (commit_transaction t) x.after_commit_hooks x.after_hooks)
              (set_finished env t commit w) in
          (r.0, set_finished env t commit r.1))
  unfolding commit_method
  commit_method-close_with t c w o n =
      let w' = set_finished env t commit w in
      ap (λ f. commit_if env t f w) n
      ∙ ap (λ p. commit_unfinished env t p w') o.0
      ∙ commit_root-close_with t c w' (set_finished-IsOpen t c commit w o)
      ∙ ap
          (λ x.
            let r =
              close_with env t c
                (completion_effects t c (commit_transaction t) x.after_commit_hooks x.after_hooks)
                w' in
            (r.0, set_finished env t commit r.1))
          (finished-same t commit w)

  -- Rolling back a root transaction that is open and not finished sends ROLLBACK, calls the hooks of
  -- `afterRollback` and then those of `afterTransaction`, each in the order they were added, and
  -- releases the connection; at the first of these that throws it stops, destroys the connection in
  -- place of releasing it and throws. In both cases the transaction ends without a connection.
  pub rollback_method-close_with :
      (t c : ℕ) (w : World)
      → IsOpen env t c w
      → (w.transactions t).finished ≡ none
      → rollback_method env t w ≡ (
          let x = w.transactions t in
          close_with env t c
            (completion_effects t c (rollback_transaction t) x.after_rollback_hooks x.after_hooks)
            (set_finished env t rollback w))
  unfolding rollback_method
  rollback_method-close_with t c w o n =
      let w' = set_finished env t rollback w in
      ap (λ f. rollback_if env t f (w.transactions t).connection w) n
      ∙ ap (λ k. rollback_if env t none k w) o.1
      ∙ rollback_started-close_with t c w' (set_finished-IsOpen t c rollback w o)
      ∙ ap
          (λ x.
            close_with env t c
              (completion_effects t c (rollback_transaction t) x.after_rollback_hooks x.after_hooks)
              w')
          (finished-same t rollback w)
