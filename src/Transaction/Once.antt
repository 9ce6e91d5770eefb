-- ===== src/Transaction/Once.antt =====
-- Which completion of a transaction counts: `commit` and `rollback` of
-- packages/core/src/transaction.ts called again.
use sequelize.Base.{
  ℕ, ◌≡◌, refl, ap, ◌∙◌, inl, inr, Bool, true, false, Option, none, some, List, [], ◌∷◌,
  if◌then◌else◌, Result, ok, throw, Option-cases,
}
use sequelize.Transaction.World.{
  Completion, commit, rollback, Query, Effect, Error, Environment, World, M, bind_result,
  catch_result, perform, destroy, release, query, rollback_savepoint, rollback_transaction, raise,
  savepoints_unsupported,
}
use sequelize.Transaction.Methods.{
  query_raw, checked, dispatch_hooks, held, cleanup, force_cleanup, clear_connection, set_finished,
  on_failure, cleanup_held, force_cleanup_held, commit_root, commit_steps, rollback_started,
  commit_unfinished, commit_if, rollback_if, commit_method, rollback_method, send_rollback,
}
use sequelize.Transaction.Completion.{update-same, finished-same}

module _ (env : Environment) where
  abbrev pub complete : ℕ → Completion → M (Unit {0})
  complete t commit = commit_method env t
  complete t rollback = rollback_method env t

  abbrev pub complete_all : ℕ → List Completion → World → World
  complete_all t [] w = w
  complete_all t (c ∷ cs) w = complete_all t cs (complete t c w).1

  abbrev finished_of : ℕ → World → Option Completion
  finished_of t w = (w.transactions t).finished

  -- What leaves the state of `t` as it is.
  abbrev Keeps : ℕ → {A : Type 0} → M A → Type 0
  Keeps t m = (w : World) → finished_of t (m w).1 ≡ finished_of t w

  >>=-Keeps :
      (t : ℕ) {A B : Type 0} (m : M A) (f : A → M B)
      → Keeps t m
      → ((a : A) → Keeps t (f a))
      → Keeps t (λ w. bind_result f (m w))
  >>=-Keeps t {A = A} m f h h' w = go (m w).0 (m w).1 ∙ h w
    where
      go :
          (r : Result Error A) (w' : World)
          → finished_of t (bind_result f (r, w')).1 ≡ finished_of t w'
      go (ok a) w' = h' a w'
      go (throw e) w' = refl

  catch-Keeps :
      (t : ℕ) {A : Type 0} (m : M A) (f : Error → M A)
      → Keeps t m
      → ((e : Error) → Keeps t (f e))
      → Keeps t (λ w. catch_result f (m w))
  catch-Keeps t {A = A} m f h h' w = go (m w).0 (m w).1 ∙ h w
    where
      go :
          (r : Result Error A) (w' : World)
          → finished_of t (catch_result f (r, w')).1 ≡ finished_of t w'
      go (ok a) w' = refl
      go (throw e) w' = h' e w'

  perform-Keeps : (t : ℕ) (e : Effect) → Keeps t (perform env e)
  unfolding perform
  perform-Keeps t e w = refl

  query_raw-Keeps :
      (t : ℕ) (completes : Bool) (s : ℕ) (q : Query) → Keeps t (query_raw env completes s q)
  unfolding query_raw
  query_raw-Keeps t completes s q w =
      go completes (w.transactions s).connection (w.transactions s).finished
    where
      go :
          (completes : Bool) (k : Option ℕ) (f : Option Completion)
          → finished_of t (checked env completes q k f w).1 ≡ finished_of t w
      go completes none none = refl
      go completes (some c) none = perform-Keeps t (query c q) w
      go true none (some f) = refl
      go true (some c) (some f) = perform-Keeps t (query c q) w
      go false k (some f) = refl

  dispatch_hooks-Keeps : (t s : ℕ) (hooks : List ℕ) → Keeps t (dispatch_hooks env s hooks)
  unfolding dispatch_hooks
  dispatch_hooks-Keeps t s [] w = refl
  dispatch_hooks-Keeps t s (h ∷ hooks) w =
      >>=-Keeps t (perform env _) (λ _. dispatch_hooks env s hooks) (perform-Keeps t _)
        (λ _. dispatch_hooks-Keeps t s hooks) w

  clear_connection-Keeps :
      (t c : ℕ) (w : World) → finished_of t (clear_connection env t c w) ≡ finished_of t w
  clear_connection-Keeps t c w =
      ap (λ x. x.finished)
        (update-same env w.transactions t (record (w.transactions t) { connection = none }))

  cleanup-Keeps : (t : ℕ) → Keeps t (cleanup env t)
  unfolding cleanup
  cleanup-Keeps t w = go (held env w (w.transactions t).parent (w.transactions t).connection)
    where
      go : (o : Option ℕ) → finished_of t (cleanup_held env t o w).1 ≡ finished_of t w
      go none = refl
      go (some c) =
          >>=-Keeps t (perform env (release c)) (λ _ w'. (ok tt, clear_connection env t c w'))
            (perform-Keeps t (release c)) (λ _ w'. clear_connection-Keeps t c w') w

  force_cleanup-Keeps : (t : ℕ) → Keeps t (force_cleanup env t)
  unfolding force_cleanup
  force_cleanup-Keeps t w = go (held env w (w.transactions t).parent (w.transactions t).connection)
    where
      go : (o : Option ℕ) → finished_of t (force_cleanup_held env t o w).1 ≡ finished_of t w
      go none = refl
      go (some c) =
          perform-Keeps t (destroy c) (clear_connection env t c w) ∙ clear_connection-Keeps t c w

  on_failure-Keeps : (t : ℕ) (e : Error) → Keeps t (on_failure env t e)
  unfolding on_failure
  on_failure-Keeps t e =
      >>=-Keeps t (force_cleanup env t) (λ _ w. (throw e, w)) (force_cleanup-Keeps t) (λ _ w. refl)

  ends-Keeps :
      (t : ℕ) (after : World → List ℕ)
      → Keeps t (λ w. bind_result (λ _. cleanup env t) (dispatch_hooks env t (after w) w))
  ends-Keeps t after =
      >>=-Keeps t {A = Unit {0}} (λ w. dispatch_hooks env t (after w) w) (λ _. cleanup env t)
        (λ w. dispatch_hooks-Keeps t t (after w) w) (λ _. cleanup-Keeps t)

  closing-Keeps :
      (t : ℕ) (m : M (Unit {0})) (hooks after : World → List ℕ)
      → Keeps t m
      → Keeps t (λ w. catch_result (on_failure env t) (
          bind_result
            (λ _ w1.
              bind_result
                (λ _ w2.
                  bind_result (λ _ w3. cleanup env t w3) (dispatch_hooks env t (after w2) w2))
                (dispatch_hooks env t (hooks w1) w1))
            (m w)))
  closing-Keeps t m hooks after h =
      let ends : M (Unit {0}) =
        λ w. bind_result (λ _. cleanup env t) (dispatch_hooks env t (after w) w) in
      let middle : M (Unit {0}) = λ w. bind_result (λ _. ends) (dispatch_hooks env t (hooks w) w) in
      catch-Keeps t {A = Unit {0}} (λ w. bind_result (λ _. middle) (m w)) (on_failure env t)
        (>>=-Keeps t {A = Unit {0}} m (λ _. middle) h
          λ _.
            >>=-Keeps t {A = Unit {0}} (λ w. dispatch_hooks env t (hooks w) w) (λ _. ends)
              (λ w. dispatch_hooks-Keeps t t (hooks w) w) (λ _. ends-Keeps t after))
        (on_failure-Keeps t)

  set_finished-finished :
      (t : ℕ) (f : Completion) (w : World) → finished_of t (set_finished env t f w) ≡ some f
  set_finished-finished t f w = ap (λ x. x.finished) (finished-same env t f w)

  if-Keeps :
      (t : ℕ) (b : Bool) (m k : M (Unit {0}))
      → Keeps t m
      → Keeps t k
      → Keeps t (λ w. (if b then m else k) w)
  if-Keeps t true m k h h' = h
  if-Keeps t false m k h h' = h'

  send_rollback-Keeps : (t : ℕ) → Keeps t (λ w. send_rollback env t (w.transactions t).parent w)
  send_rollback-Keeps t w = go (w.transactions t).parent
    where
      go : (p : Option ℕ) → finished_of t (send_rollback env t p w).1 ≡ finished_of t w
      go none = query_raw-Keeps t true t (rollback_transaction t) w
      go (some p) =
          if-Keeps t env.supports_savepoints
            (query_raw env true p (rollback_savepoint p (w.transactions t).name))
            (raise savepoints_unsupported)
            (query_raw-Keeps t true p (rollback_savepoint p (w.transactions t).name)) (λ _. refl) w

  rollback_started-Keeps : (t : ℕ) → Keeps t (rollback_started env t)
  unfolding rollback_started
  rollback_started-Keeps t =
      closing-Keeps t (λ w. send_rollback env t (w.transactions t).parent w)
        (λ w. (w.transactions t).after_rollback_hooks) (λ w. (w.transactions t).after_hooks)
        (send_rollback-Keeps t)

  abbrev IsFinished : ℕ → World → Type 0
  IsFinished t w = (f : Completion) × (finished_of t w ≡ some f)

  commit_method-IsFinished : (t : ℕ) (w : World) → IsFinished t (commit_method env t w).1
  unfolding commit_method commit_root
  commit_method-IsFinished t w = elim (Option-cases (finished_of t w)) [
    | inr (f, s) ↦ (f, ap (λ o. finished_of t (commit_if env t o w).1) s ∙ s)
    | inl n ↦
        (commit, ap (λ o. finished_of t (commit_if env t o w).1) n ∙ go (w.transactions t).parent)
  ]
    where
      go :
          (p : Option ℕ)
          → finished_of t (commit_unfinished env t p (set_finished env t commit w)).1 ≡ some commit
      go none = set_finished-finished t commit (commit_steps env t (set_finished env t commit w)).1
      go (some p) = set_finished-finished t commit w

  rollback_method-IsFinished :
      (t c : ℕ) (w : World)
      → (w.transactions t).connection ≡ some c
      → IsFinished t (rollback_method env t w).1
  unfolding rollback_method
  rollback_method-IsFinished t c w k = elim (Option-cases (finished_of t w)) [
    | inr (f, s) ↦
        (f, ap (λ o. finished_of t (rollback_if env t o (w.transactions t).connection w).1) s ∙ s)
    | inl n ↦ (
      rollback,
      ap (λ o. finished_of t (rollback_if env t o (w.transactions t).connection w).1) n
          ∙ ap (λ o. finished_of t (rollback_if env t none o w).1) k
          ∙ rollback_started-Keeps t (set_finished env t rollback w)
          ∙ set_finished-finished t rollback w,
    )
  ]

  complete-again :
      (t : ℕ) (second : Completion) (w : World) → IsFinished t w → (complete t second w).1 ≡ w
  unfolding commit_method rollback_method
  complete-again t commit w (f, s) = ap (λ o. (commit_if env t o w).1) s
  complete-again t rollback w (f, s) =
      ap (λ o. (rollback_if env t o (w.transactions t).connection w).1) s

  complete_all-again :
      (t : ℕ) (rest : List Completion) (w : World) → IsFinished t w → complete_all t rest w ≡ w
  complete_all-again t [] w h = refl
  complete_all-again t (c ∷ rest) w h =
      ap (complete_all t rest) (complete-again t c w h) ∙ complete_all-again t rest w h

  -- Once a transaction that has a connection has been committed or rolled back, with or without an
  -- error, any further commits and rollbacks of it change nothing: no query, no hook and no second
  -- release of the connection. This holds of savepoints too.
  pub complete_all-complete :
      (t c : ℕ) (first : Completion) (rest : List Completion) (w : World)
      → (w.transactions t).connection ≡ some c
      → complete_all t rest (complete t first w).1 ≡ (complete t first w).1
  complete_all-complete t c commit rest w k =
      complete_all-again t rest _ (commit_method-IsFinished t w)
  complete_all-complete t c rollback rest w k =
      complete_all-again t rest _ (rollback_method-IsFinished t c w k)
