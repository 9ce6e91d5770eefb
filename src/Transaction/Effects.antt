-- ===== src/Transaction/Effects.antt =====
-- The effects of a completion of packages/core/src/transaction.ts as a list, which is carried out up
-- to the first that throws.
use sequelize.Base.{
  ℕ, ◌≡◌, refl, ap, ◌∙◌, inl, inr, true, false, Option, none, some, List, [], ◌∷◌, ◌++◌, Result, ok,
  throw, Option-cases,
}
use sequelize.Transaction.World.{
  Query, Effect, release, destroy, query, hook, Error, external, Environment, World, M, bind_result,
  catch_result, outcome, perform, raise,
}
use sequelize.Transaction.Methods.{
  query_raw, dispatch_hooks, held, cleanup, force_cleanup, clear_connection, force_cleanup_held,
  on_failure,
}

abbrev stop_or : Option ℕ → Option ℕ × List Effect → List Effect → Option ℕ × List Effect
stop_or none rest log = rest
stop_or (some x) rest log = (some x, log)

module _ (env : Environment) where
  -- Effects one after the other up to the first that throws: the error, if one does, and the effects
  -- that took place, the last one first.
  unfoldable pub attempt : List Effect → List Effect → Option ℕ × List Effect
  attempt log [] = (none, log)
  attempt log (e ∷ es) = stop_or (env.throws log e) (attempt (e ∷ log) es) (e ∷ log)

  abbrev pub performed : List Effect → M (Unit {0})
  performed es w = (outcome (attempt w.log es).0, record w { log = (attempt w.log es).1 })

  attempt-continues :
      (log es : List Effect) (e : Effect)
      → env.throws log e ≡ none
      → attempt log (e ∷ es) ≡ attempt (e ∷ log) es
  unfolding attempt
  attempt-continues log es e n = ap (λ o. stop_or o (attempt (e ∷ log) es) (e ∷ log)) n

  attempt-stops :
      (log es : List Effect) (e : Effect) (x : ℕ)
      → env.throws log e ≡ some x
      → attempt log (e ∷ es) ≡ (some x, e ∷ log)
  unfolding attempt
  attempt-stops log es e x s = ap (λ o. stop_or o (attempt (e ∷ log) es) (e ∷ log)) s

  performed-append :
      (es fs : List Effect) (w : World)
      → bind_result (λ _. performed fs) (performed es w) ≡ performed (es ++ fs) w
  performed-append [] fs w = unfold attempt in refl
  performed-append (e ∷ es) fs w = elim (Option-cases (env.throws w.log e)) [
    | inl n ↦
        rw (attempt-continues w.log es e n, attempt-continues w.log (es ++ fs) e n)
          (performed-append es fs (record w { log = e ∷ w.log }))
    | inr (x, s) ↦ rw (attempt-stops w.log es e x s, attempt-stops w.log (es ++ fs) e x s) refl
  ]

  -- The callbacks of a set of hooks, in the order they were added.
  abbrev pub hook_effects : ℕ → List ℕ → List Effect
  hook_effects t [] = []
  hook_effects t (h ∷ hooks) = hook h t ∷ hook_effects t hooks

  pub dispatch_hooks-performed :
      (t : ℕ) (hooks : List ℕ) (w : World)
      → dispatch_hooks env t hooks w ≡ performed (hook_effects t hooks) w
  unfolding dispatch_hooks perform
  dispatch_hooks-performed t [] w = unfold attempt in refl
  dispatch_hooks-performed t (h ∷ hooks) w = elim (Option-cases (env.throws w.log (hook h t))) [
    | inl n ↦
        rw (n, attempt-continues w.log (hook_effects t hooks) (hook h t) n)
          (dispatch_hooks-performed t hooks (record w { log = hook h t ∷ w.log }))
    | inr (x, s) ↦ rw (s, attempt-stops w.log (hook_effects t hooks) (hook h t) x s) refl
  ]

  abbrev pub or_else : Option ℕ → ℕ → ℕ
  or_else none x = x
  or_else (some y) x = y

  -- How a root transaction ends whose effects went through, or met an error: its connection is
  -- destroyed then, and an error of that replaces the first.
  abbrev pub conclude : ℕ → ℕ → World → Option ℕ × List Effect → Result Error (Unit {0}) × World
  conclude t c w (none, log) = (ok tt, clear_connection env t c (record w { log = log }))
  conclude t c w (some x, log) = (
    throw (external (or_else (env.throws log (destroy c)) x)),
    clear_connection env t c (record w { log = destroy c ∷ log }),
  )

  abbrev pub close_with : ℕ → ℕ → List Effect → M (Unit {0})
  close_with t c es w = conclude t c w (attempt w.log es)

  -- A root transaction that has its connection.
  abbrev pub IsOpen : ℕ → ℕ → World → Type 0
  IsOpen t c w =
      ((w.transactions t).parent ≡ none)
      × ((w.transactions t).connection ≡ some c)
      × ((uuid : ℕ) × (w.uuids c ≡ some uuid))

  pub cleanup-IsOpen :
      (t c : ℕ) (w : World)
      → IsOpen t c w
      → cleanup env t w
        ≡ bind_result (λ _ w'. (ok tt, clear_connection env t c w')) (performed (release c ∷ []) w)
  unfolding cleanup perform
  cleanup-IsOpen t c w (p, k, (u, h)) = elim (Option-cases (env.throws w.log (release c))) [
    | inl n ↦ rw (p, k, h, n, attempt-continues w.log [] (release c) n) (unfold attempt in refl)
    | inr (x, s) ↦ rw (p, k, h, s, attempt-stops w.log [] (release c) x s) refl
  ]

  same-outcome :
      {A : Type 0} (k k' : M A) (w : World) (o : Option ℕ) (l : List Effect)
      → k (record w { log = l }) ≡ k' (record w { log = l })
      → bind_result {A = Unit {0}} (λ _. k) (outcome o, record w { log = l })
        ≡ bind_result {A = Unit {0}} (λ _. k') (outcome o, record w { log = l })
  same-outcome k k' w none l h = h
  same-outcome k k' w (some x) l h = refl

  clearing-append :
      (es fs : List Effect) (f : World → World) (w : World)
      → bind_result {A = Unit {0}}
          (λ _ w'. bind_result (λ _ w''. (ok tt, f w'')) (performed fs w'))
          (performed es w)
        ≡ bind_result {A = Unit {0}} {B = Unit {0}}
            (λ _ w''. (ok tt, f w''))
            (performed (es ++ fs) w)
  clearing-append es fs f w =
      bind_result-assoc (attempt w.log es).0 (record w { log = (attempt w.log es).1 })
      ∙ ap (bind_result (λ _ w''. (ok tt, f w''))) (performed-append es fs w)
    where
      bind_result-assoc :
          (o : Option ℕ) (w' : World)
          → bind_result {A = Unit {0}} {B = Unit {0}}
              (λ _ w'. bind_result {A = Unit {0}} (λ _ w''. (ok tt, f w'')) (performed fs w'))
              (outcome o, w')
            ≡ bind_result {A = Unit {0}}
                (λ _ w''. (ok tt, f w''))
                (bind_result {A = Unit {0}} (λ _. performed fs) (outcome o, w'))
      bind_result-assoc none w' = refl
      bind_result-assoc (some x) w' = refl

  abbrev cleared : ℕ → ℕ → List Effect → M (Unit {0})
  cleared t c es w = bind_result (λ _ w'. (ok tt, clear_connection env t c w')) (performed es w)

  pub bind-cleared :
      (t c : ℕ) (m k : M (Unit {0})) (es fs : List Effect) (w : World)
      → m w ≡ performed es w
      → ((l : List Effect) → k (record w { log = l }) ≡ cleared t c fs (record w { log = l }))
      → bind_result (λ _. k) (m w) ≡ cleared t c (es ++ fs) w
  bind-cleared t c m k es fs w h h' =
      ap (bind_result (λ _. k)) h
      ∙ same-outcome k (cleared t c fs) w (attempt w.log es).0 (attempt w.log es).1
          (h' (attempt w.log es).1)
      ∙ clearing-append es fs (clear_connection env t c) w

  held-IsOpen :
      (t c : ℕ) (w : World)
      → IsOpen t c w
      → held env w (w.transactions t).parent (w.transactions t).connection ≡ some c
  held-IsOpen t c w (p, k, (u, h)) = rw (p, k, h) refl

  on_failure-IsOpen :
      (t c x : ℕ) (w : World)
      → IsOpen t c w
      → on_failure env t (external x) w ≡ conclude t c w (some x, w.log)
  unfolding on_failure force_cleanup perform
  on_failure-IsOpen t c x w (p, k, (u, h)) =
      ap (λ o. bind_result (λ _. raise (external x)) (force_cleanup_held env t o w))
        (held-IsOpen t c w (p, k, (u, h)))
      ∙ elim (Option-cases (env.throws w.log (destroy c))) [
        | inl n ↦ rw n refl
        | inr (y, s) ↦ rw s refl
      ]

  pub concluded :
      (t c : ℕ) (w : World) (o : Option ℕ) (l : List Effect)
      → IsOpen t c w
      → catch_result (on_failure env t) (
          bind_result {A = Unit {0}}
            (λ _ w'. (ok tt, clear_connection env t c w'))
            (outcome o, record w { log = l }))
        ≡ conclude t c w (o, l)
  concluded t c w none l h = refl
  concluded t c w (some x) l h = on_failure-IsOpen t c x (record w { log = l }) h

  query-performed :
      (c : ℕ) (q : Query) (w : World) (o : Option ℕ)
      → env.throws w.log (query c q) ≡ o
      → ◌≡◌ {A = Result Error (Unit {0}) × World}
          (outcome (env.throws w.log (query c q)), record w { log = query c q ∷ w.log })
          (performed (query c q ∷ []) w)
  query-performed c q w none n =
      rw (n, attempt-continues w.log [] (query c q) n) (unfold attempt in refl)
  query-performed c q w (some x) s = rw (s, attempt-stops w.log [] (query c q) x s) refl

  pub query_raw-performed :
      (t c : ℕ) (q : Query) (w : World)
      → (w.transactions t).connection ≡ some c
      → query_raw env true t q w ≡ performed (query c q ∷ []) w
  unfolding query_raw perform
  query_raw-performed t c q w k = elim (Option-cases (w.transactions t).finished) [
    | inl n ↦ rw (k, n) (query-performed c q w (env.throws w.log (query c q)) refl)
    | inr (f, s) ↦ rw (k, s) (query-performed c q w (env.throws w.log (query c q)) refl)
  ]

  -- A query of a transaction that is not finished.
  pub query_raw-unfinished :
      (t c : ℕ) (q : Query) (w : World)
      → (w.transactions t).connection ≡ some c
      → (w.transactions t).finished ≡ none
      → query_raw env false t q w ≡ performed (query c q ∷ []) w
  unfolding query_raw perform
  query_raw-unfinished t c q w k n =
      rw (k, n) (query-performed c q w (env.throws w.log (query c q)) refl)

  pub then-performed :
      (m k : M (Unit {0})) (es fs : List Effect) (w : World)
      → m w ≡ performed es w
      → ((l : List Effect) → k (record w { log = l }) ≡ performed fs (record w { log = l }))
      → bind_result (λ _. k) (m w) ≡ performed (es ++ fs) w
  then-performed m k es fs w h h' =
      ap (bind_result (λ _. k)) h
      ∙ same-outcome k (performed fs) w (attempt w.log es).0 (attempt w.log es).1
          (h' (attempt w.log es).1)
      ∙ performed-append es fs w
