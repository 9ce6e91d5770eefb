-- ===== src/Hooks/Order.antt =====
-- The order in which `runAsync` of packages/core/src/hooks.ts calls the listeners.
use sequelize.Base.{
  ℕ, ◌≡◌, refl, sym, ap, ◌∙◌, Option, none, Result, List, [], ◌∷◌, ◌++◌, ok, throw, >>=-ok,
}
use sequelize.Hooks.MultiMap.{get, append}
use sequelize.Hooks.Handler.{
  Listener, Handler, same, new_object, Selector, assert_valid_hook_name, add_listener, Reply,
  returned, promised, raised, Run, HookError, notify, reply_async, guarded, run_async_all,
  run_async,
}
use sequelize.Hooks.Laws.{
  IsBelow, new_object-IsBelow, inserted, inserted_handler, insert-eq-ok, get-append-same,
}

module _ (call : List ℕ → ℕ → Reply) where
  -- One more callback, where nothing has thrown before.
  abbrev pub then_call : ℕ → Run → Run
  then_call callback (ok a, log) =
      reply_async call (call log callback) (ok a, callback ∷ log) (callback ∷ log)
  then_call callback (throw e, log) = (throw e, log)

  then_call-reply :
      (callback : ℕ) (r : Reply) (rest rest' : Run) (log : List ℕ)
      → rest' ≡ then_call callback rest
      → reply_async call r rest' log ≡ then_call callback (reply_async call r rest log)
  then_call-reply callback returned rest rest' log h = h
  then_call-reply callback promised rest rest' log h = h
  then_call-reply callback (raised x) rest rest' log h = refl

  -- `onRunHook`, where no listener has thrown.
  abbrev pub then_notify : Option ℕ → Run → Run
  then_notify on_run_hook (ok a, log) = notify call on_run_hook log
  then_notify on_run_hook (throw e, log) = (throw e, log)

  then_notify-reply :
      (on_run_hook : Option ℕ) (r : Reply) (rest rest' : Run) (log : List ℕ)
      → rest' ≡ then_notify on_run_hook rest
      → reply_async call r rest' log ≡ then_notify on_run_hook (reply_async call r rest log)
  then_notify-reply on_run_hook returned rest rest' log h = h
  then_notify-reply on_run_hook promised rest rest' log h = h
  then_notify-reply on_run_hook (raised x) rest rest' log h = refl

  run_async_all-then_notify :
      (on_run_hook : Option ℕ) (listeners : List Listener) (log : List ℕ)
      → run_async_all call on_run_hook listeners log
        ≡ then_notify on_run_hook (run_async_all call none listeners log)
  unfolding run_async_all
  run_async_all-then_notify on_run_hook [] log = refl
  run_async_all-then_notify on_run_hook (l ∷ listeners) log =
      then_notify-reply on_run_hook (call log l.callback) _ _ (l.callback ∷ log)
        (run_async_all-then_notify on_run_hook listeners (l.callback ∷ log))

  run_async-then_notify :
      (on_run_hook : Option ℕ) (handler : Handler) (hook_name : ℕ) (log : List ℕ)
      → run_async call on_run_hook handler hook_name log
        ≡ then_notify on_run_hook (run_async call none handler hook_name log)
  unfolding run_async
  run_async-then_notify on_run_hook handler hook_name log =
      go (assert_valid_hook_name handler hook_name)
    where
      go :
          (r : Result HookError (Unit {0}))
          → guarded call r
              (run_async_all call on_run_hook (get hook_name handler.listeners) log)
              log
            ≡ then_notify on_run_hook
                (guarded call r (run_async_all call none (get hook_name handler.listeners) log) log)
      go (ok u) = run_async_all-then_notify on_run_hook (get hook_name handler.listeners) log
      go (throw e) = refl

  run_async_all-append :
      (l : Listener) (listeners : List Listener) (log : List ℕ)
      → run_async_all call none (listeners ++ (l ∷ [])) log
        ≡ then_call l.callback (run_async_all call none listeners log)
  unfolding run_async_all
  run_async_all-append l [] log = refl
  run_async_all-append l (k ∷ listeners) log =
      then_call-reply l.callback (call log k.callback) _ _ (k.callback ∷ log)
        (run_async_all-append l listeners (k.callback ∷ log))

  run_async-inserted :
      (handler : Handler) (hook_name callback : ℕ) (name : Option ℕ) (log : List ℕ) (u : Unit {0})
      → IsBelow (new_object handler.listeners) (get hook_name handler.listeners)
      → assert_valid_hook_name handler hook_name ≡ ok u
      → run_async call none (inserted_handler handler hook_name callback name) hook_name log
        ≡ then_call callback (run_async call none handler hook_name log)
  unfolding run_async assert_valid_hook_name inserted_handler inserted
  run_async-inserted handler hook_name callback name log u b v =
      let l = inserted handler hook_name callback name in
      ap
        (λ r.
          guarded call r
            (run_async_all call none (get hook_name (append same hook_name l handler.listeners))
              log)
            log)
        v
      ∙ ap (λ listeners. run_async_all call none listeners log)
          (get-append-same hook_name l handler.listeners b)
      ∙ run_async_all-append l (get hook_name handler.listeners) log
      ∙ ap
          (λ r.
            then_call callback
              (guarded call r (run_async_all call none (get hook_name handler.listeners) log) log))
          (sym v)

  run_listeners-add_listener :
      (handler handler' : Handler) (hook_name callback : ℕ) (name : Option ℕ) (s : Selector)
      (log : List ℕ)
      → add_listener handler hook_name callback name ≡ ok (handler', s)
      → run_async call none handler' hook_name log
        ≡ then_call callback (run_async call none handler hook_name log)
  unfolding add_listener
  run_listeners-add_listener handler handler' hook_name callback name s log h =
      let (u, v, e) = >>=-ok (assert_valid_hook_name handler hook_name) _ h in
      let (n, r) = insert-eq-ok handler handler' hook_name callback name s _ e in
      ap (λ (p : Handler × Selector). run_async call none p.0 hook_name log) (sym r)
      ∙ run_async-inserted handler hook_name callback name log u
          (new_object-IsBelow hook_name handler.listeners) v

  -- A listener is called after those that were added to the hook before it and before `onRunHook`:
  -- a run of the hook after `addListener` calls the callbacks that its run before called, without
  -- `onRunHook`, then the new one, then `onRunHook` if there is one. The first that throws ends
  -- the run with its error.
  pub run_async-add_listener :
      (on_run_hook : Option ℕ) (handler handler' : Handler) (hook_name callback : ℕ)
      (name : Option ℕ) (s : Selector) (log : List ℕ)
      → add_listener handler hook_name callback name ≡ ok (handler', s)
      → run_async call on_run_hook handler' hook_name log
        ≡ then_notify on_run_hook (then_call callback (run_async call none handler hook_name log))
  run_async-add_listener on_run_hook handler handler' hook_name callback name s log h =
      run_async-then_notify on_run_hook handler' hook_name log
      ∙ ap (then_notify on_run_hook)
          (run_listeners-add_listener handler handler' hook_name callback name s log h)
