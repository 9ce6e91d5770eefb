-- ===== src/Hooks/Handler.antt =====
-- `HookHandler` and `mayRunHook` of packages/core/src/hooks.ts.
-- A hook name, a callback and a listener name, which is not the empty text, are numbers. A listener
-- is an object with its place in memory, by which `===` compares it.
use sequelize.Base.{
  ℕ, suc, ◌+◌, Bool, true, false, not, Option, none, some, List, [], ◌∷◌, ◌==◌, ltb, if◌then◌else◌,
  Result, ok, throw, ◌>>=◌,
}
use sequelize.Hooks.MultiMap.{MultiMap, get, count, append, delete_value}

pub record Listener : Type 0 where
  pub object : ℕ
  pub listener_name : Option ℕ
  pub callback : ℕ

abbrev pub same : Listener → Listener → Bool
same a b = a.object == b.object

-- The fields of `HookHandler`.
pub record Handler : Type 0 where
  pub valid_hook_names : List ℕ
  pub listeners : MultiMap Listener

-- A place where no listener is: an object literal makes an object that no other one is `===` to.
unfoldable pub past_all : List Listener → ℕ
past_all [] = 0
past_all (l ∷ listeners) = suc l.object + past_all listeners

unfoldable pub new_object : MultiMap Listener → ℕ
unfolding past_all
new_object [] = 0
new_object ((hook_name, listeners) ∷ rest) = past_all listeners + new_object rest

pub data HookError : Type 0 where
  unsupported_hook duplicate_listener returned_promise : HookError
  thrown : ℕ → HookError

-- `listenerOrListenerName`.
pub data Selector : Type 0 where
  by_name by_callback : ℕ → Selector

unfoldable pub member : ℕ → List ℕ → Bool
member k [] = false
member k (j ∷ js) = if j == k then true else member k js

unfoldable pub assert_valid_hook_name : Handler → ℕ → Result HookError (Unit {0})
unfolding member
assert_valid_hook_name handler hook_name =
    if member hook_name handler.valid_hook_names then ok tt else throw unsupported_hook

abbrev pub has_name : ℕ → Option ℕ → Bool
has_name name none = false
has_name name (some n) = n == name

unfoldable pub find_named : ℕ → List Listener → Option Listener
find_named name [] = none
find_named name (l ∷ listeners) =
    if has_name name l.listener_name then some l else find_named name listeners

unfoldable pub get_named_listener : Handler → ℕ → ℕ → Option Listener
unfolding find_named get
get_named_listener handler hook_name name = find_named name (get hook_name handler.listeners)

abbrev pub delete_listener : ℕ → Option Listener → Handler → Handler
delete_listener hook_name none handler = handler
delete_listener hook_name (some l) handler = record handler {
  listeners = delete_value same hook_name l handler.listeners;
}

-- The loop over the listeners that were there at its start.
unfoldable pub delete_callback : ℕ → ℕ → List Listener → MultiMap Listener → MultiMap Listener
unfolding delete_value
delete_callback hook_name callback [] m = m
delete_callback hook_name callback (l ∷ listeners) m =
    delete_callback hook_name callback listeners
      (if l.callback == callback then delete_value same hook_name l m else m)

abbrev pub remove_selected : ℕ → Selector → Handler → Handler
remove_selected hook_name (by_name name) handler =
    delete_listener hook_name (get_named_listener handler hook_name name) handler
remove_selected hook_name (by_callback callback) handler = record handler {
  listeners =
      delete_callback hook_name callback (get hook_name handler.listeners) handler.listeners;
}

unfoldable pub remove_listener : Handler → ℕ → Selector → Result HookError Handler
unfolding assert_valid_hook_name get_named_listener delete_callback get delete_value
remove_listener handler hook_name selector = assert_valid_hook_name handler hook_name >>= λ _.
    ok (remove_selected hook_name selector handler)

unfoldable pub remove_all_listeners : Handler → Handler
remove_all_listeners handler = record handler { listeners = [] }

unfoldable pub get_listener_count : Handler → ℕ → Result HookError ℕ
unfolding assert_valid_hook_name count
get_listener_count handler hook_name =
    assert_valid_hook_name handler hook_name >>= λ _. ok (count hook_name handler.listeners)

unfoldable pub has_listeners : Handler → ℕ → Result HookError Bool
unfolding assert_valid_hook_name count
has_listeners handler hook_name =
    assert_valid_hook_name handler hook_name >>= λ _. ok (ltb 0 (count hook_name handler.listeners))

abbrev pub existing : Handler → ℕ → Option ℕ → Option Listener
existing handler hook_name none = none
existing handler hook_name (some name) = get_named_listener handler hook_name name

abbrev pub selector_of : ℕ → Option ℕ → Selector
selector_of callback none = by_callback callback
selector_of callback (some name) = by_name name

abbrev pub insert :
    Handler → ℕ → ℕ → Option ℕ → Option Listener → Result HookError (Handler × Selector)
insert handler hook_name callback name (some l) = throw duplicate_listener
insert handler hook_name callback name none =
    let l : Listener = record {
      object = new_object handler.listeners;
      listener_name = name;
      callback = callback;
    } in
    ok (
      record handler { listeners = append same hook_name l handler.listeners },
      selector_of callback name,
    )

-- The handler after the call, and what the function that `addListener` returns calls
-- `removeListener` with.
unfoldable pub add_listener :
    Handler → ℕ → (callback : ℕ) (name : Option ℕ) → Result HookError (Handler × Selector)
unfolding assert_valid_hook_name get_named_listener append new_object
add_listener handler hook_name callback name = assert_valid_hook_name handler hook_name >>= λ _.
    insert handler hook_name callback name (existing handler hook_name name)

-- The listeners of one hook, then of all valid hooks, as `addListeners` adds them.
unfoldable pub add_all : ℕ → List (ℕ × Option ℕ) → Handler → Result HookError Handler
unfolding add_listener
add_all hook_name [] handler = ok handler
add_all hook_name ((callback, name) ∷ listeners) handler =
    add_listener handler hook_name callback name >>= λ r. add_all hook_name listeners r.0

unfoldable pub add_for : List ℕ → (ℕ → List (ℕ × Option ℕ)) → Handler → Result HookError Handler
unfolding add_all
add_for [] listeners handler = ok handler
add_for (hook_name ∷ rest) listeners handler =
    add_all hook_name (listeners hook_name) handler >>= add_for rest listeners

unfoldable pub add_listeners : Handler → (ℕ → List (ℕ × Option ℕ)) → Result HookError Handler
unfolding add_for
add_listeners handler listeners = add_for handler.valid_hook_names listeners handler

-- What a callback does, by the callbacks that were called before, the last one first.
pub data Reply : Type 0 where
  returned promised : Reply
  raised : ℕ → Reply

-- A run leaves the callbacks that were called also where it throws.
abbrev pub Run : Type 0
Run = Result HookError (Unit {0}) × List ℕ

module _ (call : List ℕ → ℕ → Reply) where
  abbrev pub reply_sync : Reply → Run → List ℕ → Run
  reply_sync returned rest log = rest
  reply_sync promised rest log = (throw returned_promise, log)
  reply_sync (raised x) rest log = (throw (thrown x), log)

  abbrev pub reply_async : Reply → Run → List ℕ → Run
  reply_async returned rest log = rest
  reply_async promised rest log = rest
  reply_async (raised x) rest log = (throw (thrown x), log)

  -- What `onRunHook` returns is not looked at by `runSync`.
  abbrev pub notify : Option ℕ → List ℕ → Run
  notify none log = (ok tt, log)
  notify (some on_run_hook) log =
      reply_async (call log on_run_hook) (ok tt, on_run_hook ∷ log) (on_run_hook ∷ log)

  unfoldable pub run_sync_all : Option ℕ → List Listener → List ℕ → Run
  run_sync_all on_run_hook [] log = notify on_run_hook log
  run_sync_all on_run_hook (l ∷ listeners) log =
      reply_sync (call log l.callback) (run_sync_all on_run_hook listeners (l.callback ∷ log))
        (l.callback ∷ log)

  unfoldable pub run_async_all : Option ℕ → List Listener → List ℕ → Run
  run_async_all on_run_hook [] log = notify on_run_hook log
  run_async_all on_run_hook (l ∷ listeners) log =
      reply_async (call log l.callback) (run_async_all on_run_hook listeners (l.callback ∷ log))
        (l.callback ∷ log)

  abbrev pub guarded : Result HookError (Unit {0}) → Run → List ℕ → Run
  guarded (ok a) run log = run
  guarded (throw e) run log = (throw e, log)

  unfoldable pub run_sync : Option ℕ → Handler → ℕ → List ℕ → Run
  unfolding assert_valid_hook_name run_sync_all get
  run_sync on_run_hook handler hook_name log =
      guarded (assert_valid_hook_name handler hook_name)
        (run_sync_all on_run_hook (get hook_name handler.listeners) log) log

  unfoldable pub run_async : Option ℕ → Handler → ℕ → List ℕ → Run
  unfolding assert_valid_hook_name run_async_all get
  run_async on_run_hook handler hook_name log =
      guarded (assert_valid_hook_name handler hook_name)
        (run_async_all on_run_hook (get hook_name handler.listeners) log) log

-- `noHooks`: false, true, a list of the hooks not run, and `{ except }`.
pub data NoHooks : Type 0 where
  all_run none_run : NoHooks
  not_run except : List ℕ → NoHooks

unfoldable pub may_run_hook : ℕ → NoHooks → Bool
unfolding member
may_run_hook hook_name all_run = true
may_run_hook hook_name none_run = false
may_run_hook hook_name (not_run names) = not (member hook_name names)
may_run_hook hook_name (except names) = member hook_name names
