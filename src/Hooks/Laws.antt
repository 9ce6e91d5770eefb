-- ===== src/Hooks/Laws.antt =====
-- Listeners added and removed again, and run: `HookHandler` of packages/core/src/hooks.ts.
use sequelize.Base.{
  ℕ, ◌<◌, ◌≤◌, ◌≡◌, refl, ap, subst, ◌∙◌, inl, inr, false, Option, none, some, List, [], ◌∷◌, ◌++◌,
  ◌==◌, ==_iff, ==_refl, if◌then◌else◌, ok, ◌>>=◌, >>=-ok, ok_inj, All, arith, Bool-cases,
}
use sequelize.Hooks.MultiMap.{
  MultiMap, get, append, delete_value, includes, without, get-append, get-delete_value,
  includes-without, without-append,
}
use sequelize.Hooks.Handler.{
  Listener, Handler, same, past_all, new_object, Selector, has_name, find_named, get_named_listener,
  delete_callback, assert_valid_hook_name, existing, insert, selector_of, remove_selected,
  delete_listener, add_listener, remove_listener,
}
use mathlib.Core.List.{append-nil}

-- The listeners stand at places before this one.
abbrev pub IsBelow : ℕ → List Listener → Type 0
IsBelow next = All (λ l. l.object < next)

IsBelow-mono :
    (m n : ℕ) (listeners : List Listener) → m ≤ n → IsBelow m listeners → IsBelow n listeners
IsBelow-mono m n [] le h = tt
IsBelow-mono m n (l ∷ listeners) le (b, h) = (omega (arith, le, b), IsBelow-mono m n listeners le h)

past_all-IsBelow : (listeners : List Listener) → IsBelow (past_all listeners) listeners
unfolding past_all
past_all-IsBelow [] = tt
past_all-IsBelow (l ∷ listeners) = (
  omega arith,
  IsBelow-mono (past_all listeners) _ listeners (omega arith) (past_all-IsBelow listeners),
)

-- No listener of a map stands at the place of the next one.
pub new_object-IsBelow :
    (hook_name : ℕ) (m : MultiMap Listener) → IsBelow (new_object m) (get hook_name m)
unfolding get new_object
new_object-IsBelow hook_name [] = tt
new_object-IsBelow hook_name ((k, listeners) ∷ rest) = elim (Bool-cases (k == hook_name)) [
  | inl y ↦
      rw y
        (IsBelow-mono (past_all listeners) _ listeners (omega arith) (past_all-IsBelow listeners))
  | inr n ↦
      rw n (IsBelow-mono (new_object rest) _ _ (omega arith) (new_object-IsBelow hook_name rest))
]

fresh-not-included :
    (l : Listener) (listeners : List Listener)
    → IsBelow l.object listeners
    → includes same listeners l ≡ false
unfolding includes
fresh-not-included l [] h = refl
fresh-not-included l (k ∷ listeners) (b, h) = ground (arith, fresh-not-included l listeners h)

find_named-append :
    (name : ℕ) (l : Listener) (listeners : List Listener)
    → find_named name listeners ≡ none
    → l.listener_name ≡ some name
    → find_named name (listeners ++ (l ∷ [])) ≡ some l
unfolding find_named
find_named-append name l [] h e = rw (e, ==_refl name) refl
find_named-append name l (k ∷ listeners) h e = elim (Bool-cases (has_name name k.listener_name)) [
  | inl y ↦ ground (arith, y, h)
  | inr n ↦ ground (arith, n, h, find_named-append name l listeners)
]

-- No listener has this callback.
abbrev pub IsNew : ℕ → List Listener → Type 0
IsNew callback = All (λ l. (l.callback == callback) ≡ false)

delete_callback-append :
    (hook_name callback : ℕ) (l : Listener) (listeners : List Listener) (m : MultiMap Listener)
    → IsNew callback listeners
    → l.callback ≡ callback
    → delete_callback hook_name callback (listeners ++ (l ∷ [])) m ≡ delete_value same hook_name l m
unfolding delete_callback
delete_callback-append hook_name callback l [] m h e = rw (e, ==_refl callback) refl
delete_callback-append hook_name callback l (k ∷ listeners) m (n, h) e =
    ap
      (λ b.
        delete_callback hook_name callback (listeners ++ (l ∷ []))
          (if b then delete_value same hook_name k m else m))
      n
    ∙ delete_callback-append hook_name callback l listeners m h e

without_self : (l : Listener) → without same l (l ∷ []) ≡ []
unfolding without
without_self l = rw (==_refl l.object) refl

without-last :
    (l : Listener) (listeners : List Listener)
    → IsBelow l.object listeners
    → without same l (listeners ++ (l ∷ [])) ≡ listeners
without-last l listeners b =
    without-append same l listeners (l ∷ [])
    ∙ rw (includes-without same l listeners (fresh-not-included l listeners b), without_self l)
        (append-nil listeners)

pub get-append-same :
    (hook_name : ℕ) (l : Listener) (m : MultiMap Listener)
    → IsBelow l.object (get hook_name m)
    → get hook_name (append same hook_name l m) ≡ get hook_name m ++ (l ∷ [])
get-append-same hook_name l m b =
    get-append same hook_name hook_name l m
    ∙ rw (==_refl hook_name, fresh-not-included l (get hook_name m) b) refl

get-delete_value-append :
    (j hook_name : ℕ) (l : Listener) (m : MultiMap Listener)
    → IsBelow l.object (get hook_name m)
    → get j (delete_value same hook_name l (append same hook_name l m)) ≡ get j m
get-delete_value-append j hook_name l m b =
    get-delete_value same j hook_name l (append same hook_name l m)
    ∙ elim (Bool-cases (hook_name == j)) [
      | inl y ↦
          rw (y, get-append-same hook_name l m b, without-last l (get hook_name m) b)
            (ap (λ k. get k m) ((==_iff hook_name j).0 y))
      | inr n ↦ rw n (get-append same j hook_name l m ∙ rw n refl)
    ]

-- What deregistering a listener without a name asks for: `removeListener` is given its callback.
abbrev pub IsAlone : ℕ → Option ℕ → List Listener → Type 0
IsAlone callback none listeners = IsNew callback listeners
IsAlone callback (some name) listeners = Unit

unfoldable pub inserted : Handler → ℕ → ℕ → Option ℕ → Listener
inserted handler hook_name callback name = record {
  object = new_object handler.listeners;
  listener_name = name;
  callback = callback;
}

unfoldable pub inserted_handler : Handler → ℕ → ℕ → Option ℕ → Handler
unfolding inserted
inserted_handler handler hook_name callback name = record handler {
  listeners = append same hook_name (inserted handler hook_name callback name) handler.listeners;
}

-- Removing what was inserted.
remove_selected-inserted :
    (handler : Handler) (hook_name callback : ℕ) (name : Option ℕ)
    → IsBelow (new_object handler.listeners) (get hook_name handler.listeners)
    → IsAlone callback name (get hook_name handler.listeners)
    → existing handler hook_name name ≡ none
    → (remove_selected hook_name
        (selector_of callback name)
        (inserted_handler handler hook_name callback name)).listeners
      ≡ delete_value same hook_name
          (inserted handler hook_name callback name)
          (inserted_handler handler hook_name callback name).listeners
unfolding inserted_handler inserted get_named_listener
remove_selected-inserted handler hook_name callback none b a e =
    ap
      (λ listeners.
        delete_callback hook_name callback listeners
          (append same hook_name (inserted handler hook_name callback none) handler.listeners))
      (get-append-same hook_name (inserted handler hook_name callback none) handler.listeners b)
    ∙ delete_callback-append hook_name callback (inserted handler hook_name callback none)
        (get hook_name handler.listeners) _ a refl
remove_selected-inserted handler hook_name callback (some name) b a e =
    ap
      (λ o.
        (delete_listener hook_name o
          (inserted_handler handler hook_name callback (some name))).listeners)
      (ap (find_named name) (
          get-append-same hook_name (inserted handler hook_name callback (some name))
            handler.listeners b)
        ∙ find_named-append name (inserted handler hook_name callback (some name))
            (get hook_name handler.listeners) e refl)

pub insert-eq-ok :
    (handler handler' : Handler) (hook_name callback : ℕ) (name : Option ℕ) (s : Selector)
    (o : Option Listener)
    → insert handler hook_name callback name o ≡ ok (handler', s)
    → (o ≡ none)
      × (◌≡◌ {A = Handler × Selector}
          (inserted_handler handler hook_name callback name, selector_of callback name)
          (handler', s))
unfolding inserted_handler inserted
insert-eq-ok handler handler' hook_name callback name s none h = (refl, ok_inj h)
insert-eq-ok handler handler' hook_name callback name s (some l) h = cc

remove_listener-inserted :
    (handler : Handler) (hook_name callback : ℕ) (name : Option ℕ) (u : Unit {0})
    → assert_valid_hook_name handler hook_name ≡ ok u
    → remove_listener
        (inserted_handler handler hook_name callback name)
        hook_name
        (selector_of callback name)
      ≡ ok (
          remove_selected hook_name
            (selector_of callback name)
            (inserted_handler handler hook_name callback name))
unfolding remove_listener assert_valid_hook_name inserted_handler
remove_listener-inserted handler hook_name callback name u v =
    ap
      (λ r. r >>= λ _. ok (
        remove_selected hook_name (selector_of callback name)
          (inserted_handler handler hook_name callback name)))
      v

put_back :
    (handler : Handler) (hook_name callback : ℕ) (name : Option ℕ)
    → IsBelow (new_object handler.listeners) (get hook_name handler.listeners)
    → (j : ℕ)
    → get j (
        delete_value same hook_name
          (inserted handler hook_name callback name)
          (inserted_handler handler hook_name callback name).listeners)
      ≡ get j handler.listeners
unfolding inserted_handler inserted
put_back handler hook_name callback name b j =
    get-delete_value-append j hook_name (inserted handler hook_name callback name) handler.listeners
      b

-- The function that `addListener` returns succeeds, and puts the listeners of every hook back to what
-- they were before, in their order, where a listener that was added without a name has a callback
-- that no other listener of the hook has.
pub remove_listener-add_listener :
    (handler handler' : Handler) (hook_name callback : ℕ) (name : Option ℕ) (s : Selector)
    → IsAlone callback name (get hook_name handler.listeners)
    → add_listener handler hook_name callback name ≡ ok (handler', s)
    → (handler'' : Handler) × (remove_listener handler' hook_name s ≡ ok handler'')
      × ((j : ℕ) → get j handler''.listeners ≡ get j handler.listeners)
unfolding add_listener remove_listener
remove_listener-add_listener handler handler' hook_name callback name s a h =
    let (u, v, e) = >>=-ok (assert_valid_hook_name handler hook_name) _ h in
    let (n, r) = insert-eq-ok handler handler' hook_name callback name s _ e in
    subst
      (λ (p : Handler × Selector).
        (handler'' : Handler) × (remove_listener p.0 hook_name p.1 ≡ ok handler'')
        × ((j : ℕ) → get j handler''.listeners ≡ get j handler.listeners))
      r
      (
        remove_selected hook_name (selector_of callback name)
            (inserted_handler handler hook_name callback name),
        remove_listener-inserted handler hook_name callback name u v,
        λ j.
            ap (get j) (
              remove_selected-inserted handler hook_name callback name
                (new_object-IsBelow hook_name handler.listeners) a n)
            ∙ put_back handler hook_name callback name
                (new_object-IsBelow hook_name handler.listeners) j,
      )
