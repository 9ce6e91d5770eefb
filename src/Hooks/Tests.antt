-- ===== src/Hooks/Tests.antt =====
-- The theorems on packages/core/src/hooks.ts at a concrete handler.
use sequelize.Base.{ℕ, ◌≡◌, refl, Bool, none, some, List, [], ◌∷◌, ◌==◌, if◌then◌else◌, ok}
use sequelize.Hooks.MultiMap.{
  MultiMap, get, append, delete_value, added, without, get-append, get-delete_value,
}
use sequelize.Hooks.Handler.{
  Handler, new_object, by_callback, Reply, returned, add_listener, remove_listener,
  assert_valid_hook_name, run_async,
}
use sequelize.Hooks.Laws.{remove_listener-add_listener}
use sequelize.Hooks.Order.{then_call, then_notify, run_async-add_listener}

abbrev values : MultiMap ℕ
values = (0, 4 ∷ []) ∷ (1, 5 ∷ 6 ∷ []) ∷ []

abbrev equal : ℕ → ℕ → Bool
equal a b = a == b

get-append_example :
    get 1 (append equal 1 7 values)
    ≡ (if 1 == 1 then added equal (get 1 values) 7 else get 1 values)
get-append_example = get-append equal 1 1 7 values

get-delete_value_example :
    get 0 (delete_value equal 0 4 values)
    ≡ (if 0 == 0 then without equal 4 (get 0 values) else get 0 values)
get-delete_value_example = get-delete_value equal 0 0 4 values

-- The last value of a key is deleted.
emptied : get 0 (delete_value equal 0 4 values) ≡ []
unfolding get delete_value
emptied = refl

abbrev empty : Handler
empty = record { valid_hook_names = 0 ∷ 1 ∷ []; listeners = [] }

abbrev one : Handler
one = record {
  valid_hook_names = 0 ∷ 1 ∷ [];
  listeners = (1, record { object = 0; listener_name = none; callback = 9 } ∷ []) ∷ [];
}

added_run : add_listener empty 1 9 none ≡ ok (one, by_callback 9)
unfolding add_listener assert_valid_hook_name append new_object
added_run = refl

remove_listener-add_listener_example :
    (handler : Handler) × (remove_listener one 1 (by_callback 9) ≡ ok handler)
    × ((j : ℕ) → get j handler.listeners ≡ get j empty.listeners)
remove_listener-add_listener_example =
    remove_listener-add_listener empty one 1 9 none (by_callback 9) (unfold get in tt) added_run

abbrev quiet : List ℕ → ℕ → Reply
quiet log callback = returned

run_async-add_listener_example :
    run_async quiet (some 7) one 1 []
    ≡ then_notify quiet (some 7) (then_call quiet 9 (run_async quiet none empty 1 []))
run_async-add_listener_example =
    run_async-add_listener quiet (some 7) empty one 1 9 none (by_callback 9) [] added_run
