-- ===== src/Runtime/Samples.antt =====
-- Plugin tasks of small guests.
use iot_athome.Prelude.{true, false, ◌-◌, ◌≡◌, refl, List, [], ◌∷◌, Text, codes, ok}
use iot_athome.Runtime.{
  on_bus_message, on_mqtt_message, shutdown, PluginCommand, handler_trapped, display, Call, init,
  on_message, on_mqtt, Reply, fine, app_error, trapped, Store, Guest, default_fuel_per_call,
  run_plugin_task, spawn_plugin_task, finished, waiting, invoke, refuel, command_loop,
}
use iot_athome.Runtime.Calls.{calls, Fueled, run_plugin_task-Fueled, spawn_plugin_task_serves}

-- A guest that refuses bus messages and traps on none, and uses half of its fuel.
abbrev answer : Call → Reply
answer init = fine
answer (on_message subject iot_type payload) = app_error (codes "bad") (codes "payload")
answer (on_mqtt topic payload) = fine

abbrev grumpy : Guest
grumpy made c fuel = (answer c, fuel - 5_000_000)

abbrev mailbox : List PluginCommand
mailbox =
    on_bus_message (codes "s") (codes "t") []
    ∷ on_mqtt_message (codes "a/b") []
    ∷ shutdown
    ∷ on_mqtt_message (codes "late") []
    ∷ []

abbrev loaded : Store
loaded = record { fuel = 7; made = []; self_tx = false }

run_plugin_task-Fueled_run :
    Fueled grumpy default_fuel_per_call true
      (run_plugin_task grumpy default_fuel_per_call true mailbox loaded).1.made
run_plugin_task-Fueled_run =
    run_plugin_task-Fueled grumpy default_fuel_per_call true mailbox loaded refl

never_traps : (c : Call) (message : Text) → answer c ≡ trapped message → ⊥
never_traps init message e = cc
never_traps (on_message subject iot_type payload) message e = cc
never_traps (on_mqtt topic payload) message e = cc

spawn_plugin_task_serves_example :
    ((spawn_plugin_task grumpy default_fuel_per_call true mailbox loaded).0 ≡ finished (ok tt))
    × (calls (spawn_plugin_task grumpy default_fuel_per_call true mailbox loaded).1.made
        ≡ init ∷ on_message (codes "s") (codes "t") [] ∷ on_mqtt (codes "a/b") [] ∷ [])
spawn_plugin_task_serves_example =
    spawn_plugin_task_serves grumpy default_fuel_per_call true
      (λ made c message e. never_traps c message e) mailbox loaded refl refl

-- Without a shutdown the task waits, although every other sender is dropped.
never_ends : (spawn_plugin_task grumpy default_fuel_per_call true [] loaded).0 ≡ waiting
unfolding spawn_plugin_task run_plugin_task invoke refuel command_loop
never_ends = refl

crash_text :
    display (handler_trapped (codes "on_message") (codes "fuel")) ≡ codes "on_message-trapped: fuel"
unfolding display
crash_text = refl
