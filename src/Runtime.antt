-- ===== src/Runtime.antt =====
-- crates/iot-plugin-host/src/runtime.rs: the task that owns a plugin's store. The guest is a
-- parameter: what a call answers and how much fuel it leaves, by the calls before it, the call and
-- the fuel that it starts with. `set_fuel` succeeds, as it does where the engine counts fuel.
pub mod Calls
mod Samples
use iot_athome.Prelude.{
  ℕ, List, [], ◌∷◌, ◌++◌, Bool, true, not, ◌&&◌, if◌then◌else◌, Text, codes, Result, ok, err,
}

pub data PluginCommand : Type 0 where
  on_bus_message : Text → Text → Text → PluginCommand
  on_mqtt_message : Text → Text → PluginCommand
  shutdown : PluginCommand

pub data CrashReason : Type 0 where
  init_failed : Text → Text → CrashReason
  init_trapped : Text → CrashReason
  handler_trapped : Text → Text → CrashReason

-- fmt::Display
unfoldable pub display : CrashReason → Text
display (init_failed code message) = codes "init-failed[" ++ (code ++ (codes "]: " ++ message))
display (init_trapped m) = codes "init-trapped: " ++ m
display (handler_trapped kind message) = kind ++ (codes "-trapped: " ++ message)

abbrev pub default_fuel_per_call : ℕ
default_fuel_per_call = 10_000_000

-- An invocation of an export.
pub data Call : Type 0 where
  init : Call
  on_message : Text → Text → Text → Call
  on_mqtt : Text → Text → Call

-- Ok(Ok(())), Ok(Err(e)), Err(trap)
pub data Reply : Type 0 where
  fine : Reply
  app_error : Text → Text → Reply
  trapped : Text → Reply

-- A call that was made, with its fuel at the start.
pub record Made : Type 0 where
  pub call : Call
  pub fuel : ℕ

-- The fuel left in the store, the calls that were made, the latest first, and whether the plugin's state
-- in it keeps a sender of the task's own mailbox.
pub record Store : Type 0 where
  pub fuel : ℕ
  pub made : List Made
  pub self_tx : Bool

-- What has become of the task: it has returned, or it waits in `recv`.
pub data Progress : Type 0 where
  finished : Result CrashReason (Unit {0}) → Progress
  waiting : Progress

abbrev pub Guest : Type 0
Guest = List Made → Call → ℕ → Reply × ℕ

unfoldable pub refuel : ℕ → Store → Store
refuel fuel_per_call s = record s { fuel = fuel_per_call }

-- `senders_dropped` tells whether every sender outside the store is dropped in the end.
module _ (guest : Guest) (fuel_per_call : ℕ) (senders_dropped : Bool) where
  abbrev after_call : Call → Store → Reply × ℕ → Reply × Store
  after_call c s (reply, left) =
      (reply, record s { fuel = left; made = record { call = c; fuel = s.fuel } ∷ s.made })

  -- A refill and the call.
  unfoldable pub invoke : Call → Store → Reply × Store
  invoke c s = let s' = refuel fuel_per_call s in after_call c s' (guest s'.made c s'.fuel)

  -- An error that the plugin returns is logged, a trap ends the task.
  abbrev pub handled : Text → Reply × Store → (Store → Progress × Store) → Progress × Store
  handled kind (fine, s) next = next s
  handled kind (app_error code message, s) next = next s
  handled kind (trapped message, s) next = (finished (err (handler_trapped kind message)), s)

  -- `recv` on an empty mailbox: it returns none only once every sender is dropped.
  abbrev pub drained : Store → Progress
  drained s = if senders_dropped && not s.self_tx then finished (ok tt) else waiting

  -- The commands are all that the mailbox delivers.
  unfoldable pub command_loop : List PluginCommand → Store → Progress × Store
  command_loop [] s = (drained s, s)
  command_loop (shutdown ∷ cmds) s = (finished (ok tt), s)
  command_loop (on_bus_message subject iot_type payload ∷ cmds) s =
      handled (codes "on_message") (invoke (on_message subject iot_type payload) s)
        (command_loop cmds)
  command_loop (on_mqtt_message topic payload ∷ cmds) s =
      handled (codes "on_mqtt_message") (invoke (on_mqtt topic payload) s) (command_loop cmds)

  abbrev after_init : List PluginCommand → Reply × Store → Progress × Store
  after_init cmds (fine, s) = command_loop cmds s
  after_init cmds (app_error code message, s) = (finished (err (init_failed code message)), s)
  after_init cmds (trapped message, s) = (finished (err (init_trapped message)), s)

  unfoldable pub run_plugin_task : List PluginCommand → Store → Progress × Store
  run_plugin_task cmds s = after_init cmds (invoke init s)

  -- The store gets a sender of the new mailbox before the task starts.
  unfoldable pub spawn_plugin_task : List PluginCommand → Store → Progress × Store
  spawn_plugin_task cmds s = run_plugin_task cmds (record s { self_tx = true })
