-- ===== src/Runtime/Calls.antt =====
-- Which calls a plugin's task makes, with what fuel, and how it ends.
use iot_athome.Prelude.{
  Bool, true, Bool-cases, inl, inr, ℕ, ◌≡◌, refl, ap, sym, ◌∙◌, List, [], ◌∷◌, ◌++◌, All, Text, ok,
}
use iot_athome.Runtime.{
  PluginCommand, on_bus_message, on_mqtt_message, shutdown, Call, init, on_message, on_mqtt, Reply,
  fine, app_error, trapped, Made, Store, Guest, refuel, invoke, handled, command_loop, after_init,
  run_plugin_task, Progress, finished, waiting, drained, spawn_plugin_task,
}

-- The calls that a mailbox asks for: one for each command before the first shutdown.
abbrev pub asked : List PluginCommand → List Call
asked [] = []
asked (shutdown ∷ cmds) = []
asked (on_bus_message subject iot_type payload ∷ cmds) =
    on_message subject iot_type payload ∷ asked cmds
asked (on_mqtt_message topic payload ∷ cmds) = on_mqtt topic payload ∷ asked cmds

-- How the task of a plugin without traps is left by the commands: returned at a shutdown, else waiting.
abbrev pub last_progress : List PluginCommand → Progress
last_progress [] = waiting
last_progress (shutdown ∷ cmds) = finished (ok tt)
last_progress (on_bus_message subject iot_type payload ∷ cmds) = last_progress cmds
last_progress (on_mqtt_message topic payload ∷ cmds) = last_progress cmds

-- The calls in the order in which they were made.
abbrev pub calls : List Made → List Call
calls [] = []
calls (m ∷ ms) = calls ms ++ m.call ∷ []

append_assoc : (a b c : List Call) → (a ++ b) ++ c ≡ a ++ (b ++ c)
append_assoc [] b c = refl
append_assoc (x ∷ a) b c = ap (◌∷◌ x) (append_assoc a b c)

append_nil : (a : List Call) → a ++ [] ≡ a
append_nil [] = refl
append_nil (x ∷ a) = ap (◌∷◌ x) (append_nil a)

module _ (guest : Guest) (fuel_per_call : ℕ) (senders_dropped : Bool) where
  -- The guest's answers end the task at a call only if it traps.
  abbrev pub NeverTraps : Type 0
  NeverTraps =
      (made : List Made) (c : Call) (message : Text)
      → (guest made c fuel_per_call).0 ≡ trapped message
      → ⊥

  -- Every call so far had the full budget.
  abbrev pub Fueled : List Made → Type 0
  Fueled = All (λ m. m.fuel ≡ fuel_per_call)

  invoke-Fueled :
      (c : Call) (s : Store)
      → Fueled s.made
      → Fueled (invoke guest fuel_per_call senders_dropped c s).1.made
  unfolding invoke refuel
  invoke-Fueled c s v = (refl, v)

  handled-Fueled :
      (kind : Text) (r : Reply × Store) (next : Store → Progress × Store)
      → ((s' : Store) → Fueled s'.made → Fueled (next s').1.made)
      → Fueled r.1.made
      → Fueled (handled guest fuel_per_call senders_dropped kind r next).1.made
  handled-Fueled kind (fine, s) next f v = f s v
  handled-Fueled kind (app_error code message, s) next f v = f s v
  handled-Fueled kind (trapped message, s) next f v = v

  loop-Fueled :
      (cmds : List PluginCommand) (s : Store)
      → Fueled s.made
      → Fueled (command_loop guest fuel_per_call senders_dropped cmds s).1.made
  unfolding command_loop
  loop-Fueled [] s v = v
  loop-Fueled (shutdown ∷ cmds) s v = v
  loop-Fueled (on_bus_message subject iot_type payload ∷ cmds) s v =
      handled-Fueled _ _ _ (loop-Fueled cmds)
        (invoke-Fueled (on_message subject iot_type payload) s v)
  loop-Fueled (on_mqtt_message topic payload ∷ cmds) s v =
      handled-Fueled _ _ _ (loop-Fueled cmds) (invoke-Fueled (on_mqtt topic payload) s v)

  after_init-Fueled :
      (cmds : List PluginCommand) (r : Reply × Store)
      → Fueled r.1.made
      → Fueled (after_init guest fuel_per_call senders_dropped cmds r).1.made
  after_init-Fueled cmds (fine, s) v = loop-Fueled cmds s v
  after_init-Fueled cmds (app_error code message, s) v = v
  after_init-Fueled cmds (trapped message, s) v = v

  -- Every call that a task makes starts with the whole budget, however much the calls before it have
  -- used and however much the store was loaded with: a plugin cannot run dry between calls.
  pub run_plugin_task-Fueled :
      (cmds : List PluginCommand) (s : Store)
      → s.made ≡ []
      → Fueled (run_plugin_task guest fuel_per_call senders_dropped cmds s).1.made
  unfolding run_plugin_task
  run_plugin_task-Fueled cmds s fresh =
      after_init-Fueled cmds _ (invoke-Fueled init s (rw fresh tt))

  -- The answers that do not end the task.
  abbrev Survives : Reply → Type 0
  Survives (trapped message) = ⊥
  Survives r = Unit

  survivor : (r : Reply) → ((message : Text) → r ≡ trapped message → ⊥) → Survives r
  survivor fine f = tt
  survivor (app_error code message) f = tt
  survivor (trapped message) f = f message refl

  handled-Survives :
      (kind : Text) (r : Reply) (s : Store) (next : Store → Progress × Store)
      → Survives r
      → handled guest fuel_per_call senders_dropped kind (r, s) next ≡ next s
  handled-Survives kind fine s next v = refl
  handled-Survives kind (app_error code message) s next v = refl
  handled-Survives kind (trapped message) s next v = absurd v

  module _ (sound : NeverTraps) where
    -- What a task with a sender of its own mailbox does, that never meets a trap.
    abbrev Serves : List PluginCommand → List Call → Progress × Store → Type 0
    Serves cmds before r = (r.0 ≡ last_progress cmds) × (calls r.1.made ≡ before ++ asked cmds)

    handled-Serves :
        (kind : Text) (c : Call) (rest cmds : List PluginCommand) (s : Store)
        → s.self_tx ≡ true
        → asked rest ≡ c ∷ asked cmds
        → last_progress rest ≡ last_progress cmds
        → ((s' : Store)
            → s'.self_tx ≡ true
            → Serves cmds
                (calls s'.made)
                (command_loop guest fuel_per_call senders_dropped cmds s'))
        → Serves rest (calls s.made) (
            handled guest fuel_per_call senders_dropped kind
              (invoke guest fuel_per_call senders_dropped c s)
              (command_loop guest fuel_per_call senders_dropped cmds))
    unfolding invoke refuel
    handled-Serves kind c rest cmds s own asks ends f =
        let after : Store = record s {
          fuel = (guest s.made c fuel_per_call).1;
          made = record { call = c; fuel = fuel_per_call } ∷ s.made;
        } in
        let go =
          handled-Survives kind (guest s.made c fuel_per_call).0 after
            (command_loop guest fuel_per_call senders_dropped cmds)
            (survivor (guest s.made c fuel_per_call).0 (sound s.made c)) in
        let (done, made) = f after own in
        (
          ap (λ r. r.0) go ∙ done ∙ sym ends,
          ap (λ r. calls r.1.made) go
              ∙ made
              ∙ append_assoc (calls s.made) (c ∷ []) (asked cmds)
              ∙ ap (λ x. calls s.made ++ x) (sym asks),
        )

    never_drained :
        (s : Store) → s.self_tx ≡ true → drained guest fuel_per_call senders_dropped s ≡ waiting
    never_drained s own = elim (Bool-cases senders_dropped) [
      | inl e ↦ rw (e, own) refl
      | inr e ↦ rw e refl
    ]

    loop-Serves :
        (cmds : List PluginCommand) (s : Store)
        → s.self_tx ≡ true
        → Serves cmds (calls s.made) (command_loop guest fuel_per_call senders_dropped cmds s)
    unfolding command_loop
    loop-Serves [] s own = (never_drained s own, sym (append_nil (calls s.made)))
    loop-Serves (shutdown ∷ cmds) s own = (refl, sym (append_nil (calls s.made)))
    loop-Serves (on_bus_message subject iot_type payload ∷ cmds) s own =
        handled-Serves _ (on_message subject iot_type payload)
          (on_bus_message subject iot_type payload ∷ cmds) cmds s own refl refl (loop-Serves cmds)
    loop-Serves (on_mqtt_message topic payload ∷ cmds) s own =
        handled-Serves _ (on_mqtt topic payload) (on_mqtt_message topic payload ∷ cmds) cmds s own
          refl refl (loop-Serves cmds)

    -- A spawned plugin that comes up and never traps is never a crash, whatever errors its handlers
    -- return. After `init` and one call for each command before the first shutdown, in the order of the
    -- mailbox, its task returns cleanly if there was a shutdown among the commands; if there was none it
    -- waits for more, also when all other senders are dropped, since the store keeps a sender itself.
    pub spawn_plugin_task_serves :
        (cmds : List PluginCommand) (s : Store)
        → s.made ≡ []
        → (guest [] init fuel_per_call).0 ≡ fine
        → ((spawn_plugin_task guest fuel_per_call senders_dropped cmds s).0 ≡ last_progress cmds)
          × (calls (spawn_plugin_task guest fuel_per_call senders_dropped cmds s).1.made
              ≡ init ∷ asked cmds)
    unfolding spawn_plugin_task run_plugin_task invoke refuel
    spawn_plugin_task_serves cmds s fresh up =
        let after : Store = record {
          fuel = (guest [] init fuel_per_call).1;
          made = record { call = init; fuel = fuel_per_call } ∷ [];
          self_tx = true;
        } in
        rw fresh (rw (after_init, up) (loop-Serves cmds after refl))
