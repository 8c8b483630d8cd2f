-- ===== src/Automation.antt =====
-- crates/iot-automation/src/engine.rs, the engine: which rules fire on a message, once per window,
-- and what a firing does. An `Instant` is its nanoseconds.
pub mod Idempotency
pub mod Steps
pub mod Messages
mod Samples
use iot_athome.Payloads.{Parsers, decode_payload}
use iot_athome.Prelude.{
  ℕ, zero, suc, ◌+◌, ◌-◌, ◌*◌, List, [], ◌∷◌, ◌++◌, Bool, true, false, Option, some, none, Text,
  codes, Dict, lookup, insert, filter, any, text_eq, length, ltb, if◌then◌else◌, Result, ok, err,
  hex_encode,
}
use iot_athome.Json.{Json}
use iot_athome.Templates.{render_template}
use iot_athome.Rules.{
  CelCrate, RawAction, publish, log, Rule, triggers_on, Run, ExprError, eval_bool_with_timeout,
}

-- 5 s
abbrev pub idempotency_ttl : ℕ
idempotency_ttl = 5 * 1_000_000_000

-- A cache entry is younger than the window; duration_since stops at zero.
abbrev pub is_fresh : ℕ → Text × ℕ → Bool
is_fresh now (key, t) = ltb (now - t) idempotency_ttl

abbrev pub is_some : {A : Type 0} → Option A → Bool
is_some none = false
is_some (some a) = true

-- The map after the call stands beside the answer.
unfoldable pub claim_idempotency : ℕ → Text → Dict ℕ → Bool × Dict ℕ
claim_idempotency now key cache =
    let kept = filter (is_fresh now) cache in
    if is_some (lookup key kept) then (false, kept) else (true, insert key now kept)

-- What the engine does to the world: a publish that the bus takes, a log line, an audit entry, and a
-- record on the dead-letter subject.
pub data Effect : Type 0 where
  published : Text → Text → Text → Effect
  logged : Text → Text → Effect
  rule_fired : Text → Text → ℕ → Text → Effect
  dead_lettered : Text → Text → Text → Effect

-- The idempotency map, the effects, the latest first, and how often the world has been asked.
pub record Engine : Type 0 where
  pub idempotency : Dict ℕ
  pub effects : List Effect
  pub claims : ℕ
  pub publishes : ℕ
  pub evals : ℕ

-- What the engine asks of the world: the clock at the n-th claim, the bus's answer to the n-th
-- publish (`none` where it takes it), how the n-th evaluation ends, whether there is an audit log, and
-- how many rounds a log message is given. `to_vec`, `to_string` and `sha256` are serde_json's and sha2's.
pub record World (c : CelCrate) : Type 1 where
  pub parsers : Parsers c.Number
  pub clock : ℕ → ℕ
  pub bus : ℕ → Option Text
  pub runs : ℕ → Run
  pub audited : Bool
  pub fuel : ℕ
  pub to_vec : Json c.Number → Result Text Text
  pub to_string : Json c.Number → Text
  pub sha256 : Text → List ℕ

-- How a firing ends; `hanging` where the message of a log action is never rendered.
pub data Firing : Type 0 where
  fired : Firing
  failed : Text → Firing
  hanging : Firing

-- get(..16).unwrap_or(key)
abbrev take_bytes : ℕ → Text → Text
take_bytes zero s = []
take_bytes (suc n) [] = []
take_bytes (suc n) (c ∷ s) = c ∷ take_bytes n s

-- The level of a log line; anything else is "info".
unfoldable pub log_level : Text → Text
log_level level =
    if any (text_eq level) (codes "trace" ∷ codes "debug" ∷ codes "warn" ∷ codes "error" ∷ [])
    then level
    else codes "info"

abbrev pub emit : Effect → Engine → Engine
emit e s = record s { effects = e ∷ s.effects }

module _ (c : CelCrate) (w : World c) where
  open c use {Number, Program}

  unfoldable pub idempotency_key : Text → Text → Text → Text
  idempotency_key rule_id subject payload =
      hex_encode (w.sha256 (rule_id ++ b'|' ∷ (subject ++ b'|' ∷ payload)))

  -- `publish_proto`: the answer, and the engine that has asked.
  abbrev pub publish_proto : Text → Text → Text → Engine → Option Text × Engine
  publish_proto subject iot_type bytes s =
      let asked : Engine = record s { publishes = s.publishes + 1 } in
      elim (w.bus s.publishes) [
        | none ↦ (none, emit (published subject iot_type bytes) asked)
        | some e ↦ (some e, asked)
      ]

  abbrev pub after_publish :
      Text → Option Text × Engine → (Engine → Firing × Engine) → Firing × Engine
  after_publish subject (none, s) next = next s
  after_publish subject (some e, s) next =
      (failed (codes "publish action " ++ (subject ++ (codes ": " ++ e))), s)

  unfoldable pub fire : List (RawAction Number) → Text → Json Number → Engine → Firing × Engine
  fire [] subject payload s = (fired, s)
  fire (publish out_subj iot_type out_payload ∷ actions) subject payload s =
      elim (w.to_vec out_payload) [
        | err e ↦ (failed (codes "encode action payload: " ++ e), s)
        | ok bytes ↦
            after_publish out_subj (publish_proto out_subj iot_type bytes s)
              (fire actions subject payload)
      ]
  fire (log level message ∷ actions) subject payload s =
      elim (render_template w.to_string payload w.fuel message subject) [
        | none ↦ (hanging, s)
        | some rendered ↦ fire actions subject payload (emit (logged (log_level level) rendered) s)
      ]

  abbrev pub record_firing : Rule Program Number → Text → Text → Engine → Engine
  record_firing rule trigger key s =
      if w.audited
      then emit (rule_fired rule.id trigger (length rule.actions) (take_bytes 16 key)) s
      else s

  -- The answer of the bus is dropped.
  abbrev pub dead_letter : Rule Program Number → Text → Text → Engine → Engine
  dead_letter rule trigger reason s =
      let asked : Engine = record s { publishes = s.publishes + 1 } in
      elim (w.bus s.publishes) [
        | none ↦ emit (dead_lettered rule.id trigger reason) asked
        | some e ↦ asked
      ]

  -- `none` where the engine hangs.
  abbrev pub settle : Rule Program Number → Text → Text → Firing × Engine → Option Engine
  settle rule subject key (fired, s) = some (record_firing rule subject key s)
  settle rule subject key (failed reason, s) = some (dead_letter rule subject reason s)
  settle rule subject key (hanging, s) = none

  -- A rule whose condition holds.
  unfoldable pub matched : Rule Program Number → Text → Text → Json Number → Engine → Option Engine
  matched rule subject bytes payload s =
      let key = idempotency_key rule.id subject bytes in
      let (claimed, cache) = claim_idempotency (w.clock s.claims) key s.idempotency in
      let s' : Engine = record s { idempotency = cache; claims = s.claims + 1 } in
      if claimed then settle rule subject key (fire rule.actions subject payload s') else some s'

  -- One rule of the loop.
  unfoldable pub on_rule : Rule Program Number → Text → Text → Json Number → Engine → Option Engine
  on_rule rule subject bytes payload s =
      if triggers_on rule subject
      then (let s' : Engine = record s { evals = s.evals + 1 } in
          elim (eval_bool_with_timeout c rule.when payload (w.runs s.evals)) [
            | ok true ↦ matched rule subject bytes payload s'
            | ok false ↦ some s'
            | err e ↦ some s'
          ])
      else some s

  unfoldable pub each_rule :
      List (Rule Program Number) → Text → Text → Json Number → Engine → Option Engine
  each_rule [] subject bytes payload s = some s
  each_rule (rule ∷ rules) subject bytes payload s = elim (on_rule rule subject bytes payload s) [
    | none ↦ none
    | some s' ↦ each_rule rules subject bytes payload s'
  ]

  unfoldable pub on_message : List (Rule Program Number) → Text → Text → Engine → Option Engine
  on_message rules subject bytes s =
      each_rule rules subject bytes (decode_payload w.parsers bytes) s
