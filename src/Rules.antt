-- ===== src/Rules.antt =====
-- crates/iot-automation/src/rule.rs and expr.rs: rules and their conditions, from the YAML form to
-- the compiled one. serde_yaml and the CEL interpreter are parameters.
pub mod Compile
mod Samples
use iot_athome.Prelude.{
  ℕ, ◌+◌, ◌*◌, List, [], ◌∷◌, ◌++◌, Bool, true, false, Option, some, none, Text, codes, text_eq,
  any, length, ltb, is_empty, if◌then◌else◌, Result, ok, err, ◌>>=◌,
}
use iot_athome.Json.{
  Json, Items, Fields, null, bool, number, string, array, object, nil, item, no_field, field,
}

abbrev pub max_expr_source_bytes : ℕ
max_expr_source_bytes = 64 * 1024

-- 200 ms, in nanoseconds.
abbrev eval_timeout : ℕ
eval_timeout = 200_000_000

pub data ExprError : Type 0 where
  parse_error runtime : Text → ExprError
  source_too_large : ℕ → ℕ → ExprError
  timeout : ℕ → ExprError

-- How `Program::compile` under `catch_unwind` ends; a panic may carry a message.
pub data Compilation (P : Type 0) : Type 0 where
  compiled : P → Compilation P
  refused : Text → Compilation P
  panicked : Option Text → Compilation P

-- serde_json's numbers and the interpreter's values, programs and contexts.
pub record CelCrate : Type 1 where
  pub Number : Type 0
  pub Int : Type 0
  pub Uint : Type 0
  pub Float : Type 0
  pub as_i64 : Number → Option Int
  pub as_u64 : Number → Option Uint
  pub as_f64 : Number → Option Float
  pub nan : Float
  pub Program : Type 0
  pub Value : Type 0
  pub Context : Type 0
  pub of_null : Value
  pub of_bool : Bool → Value
  pub of_int : Int → Value
  pub of_uint : Uint → Value
  pub of_float : Float → Value
  pub of_string : Text → Value
  pub of_list : List Value → Value
  pub of_map : List (Text × Value) → Value
  pub as_bool : Value → Option Bool
  pub debug : Value → Text
  pub compile : Text → Compilation Program
  pub add_variable : Text → Value → Result Text Context
  pub execute : Program → Context → Result Text Value

abbrev or_else {ℓ} : {A : Type ℓ} → Option A → A → A
or_else none d = d
or_else (some a) d = a

-- How the blocking task of an evaluation ends within the deadline, if it does.
pub data Run : Type 0 where
  in_time : Run
  join_failed : Text → Run
  elapsed : Run

module _ (c : CelCrate) where
  open c use {Number, Program, Value, Context}

  unfoldable pub parse : Text → Result ExprError Program
  parse src =
      if ltb max_expr_source_bytes (length src)
      then err (source_too_large (length src) max_expr_source_bytes)
      else (elim (c.compile src) [
        | compiled program ↦ ok program
        | refused e ↦ err (parse_error e)
        | panicked message ↦ err (
            parse_error (
              codes "malformed expression: "
              ++ or_else message (codes "cel parser panicked on malformed input")))
      ])

  abbrev cel_number : Number → Value
  cel_number n = elim (c.as_i64 n) [
    | some i ↦ c.of_int i
    | none ↦ elim (c.as_u64 n) [
      | some u ↦ c.of_uint u
      | none ↦ c.of_float (or_else (c.as_f64 n) c.nan)
    ]
  ]

  unfoldable mutual
    pub json_to_cel : Json Number → Value
    json_to_cel null = c.of_null
    json_to_cel (bool b) = c.of_bool b
    json_to_cel (number n) = cel_number n
    json_to_cel (string s) = c.of_string s
    json_to_cel (array arr) = c.of_list (items_to_cel arr)
    json_to_cel (object obj) = c.of_map (fields_to_cel obj)

    pub items_to_cel : Items Number → List Value
    items_to_cel nil = []
    items_to_cel (item v vs) = json_to_cel v ∷ items_to_cel vs

    pub fields_to_cel : Fields Number → List (Text × Value)
    fields_to_cel no_field = []
    fields_to_cel (field k v fs) = (k, json_to_cel v) ∷ fields_to_cel fs

  abbrev runtime_error {ℓ} : {A : Type ℓ} → Text → Result Text A → Result ExprError A
  runtime_error prefix (ok a) = ok a
  runtime_error prefix (err e) = err (runtime (prefix ++ e))

  abbrev only_bool : Value → Result ExprError Bool
  only_bool v = elim (c.as_bool v) [
    | some b ↦ ok b
    | none ↦ err (runtime (codes "expression must evaluate to bool, got " ++ c.debug v))
  ]

  unfoldable pub eval_bool : Program → Json Number → Result ExprError Bool
  eval_bool program payload = do
    ctx ←
        runtime_error (codes "bind payload: ")
          (c.add_variable (codes "payload") (json_to_cel payload))
    result ← runtime_error [] (c.execute program ctx)
    only_bool result

  unfoldable pub eval_bool_with_timeout : Program → Json Number → Run → Result ExprError Bool
  eval_bool_with_timeout program payload in_time = eval_bool program payload
  eval_bool_with_timeout program payload (join_failed e) = err (runtime (codes "eval task: " ++ e))
  eval_bool_with_timeout program payload elapsed = err (timeout eval_timeout)

pub data RuleError : Type 0 where
  io yaml : RuleError
  expr : Text → ExprError → RuleError
  validation : Text → Text → RuleError

pub data RawAction (N : Type 0) : Type 0 where
  publish : Text → Text → Json N → RawAction N
  log : Text → Text → RawAction N

pub record RawRule (N : Type 0) : Type 0 where
  pub id : Text
  pub description : Text
  pub triggers : List Text
  pub when : Text
  pub actions : List (RawAction N)
  pub idempotency : Text

pub record Rule (P N : Type 0) : Type 0 where
  pub id : Text
  pub description : Text
  pub triggers : List Text
  pub when : P
  pub actions : List (RawAction N)
  pub idempotency : Text

module _ (c : CelCrate) where
  open c use {Number, Program}

  abbrev expr_error : Text → Result ExprError Program → Result RuleError Program
  expr_error rule (ok p) = ok p
  expr_error rule (err e) = err (expr rule e)

  unfoldable pub compile : RawRule Number → Result RuleError (Rule Program Number)
  compile raw =
      if is_empty raw.id
      then err (validation raw.id (codes "id must not be empty"))
      else if is_empty raw.triggers
      then err (validation raw.id (codes "rule must declare at least one trigger"))
      else if is_empty raw.actions
      then err (validation raw.id (codes "rule must declare at least one action"))
      else (do
        when ← expr_error raw.id (parse c raw.when)
        ok (record {
          id = raw.id;
          description = raw.description;
          triggers = raw.triggers;
          when = when;
          actions = raw.actions;
          idempotency = raw.idempotency;
        }))

  -- `serde_yaml` reads the text, or refuses it.
  abbrev pub from_yaml :
      (Text → Option (RawRule Number)) → Text → Result RuleError (Rule Program Number)
  from_yaml serde_yaml src = elim (serde_yaml src) [ none ↦ err yaml | some raw ↦ compile raw ]

  -- `file` is what `read_to_string` gives.
  abbrev pub from_file :
      (Text → Option (RawRule Number)) → Option Text → Result RuleError (Rule Program Number)
  from_file serde_yaml file = elim file [ none ↦ err io | some src ↦ from_yaml serde_yaml src ]

abbrev pub triggers_on : {P N : Type 0} → Rule P N → Text → Bool
triggers_on rule subject = any (λ t. text_eq t subject) rule.triggers
