-- ===== src/Automation/Samples.antt =====
-- The engine with one rule, over a small stand-in for the crates: every program is a constant.
use iot_athome.Prelude.{
  strip_prefix, ℕ, ◌≡◌, refl, [], ◌∷◌, Bool, true, false, some, none, codes, text_eq, any, lookup,
  insert, filter, ok, hex_encode, hex_digit, starts_with, arith,
}
use iot_athome.Json.{null}
use iot_athome.Payloads.{decode_payload}
use iot_athome.Templates.{render_template, render_loop, render_round, find_pattern, replace_from}
use iot_athome.Rules.{
  CelCrate, compiled, publish, log, Rule, in_time, json_to_cel, eval_bool, eval_bool_with_timeout,
}
use iot_athome.Automation.{
  claim_idempotency, Engine, published, logged, rule_fired, World, log_level, idempotency_key, fire,
  matched, on_rule, each_rule, on_message,
}
use iot_athome.Automation.Idempotency.{cache_of, free, granted, claim_exact}
use iot_athome.Automation.Steps.{IsYoung}
use iot_athome.Automation.Messages.{on_message_once}

claim_exact_example :
    (claim_idempotency 9_000_000_000 (codes "a") (
      cache_of (
        (codes "b", 8_000_000_000)
        ∷ (codes "a", 5_000_000_000)
        ∷ (codes "a", 1_000_000_000)
        ∷ []))).0
    ≡ free 9_000_000_000 (
        granted (codes "a") (
          (codes "b", 8_000_000_000)
          ∷ (codes "a", 5_000_000_000)
          ∷ (codes "a", 1_000_000_000)
          ∷ []))
claim_exact_example =
    claim_exact 9_000_000_000 (codes "a")
      ((codes "b", 8_000_000_000) ∷ (codes "a", 5_000_000_000) ∷ (codes "a", 1_000_000_000) ∷ [])
      (omega arith, (omega arith, (omega arith, tt)))

abbrev sample_cel : CelCrate
sample_cel = record {
  Number = ℕ;
  Int = ℕ;
  Uint = ℕ;
  Float = ℕ;
  as_i64 = some;
  as_u64 = some;
  as_f64 = some;
  nan = 0;
  Program = Bool;
  Value = Bool;
  Context = Unit;
  of_null = false;
  of_bool = λ b. b;
  of_int = λ n. false;
  of_uint = λ n. false;
  of_float = λ n. false;
  of_string = λ s. false;
  of_list = λ vs. false;
  of_map = λ fs. false;
  as_bool = some;
  debug = λ v. [];
  compile = λ src. compiled true;
  add_variable = λ name v. ok tt;
  execute = λ p ctx. ok p;
}

abbrev sample_world : World sample_cel
sample_world = record {
  parsers = record {
    Float = ℕ;
    from_f64 = some;
    from_u32 = λ n. n;
    from_slice = λ s. none;
    decode = λ s. none;
  };
  clock = λ n. 100;
  bus = λ n. none;
  runs = λ n. in_time;
  audited = true;
  fuel = 5;
  to_vec = λ v. ok (codes "null");
  to_string = λ v. codes "null";
  sha256 = λ s. s;
}

abbrev lamp : Rule Bool ℕ
lamp = record {
  id = codes "r";
  description = [];
  triggers = codes "a" ∷ [];
  when = true;
  actions = publish (codes "lamp") (codes "t") null ∷ log (codes "loud") (codes "on") ∷ [];
  idempotency = [];
}

abbrev idle : Engine
idle = record { idempotency = []; effects = []; claims = 0; publishes = 0; evals = 0 }

abbrev lit : Engine
lit = record {
  idempotency = (codes "727c617c78", 100) ∷ [];
  effects =
      rule_fired (codes "r") (codes "a") 2 (codes "727c617c78")
      ∷ logged (codes "info") (codes "on")
      ∷ published (codes "lamp") (codes "t") (codes "null")
      ∷ [];
  claims = 1;
  publishes = 1;
  evals = 1;
}

first_delivery :
    on_message sample_cel sample_world (lamp ∷ []) (codes "a") (codes "x") idle ≡ some lit
unfolding on_message each_rule on_rule matched fire log_level idempotency_key claim_idempotency
    decode_payload eval_bool eval_bool_with_timeout json_to_cel any text_eq lookup insert filter
    hex_encode hex_digit render_template render_loop render_round find_pattern strip_prefix
    replace_from starts_with
first_delivery = refl

idle-IsYoung : IsYoung 100 idle.idempotency
unfolding lookup
idle-IsYoung = record { distinct = tt; later = λ k t e. ground (arith, e) }

on_message_once_example :
    (s2 : Engine) × (on_message sample_cel sample_world (lamp ∷ []) (codes "a") (codes "x") lit
      ≡ some s2)
    × (s2.effects ≡ lit.effects)
on_message_once_example =
    on_message_once sample_cel sample_world 100 (λ n. refl) (λ n. (omega arith, omega arith))
      (lamp ∷ []) (codes "a") (codes "x") idle lit idle-IsYoung first_delivery
