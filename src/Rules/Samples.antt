-- ===== src/Rules/Samples.antt =====
-- A rule that compiles and one that does not.
use iot_athome.Prelude.{ℕ, ◌≡◌, ◌↔◌, refl, [], ◌∷◌, Bool, true, false, some, codes, ok, err, ltb}
use iot_athome.Rules.{
  CelCrate, compiled, log, RawRule, Rule, validation, parse, compile, max_expr_source_bytes,
}
use iot_athome.Rules.Compile.{IsCompiled, compile_iff, parse_iff}

-- Every source compiles, to true.
abbrev constant_cel : CelCrate
constant_cel = record {
  Number = ℕ;
  Int = ℕ;
  Uint = ℕ;
  Float = ℕ;
  as_i64 = some;
  as_u64 = some;
  as_f64 = some;
  nan = 0;
  Program = Bool;
  Value = Bool;
  Context = Unit;
  of_null = false;
  of_bool = λ b. b;
  of_int = λ n. false;
  of_uint = λ n. false;
  of_float = λ n. false;
  of_string = λ s. false;
  of_list = λ vs. false;
  of_map = λ fs. false;
  as_bool = some;
  debug = λ v. [];
  compile = λ src. compiled true;
  add_variable = λ name v. ok tt;
  execute = λ p ctx. ok p;
}

abbrev raw : RawRule ℕ
raw = record {
  id = codes "r";
  description = [];
  triggers = codes "a" ∷ [];
  when = codes "payload.on";
  actions = log (codes "info") (codes "on") ∷ [];
  idempotency = [];
}

abbrev rule : Rule Bool ℕ
rule = record {
  id = codes "r";
  description = [];
  triggers = codes "a" ∷ [];
  when = true;
  actions = log (codes "info") (codes "on") ∷ [];
  idempotency = [];
}

compile_iff_run : (compile constant_cel raw ≡ ok rule) ↔ IsCompiled constant_cel raw rule
compile_iff_run = compile_iff constant_cel raw rule

parse_iff_example : (parse constant_cel (codes "payload.on") ≡ ok true) ↔ (
    (ltb max_expr_source_bytes 10 ≡ false)
    × (constant_cel.compile (codes "payload.on") ≡ compiled true))
parse_iff_example = parse_iff constant_cel (codes "payload.on") true

compiles : compile constant_cel raw ≡ ok rule
unfolding compile parse
compiles = refl

no_trigger :
    compile constant_cel (record raw { triggers = [] })
    ≡ err (validation (codes "r") (codes "rule must declare at least one trigger"))
unfolding compile
no_trigger = refl
