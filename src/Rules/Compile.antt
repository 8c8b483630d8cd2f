-- ===== src/Rules/Compile.antt =====
-- Which rules compile, and to what.
use iot_athome.Prelude.{
  ◌≡◌, ◌↔◌, inl, inr, false, Result-cases, length, is_empty, Text, ok, arith, ltb,
}
use iot_athome.Rules.{CelCrate, RawRule, Rule, max_expr_source_bytes, parse, compile, compiled}

module _ (c : CelCrate) where
  open c use {Number, Program}

  -- The compiled form of a rule: its parts are there, its condition is parsed, the rest is as read.
  pub record IsCompiled (raw : RawRule Number) (rule : Rule Program Number) : Type 0 where
    pub id : rule.id ≡ raw.id
    pub named : is_empty raw.id ≡ false
    pub description : rule.description ≡ raw.description
    pub triggers : rule.triggers ≡ raw.triggers
    pub triggered : is_empty raw.triggers ≡ false
    pub when : parse c raw.when ≡ ok rule.when
    pub actions : rule.actions ≡ raw.actions
    pub acting : is_empty raw.actions ≡ false
    pub idempotency : rule.idempotency ≡ raw.idempotency

  -- A rule compiles exactly if it has an id, a trigger and an action and its condition parses, and it
  -- compiles to the rule with these parts.
  pub compile_iff :
      (raw : RawRule Number) (rule : Rule Program Number)
      → (compile c raw ≡ ok rule) ↔ IsCompiled raw rule
  unfolding compile
  compile_iff raw rule = elim (Result-cases (parse c raw.when)) [
    | inl (p, good) ↦ (
      λ h. ground (arith, h, good),
      λ v. ground (
        arith, good, v.when, v.named, v.triggered, v.acting, v.id, v.description, v.triggers,
        v.actions, v.idempotency,
      ),
    )
    | inr (e, bad) ↦ (λ h. ground (arith, h, bad), λ v. ground (arith, v.when, bad))
  ]

  -- What the interpreter's parser is given never exceeds the cap, and a parser that refuses or panics
  -- on it makes an error value: `parse` succeeds exactly on sources within the cap that compile.
  pub parse_iff :
      (src : Text) (p : Program)
      → (parse c src ≡ ok p)
        ↔ ((ltb max_expr_source_bytes (length src) ≡ false) × (c.compile src ≡ compiled p))
  unfolding parse
  parse_iff src p = ground arith
