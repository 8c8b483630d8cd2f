-- ===== src/Automation/Messages.antt =====
-- A message that is delivered again within the window.
use iot_athome.Prelude.{
  ℕ, ◌≡◌, refl, sym, ◌∙◌, inl, inr, List, [], ◌∷◌, All, All-map, Bool, true, false, not, ◌&&◌, some,
  Option-cases, Text, text_eq_refl, arith,
}
use iot_athome.Json.{Json}
use iot_athome.Payloads.{decode_payload}
use iot_athome.Rules.{CelCrate, Rule, in_time}
use iot_athome.Automation.{Engine, World, idempotency_key, on_rule, each_rule, on_message}
use iot_athome.Automation.Steps.{IsYoung, Within, has, is_active, on_rule-Step, on_rule_returns}

idle_or_claimed : (a b : Bool) → (a ≡ true → b ≡ true) → (a && not b) ≡ false
idle_or_claimed true b f = ground (arith, f refl)
idle_or_claimed false b f = refl

module _ (c : CelCrate) (w : World c) (t0 : ℕ) (calm : (n : ℕ) → w.runs n ≡ in_time)
    (window : (n : ℕ) → Within t0 (w.clock n)) where
  open c use {Number, Program}

  -- The key of every rule that is active on the message is in the map.
  abbrev Claimed : List (Rule Program Number) → Text → Text → Json Number → Engine → Type 0
  Claimed rules subject bytes payload s =
      All
        (λ rule.
          is_active c w rule subject payload ≡ true
          → has (idempotency_key c w rule.id subject bytes) s.idempotency ≡ true)
        rules

  -- A pass over the rules.
  record Pass (rules : List (Rule Program Number)) (subject bytes : Text) (payload : Json Number)
      (s s' : Engine) : Type 0 where
    young : IsYoung t0 s'.idempotency
    kept : (j : Text) → has j s.idempotency ≡ true → has j s'.idempotency ≡ true
    claimed : Claimed rules subject bytes payload s'
    quiet : Claimed rules subject bytes payload s → s'.effects ≡ s.effects

  each_rule-Pass :
      (rules : List (Rule Program Number)) (subject bytes : Text) (payload : Json Number)
      (s s' : Engine)
      → IsYoung t0 s.idempotency
      → each_rule c w rules subject bytes payload s ≡ some s'
      → Pass rules subject bytes payload s s'
  unfolding each_rule
  each_rule-Pass [] subject bytes payload s s' v h =
      let e : s ≡ s' = ground (arith, h) in
      rw (sym e) (record { young = v; kept = λ j g. g; claimed = tt; quiet = λ q. refl })
  each_rule-Pass (rule ∷ rules) subject bytes payload s s' v h =
      elim (Option-cases (on_rule c w rule subject bytes payload s)) [
        | inl stuck ↦ ground (arith, h, stuck)
        | inr (s1, done) ↦
            let step = on_rule-Step c w t0 calm window rule subject bytes payload s s1 v done in
            let pass =
              each_rule-Pass rules subject bytes payload s1 s' step.young
                (ground (arith, h, done)) in
            let key = idempotency_key c w rule.id subject bytes in
            record {
              young = pass.young;
              kept = λ j g. pass.kept j (ground (arith, step.keys j, g));
              claimed = (
                λ active. pass.kept key (ground (arith, step.keys key, active, text_eq_refl key)),
                pass.claimed,
              );
              quiet = λ q.
                  pass.quiet (
                    All-map rules
                      (λ r g active.
                        ground
                          (arith, g active, step.keys (idempotency_key c w r.id subject bytes)))
                      q.1)
                  ∙ step.quiet (
                      idle_or_claimed (is_active c w rule subject payload) (has key s.idempotency)
                        q.0);
            }
      ]

  on_rule_answers :
      (rule : Rule Program Number) (subject bytes : Text) (payload : Json Number) (s : Engine)
      → IsYoung t0 s.idempotency
      → (is_active c w rule subject payload ≡ true
          → has (idempotency_key c w rule.id subject bytes) s.idempotency ≡ true)
      → (s' : Engine) × (on_rule c w rule subject bytes payload s ≡ some s')
  on_rule_answers rule subject bytes payload s v q =
      elim (Option-cases (on_rule c w rule subject bytes payload s)) [
        | inr done ↦ done
        | inl stuck ↦
            absurd (on_rule_returns c w t0 calm window rule subject bytes payload s v q stuck)
      ]

  second_pass_returns :
      (rules : List (Rule Program Number)) (subject bytes : Text) (payload : Json Number)
      (s : Engine)
      → IsYoung t0 s.idempotency
      → Claimed rules subject bytes payload s
      → (s' : Engine) × (each_rule c w rules subject bytes payload s ≡ some s')
  unfolding each_rule
  second_pass_returns [] subject bytes payload s v q = (s, refl)
  second_pass_returns (rule ∷ rules) subject bytes payload s v q =
      let (s1, done) = on_rule_answers rule subject bytes payload s v q.0 in
      let step = on_rule-Step c w t0 calm window rule subject bytes payload s s1 v done in
      let (s', rest) = second_pass_returns rules subject bytes payload s1 step.young (
        All-map rules
          (λ r g active.
            ground (arith, g active, step.keys (idempotency_key c w r.id subject bytes)))
          q.1) in
      (s', rw (each_rule, done) rest)

  -- If every claim so far and every claim of the two deliveries lies in one window of five seconds,
  -- and no evaluation misses its deadline, a message that is delivered a second time has no effect:
  -- nothing is published, logged, recorded or dead-lettered, and the engine does not hang.
  pub on_message_once :
      (rules : List (Rule Program Number)) (subject bytes : Text) (s s1 : Engine)
      → IsYoung t0 s.idempotency
      → on_message c w rules subject bytes s ≡ some s1
      → (s2 : Engine) × (on_message c w rules subject bytes s1 ≡ some s2)
        × (s2.effects ≡ s1.effects)
  unfolding on_message
  on_message_once rules subject bytes s s1 v h =
      let payload = decode_payload w.parsers bytes in
      let first = each_rule-Pass rules subject bytes payload s s1 v h in
      let (s2, again) =
        second_pass_returns rules subject bytes payload s1 first.young first.claimed in
      let second = each_rule-Pass rules subject bytes payload s1 s2 first.young again in
      (s2, again, second.quiet first.claimed)
