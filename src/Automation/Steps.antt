-- ===== src/Automation/Steps.antt =====
-- What one rule does to the idempotency cache and the effects, within one window.
use iot_athome.Prelude.{
  ℕ, ◌+◌, ◌≤◌, ◌<◌, ◌≡◌, refl, ◌∙◌, inl, inr, List, [], ◌∷◌, Bool, true, false, not, ◌&&◌, ◌||◌,
  some, none, Bool-cases, Option-cases, Result-cases, Text, text_eq, text_eq_iff, Dict, lookup,
  arith, Result, ok, err,
}
use iot_athome.Json.{Json}
use iot_athome.Templates.{render_template}
use iot_athome.Rules.{
  CelCrate, RawAction, publish, log, Rule, triggers_on, in_time, ExprError, eval_bool,
  eval_bool_with_timeout,
}
use iot_athome.Automation.{
  idempotency_ttl, is_some, claim_idempotency, Engine, World, Firing, fired, failed, hanging,
  publish_proto, after_publish, fire, settle, matched, idempotency_key, on_rule,
}
use iot_athome.Automation.Idempotency.{IsDistinct, lookup-claim, lookup-filter, claim-IsDistinct}

-- A map of distinct keys whose entries are all from `t0` or later.
pub record IsYoung (t0 : ℕ) (m : Dict ℕ) : Type 0 where
  pub distinct : IsDistinct m
  pub later : (k : Text) (t : ℕ) → lookup k m ≡ some t → t0 ≤ t

-- A time of the window that starts at `t0`.
abbrev pub Within : ℕ → ℕ → Type 0
Within t0 now = (t0 ≤ now) × (now < t0 + idempotency_ttl)

abbrev pub has : Text → Dict ℕ → Bool
has k m = is_some (lookup k m)

-- Within the window a claim keeps the entries and adds its own.
has-claim :
    (t0 now : ℕ) (k j : Text) (m : Dict ℕ)
    → Within t0 now
    → IsYoung t0 m
    → has j (claim_idempotency now k m).1 ≡ (text_eq k j || has j m)
has-claim t0 now k j m h v = elim (Option-cases (lookup j m)) [
  | inl miss ↦ ground (arith, lookup-claim now k j m v.distinct, miss, text_eq_iff k j)
  | inr (t, hit) ↦
      ground
        (arith, lookup-claim now k j m v.distinct, hit, v.later j t hit, h.0, h.1, text_eq_iff k j)
]

claim-IsYoung :
    (t0 now : ℕ) (k : Text) (m : Dict ℕ)
    → Within t0 now
    → IsYoung t0 m
    → IsYoung t0 (claim_idempotency now k m).1
claim-IsYoung t0 now k m h v = record {
  distinct = claim-IsDistinct now k m v.distinct;
  later = λ j t e. elim (Option-cases (lookup j m)) [
    | inl miss ↦ ground (arith, lookup-claim now k j m v.distinct, miss, text_eq_iff k j, e, h.0)
    | inr (u, hit) ↦ ground (
      arith,
      lookup-claim now k j m v.distinct,
      hit,
      v.later j u hit,
      h.0,
      h.1,
      text_eq_iff k j,
      e,
    )
  ];
}

-- Within the window a claim is granted exactly if the map does not have the key.
claim-has :
    (t0 now : ℕ) (k : Text) (m : Dict ℕ)
    → Within t0 now
    → IsYoung t0 m
    → (claim_idempotency now k m).0 ≡ not (has k m)
unfolding claim_idempotency
claim-has t0 now k m h v = elim (Option-cases (lookup k m)) [
  | inl miss ↦ ground (arith, lookup-filter now k m v.distinct, miss)
  | inr (t, hit) ↦ ground (arith, lookup-filter now k m v.distinct, hit, v.later k t hit, h.0, h.1)
]

abbrev holds : Result ExprError Bool → Bool
holds (ok b) = b
holds (err e) = false

module _ (c : CelCrate) (w : World c) where
  open c use {Number, Program}

  publish_proto-idempotency :
      (subject iot_type bytes : Text) (s : Engine)
      → (publish_proto c w subject iot_type bytes s).1.idempotency ≡ s.idempotency
  publish_proto-idempotency subject iot_type bytes s = ground arith

  fire-idempotency :
      (actions : List (RawAction Number)) (subject : Text) (payload : Json Number) (s : Engine)
      → (fire c w actions subject payload s).1.idempotency ≡ s.idempotency
  unfolding fire
  fire-idempotency [] subject payload s = refl
  fire-idempotency (publish out_subj iot_type out_payload ∷ actions) subject payload s =
      elim (Result-cases (w.to_vec out_payload)) [
        | inr (e, bad) ↦ rw (fire, bad) refl
        | inl (bytes, good) ↦
            rw (fire, good)
              (elim (Option-cases (w.bus s.publishes)) [
                | inr (e, bad) ↦
                    rw (after_publish, bad) (publish_proto-idempotency out_subj iot_type bytes s)
                | inl taken ↦
                    rw (after_publish, taken)
                      (fire-idempotency actions subject payload _
                        ∙ publish_proto-idempotency out_subj iot_type bytes s)
              ])
      ]
  fire-idempotency (log level message ∷ actions) subject payload s =
      elim (Option-cases (render_template w.to_string payload w.fuel message subject)) [
        | inl stuck ↦ rw (fire, stuck) refl
        | inr (rendered, done) ↦ rw (fire, done) (fire-idempotency actions subject payload _)
      ]

  settle-idempotency :
      (rule : Rule Program Number) (subject key : Text) (r : Firing × Engine) (s' : Engine)
      → settle c w rule subject key r ≡ some s'
      → s'.idempotency ≡ r.1.idempotency
  settle-idempotency rule subject key (fired, s) s' h = ground (arith, h)
  settle-idempotency rule subject key (failed reason, s) s' h = ground (arith, h)
  settle-idempotency rule subject key (hanging, s) s' h = ground (arith, h)

  -- The rule fires on the message unless it has fired on it already.
  abbrev pub is_active : Rule Program Number → Text → Json Number → Bool
  is_active rule subject payload = triggers_on rule subject && holds (eval_bool c rule.when payload)

  -- What `on_rule` does to the map and the effects, within the window.
  pub record Step (rule : Rule Program Number) (subject bytes : Text) (payload : Json Number)
      (t0 : ℕ) (s s' : Engine) : Type 0 where
    pub young : IsYoung t0 s'.idempotency
    pub keys :
        (j : Text)
        → has j s'.idempotency ≡ (
            is_active rule subject payload && text_eq (idempotency_key c w rule.id subject bytes) j
            || has j s.idempotency)
    pub quiet :
        (is_active rule subject payload
            && not (has (idempotency_key c w rule.id subject bytes) s.idempotency))
          ≡ false
        → s'.effects ≡ s.effects

  module _ (t0 : ℕ) (calm : (n : ℕ) → w.runs n ≡ in_time)
      (window : (n : ℕ) → Within t0 (w.clock n)) where
    matched-Step :
        (rule : Rule Program Number) (subject bytes : Text) (payload : Json Number) (s s' : Engine)
        → is_active rule subject payload ≡ true
        → IsYoung t0 s.idempotency
        → matched c w rule subject bytes payload s ≡ some s'
        → Step rule subject bytes payload t0 s s'
    unfolding matched
    matched-Step rule subject bytes payload s s' active v h =
        let key = idempotency_key c w rule.id subject bytes in
        let now = w.clock s.claims in
        let claimed : Engine = record s {
          idempotency = (claim_idempotency now key s.idempotency).1;
          claims = s.claims + 1;
        } in
        let answer = claim-has t0 now key s.idempotency (window s.claims) v in
        elim (Bool-cases (claim_idempotency now key s.idempotency).0) [
          | inl yes_ ↦
              let e : s'.idempotency ≡ (claim_idempotency now key s.idempotency).1 =
                settle-idempotency rule subject key (fire c w rule.actions subject payload claimed)
                  s' (ground (arith, h, yes_))
                ∙ fire-idempotency rule.actions subject payload claimed in
              record {
                young = rw e (claim-IsYoung t0 now key s.idempotency (window s.claims) v);
                keys =
                    λ j. rw (e, active) (has-claim t0 now key j s.idempotency (window s.claims) v);
                quiet = λ q. ground (arith, q, active, answer, yes_);
              }
          | inr no_ ↦
              let e : s'.idempotency ≡ (claim_idempotency now key s.idempotency).1 =
                ground (arith, h, no_) in
              record {
                young = rw e (claim-IsYoung t0 now key s.idempotency (window s.claims) v);
                keys =
                    λ j. rw (e, active) (has-claim t0 now key j s.idempotency (window s.claims) v);
                quiet = λ q. ground (arith, h, no_);
              }
        ]

    pub on_rule-Step :
        (rule : Rule Program Number) (subject bytes : Text) (payload : Json Number) (s s' : Engine)
        → IsYoung t0 s.idempotency
        → on_rule c w rule subject bytes payload s ≡ some s'
        → Step rule subject bytes payload t0 s s'
    unfolding on_rule eval_bool_with_timeout
    on_rule-Step rule subject bytes payload s s' v h =
        elim (Bool-cases (is_active rule subject payload)) [
          | inl active ↦
              let counted : Engine = record s { evals = s.evals + 1 } in
              let step =
                matched-Step rule subject bytes payload counted s' active v
                  (ground (arith, h, active, calm s.evals)) in
              record { young = step.young; keys = step.keys; quiet = step.quiet }
          | inr idle ↦
              let e : s'.idempotency ≡ s.idempotency = ground (arith, h, idle, calm s.evals) in
              record {
                young = rw e v;
                keys = λ j. rw (e, idle) refl;
                quiet = λ q. ground (arith, h, idle, calm s.evals);
              }
        ]

    pub on_rule_returns :
        (rule : Rule Program Number) (subject bytes : Text) (payload : Json Number) (s : Engine)
        → IsYoung t0 s.idempotency
        → (is_active rule subject payload ≡ true
            → has (idempotency_key c w rule.id subject bytes) s.idempotency ≡ true)
        → on_rule c w rule subject bytes payload s ≡ none
        → ⊥
    unfolding on_rule eval_bool_with_timeout matched
    on_rule_returns rule subject bytes payload s v q h =
        let key = idempotency_key c w rule.id subject bytes in
        let refused = claim-has t0 (w.clock s.claims) key s.idempotency (window s.claims) v in
        elim (Bool-cases (is_active rule subject payload)) [
          | inl active ↦ ground (arith, h, active, q active, refused, calm s.evals)
          | inr idle ↦ ground (arith, h, idle, calm s.evals)
        ]
