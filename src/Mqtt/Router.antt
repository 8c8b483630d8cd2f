-- ===== src/Mqtt/Router.antt =====
-- The routing table: registration, removal and dispatch.
use mathlib.Core.Path.{subst}
use iot_athome.Prelude.{
  All-map, All-filter, ℕ, List, [], ◌∷◌, map, ◌≡◌, refl, sym, Bool, true, false, not, ◌&&◌, Text,
  text_eq, text_eq_refl, any, All, filter, length, arith, if◌then◌else◌, Bool-cases, inl, inr,
}
use iot_athome.Capabilities.{matches_mqtt_topic}
use iot_athome.Mqtt.{
  reported, Subscription, Router, unregister, snapshot, send_all, is_dead, prune, dispatch,
}

abbrev pub owned_by : Text → Subscription → Bool
owned_by p s = text_eq s.plugin_id p

-- `unregister` returns the filters of the plugin's subscriptions, in their order and as often as
-- each was registered, and keeps the subscriptions of the other plugins in theirs.
pub unregister_lem :
    (p : Text) (r : Router)
    → ((unregister p r).0 ≡ map (λ s. s.filter) (filter (owned_by p) r))
      × ((unregister p r).1 ≡ filter (λ s. not (owned_by p s)) r)
unfolding unregister filter
unregister_lem p [] = (refl, refl)
unregister_lem p (s ∷ r) = ground (arith, unregister_lem p r)

abbrev pub deliverable : (ℕ → Bool) → Text → Subscription → Bool
deliverable alive topic s = matches_mqtt_topic s.filter topic && alive s.tx

-- `dispatch` counts one delivery for each subscription whose filter matches the topic and whose
-- mailbox is open.
pub delivered-dispatch :
    (alive : ℕ → Bool) (topic : Text) (r : Router)
    → (dispatch alive topic r).0 ≡ length (filter (deliverable alive topic) r)
unfolding dispatch send_all snapshot filter
delivered-dispatch alive topic [] = refl
delivered-dispatch alive topic (s ∷ r) = ground (arith, delivered-dispatch alive topic r)

-- What `dispatch` must not keep: a matching subscription with a closed mailbox.
abbrev pub Reported : (ℕ → Bool) → Text → List (Text × Text) → Subscription → Type 0
Reported alive topic dead s =
    matches_mqtt_topic s.filter topic ≡ true → alive s.tx ≡ false → is_dead dead s ≡ true

Reported-cons :
    (alive : ℕ → Bool) (topic : Text) (d : Text × Text) (dead : List (Text × Text))
    (s : Subscription)
    → Reported alive topic dead s
    → Reported alive topic (d ∷ dead) s
unfolding any reported
Reported-cons alive topic d dead s h m c = ground (arith, h m c)

abbrev closed_match : (ℕ → Bool) → Text → Subscription → Bool
closed_match alive topic s = matches_mqtt_topic s.filter topic && not (alive s.tx)

unfoldable pub dead_of : (ℕ → Bool) → Text → Router → List (Text × Text)
dead_of alive topic r = (send_all alive (snapshot topic r)).1

dead_of-cons :
    (alive : ℕ → Bool) (topic : Text) (s : Subscription) (r : Router)
    → dead_of alive topic (s ∷ r) ≡ (
        if closed_match alive topic s
        then (s.plugin_id, s.filter) ∷ dead_of alive topic r
        else dead_of alive topic r)
unfolding dead_of send_all snapshot filter
dead_of-cons alive topic s r = ground arith

Reported-step :
    (alive : ℕ → Bool) (topic : Text) (s : Subscription) (r : Router) (dead : List (Text × Text))
    (b : Bool)
    → closed_match alive topic s ≡ b
    → All (Reported alive topic dead) r
    → All (Reported alive topic (if b then (s.plugin_id, s.filter) ∷ dead else dead)) (s ∷ r)
unfolding any reported
Reported-step alive topic s r dead true e h = (
  λ m c. ground (arith, text_eq_refl s.plugin_id, text_eq_refl s.filter),
  All-map r (Reported-cons alive topic (s.plugin_id, s.filter) dead) h,
)
Reported-step alive topic s r dead false e h = (λ m c. ground arith, h)

pub dead_of-Reported :
    (alive : ℕ → Bool) (topic : Text) (r : Router)
    → All (Reported alive topic (dead_of alive topic r)) r
dead_of-Reported alive topic [] = tt
dead_of-Reported alive topic (s ∷ r) =
    subst (λ d. All (Reported alive topic d) (s ∷ r)) (sym (dead_of-cons alive topic s r))
      (Reported-step alive topic s r (dead_of alive topic r) (closed_match alive topic s) refl
        (dead_of-Reported alive topic r))

dead_of-quiet :
    (alive : ℕ → Bool) (topic : Text) (r : Router)
    → All (λ s. matches_mqtt_topic s.filter topic ≡ true → alive s.tx ≡ true) r
    → dead_of alive topic r ≡ []
unfolding dead_of send_all snapshot filter
dead_of-quiet alive topic [] h = refl
dead_of-quiet alive topic (s ∷ r) h = ground (arith, h.0, dead_of-quiet alive topic r h.1)

-- After `dispatch`, no subscription is left whose filter matches the topic and whose mailbox is
-- closed.
pub dispatch_prunes :
    (alive : ℕ → Bool) (topic : Text) (r : Router)
    → All
        (λ s. matches_mqtt_topic s.filter topic ≡ true → alive s.tx ≡ true)
        (dispatch alive topic r).1
unfolding dispatch dead_of prune any reported
dispatch_prunes alive topic r = pruned (dead_of alive topic r) (dead_of-Reported alive topic r)
  where
    kept-open :
        (dead : List (Text × Text)) (s : Subscription)
        → Reported alive topic dead s
        → not (is_dead dead s) ≡ true
        → matches_mqtt_topic s.filter topic ≡ true
        → alive s.tx ≡ true
    kept-open dead s rep keep m = elim (Bool-cases (alive s.tx)) [
      | inl up ↦ up
      | inr down ↦ cc (rw (rep m down) at keep)
    ]

    pruned :
        (dead : List (Text × Text))
        → All (Reported alive topic dead) r
        → All (λ s. matches_mqtt_topic s.filter topic ≡ true → alive s.tx ≡ true) (prune dead r)
    pruned [] h = All-map r (λ s rep. kept-open [] s rep refl) h
    pruned (d ∷ dead) h =
        All-filter (λ s. matches_mqtt_topic s.filter topic ≡ true → alive s.tx ≡ true)
          (λ s. not (is_dead (d ∷ dead) s)) r
          (All-map r (λ s rep keep. kept-open (d ∷ dead) s rep keep) h)

-- A dispatch that finds every mailbox open changes no registration.
pub dispatch_quiet :
    (alive : ℕ → Bool) (topic : Text) (r : Router)
    → All (λ s. matches_mqtt_topic s.filter topic ≡ true → alive s.tx ≡ true) r
    → (dispatch alive topic r).1 ≡ r
unfolding dispatch prune dead_of
dispatch_quiet alive topic r h = rw (dead_of-quiet alive topic r h)
