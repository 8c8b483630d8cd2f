-- ===== src/Mqtt/Interleavings.antt =====
-- What holds in every interleaving of the steps.
use iot_athome.Mqtt.Steps.{
  filters, System, Step, registers, subscribes, prunes, exits, unsubscribes, Reach, here, next,
}
use iot_athome.Prelude.{
  ◌+◌, List, [], ◌∷◌, ◌≡◌, refl, ap, ◌∙◌, filter, not, Bool-cases, inl, inr, Text, text_eq,
  text_eq→eq, text_eq_iff, arith, lookup, any, is_empty, false,
}
use iot_athome.Mqtt.{Router, unregister, prune, reported, is_dead, refcount}
use iot_athome.Mqtt.Tally.{
  Hold, tally, tally_of, count_filter, holds, tally-insert, tally_of-insert, count_filter-insert,
  count_filter-append, tally-register, tally_of-register, tally-others, tally_of-others,
  count_filter-unregister, holds-unregister,
}
use iot_athome.Mqtt.Refcount.{
  forwards, IsPositive, Synced, refcount-subscribe_filter, refcount-unsubscribe_filter,
  subscribe_filter-IsPositive, unsubscribe_filter-IsPositive, subscribe_filter-Synced,
  unsubscribe_filter-Synced,
}

-- No request about the filter was refused, and no entry with it was reported dead.
pub record IsClean (f : Text) (s : System) : Type 0 where
  pub not_refused : count_filter f s.refusals ≡ 0
  pub not_pruned : count_filter f s.pruned ≡ 0

-- The counts of one filter.
pub record IsCounted (f : Text) (s : System) : Type 0 where
  pub synced : Synced f s.broker
  pub owned :
      (p : Text) → tally_of p f (holds s.router) ≡ tally_of p f s.wired + tally_of p f s.pending
  pub held : tally f (holds s.router) ≡ tally f s.wired + tally f s.pending
  pub counted : refcount f s.broker ≡ tally f s.wired + count_filter f s.leaving

not_reported :
    (f p : Text) (dead : List Hold) → count_filter f (filters dead) ≡ 0 → reported dead p f ≡ false
unfolding reported any
not_reported f p [] h = refl
not_reported f p ((q, g) ∷ dead) h = ground (arith, not_reported f p dead, h)

module _ (f : Text) (dead : List Hold) (h : count_filter f (filters dead) ≡ 0) where
  tally-kept :
      (r : Router) → tally f (holds (filter (λ x. not (is_dead dead x)) r)) ≡ tally f (holds r)
  unfolding filter
  tally-kept [] = refl
  tally-kept (x ∷ r) = elim (Bool-cases (text_eq x.filter f)) [
    | inl e ↦
        let same = text_eq→eq x.filter f e in
        let alive : is_dead dead x ≡ false =
          ap (reported dead x.plugin_id) same ∙ not_reported f x.plugin_id dead h in
        rw alive (ground (arith, tally-kept r))
    | inr e ↦ elim (Bool-cases (is_dead dead x)) [
      | inl d ↦ rw (d, e) (tally-kept r)
      | inr d ↦ rw (d, e) (tally-kept r)
    ]
  ]

  tally_of-kept :
      (p : Text) (r : Router)
      → tally_of p f (holds (filter (λ x. not (is_dead dead x)) r)) ≡ tally_of p f (holds r)
  unfolding filter
  tally_of-kept p [] = refl
  tally_of-kept p (x ∷ r) = elim (Bool-cases (text_eq x.filter f)) [
    | inl e ↦
        let same = text_eq→eq x.filter f e in
        let alive : is_dead dead x ≡ false =
          ap (reported dead x.plugin_id) same ∙ not_reported f x.plugin_id dead h in
        rw alive (ground (arith, tally_of-kept p r))
    | inr e ↦ elim (Bool-cases (is_dead dead x)) [
      | inl d ↦ rw d (ground (arith, e, tally_of-kept p r))
      | inr d ↦ rw d (ground (arith, e, tally_of-kept p r))
    ]
  ]

  tally-prune : (r : Router) → tally f (holds (prune dead r)) ≡ tally f (holds r)
  unfolding prune
  tally-prune r = elim (Bool-cases (is_empty dead)) [
    | inl e ↦ rw e refl
    | inr e ↦ rw e (tally-kept r)
  ]

  tally_of-prune :
      (p : Text) (r : Router) → tally_of p f (holds (prune dead r)) ≡ tally_of p f (holds r)
  unfolding prune
  tally_of-prune p r = elim (Bool-cases (is_empty dead)) [
    | inl e ↦ rw e refl
    | inr e ↦ rw e (tally_of-kept p r)
  ]

Step-IsPositive : {s t : System} → Step s t → IsPositive s.broker → IsPositive t.broker
Step-IsPositive (registers caps p f tx allowed) h = h
Step-IsPositive {s} (subscribes before after p f accepted e) h =
    subscribe_filter-IsPositive s.broker h f accepted
Step-IsPositive (prunes dead) h = h
Step-IsPositive (exits p idle) h = h
Step-IsPositive {s} (unsubscribes before after f accepted e) h =
    unsubscribe_filter-IsPositive s.broker h f accepted

-- A filter that is clean after a step was so before it.
Step-IsClean :
    {s t : System} (g : Text) → IsPositive s.broker → Step s t → IsClean g t → IsClean g s
Step-IsClean {s} g pos (registers caps p f tx allowed) c = record {
  not_refused = c.not_refused;
  not_pruned = c.not_pruned;
}
Step-IsClean {s} g pos (subscribes before after p f accepted e) c = record {
  not_refused = (subscribe_filter-Synced s.broker f g accepted s.refusals c.not_refused).0;
  not_pruned = c.not_pruned;
}
Step-IsClean {s} g pos (prunes dead) c = record {
  not_refused = c.not_refused;
  not_pruned = omega (arith, count_filter-append g (filters dead) s.pruned, c.not_pruned);
}
Step-IsClean {s} g pos (exits p idle) c = record {
  not_refused = c.not_refused;
  not_pruned = c.not_pruned;
}
Step-IsClean {s} g pos (unsubscribes before after f accepted e) c = record {
  not_refused = (unsubscribe_filter-Synced s.broker f g accepted s.refusals pos c.not_refused).0;
  not_pruned = c.not_pruned;
}

Step-IsCounted :
    {s t : System} (g : Text)
    → IsPositive s.broker
    → Step s t
    → IsClean g t
    → IsCounted g s
    → IsCounted g t
Step-IsCounted {s} g pos (registers caps p f tx allowed) c h = record {
  synced = h.synced;
  owned = λ q. ground (arith, tally_of-register g q p f tx s.router, h.owned q);
  held = ground (arith, tally-register g p f tx s.router, h.held);
  counted = h.counted;
}
Step-IsCounted {s} g pos (subscribes before after p f accepted e) c h = record {
  synced = (subscribe_filter-Synced s.broker f g accepted s.refusals c.not_refused).1 h.synced;
  owned =
      λ q. ground (arith, ap (tally_of q g) e, tally_of-insert g q before after (p, f), h.owned q);
  held = ground (arith, ap (tally g) e, tally-insert g before after (p, f), h.held);
  counted =
      ground (arith, refcount-subscribe_filter accepted f g s.broker, text_eq_iff f g, h.counted);
}
Step-IsCounted {s} g pos (prunes dead) c h =
    let clear : count_filter g (filters dead) ≡ 0 =
      omega (arith, count_filter-append g (filters dead) s.pruned, c.not_pruned) in
    record {
      synced = h.synced;
      owned = λ q. tally_of-prune g dead clear q s.router ∙ h.owned q;
      held = tally-prune g dead clear s.router ∙ h.held;
      counted = h.counted;
    }
Step-IsCounted {s} g pos (exits p idle) c h = record {
  synced = h.synced;
  owned = λ q. rw (holds-unregister p s.router) (
      ground (
        arith,
        tally_of-others g q p (holds s.router),
        tally_of-others g q p s.wired,
        text_eq_iff q p,
        idle g,
        h.owned q,
      ));
  held = rw (holds-unregister p s.router) (
      omega (
        arith,
        tally-others g p (holds s.router),
        tally-others g p s.wired,
        idle g,
        h.owned p,
        h.held,
      ));
  counted = omega (
    arith,
    count_filter-append g (unregister p s.router).0 s.leaving,
    count_filter-unregister g p s.router,
    tally-others g p s.wired,
    idle g,
    h.owned p,
    h.counted,
  );
}
Step-IsCounted {s} g pos (unsubscribes before after f accepted e) c h = record {
  synced =
      (unsubscribe_filter-Synced s.broker f g accepted s.refusals pos c.not_refused).1 h.synced;
  owned = h.owned;
  held = h.held;
  counted = ground (
    arith,
    refcount-unsubscribe_filter accepted f g s.broker,
    text_eq_iff f g,
    ap (count_filter g) e,
    count_filter-insert g before after f,
    h.counted,
  );
}

abbrev pub start : System
start = record {
  router = [];
  broker = record { filter_refcount = []; wire = [] };
  pending = [];
  wired = [];
  leaving = [];
  refusals = [];
  pruned = [];
}

start-IsCounted : (f : Text) → IsCounted f start
unfolding lookup forwards
start-IsCounted f = record { synced = refl; owned = λ p. refl; held = refl; counted = refl }

Reach-IsPositive : {s : System} → Reach start s → IsPositive s.broker
unfolding IsPositive lookup
Reach-IsPositive here = λ f n e. cc
Reach-IsPositive (next r st) = Step-IsPositive st (Reach-IsPositive r)

-- In every state that the tasks can reach, the counts of a clean filter are those of its
-- registrations, and the broker forwards it exactly if its count is positive.
pub Reach-IsCounted : {s : System} (f : Text) → Reach start s → IsClean f s → IsCounted f s
Reach-IsCounted f here c = start-IsCounted f
Reach-IsCounted f (next r st) c =
    let pos = Reach-IsPositive r in
    Step-IsCounted f pos st c (Reach-IsCounted f r (Step-IsClean f pos st c))
