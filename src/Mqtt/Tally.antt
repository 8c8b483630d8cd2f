-- ===== src/Mqtt/Tally.antt =====
-- Counting registrations by filter, and by plugin and filter.
use iot_athome.Prelude.{
  ℕ, suc, ◌+◌, List, [], ◌∷◌, ◌++◌, map, ◌≡◌, refl, Bool, not, ◌&&◌, Text, text_eq, text_eq_iff,
  filter, arith, if◌then◌else◌,
}
use iot_athome.Mqtt.{Subscription, Router, register, unregister}

-- A plugin and a filter.
abbrev pub Hold : Type 0
Hold = Text × Text

-- How many entries have the filter, and how many have the plugin and the filter.
abbrev pub tally : Text → List Hold → ℕ
tally f [] = 0
tally f ((p, g) ∷ hs) = if text_eq g f then suc (tally f hs) else tally f hs

abbrev pub tally_of : Text → Text → List Hold → ℕ
tally_of p f [] = 0
tally_of p f ((q, g) ∷ hs) =
    if text_eq q p && text_eq g f then suc (tally_of p f hs) else tally_of p f hs

abbrev pub count_filter : Text → List Text → ℕ
count_filter f [] = 0
count_filter f (g ∷ gs) = if text_eq g f then suc (count_filter f gs) else count_filter f gs

abbrev hold : Subscription → Hold
hold s = (s.plugin_id, s.filter)

abbrev pub holds : Router → List Hold
holds r = map hold r

abbrev pub owns : Text → Hold → Bool
owns p (q, g) = text_eq q p

abbrev pub others : Text → List Hold → List Hold
others p hs = filter (λ x. not (owns p x)) hs

module _ (f : Text) where
  pub tally-insert :
      (before after : List Hold) (x : Hold)
      → tally f (before ++ x ∷ after) ≡ tally f (x ∷ []) + tally f (before ++ after)
  tally-insert [] after x = ground arith
  tally-insert (y ∷ before) after x = ground (arith, tally-insert before after x)

  pub tally_of-insert :
      (p : Text) (before after : List Hold) (x : Hold)
      → tally_of p f (before ++ x ∷ after) ≡ tally_of p f (x ∷ []) + tally_of p f (before ++ after)
  tally_of-insert p [] after x = ground arith
  tally_of-insert p (y ∷ before) after x = ground (arith, tally_of-insert p before after x)

  pub count_filter-insert :
      (before after : List Text) (x : Text)
      → count_filter f (before ++ x ∷ after)
        ≡ count_filter f (x ∷ []) + count_filter f (before ++ after)
  count_filter-insert [] after x = ground arith
  count_filter-insert (y ∷ before) after x = ground (arith, count_filter-insert before after x)

  pub count_filter-append :
      (xs ys : List Text) → count_filter f (xs ++ ys) ≡ count_filter f xs + count_filter f ys
  count_filter-append [] ys = ground arith
  count_filter-append (x ∷ xs) ys = ground (arith, count_filter-append xs ys)

  pub tally-register :
      (p g : Text) (tx : ℕ) (r : Router)
      → tally f (holds (register p g tx r)) ≡ tally f ((p, g) ∷ []) + tally f (holds r)
  unfolding register
  tally-register p g tx [] = ground arith
  tally-register p g tx (s ∷ r) = ground (arith, tally-register p g tx r)

  pub tally_of-register :
      (q p g : Text) (tx : ℕ) (r : Router)
      → tally_of q f (holds (register p g tx r))
        ≡ tally_of q f ((p, g) ∷ []) + tally_of q f (holds r)
  unfolding register
  tally_of-register q p g tx [] = ground arith
  tally_of-register q p g tx (s ∷ r) = ground (arith, tally_of-register q p g tx r)

  pub tally-others :
      (p : Text) (hs : List Hold) → tally f hs ≡ tally_of p f hs + tally f (others p hs)
  unfolding filter
  tally-others p [] = ground arith
  tally-others p ((q, g) ∷ hs) = ground (arith, tally-others p hs)

  pub tally_of-others :
      (q p : Text) (hs : List Hold)
      → tally_of q f (others p hs) ≡ (if text_eq q p then 0 else tally_of q f hs)
  unfolding filter
  tally_of-others q p [] = ground arith
  tally_of-others q p ((o, g) ∷ hs) =
      ground (arith, tally_of-others q p hs, text_eq_iff o p, text_eq_iff o q, text_eq_iff q p)

  -- What `unregister` returns, counted.
  pub count_filter-unregister :
      (p : Text) (r : Router) → count_filter f (unregister p r).0 ≡ tally_of p f (holds r)
  unfolding unregister
  count_filter-unregister p [] = refl
  count_filter-unregister p (s ∷ r) = ground (arith, count_filter-unregister p r)

pub holds-unregister : (p : Text) (r : Router) → holds (unregister p r).1 ≡ others p (holds r)
unfolding unregister filter
holds-unregister p [] = refl
holds-unregister p (s ∷ r) = ground (arith, holds-unregister p r)
