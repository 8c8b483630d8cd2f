-- ===== src/Automation/Idempotency.antt =====
-- The idempotency cache against the whole history of claims.
use iot_athome.Prelude.{
  ℕ, ◌-◌, ◌≤◌, ◌≡◌, refl, inl, inr, List, [], ◌∷◌, Bool, true, not, Option, some, none, Bool-cases,
  Text, text_eq, text_eq_iff, Dict, lookup, insert, lookup-insert, filter, ltb, if◌then◌else◌,
  arith,
}
use iot_athome.Automation.{idempotency_ttl, is_fresh, claim_idempotency, is_some}

-- No key twice.
abbrev pub IsDistinct : Dict ℕ → Type 0
IsDistinct [] = Unit
IsDistinct ((k, t) ∷ m) = (lookup k m ≡ none) × IsDistinct m

-- An answer that is younger than the window.
abbrev pub if_fresh : ℕ → Option ℕ → Option ℕ
if_fresh now none = none
if_fresh now (some t) = if ltb (now - t) idempotency_ttl then some t else none

pub lookup-filter :
    (now : ℕ) (k : Text) (m : Dict ℕ)
    → IsDistinct m
    → lookup k (filter (is_fresh now) m) ≡ if_fresh now (lookup k m)
unfolding lookup filter
lookup-filter now k [] d = refl
lookup-filter now k ((j, t) ∷ m) d = ground (arith, lookup-filter now k m d.1, d.0, text_eq_iff j k)

filter-IsDistinct : (now : ℕ) (m : Dict ℕ) → IsDistinct m → IsDistinct (filter (is_fresh now) m)
unfolding filter
filter-IsDistinct now [] d = tt
filter-IsDistinct now ((j, t) ∷ m) d = elim (Bool-cases (is_fresh now (j, t))) [
  | inl young ↦
      rw young (ground (arith, lookup-filter now j m d.1, d.0), filter-IsDistinct now m d.1)
  | inr old ↦ rw old (filter-IsDistinct now m d.1)
]

insert-IsDistinct : (k : Text) (t : ℕ) (m : Dict ℕ) → IsDistinct m → IsDistinct (insert k t m)
unfolding insert lookup
insert-IsDistinct k t [] d = (refl, tt)
insert-IsDistinct k t ((j, u) ∷ m) d = elim (Bool-cases (text_eq j k)) [
  | inl here ↦ rw here ((ground (arith, d.0, text_eq_iff j k)), d.1)
  | inr on ↦ rw on (
    (ground (arith, lookup-insert k j t m, d.0, text_eq_iff j k, text_eq_iff k j)),
    insert-IsDistinct k t m d.1,
  )
]

-- The claims of a run of the engine, the latest first.
abbrev pub History : Type 0
History = List (Text × ℕ)

pub cache_of : History → Dict ℕ
cache_of [] = []
cache_of ((k, now) ∷ older) = (claim_idempotency now k (cache_of older)).1

-- The clock does not run backwards.
abbrev pub IsTimed : History → Type 0
IsTimed [] = Unit
IsTimed (c ∷ []) = Unit
IsTimed (c ∷ d ∷ older) = (d.1 ≤ c.1) × IsTimed (d ∷ older)

-- The specification: a key is free unless it was granted less than a window ago; a free key is
-- granted. `granted` is when the key was granted last.
abbrev pub free : ℕ → Option ℕ → Bool
free now none = true
free now (some t) = not (ltb (now - t) idempotency_ttl)

pub granted : Text → History → Option ℕ
granted k [] = none
granted k ((j, now) ∷ older) =
    let last = granted k older in
    if text_eq j k then (if free now last then some now else last) else last

pub claim-IsDistinct :
    (now : ℕ) (k : Text) (m : Dict ℕ) → IsDistinct m → IsDistinct (claim_idempotency now k m).1
unfolding claim_idempotency
claim-IsDistinct now k m d = elim (Bool-cases (is_some (lookup k (filter (is_fresh now) m)))) [
  | inl taken ↦ rw taken (filter-IsDistinct now m d)
  | inr open_ ↦ rw open_ (insert-IsDistinct k now _ (filter-IsDistinct now m d))
]

cache_of-IsDistinct : (h : History) → IsDistinct (cache_of h)
unfolding cache_of
cache_of-IsDistinct [] = tt
cache_of-IsDistinct ((k, now) ∷ older) =
    claim-IsDistinct now k (cache_of older) (cache_of-IsDistinct older)

-- What a claim leaves in the map.
pub lookup-claim :
    (now : ℕ) (k j : Text) (m : Dict ℕ)
    → IsDistinct m
    → lookup j (claim_idempotency now k m).1 ≡ (
        if text_eq k j
        then (if free now (lookup k m) then some now else lookup k m)
        else if_fresh now (lookup j m))
unfolding claim_idempotency
lookup-claim now k j m d = ground (
  arith,
  lookup-insert k j now (filter (is_fresh now) m),
  lookup-filter now j m d,
  lookup-filter now k m d,
  text_eq_iff k j,
)

-- An answer that is stale at one time is stale later.
if_fresh-later : (t now : ℕ) (o : Option ℕ) → t ≤ now → if_fresh now (if_fresh t o) ≡ if_fresh now o
if_fresh-later t now none h = refl
if_fresh-later t now (some u) h = ground arith

free-if_fresh : (t : ℕ) (o : Option ℕ) → not (is_some (if_fresh t o)) ≡ free t o
free-if_fresh t none = refl
free-if_fresh t (some u) = ground arith

-- Answers that agree as far as they are fresh give the same claim and the same answer after it.
after_claim :
    (t now : ℕ) (o p : Option ℕ)
    → t ≤ now
    → if_fresh t o ≡ if_fresh t p
    → if_fresh now (if free t o then some t else o) ≡ if_fresh now (if free t p then some t else p)
after_claim t now none none h e = refl
after_claim t now none (some v) h e = ground (arith, e)
after_claim t now (some u) none h e = ground (arith, e)
after_claim t now (some u) (some v) h e = ground (arith, e)

cache-granted :
    (now : ℕ) (k i : Text) (h : History)
    → IsTimed ((i, now) ∷ h)
    → if_fresh now (lookup k (cache_of h)) ≡ if_fresh now (granted k h)
unfolding cache_of granted lookup
cache-granted now k i [] timed = refl
cache-granted now k i ((j, t) ∷ older) timed =
    let ih = cache-granted t k j older timed.1 in
    let at = lookup-claim t j k (cache_of older) (cache_of-IsDistinct older) in
    rw at (
      ground (
        arith,
        ih,
        text_eq_iff j k,
        timed.0,
        if_fresh-later t now (lookup k (cache_of older)) timed.0,
        if_fresh-later t now (granted k older) timed.0,
        after_claim t now (lookup k (cache_of older)) (granted k older) timed.0 ih,
      ))

-- The map, which forgets every entry that has left the window, answers as the whole history would: if
-- the clock does not run backwards, a claim of a key succeeds exactly if no claim of the same key was
-- granted less than five seconds before.
pub claim_exact :
    (now : ℕ) (k : Text) (h : History)
    → IsTimed ((k, now) ∷ h)
    → (claim_idempotency now k (cache_of h)).0 ≡ free now (granted k h)
unfolding claim_idempotency
claim_exact now k h timed = ground (
  arith,
  lookup-filter now k (cache_of h) (cache_of-IsDistinct h),
  cache-granted now k k h timed,
  free-if_fresh now (granted k h),
)
