-- ===== src/Mqtt/Refcount.antt =====
-- The reference counts of the broker's filters, and what the broker has been told.
use iot_athome.Mqtt.Tally.{count_filter}
use iot_athome.Prelude.{
  not, ◌||◌, sym, ap, ◌∙◌, ◌⊎◌, inl, inr, Bool-cases, ℕ, ◌+◌, ◌-◌, ◌<◌, List, [], ◌∷◌, ◌≡◌, refl,
  Bool, true, false, ◌&&◌, Text, text_eq, text_eq_iff, lookup, lookup-insert, lookup-remove, Option,
  some, none, arith, if◌then◌else◌, ltb, ◌==◌, Result, ok, err,
}
use iot_athome.Mqtt.{
  Packet, subscribe, unsubscribe, MqttBroker, count_of, refcount, subscribe_filter, drop_reference,
  unsubscribe_filter, ClientError, refused,
}

-- Whether the broker forwards the filter, after the packets that reached it.
unfoldable pub forwards : Text → List Packet → Bool
forwards f [] = false
forwards f (subscribe g ∷ w) = if text_eq g f then true else forwards f w
forwards f (unsubscribe g ∷ w) = if text_eq g f then false else forwards f w

-- No entry of the map is zero.
unfoldable pub IsPositive : MqttBroker → Type 0
IsPositive b = (f : Text) (n : ℕ) → lookup f b.filter_refcount ≡ some n → 0 < n

-- `subscribe_filter` adds one to its filter's count and nothing to the others, whatever the client
-- answers.
pub refcount-subscribe_filter :
    (accepted : Bool) (f g : Text) (b : MqttBroker)
    → refcount g (subscribe_filter accepted f b).1
      ≡ (if text_eq f g then refcount f b + 1 else refcount g b)
unfolding subscribe_filter
refcount-subscribe_filter accepted f g b =
    ground (arith, lookup-insert f g (refcount f b + 1) b.filter_refcount)

refcount-drop :
    (o : Option ℕ) (accepted : Bool) (f g : Text) (b : MqttBroker)
    → lookup f b.filter_refcount ≡ o
    → refcount g (drop_reference o accepted f b).1
      ≡ (if text_eq f g then refcount f b - 1 else refcount g b)
unfolding drop_reference
refcount-drop none accepted f g b h = ground (arith, text_eq_iff f g)
refcount-drop (some n) accepted f g b h =
    ground
      (arith, lookup-insert f g (n - 1) b.filter_refcount, lookup-remove f g b.filter_refcount, h)

-- `unsubscribe_filter` takes one from its filter's count, or nothing at zero, and nothing from the
-- others, whatever the client answers.
pub refcount-unsubscribe_filter :
    (accepted : Bool) (f g : Text) (b : MqttBroker)
    → refcount g (unsubscribe_filter accepted f b).1
      ≡ (if text_eq f g then refcount f b - 1 else refcount g b)
unfolding unsubscribe_filter
refcount-unsubscribe_filter accepted f g b =
    refcount-drop (lookup f b.filter_refcount) accepted f g b refl

-- SUBSCRIBE goes out exactly when a count leaves zero, and the client accepts it.
pub wire-subscribe_filter :
    (accepted : Bool) (f : Text) (b : MqttBroker)
    → (subscribe_filter accepted f b).1.wire
      ≡ (if refcount f b == 0 && accepted then subscribe f ∷ b.wire else b.wire)
unfolding subscribe_filter
wire-subscribe_filter accepted f b = ground arith

lookup-subscribe_filter :
    (accepted : Bool) (f g : Text) (b : MqttBroker)
    → lookup g (subscribe_filter accepted f b).1.filter_refcount
      ≡ (if text_eq f g then some (refcount f b + 1) else lookup g b.filter_refcount)
unfolding subscribe_filter
lookup-subscribe_filter accepted f g b =
    ground (arith, lookup-insert f g (refcount f b + 1) b.filter_refcount)

lookup-drop :
    (o : Option ℕ) (accepted : Bool) (f g : Text) (b : MqttBroker)
    → lookup f b.filter_refcount ≡ o
    → lookup g (drop_reference o accepted f b).1.filter_refcount ≡ (
        if text_eq f g
        then (if ltb 1 (count_of o) then some (count_of o - 1) else none)
        else lookup g b.filter_refcount)
unfolding drop_reference
lookup-drop none accepted f g b h = ground (arith, text_eq_iff f g)
lookup-drop (some n) accepted f g b h =
    ground (arith, lookup-insert f g (n - 1) b.filter_refcount, lookup-remove f g b.filter_refcount)

lookup-unsubscribe_filter :
    (accepted : Bool) (f g : Text) (b : MqttBroker)
    → lookup g (unsubscribe_filter accepted f b).1.filter_refcount ≡ (
        if text_eq f g
        then (if ltb 1 (refcount f b) then some (refcount f b - 1) else none)
        else lookup g b.filter_refcount)
unfolding unsubscribe_filter
lookup-unsubscribe_filter accepted f g b =
    lookup-drop (lookup f b.filter_refcount) accepted f g b refl

module _ (b : MqttBroker) (h : IsPositive b) (f : Text) (accepted : Bool) where
  pub subscribe_filter-IsPositive : IsPositive (subscribe_filter accepted f b).1
  unfolding IsPositive
  subscribe_filter-IsPositive g n e = ground (arith, lookup-subscribe_filter accepted f g b, h g n)

  pub unsubscribe_filter-IsPositive : IsPositive (unsubscribe_filter accepted f b).1
  unfolding IsPositive
  unsubscribe_filter-IsPositive g n e =
      ground (arith, lookup-unsubscribe_filter accepted f g b, h g n)

  -- UNSUBSCRIBE goes out exactly when the last reference is dropped, and the client accepts it.
  wire-unsubscribe_filter :
      (unsubscribe_filter accepted f b).1.wire
      ≡ (if refcount f b == 1 && accepted then unsubscribe f ∷ b.wire else b.wire)
  unfolding unsubscribe_filter drop_reference IsPositive
  wire-unsubscribe_filter = by_entry (lookup f b.filter_refcount) refl
    where
      by_entry :
          (o : Option ℕ)
          → lookup f b.filter_refcount ≡ o
          → (drop_reference o accepted f b).1.wire
            ≡ (if refcount f b == 1 && accepted then unsubscribe f ∷ b.wire else b.wire)
      by_entry none e = ground arith
      by_entry (some n) e = ground (arith, h f n e)

-- What the broker forwards of `g` agrees with its count.
abbrev pub Synced : Text → MqttBroker → Type 0
Synced g b = forwards g b.wire ≡ ltb 0 (refcount g b)

-- Whether a request about the filter `g` was refused: that of `f`, when it was sent at all.
abbrev pub unless_refused : Result ClientError (Unit {0}) → Text → List Text → List Text
unless_refused (ok _) f fs = fs
unless_refused (err e) f fs = f ∷ fs

abbrev answered : Bool → Result ClientError (Unit {0})
answered true = ok tt
answered false = err refused

result-subscribe_filter :
    (accepted : Bool) (f : Text) (b : MqttBroker)
    → (subscribe_filter accepted f b).0 ≡ answered (not (refcount f b == 0) || accepted)
unfolding subscribe_filter
result-subscribe_filter accepted f b = ground arith

result-unsubscribe_filter :
    (accepted : Bool) (f : Text) (b : MqttBroker)
    → IsPositive b
    → (unsubscribe_filter accepted f b).0 ≡ answered (not (refcount f b == 1) || accepted)
unfolding unsubscribe_filter drop_reference IsPositive
result-unsubscribe_filter accepted f b h = by_entry (lookup f b.filter_refcount) refl
  where
    by_entry :
        (o : Option ℕ)
        → lookup f b.filter_refcount ≡ o
        → (drop_reference o accepted f b).0 ≡ answered (not (refcount f b == 1) || accepted)
    by_entry none e = ground arith
    by_entry (some n) e = ground (arith, h f n e)

unless_refused-clean :
    (sent_well : Bool) (f g : Text) (old : List Text)
    → count_filter g (unless_refused (answered sent_well) f old) ≡ 0
    → (count_filter g old ≡ 0) × ((text_eq f g ≡ false) ⊎ (sent_well ≡ true))
unless_refused-clean true f g old h = (h, inr refl)
unless_refused-clean false f g old h = elim (Bool-cases (text_eq f g)) [
  | inl e ↦ absurd (ground (arith, h, e))
  | inr e ↦ (ground (arith, h, e), inl e)
]

module _ (b : MqttBroker) (f g : Text) (accepted : Bool) (old : List Text) where
  -- Where no request about `g` was refused, an agreement of the broker with the count stays.
  pub subscribe_filter-Synced :
      count_filter g (unless_refused (subscribe_filter accepted f b).0 f old) ≡ 0
      → (count_filter g old ≡ 0) × (Synced g b → Synced g (subscribe_filter accepted f b).1)
  unfolding forwards
  subscribe_filter-Synced h =
      let (before, why) = unless_refused-clean _ f g old (
        sym
          (ap (λ r. count_filter g (unless_refused r f old)) (result-subscribe_filter accepted f b))
        ∙ h) in
      (
        before,
        λ s. elim why [
          | inl e ↦ ground (
            arith,
            refcount-subscribe_filter accepted f g b,
            wire-subscribe_filter accepted f b,
            e,
            s,
          )
          | inr e ↦ ground (
            arith,
            refcount-subscribe_filter accepted f g b,
            wire-subscribe_filter accepted f b,
            text_eq_iff f g,
            e,
            s,
          )
        ],
      )

  pub unsubscribe_filter-Synced :
      IsPositive b
      → count_filter g (unless_refused (unsubscribe_filter accepted f b).0 f old) ≡ 0
      → (count_filter g old ≡ 0) × (Synced g b → Synced g (unsubscribe_filter accepted f b).1)
  unfolding forwards
  unsubscribe_filter-Synced pos h =
      let (before, why) = unless_refused-clean _ f g old (
        sym (
          ap (λ r. count_filter g (unless_refused r f old))
            (result-unsubscribe_filter accepted f b pos))
        ∙ h) in
      (
        before,
        λ s. elim why [
          | inl e ↦ ground (
            arith,
            refcount-unsubscribe_filter accepted f g b,
            wire-unsubscribe_filter b pos f accepted,
            e,
            s,
          )
          | inr e ↦ ground (
            arith,
            refcount-unsubscribe_filter accepted f g b,
            wire-unsubscribe_filter b pos f accepted,
            text_eq_iff f g,
            e,
            s,
          )
        ],
      )
