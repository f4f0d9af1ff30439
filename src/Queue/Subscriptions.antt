-- ===== src/Queue/Subscriptions.antt =====
-- Subscribe and Unsubscribe of internal/mq/nsq_core.go, one after the other.
use Prim.Native.String.{◌++◌ as str_append}
use text.Mathlib.TextLemmas.{append_assoc as str-append_assoc}
use cogame.Base.{
  ℕ, String, eq_iff, Bool, true, false, Option, none, some, ◌≡◌, ◌↔◌, refl, sym, ap, ◌∙◌, inl, inr,
  arith, Bool-cases, Option-cases,
}
use cogame.Base.Dict
use cogame.Queue.Nsq.{Nsq}
use cogame.Queue.Manager.{NsqManager}
use cogame.Queue.Consumers.{subscription_key, connect_consumer, subscribe, unsubscribe}

is_some {ℓ} : {A : Type ℓ} → Option A → Bool
is_some none = false
is_some (some a) = true

module _ (n : Nsq) {H : Type 0} where
  open n use {World}

  -- A subscription has a consumer and a handler, or neither.
  abbrev pub SameKeys : NsqManager H → Type 0
  SameKeys m =
      (key : String) → (Dict.lookup key m.consumers ≡ none) ↔ (Dict.lookup key m.handlers ≡ none)

  -- What Subscribe does where it reports no error.
  abbrev pub Subscribed : NsqManager H → String → H → NsqManager H → Type 0
  Subscribed m key handler m1 =
      (Dict.lookup key m.consumers ≡ none)
      × (consumer : ℕ) × (m1 ≡ record m {
        consumers = Dict.insert key consumer m.consumers;
        handlers = Dict.insert key handler m.handlers;
      })

  subscribe-Subscribed :
      (m : NsqManager H) (topic channel : String) (handler : H) (w : World)
      → (subscribe n m topic channel handler w).0 ≡ true
      → Subscribed m
          (subscription_key topic channel)
          handler
          (subscribe n m topic channel handler w).1
  unfolding subscribe
  subscribe-Subscribed m topic channel handler w done =
      let key = subscription_key topic channel in
      elim (Option-cases (Dict.lookup key m.consumers)) [
        | inr (other, taken) ↦ absurd (ground (arith, taken, done))
        | inl free ↦ elim (Option-cases (n.new_consumer topic channel w).0) [
          | inl unmade ↦ absurd (ground (arith, free, unmade, done))
          | inr (consumer, made) ↦
              elim (Bool-cases
                (connect_consumer n m consumer (n.new_consumer topic channel w).1).0) [
                  | inr off ↦ absurd (ground (arith, free, made, off, done))
                  | inl on ↦ (free, consumer, ground (arith, free, made, on))
                ]
        ]
      ]

  -- A subscription that is there is refused, under whatever topic and channel have its key.
  refused_again :
      (m : NsqManager H) (key : String) (handler : H) (m1 : NsqManager H)
      → Subscribed m key handler m1
      → (topic channel : String) (other : H) (w : World) → subscription_key topic channel ≡ key
      → (subscribe n m1 topic channel other w).0 ≡ false
  unfolding subscribe
  refused_again m key handler m1 (free, consumer, e) topic channel other w same =
      let there : Dict.lookup (subscription_key topic channel) m1.consumers ≡ some consumer =
        ground (arith, e, same, Dict.lookup-insert key key consumer m.consumers, eq_iff key key) in
      rw (there, subscribe) refl

  -- After a Subscribe without an error, another of the same topic and channel is refused; an
  -- Unsubscribe has no error, and leaves the consumers and the handlers as they were.
  pub subscribe-unsubscribe :
      (m : NsqManager H) (topic channel : String) (handler other : H) (w w1 : World)
      → SameKeys m
      → (subscribe n m topic channel handler w).0 ≡ true
      → ((subscribe n (subscribe n m topic channel handler w).1 topic channel other w1).0 ≡ false)
        × ((unsubscribe n (subscribe n m topic channel handler w).1 topic channel w1).0 ≡ true)
        × ((key : String)
            → Dict.lookup key
                (unsubscribe n
                  (subscribe n m topic channel handler w).1
                  topic
                  channel
                  w1).1.consumers
              ≡ Dict.lookup key m.consumers)
        × ((key : String)
            → Dict.lookup key
                (unsubscribe n
                  (subscribe n m topic channel handler w).1
                  topic
                  channel
                  w1).1.handlers
              ≡ Dict.lookup key m.handlers)
  unfolding unsubscribe
  subscribe-unsubscribe m topic channel handler other w w1 same done =
      let k = subscription_key topic channel in
      let m1 = (subscribe n m topic channel handler w).1 in
      let subscribed = subscribe-Subscribed m topic channel handler w done in
      let (free, consumer, e) = subscribed in
      let there : Dict.lookup k m1.consumers ≡ some consumer =
        ground (arith, e, Dict.lookup-insert k k consumer m.consumers, eq_iff k k) in
      (
        refused_again m k handler m1 subscribed topic channel other w1 refl,
        rw (there, unsubscribe) refl,
        λ j. ground (
          arith,
          there,
          e,
          free,
          Dict.lookup-delete k j m1.consumers,
          Dict.lookup-insert k j consumer m.consumers,
          eq_iff k j,
        ),
        λ j. ground (
          arith,
          there,
          e,
          same k,
          free,
          Dict.lookup-delete k j m1.handlers,
          Dict.lookup-insert k j handler m.handlers,
          eq_iff k j,
        ),
      )

  -- The key joins topic and channel by an underscore, which both may have: after a Subscribe of the
  -- topic a_b and the channel c, one of the topic a and the channel b_c is refused.
  pub subscribe_keys_collide :
      (a b c : String) (m : NsqManager H) (handler other : H) (w w1 : World)
      → (subscribe n m (str_append a (str_append "_" b)) c handler w).0 ≡ true
      → (subscribe n
          (subscribe n m (str_append a (str_append "_" b)) c handler w).1
          a
          (str_append b (str_append "_" c))
          other
          w1).0
        ≡ false
  subscribe_keys_collide a b c m handler other w w1 done =
      let ab = str_append a (str_append "_" b) in
      refused_again m (subscription_key ab c) handler (subscribe n m ab c handler w).1
        (subscribe-Subscribed m ab c handler w done) a (str_append b (str_append "_" c)) other w1
        (sym (
          str-append_assoc a (str_append "_" b) (str_append "_" c)
          ∙ ap (str_append a) (str-append_assoc "_" b (str_append "_" c))))
