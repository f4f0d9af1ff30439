-- ===== src/Queue/Publishing.antt =====
-- Which producers Publish of internal/mq/nsq_core.go asks, and in which order.
use mathlib.Core.List.{append-nil, append_assoc}
use cogame.Base.{
  ℕ, zero, suc, ◌+◌, ◌%◌, ◌^◌, ◌<◌, ◌==◌, ltb, lt→ltb, String, Bool, true, false, List, [], ◌∷◌,
  ◌++◌, Option, none, some, ◌≡◌, refl, sym, ap, ◌∙◌, inl, inr, arith, if◌then◌else◌, Bool-cases,
  length, get_elem?,
}
use cogame.Discovery.Balance.{turn_index}
use cogame.Queue.Nsq.{Nsq, NsqLaws}
use cogame.Queue.Manager.{NsqManager, try_others, publish_with_load_balancing, publish}

-- The candidates are asked in their order until one takes the message: the result, and the calls.
pub data Attempted : List ℕ → Bool → List (ℕ × Bool) → Type 0 where
  exhausted : Attempted [] false []
  accepted : {p : ℕ} {ps : List ℕ} → Attempted (p ∷ ps) true ((p, true) ∷ [])
  refused :
      {p : ℕ} {ps : List ℕ} {ok : Bool} {calls : List (ℕ × Bool)}
      → Attempted ps ok calls
      → Attempted (p ∷ ps) ok ((p, false) ∷ calls)

-- The producers but one, in their order.
abbrev pub others : ℕ → List ℕ → List ℕ
others p [] = []
others p (q ∷ qs) = if q == p then others p qs else q ∷ others p qs

abbrev pub candidates : {H : Type 0} → NsqManager H → ℕ → List ℕ
candidates m p = if m.config.failover_enabled then p ∷ others p m.producers else p ∷ []

first-accepted :
    (b : Bool) (p : ℕ) (ps : List ℕ)
    → Attempted (if b then p ∷ ps else p ∷ []) true ((p, true) ∷ [])
first-accepted true p ps = accepted
first-accepted false p ps = accepted

module _ (n : Nsq) (l : NsqLaws n) where
  open n use {World}
  open l use {attempts}

  try_others-Attempted :
      (p : ℕ) (ps : List ℕ) (topic : String) (body : List ℕ) (w : World)
      → (calls : List (ℕ × Bool)) × (attempts (try_others n p ps topic body w).1
          ≡ attempts w ++ calls)
        × Attempted (others p ps) (try_others n p ps topic body w).0 calls
  unfolding try_others
  try_others-Attempted p [] topic body w = ([], sym (append-nil (attempts w)), exhausted)
  try_others-Attempted p (q ∷ qs) topic body w = elim (Bool-cases (q == p)) [
    | inl same ↦ rw (same, try_others) (try_others-Attempted p qs topic body w)
    | inr other ↦
        let w1 = (n.publish q topic body w).1 in
        let logged = l.attempts-publish q topic body w in
        elim (Bool-cases (n.publish q topic body w).0) [
          | inl ok ↦ rw (other, try_others, ok) (((q, true) ∷ [], logged ∙ rw ok refl, accepted))
          | inr down ↦
              let (calls, rest, tried) = try_others-Attempted p qs topic body w1 in
              rw (other, try_others, down)
                ((
                  (q, false) ∷ calls,
                  rest
                      ∙ ap (λ k. k ++ calls) (logged ∙ rw down refl)
                      ∙ append_assoc (attempts w) ((q, false) ∷ []) calls,
                  refused tried,
                ))
        ]
  ]

  -- The turn's producer first, then the others where failover is enabled.
  abbrev pub Delivers :
      {H : Type 0}
      → NsqManager H
      → String
      → List ℕ
      → World
      → Option (Bool × NsqManager H × World)
      → Type 0
  Delivers m topic body w none = ⊥
  Delivers m topic body w (some (ok, m1, w1)) =
      (p : ℕ) × (get_elem? m.producers (m.current_producer % length m.producers) ≡ some p)
      × (calls : List (ℕ × Bool)) × (attempts w1 ≡ attempts w ++ calls)
      × Attempted (candidates m p) ok calls
      × (m1 ≡ record m { current_producer = (m.current_producer + 1) % 2 ^ 64 })

  get_elem?-below : (ps : List ℕ) (i : ℕ) → i < length ps → (p : ℕ) × (get_elem? ps i ≡ some p)
  get_elem?-below [] i h = absurd (omega arith)
  get_elem?-below (p ∷ ps) zero h = (p, refl)
  get_elem?-below (p ∷ ps) (suc i) h = get_elem?-below ps i (omega arith)

  turn_index_small : (counter k : ℕ) → counter < 2 ^ 63 → turn_index counter k ≡ some (counter % k)
  unfolding turn_index
  turn_index_small counter k h = rw (lt→ltb counter (2 ^ 63) h) refl

  publish_with_load_balancing-Delivers :
      {H : Type 0} (m : NsqManager H) (topic : String) (body : List ℕ) (w : World) (p : ℕ)
      → turn_index m.current_producer (length m.producers)
        ≡ some (m.current_producer % length m.producers)
      → get_elem? m.producers (m.current_producer % length m.producers) ≡ some p
      → ltb 1 (length m.producers) ≡ true
      → Delivers m topic body w (publish_with_load_balancing n m topic body w)
  unfolding publish_with_load_balancing
  publish_with_load_balancing-Delivers m topic body w p turn found many =
      let logged = l.attempts-publish p topic body w in
      let w1 = (n.publish p topic body w).1 in
      elim (Bool-cases (n.publish p topic body w).0) [
        | inl ok ↦
            simp (turn, found, publish_with_load_balancing, ok)
              (
                p,
                refl,
                (p, true) ∷ [],
                logged ∙ rw ok refl,
                first-accepted m.config.failover_enabled p (others p m.producers),
                refl,
              )
        | inr down ↦ elim (Bool-cases m.config.failover_enabled) [
          | inr alone ↦
              simp (turn, found, publish_with_load_balancing, down, alone)
                (p, refl, (p, false) ∷ [], logged ∙ rw down refl, refused exhausted, refl)
          | inl failover ↦
              let (calls, rest, tried) = try_others-Attempted p m.producers topic body w1 in
              simp (turn, found, publish_with_load_balancing, down, failover, many)
                (
                  p,
                  refl,
                  (p, false) ∷ calls,
                  rest
                      ∙ ap (λ k. k ++ calls) (logged ∙ rw down refl)
                      ∙ append_assoc (attempts w) ((p, false) ∷ []) calls,
                  refused tried,
                  refl,
                )
        ]
      ]

  -- Publish with load balancing never panics while its counter is below 2 ^ 63, and moves it on. It
  -- asks the producer at the counter's remainder; where that one fails and failover is enabled, the
  -- others in their order, until one takes the message. It reports an error only if all failed.
  pub publish-Delivers :
      {H : Type 0} (m : NsqManager H) (topic : String) (body : List ℕ) (w : World)
      → m.cluster ≡ true
      → m.config.load_balancing ≡ true
      → 1 < length m.producers
      → m.current_producer < 2 ^ 63
      → Delivers m topic body w (publish n m topic body w)
  unfolding publish
  publish-Delivers m topic body w cluster balanced many small =
      let (p, found) =
        get_elem?-below m.producers (m.current_producer % length m.producers) (grind arith) in
      let many' = lt→ltb 1 (length m.producers) many in
      simp (cluster, balanced, many', publish)
        (publish_with_load_balancing-Delivers m topic body w p
          (turn_index_small m.current_producer (length m.producers) small) found many')
