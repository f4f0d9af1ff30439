-- ===== src/Queue/Nsq.antt =====
-- The NSQ client, github.com/nsqio/go-nsq, as internal/mq/nsq_core.go calls it.
use cogame.Base.{
  ℕ, ◌==◌, String, Bool, true, false, List, [], ◌∷◌, ◌++◌, Option, none, some, ◌≡◌, if◌then◌else◌,
}

-- Producers and consumers are pointers, here numbers; a Bool is whether there was no error. A stop
-- of a consumer is waited for.
pub record Nsq : Type 1 where
  pub World : Type 0
  pub new_producer : String → World → Option ℕ × World
  pub ping : ℕ → World → Bool × World
  pub stop : ℕ → World → World
  pub publish : ℕ → String → List ℕ → World → Bool × World
  pub deferred_publish : ℕ → String → ℕ → List ℕ → World → Bool × World
  pub new_consumer : String → String → World → Option ℕ × World
  pub connect_lookupd : ℕ → String → World → Bool × World
  pub stop_consumer : ℕ → World → World

-- `runs w p`: producer `p` was made and not stopped. `attempts w` are the calls of Publish so far,
-- with whether each had no error.
pub record NsqLaws (n : Nsq) : Type 0 where
  pub runs : n.World → ℕ → Bool
  pub attempts : n.World → List (ℕ × Bool)
  pub new_producer_fresh :
      (address : String) (w : n.World) (p : ℕ)
      → (n.new_producer address w).0 ≡ some p
      → runs w p ≡ false
  pub runs-new_producer :
      (address : String) (w : n.World) (p q : ℕ)
      → (n.new_producer address w).0 ≡ some p
      → runs (n.new_producer address w).1 q ≡ (if p == q then true else runs w q)
  pub runs-no_producer :
      (address : String) (w : n.World) (q : ℕ)
      → (n.new_producer address w).0 ≡ none
      → runs (n.new_producer address w).1 q ≡ runs w q
  pub runs-ping : (p : ℕ) (w : n.World) (q : ℕ) → runs (n.ping p w).1 q ≡ runs w q
  pub runs-stop :
      (p : ℕ) (w : n.World) (q : ℕ) → runs (n.stop p w) q ≡ (if p == q then false else runs w q)
  pub runs-stop_consumer : (c : ℕ) (w : n.World) (q : ℕ) → runs (n.stop_consumer c w) q ≡ runs w q
  pub attempts-publish :
      (p : ℕ) (topic : String) (body : List ℕ) (w : n.World)
      → attempts (n.publish p topic body w).1
        ≡ attempts w ++ ((p, (n.publish p topic body w).0) ∷ [])
