-- ===== src/Queue/Examples.antt =====
-- Runs of the manager of internal/mq over producers in memory.
use cogame.Base.{
  ℕ, ◌≤◌, ◌==◌, Bool, true, false, not, List, [], ◌∷◌, ◌++◌, Option, none, some, length, ◌≡◌, refl,
  arith, if◌then◌else◌, eq_of_some,
}
use cogame.Queue.Nsq.{Nsq, NsqLaws}
use cogame.Queue.Manager.{NsqConfig, NsqManager, new_nsq_manager, publish, started_with}
use cogame.Queue.Starting.{Started, new_nsq_manager-Started}
use cogame.Queue.Publishing.{Delivers, publish-Delivers}

-- Whether each producer runs, the last one first, and the calls of Publish.
pub record Memory : Type 0 where
  pub producers : List Bool
  pub log : List (ℕ × Bool)

abbrev pub running : List Bool → ℕ → Bool
running [] p = false
running (b ∷ bs) p = if length bs == p then b else running bs p

abbrev pub stopped : ℕ → List Bool → List Bool
stopped p [] = []
stopped p (b ∷ bs) = (if length bs == p then false else b) ∷ stopped p bs

length-stopped : (p : ℕ) (bs : List Bool) → length (stopped p bs) ≡ length bs
length-stopped p [] = refl
length-stopped p (b ∷ bs) = omega (arith, length-stopped p bs)

running-stopped :
    (p q : ℕ) (bs : List Bool) → running (stopped p bs) q ≡ (if p == q then false else running bs q)
running-stopped p q [] = ground arith
running-stopped p q (b ∷ bs) = ground (arith, length-stopped p bs, running-stopped p q bs)

running-beyond : (bs : List Bool) (p : ℕ) → length bs ≤ p → running bs p ≡ false
running-beyond [] p h = refl
running-beyond (b ∷ bs) p h = ground (arith, running-beyond bs p)

-- Every producer answers a Ping; a Publish to the first one made fails.
abbrev pub memory_nsq : Nsq
memory_nsq = record {
  World = Memory;
  new_producer =
      λ address w. (some (length w.producers), record w { producers = true ∷ w.producers });
  ping = λ p w. (true, w);
  stop = λ p w. record w { producers = stopped p w.producers };
  publish = λ p topic body w. (not (p == 0), record w { log = w.log ++ ((p, not (p == 0)) ∷ []) });
  deferred_publish = λ p topic delay body w. (true, w);
  new_consumer = λ topic channel w. (some 7, w);
  connect_lookupd = λ c address w. (true, w);
  stop_consumer = λ c w. w;
}

fresh :
    (w : Memory) (p : ℕ)
    → ◌≡◌ {A = Option ℕ} (some (length w.producers)) (some p)
    → running w.producers p ≡ false
fresh w p e = running-beyond w.producers p (omega (arith, eq_of_some e))

made :
    (w : Memory) (p q : ℕ)
    → ◌≡◌ {A = Option ℕ} (some (length w.producers)) (some p)
    → running (true ∷ w.producers) q ≡ (if p == q then true else running w.producers q)
made w p q e = ground (arith, eq_of_some e)

unmade :
    (w : Memory) (q : ℕ)
    → ◌≡◌ {A = Option ℕ} (some (length w.producers)) none
    → running (true ∷ w.producers) q ≡ running w.producers q
unmade w q e = ground (arith, e)

pub memory_laws : NsqLaws memory_nsq
memory_laws = record {
  runs = λ w. running w.producers;
  attempts = λ w. w.log;
  new_producer_fresh = λ address w p e. fresh w p e;
  runs-new_producer = λ address w p q e. made w p q e;
  runs-no_producer = λ address w q e. unmade w q e;
  runs-ping = λ p w q. refl;
  runs-stop = λ p w q. running-stopped p q w.producers;
  runs-stop_consumer = λ c w q. refl;
  attempts-publish = λ p topic body w. refl;
}

abbrev pub nothing_yet : Memory
nothing_yet = record { producers = []; log = [] }

abbrev two_nodes : NsqConfig
two_nodes = record {
  nsqd_address = "";
  nsqlookupd_address = "a:4161";
  cluster_mode = true;
  nsqd_addresses = "a:4150" ∷ "b:4150" ∷ [];
  nsqlookupd_addresses = "a:4161" ∷ [];
  load_balancing = true;
  failover_enabled = true;
}

abbrev two_producers : NsqManager ℕ
two_producers = started_with two_nodes 0 (0 ∷ 1 ∷ [])

abbrev both_run : Memory
both_run = record { producers = true ∷ true ∷ []; log = [] }

two_nodes-new_nsq_manager :
    new_nsq_manager memory_nsq two_nodes nothing_yet ≡ (some two_producers, both_run)
unfolding new_nsq_manager
two_nodes-new_nsq_manager = refl

new_nsq_manager-Started_example :
    Started memory_nsq memory_laws ℕ nothing_yet
      (new_nsq_manager memory_nsq {H = ℕ} two_nodes nothing_yet).0
      (new_nsq_manager memory_nsq {H = ℕ} two_nodes nothing_yet).1
new_nsq_manager-Started_example =
    new_nsq_manager-Started memory_nsq memory_laws ℕ two_nodes nothing_yet

-- The first producer fails, and the second takes the message.
publish-Delivers_example :
    Delivers memory_nsq memory_laws two_producers "t"
      (1 ∷ [])
      both_run
      (publish memory_nsq two_producers "t" (1 ∷ []) both_run)
publish-Delivers_example =
    publish-Delivers memory_nsq memory_laws two_producers "t" (1 ∷ []) both_run refl refl
      (omega arith) (omega arith)
