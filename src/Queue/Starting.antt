-- ===== src/Queue/Starting.antt =====
-- Which producers run after NewNSQManager and Close of internal/mq/nsq_core.go.
use cogame.Base.{
  ℕ, ◌==◌, ==_refl, String, Bool, true, false, ◌||◌, ◌&&◌, not, List, [], ◌∷◌, ◌++◌, Option, none,
  some, ◌≡◌, refl, ◌∙◌, subst, inl, inr, arith, if◌then◌else◌, Bool-cases, Option-cases,
}
use cogame.Queue.Nsq.{Nsq, NsqLaws}
use cogame.Queue.Manager.{
  NsqConfig, NsqManager, close_producers, init_single_mode, connect_all, init_cluster_mode,
  new_nsq_manager, stop_consumers, close_manager, manager_of, with_main,
}

abbrev pub mem : ℕ → List ℕ → Bool
mem q [] = false
mem q (p ∷ ps) = (p == q) || mem q ps

mem-append : (q : ℕ) (ps qs : List ℕ) → mem q (ps ++ qs) ≡ (mem q ps || mem q qs)
mem-append q [] qs = refl
mem-append q (p ∷ ps) qs = ground (arith, mem-append q ps qs)

module _ (n : Nsq) (l : NsqLaws n) where
  open n use {World}
  open l use {runs}

  runs-close_producers :
      (ps : List ℕ) (w : World) (q : ℕ)
      → runs (close_producers n ps w) q ≡ (if mem q ps then false else runs w q)
  unfolding close_producers
  runs-close_producers [] w q = refl
  runs-close_producers (p ∷ ps) w q =
      ground (arith, runs-close_producers ps (n.stop p w) q, l.runs-stop p w q)

  -- Of the producers that run, `ps` are new.
  abbrev Runs : World → List ℕ → World → Type 0
  Runs before ps w =
      (q : ℕ)
      → (runs w q ≡ (if mem q ps then true else runs before q))
        × (mem q ps ≡ true → runs before q ≡ false)

  closed-Runs :
      (before : World) (ps : List ℕ) (w : World)
      → Runs before ps w
      → (q : ℕ) → runs (close_producers n ps w) q ≡ runs before q
  closed-Runs before ps w h q = ground (arith, runs-close_producers ps w q, h q)

  added-Runs :
      (before : World) (ps : List ℕ) (address : String) (w : World) (p : ℕ)
      → Runs before ps w
      → (n.new_producer address w).0 ≡ some p
      → Runs before (ps ++ (p ∷ [])) (n.ping p (n.new_producer address w).1).1
  added-Runs before ps address w p h made q = ground (
    arith,
    h q,
    mem-append q ps (p ∷ []),
    l.runs-ping p (n.new_producer address w).1 q,
    l.runs-new_producer address w p q made,
    l.new_producer_fresh address w p made,
  )

  dropped-Runs :
      (before : World) (ps : List ℕ) (address : String) (w : World) (p : ℕ)
      → Runs before ps w
      → (n.new_producer address w).0 ≡ some p
      → Runs before ps (n.stop p (n.ping p (n.new_producer address w).1).1)
  dropped-Runs before ps address w p h made q = ground (
    arith,
    h q,
    l.runs-stop p (n.ping p (n.new_producer address w).1).1 q,
    l.runs-ping p (n.new_producer address w).1 q,
    l.runs-new_producer address w p q made,
    l.new_producer_fresh address w p made,
  )

  unmade-Runs :
      (before : World) (ps : List ℕ) (address : String) (w : World)
      → Runs before ps w
      → (n.new_producer address w).0 ≡ none
      → Runs before ps (n.new_producer address w).1
  unmade-Runs before ps address w h made q =
      ground (arith, h q, l.runs-no_producer address w q made)

  -- What runs after an attempt that gives producers, or gives none and leaves no new ones.
  abbrev Left : World → Option (List ℕ) → World → Type 0
  Left before none w = (q : ℕ) → runs w q ≡ runs before q
  Left before (some ps) w = Runs before ps w

  connect_all-Left :
      (before : World) (failover : Bool) (addresses : List String) (ps : List ℕ) (w : World)
      → Runs before ps w
      → Left before
          (connect_all n failover addresses ps w).0
          (connect_all n failover addresses ps w).1
  unfolding connect_all
  connect_all-Left before failover [] ps w h = h
  connect_all-Left before failover (address ∷ addresses) ps w h =
      elim (Option-cases (n.new_producer address w).0) [
        | inl made ↦
            rw (made, connect_all)
              (closed-Runs before ps _ (unmade-Runs before ps address w h made))
        | inr (p, made) ↦
            let w1 = (n.new_producer address w).1 in
            let w2 = (n.ping p w1).1 in
            elim (Bool-cases (n.ping p w1).0) [
              | inl alive ↦
                  rw (made, connect_all, alive)
                    (connect_all-Left before failover addresses (ps ++ (p ∷ [])) w2
                      (added-Runs before ps address w p h made))
              | inr dead ↦ elim (Bool-cases failover) [
                | inl on ↦
                    rw (made, connect_all, dead, on)
                      (connect_all-Left before failover addresses ps (n.stop p w2)
                        (dropped-Runs before ps address w p h made))
                | inr off ↦
                    rw (made, connect_all, dead, off)
                      (closed-Runs before ps _ (dropped-Runs before ps address w p h made))
              ]
            ]
      ]

  nothing-Runs : (before : World) → Runs before [] before
  nothing-Runs before q = ground arith

module _ (n : Nsq) (l : NsqLaws n) (H : Type 0) where
  open n use {World}
  open l use {runs}

  -- A manager has its producers, the first of which is the main one, and none but them are new.
  abbrev pub Started : World → Option (NsqManager H) → World → Type 0
  Started before none w = (q : ℕ) → runs w q ≡ runs before q
  Started before (some m) w =
      ((rest : List ℕ) × (m.producers ≡ m.producer ∷ rest)) × Runs n l before m.producers w

  manager_of-Left :
      (config : NsqConfig) (before : World) (made : Option (List ℕ)) (w : World)
      → Left n l before made w
      → Started before (manager_of {H = H} config (with_main made)) w
  manager_of-Left config before none w h = h
  manager_of-Left config before (some []) w h = λ q. (h q).0
  manager_of-Left config before (some (p ∷ rest)) w h = ((rest, refl), h)

  init_single_mode-Started :
      (config : NsqConfig) (before : World)
      → Started before
          (manager_of {H = H} config (init_single_mode n config before).0)
          (init_single_mode n config before).1
  unfolding init_single_mode
  init_single_mode-Started config before =
      let address = config.nsqd_address in
      elim (Option-cases (n.new_producer address before).0) [
        | inl made ↦ rw (made, init_single_mode) (λ q. l.runs-no_producer address before q made)
        | inr (p, made) ↦ elim (Bool-cases (n.ping p (n.new_producer address before).1).0) [
          | inl alive ↦
              rw (made, init_single_mode, alive)
                ((
                  ([], refl),
                  added-Runs n l before [] address before p (nothing-Runs n l before) made,
                ))
          | inr dead ↦
              rw (made, init_single_mode, dead)
                (λ q.
                  (dropped-Runs n l before [] address before p (nothing-Runs n l before) made q).0)
        ]
      ]

  init_cluster_mode-Started :
      (config : NsqConfig) (before : World) (addresses : List String)
      → config.nsqd_addresses ≡ addresses
      → Started before
          (manager_of {H = H} config (init_cluster_mode n config before).0)
          (init_cluster_mode n config before).1
  unfolding init_cluster_mode
  init_cluster_mode-Started config before [] e = simp (e, init_cluster_mode) (λ q. refl)
  init_cluster_mode-Started config before (a ∷ as') e =
      simp (e, init_cluster_mode)
        (manager_of-Left config before _ _ (
          connect_all-Left n l before config.failover_enabled (a ∷ as') [] before
            (nothing-Runs n l before)))

  -- Whatever nodes answer, NewNSQManager gives a manager whose producers run, the first of them the
  -- main one, and makes none run but them; or an error, and every producer that it made is stopped.
  pub new_nsq_manager-Started :
      (config : NsqConfig) (before : World)
      → Started before
          (new_nsq_manager n {H = H} config before).0
          (new_nsq_manager n {H = H} config before).1
  unfolding new_nsq_manager
  new_nsq_manager-Started config before = elim (Bool-cases config.cluster_mode) [
    | inr single ↦ simp (single, new_nsq_manager) (init_single_mode-Started config before)
    | inl cluster ↦
        simp (cluster, new_nsq_manager)
          (init_cluster_mode-Started config before config.nsqd_addresses refl)
  ]

  runs-stop_consumers :
      (cs : List (String × ℕ)) (w : World) (q : ℕ) → runs (stop_consumers n cs w) q ≡ runs w q
  unfolding stop_consumers
  runs-stop_consumers [] w q = refl
  runs-stop_consumers ((key, c) ∷ cs) w q =
      runs-stop_consumers cs (n.stop_consumer c w) q ∙ l.runs-stop_consumer c w q

  -- Close stops the main producer, and leaves every other one that the manager was started with
  -- running.
  pub close_manager-leaves :
      (config : NsqConfig) (before : World) (m : NsqManager H)
      → (new_nsq_manager n {H = H} config before).0 ≡ some m
      → (q : ℕ)
      → runs (close_manager n m (new_nsq_manager n {H = H} config before).1) q
        ≡ (if mem q m.producers && not (m.producer == q) then true else runs before q)
  unfolding close_manager
  close_manager-leaves config before m made q =
      let w = (new_nsq_manager n {H = H} config before).1 in
      let h = new_nsq_manager-Started config before in
      let ((rest, first), running) = subst (λ o. Started before o w) made h in
      ground (
        arith,
        first,
        running q,
        l.runs-stop m.producer (stop_consumers n m.consumers w) q,
        runs-stop_consumers m.consumers w q,
        ==_refl q,
      )
