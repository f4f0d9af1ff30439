-- ===== src/Monitoring/Recorded.antt =====
-- What the metrics of internal/monitoring/monitoring.go hold after calls that record in them.
use cogame.Base.{
  ℕ, ◌+◌, ℤ, pos, String, Bool, List, [], ◌∷◌, Option, none, some, ◌≡◌, refl, sym, ◌∙◌, ap,
}
use cogame.Monitoring.Metrics.{
  Prometheus, PrometheusLaws, MonitoringManager, new_metrics_collector, describe, record_message,
  record_error, set_connection_count, set_actor_count, set_db_connections, new_monitoring_manager,
}

pub data Call : Type 0 where
  message : Call
  connections : ℤ → Call
  actors : ℤ → Call

abbrev pub call : (p : Prometheus) → Call → MonitoringManager p → Option (MonitoringManager p)
call p message mm = record_message p mm
call p (connections n) mm = set_connection_count p n mm
call p (actors n) mm = set_actor_count p n mm

-- A panic ends the run.
unfoldable pub calls_of :
    (p : Prometheus) → List Call → MonitoringManager p → Option (MonitoringManager p)
calls_of p [] mm = some mm
calls_of p (c ∷ cs) mm = elim (call p c mm) [ none ↦ none | some mm1 ↦ calls_of p cs mm1 ]

-- The messages are counted on from a number; of the other two the last value stands.
abbrev pub messages_after : ℕ → List Call → ℕ
messages_after n [] = n
messages_after n (message ∷ cs) = messages_after (n + 1) cs
messages_after n (connections k ∷ cs) = messages_after n cs
messages_after n (actors k ∷ cs) = messages_after n cs

abbrev pub connections_after : ℤ → List Call → ℤ
connections_after last [] = last
connections_after last (message ∷ cs) = connections_after last cs
connections_after last (connections k ∷ cs) = connections_after k cs
connections_after last (actors k ∷ cs) = connections_after last cs

abbrev pub actors_after : ℤ → List Call → ℤ
actors_after last [] = last
actors_after last (message ∷ cs) = actors_after last cs
actors_after last (connections k ∷ cs) = actors_after last cs
actors_after last (actors k ∷ cs) = actors_after k cs

module _ (p : Prometheus) (l : PrometheusLaws p) (t i : String) where
  open p use {GaugeVec, CounterVec}

  abbrev pub node : List String
  node = t ∷ i ∷ []

  abbrev pub Gauge : Option GaugeVec → ℤ → Type 0
  Gauge o n = (v : GaugeVec) × (o ≡ some v) × (l.gauge_labels v ≡ 2) × (l.gauge_value v node ≡ n)

  abbrev pub Counter : Option CounterVec → ℕ → Type 0
  Counter o n =
      (v : CounterVec) × (o ≡ some v) × (l.counter_labels v ≡ 2) × (l.counter_value v node ≡ n)

  -- The node's numbers, and that errors and database connections cannot be recorded.
  pub record Holds (mm : MonitoringManager p) (n : ℕ) (c a : ℤ) : Type 0 where
    pub type_is : mm.node_type ≡ t
    pub id_is : mm.node_id ≡ i
    pub messages : Counter mm.metrics.message_count n
    pub conns : Gauge mm.metrics.connection_count c
    pub acts : Gauge mm.metrics.actor_count a
    pub errors : Counter mm.metrics.error_count 0
    pub db_unset : mm.metrics.db_connections ≡ none

  record_message-Holds :
      (mm : MonitoringManager p) (n : ℕ) (c a : ℤ)
      → Holds mm n c a
      → (mm1 : MonitoringManager p) × (record_message p mm ≡ some mm1) × Holds mm1 (n + 1) c a
  unfolding record_message
  record_message-Holds mm n c a h =
      let (v, is_v, two, counted) = h.messages in
      let (v1, done, kept, more) = l.inc_labels node v (sym two) in
      (
        record mm { metrics = record (mm.metrics) { message_count = some v1 } },
        rw (h.type_is, h.id_is, is_v, done) refl,
        record {
          type_is = h.type_is;
          id_is = h.id_is;
          messages = (v1, refl, kept ∙ two, more ∙ ap (λ k. k + 1) counted);
          conns = h.conns;
          acts = h.acts;
          errors = h.errors;
          db_unset = h.db_unset;
        },
      )

  set_connection_count-Holds :
      (k : ℤ) (mm : MonitoringManager p) (n : ℕ) (c a : ℤ)
      → Holds mm n c a
      → (mm1 : MonitoringManager p) × (set_connection_count p k mm ≡ some mm1) × Holds mm1 n k a
  unfolding set_connection_count
  set_connection_count-Holds k mm n c a h =
      let (v, is_v, two, was) = h.conns in
      let (v1, done, kept, is_k) = l.set_labels node k v (sym two) in
      (
        record mm { metrics = record (mm.metrics) { connection_count = some v1 } },
        rw (h.type_is, h.id_is, is_v, done) refl,
        record {
          type_is = h.type_is;
          id_is = h.id_is;
          messages = h.messages;
          conns = (v1, refl, kept ∙ two, is_k);
          acts = h.acts;
          errors = h.errors;
          db_unset = h.db_unset;
        },
      )

  set_actor_count-Holds :
      (k : ℤ) (mm : MonitoringManager p) (n : ℕ) (c a : ℤ)
      → Holds mm n c a
      → (mm1 : MonitoringManager p) × (set_actor_count p k mm ≡ some mm1) × Holds mm1 n c k
  unfolding set_actor_count
  set_actor_count-Holds k mm n c a h =
      let (v, is_v, two, was) = h.acts in
      let (v1, done, kept, is_k) = l.set_labels node k v (sym two) in
      (
        record mm { metrics = record (mm.metrics) { actor_count = some v1 } },
        rw (h.type_is, h.id_is, is_v, done) refl,
        record {
          type_is = h.type_is;
          id_is = h.id_is;
          messages = h.messages;
          conns = h.conns;
          acts = (v1, refl, kept ∙ two, is_k);
          errors = h.errors;
          db_unset = h.db_unset;
        },
      )

  calls_of-Holds :
      (cs : List Call) (mm : MonitoringManager p) (n : ℕ) (c a : ℤ)
      → Holds mm n c a
      → (mm1 : MonitoringManager p) × (calls_of p cs mm ≡ some mm1)
        × Holds mm1 (messages_after n cs) (connections_after c cs) (actors_after a cs)
  unfolding calls_of
  calls_of-Holds [] mm n c a h = (mm, refl, h)
  calls_of-Holds (message ∷ cs) mm n c a h =
      let (mm1, done, h1) = record_message-Holds mm n c a h in
      let (mm2, ran, h2) = calls_of-Holds cs mm1 (n + 1) c a h1 in
      (mm2, rw (done, calls_of) ran, h2)
  calls_of-Holds (connections k ∷ cs) mm n c a h =
      let (mm1, done, h1) = set_connection_count-Holds k mm n c a h in
      let (mm2, ran, h2) = calls_of-Holds cs mm1 n k a h1 in (mm2, rw (done, calls_of) ran, h2)
  calls_of-Holds (actors k ∷ cs) mm n c a h =
      let (mm1, done, h1) = set_actor_count-Holds k mm n c a h in
      let (mm2, ran, h2) = calls_of-Holds cs mm1 n c k h1 in (mm2, rw (done, calls_of) ran, h2)

  new-Holds :
      Holds
        (record { metrics = new_metrics_collector p; node_type = t; node_id = i })
        0
        (pos 0)
        (pos 0)
  unfolding new_metrics_collector
  new-Holds = record {
    type_is = refl;
    id_is = refl;
    messages = (p.new_counter 2, refl, l.labels-new_counter 2, l.value-new_counter 2 node);
    conns = (p.new_gauge 2, refl, l.labels-new_gauge 2, l.value-new_gauge 2 node);
    acts = (p.new_gauge 2, refl, l.labels-new_gauge 2, l.value-new_gauge 2 node);
    errors = (p.new_counter 2, refl, l.labels-new_counter 2, l.value-new_counter 2 node);
    db_unset = refl;
  }

  record_error_panics :
      (error : String) (mm : MonitoringManager p) (n : ℕ) (c a : ℤ)
      → Holds mm n c a
      → record_error p error mm ≡ none
  unfolding record_error
  record_error_panics error mm n c a h =
      let (v, is_v, two, none_counted) = h.errors in
      rw (is_v, l.inc_panics (mm.node_type ∷ mm.node_id ∷ error ∷ []) v (rw two refl)) refl

  -- Of a manager with new metrics, RecordMessage, SetConnectionCount and SetActorCount never panic,
  -- and count the messages and keep the last numbers. After them RecordError panics, whatever the
  -- error, and so does SetDBConnections. NewMonitoringManager panics, since the collector's
  -- description does.
  pub calls_of-records :
      (cs : List Call) (error : String) (k : ℤ) (valid : Bool)
      → ((mm : MonitoringManager p) × (calls_of p cs
              (record { metrics = new_metrics_collector p; node_type = t; node_id = i })
            ≡ some mm)
          × Holds mm (messages_after 0 cs) (connections_after (pos 0) cs) (actors_after (pos 0) cs)
          × (record_error p error mm ≡ none)
          × (set_db_connections p k mm ≡ none))
        × (new_monitoring_manager p valid t i ≡ none)
  unfolding new_monitoring_manager set_db_connections new_metrics_collector describe
  calls_of-records cs error k valid =
      let start : MonitoringManager p = record {
        metrics = new_metrics_collector p;
        node_type = t;
        node_id = i;
      } in
      let (mm, ran, h) = calls_of-Holds cs start 0 (pos 0) (pos 0) new-Holds in
      ((mm, ran, h, record_error_panics error mm _ _ _ h, rw h.db_unset refl), refl)
