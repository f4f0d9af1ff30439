-- ===== src/Monitoring/Metrics.antt =====
-- internal/monitoring/monitoring.go: MetricsCollector and the methods of MonitoringManager that
-- record in it. Prometheus is a parameter, with what its documentation says of vectors in
-- PrometheusLaws. A pointer that is not set is `none`, and so is a panic. The metrics of the process,
-- which updateSystemMetrics sets, stay as they were made.
use cogame.Base.{
  ℕ, ◌+◌, ◌==◌, ℤ, pos, String, Bool, true, false, ◌&&◌, List, [], ◌∷◌, Option, none, some, length,
  map_option, ◌≡◌, if◌then◌else◌,
}

-- A vector of a number of label names, and its calls WithLabelValues(labels).Set and .Inc. Numbers
-- stand for the floats they are converted to.
pub record Prometheus : Type 1 where
  pub GaugeVec : Type 0
  pub CounterVec : Type 0
  pub SummaryVec : Type 0
  pub new_gauge : ℕ → GaugeVec
  pub new_counter : ℕ → CounterVec
  pub new_summary : ℕ → SummaryVec
  pub set : List String → ℤ → GaugeVec → Option GaugeVec
  pub inc : List String → CounterVec → Option CounterVec

-- WithLabelValues panics where there are not as many values as label names. What was never set or
-- counted reads as 0.
pub record PrometheusLaws (p : Prometheus) : Type 0 where
  pub gauge_labels : p.GaugeVec → ℕ
  pub gauge_value : p.GaugeVec → List String → ℤ
  pub counter_labels : p.CounterVec → ℕ
  pub counter_value : p.CounterVec → List String → ℕ
  pub labels-new_gauge : (n : ℕ) → gauge_labels (p.new_gauge n) ≡ n
  pub value-new_gauge : (n : ℕ) (ls : List String) → gauge_value (p.new_gauge n) ls ≡ pos 0
  pub labels-new_counter : (n : ℕ) → counter_labels (p.new_counter n) ≡ n
  pub value-new_counter : (n : ℕ) (ls : List String) → counter_value (p.new_counter n) ls ≡ 0
  pub set_labels :
      (ls : List String) (k : ℤ) (v : p.GaugeVec)
      → length ls ≡ gauge_labels v
      → (v1 : p.GaugeVec) × (p.set ls k v ≡ some v1)
        × (gauge_labels v1 ≡ gauge_labels v)
        × (gauge_value v1 ls ≡ k)
  pub inc_labels :
      (ls : List String) (v : p.CounterVec)
      → length ls ≡ counter_labels v
      → (v1 : p.CounterVec) × (p.inc ls v ≡ some v1)
        × (counter_labels v1 ≡ counter_labels v)
        × (counter_value v1 ls ≡ counter_value v ls + 1)
  pub inc_panics :
      (ls : List String) (v : p.CounterVec)
      → (length ls == counter_labels v) ≡ false
      → p.inc ls v ≡ none

abbrev pub is_set : {V : Type 0} → Option V → Bool
is_set none = false
is_set (some v) = true

-- A method of a vector: a pointer that is not set makes it panic.
abbrev pub call_of : {V : Type 0} → (V → Option V) → Option V → Option V
call_of f none = none
call_of f (some v) = f v

module _ (p : Prometheus) where
  open p use {GaugeVec, CounterVec, SummaryVec}

  pub record MetricsCollector : Type 0 where
    pub cpu_usage : Option GaugeVec
    pub memory_usage : Option GaugeVec
    pub goroutines : Option GaugeVec
    pub heap_size : Option GaugeVec
    pub heap_objects : Option GaugeVec
    pub gc_duration : Option SummaryVec
    pub connection_count : Option GaugeVec
    pub actor_count : Option GaugeVec
    pub message_count : Option CounterVec
    pub error_count : Option CounterVec
    pub request_duration : Option SummaryVec
    pub db_connections : Option GaugeVec

  pub record MonitoringManager : Type 0 where
    pub metrics : MetricsCollector
    pub node_type : String
    pub node_id : String

  -- dbConnections is not set.
  unfoldable pub new_metrics_collector : MetricsCollector
  new_metrics_collector = record {
    cpu_usage = some (p.new_gauge 2);
    memory_usage = some (p.new_gauge 2);
    goroutines = some (p.new_gauge 2);
    heap_size = some (p.new_gauge 2);
    heap_objects = some (p.new_gauge 2);
    gc_duration = some (p.new_summary 2);
    connection_count = some (p.new_gauge 2);
    actor_count = some (p.new_gauge 2);
    message_count = some (p.new_counter 2);
    error_count = some (p.new_counter 2);
    request_duration = some (p.new_summary 2);
    db_connections = none;
  }

  -- Describe calls the method of that name of each vector: whether it returns.
  unfoldable pub describe : MetricsCollector → Bool
  describe c =
      is_set c.cpu_usage
      && (is_set c.memory_usage
          && (is_set c.goroutines
              && (is_set c.heap_size
                  && (is_set c.heap_objects
                      && (is_set c.gc_duration
                          && (is_set c.connection_count
                              && (is_set c.actor_count
                                  && (is_set c.message_count
                                      && (is_set c.error_count
                                          && (is_set c.request_duration
                                              && is_set c.db_connections))))))))))

  -- MustRegister calls Describe; `valid` is whether it takes the names of the metrics.
  unfoldable pub new_monitoring_manager : Bool → String → String → Option MonitoringManager
  unfolding new_metrics_collector describe
  new_monitoring_manager valid node_type node_id =
      if describe new_metrics_collector && valid
      then some
          (record { metrics = new_metrics_collector; node_type = node_type; node_id = node_id })
      else none

  unfoldable pub record_message : MonitoringManager → Option MonitoringManager
  record_message mm =
      map_option (λ v. record mm { metrics = record (mm.metrics) { message_count = some v } })
        (call_of (p.inc (mm.node_type ∷ mm.node_id ∷ [])) mm.metrics.message_count)

  unfoldable pub record_error : String → MonitoringManager → Option MonitoringManager
  record_error error_type mm =
      map_option (λ v. record mm { metrics = record (mm.metrics) { error_count = some v } })
        (call_of (p.inc (mm.node_type ∷ mm.node_id ∷ error_type ∷ [])) mm.metrics.error_count)

  unfoldable pub set_connection_count : ℤ → MonitoringManager → Option MonitoringManager
  set_connection_count count mm =
      map_option (λ v. record mm { metrics = record (mm.metrics) { connection_count = some v } })
        (call_of (p.set (mm.node_type ∷ mm.node_id ∷ []) count) mm.metrics.connection_count)

  unfoldable pub set_actor_count : ℤ → MonitoringManager → Option MonitoringManager
  set_actor_count count mm =
      map_option (λ v. record mm { metrics = record (mm.metrics) { actor_count = some v } })
        (call_of (p.set (mm.node_type ∷ mm.node_id ∷ []) count) mm.metrics.actor_count)

  unfoldable pub set_db_connections : ℤ → MonitoringManager → Option MonitoringManager
  set_db_connections count mm =
      map_option (λ v. record mm { metrics = record (mm.metrics) { db_connections = some v } })
        (call_of (p.set (mm.node_type ∷ mm.node_id ∷ []) count) mm.metrics.db_connections)
