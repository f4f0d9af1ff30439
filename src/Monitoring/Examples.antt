-- ===== src/Monitoring/Examples.antt =====
-- Runs of the alerts and the metrics of internal/monitoring/monitoring.go.
use cogame.Base.{
  ℕ, ◌+◌, ◌==◌, ℤ, String, eq_iff, pos, true, List, [], ◌∷◌, length, Option, some, none, ◌≡◌, refl,
  arith, if◌then◌else◌,
}
use cogame.Base.Dict
use Prim.Native.String.{◌++◌ as str_append}
use cogame.Monitoring.Metrics.{
  Prometheus, PrometheusLaws, MonitoringManager, new_metrics_collector, record_error,
  set_db_connections, new_monitoring_manager,
}
use cogame.Monitoring.Recorded.{Call, message, connections, calls_of, Holds, calls_of-records}
use cogame.Monitoring.Alerts.{AlertRule, AlertManager, check_rules}
use cogame.Monitoring.Cooldown.{timestamps, check_times}

abbrev cpu_rule : AlertRule
cpu_rule = record {
  name = "high_cpu_usage";
  condition = λ now. true;
  message = "CPU over 80%";
  level = pos 1;
  cooldown = 50;
  last_alert = 0;
}

abbrev watching : AlertManager
watching = record { rules = cpu_rule ∷ []; alert_channels = [] ∷ []; history = [] }

abbrev ticks : List ℕ
ticks = 100 ∷ 130 ∷ 160 ∷ []

alert_times :
    timestamps "high_cpu_usage" (check_times ticks "n1" "lobby" watching).history ≡ 100 ∷ 160 ∷ []
unfolding timestamps check_times check_rules
alert_times = refl

abbrev calls : List Call
calls = message ∷ connections (pos 4) ∷ message ∷ connections (pos 6) ∷ []

-- Vectors as lists of values.
record Vector (V : Type 0) : Type 0 where
  names : ℕ
  values : List (String × V)

abbrev label_text : List String → String
label_text [] = ""
label_text (x ∷ xs) = str_append (str_append x ",") (label_text xs)

abbrev set_value : {V : Type 0} → List String → V → Vector V → Option (Vector V)
set_value labels n v =
    if length labels == v.names
    then some (record v { values = Dict.insert (label_text labels) n v.values })
    else none

abbrev value_of : {V : Type 0} → V → Vector V → List String → V
value_of zero_value v labels = elim (Dict.lookup (label_text labels) v.values) [
  | none ↦ zero_value
  | some n ↦ n
]

abbrev vectors : Prometheus
vectors = record {
  GaugeVec = Vector ℤ;
  CounterVec = Vector ℕ;
  SummaryVec = ℕ;
  new_gauge = λ n. record { names = n; values = [] };
  new_counter = λ n. record { names = n; values = [] };
  new_summary = λ n. n;
  set = λ labels n v. set_value labels n v;
  inc = λ labels v. set_value labels (value_of 0 v labels + 1) v;
}

set_value-value_of :
    {V : Type 0} (z : V) (labels : List String) (n : V) (v : Vector V)
    → length labels ≡ v.names
    → (v1 : Vector V) × (set_value labels n v ≡ some v1)
      × (v1.names ≡ v.names)
      × (value_of z v1 labels ≡ n)
set_value-value_of z labels n v h = (
  record v { values = Dict.insert (label_text labels) n v.values },
  ground (arith, h),
  refl,
  ground (
    arith,
    Dict.lookup-insert (label_text labels) (label_text labels) n v.values,
    eq_iff (label_text labels) (label_text labels),
  ),
)

vectors_laws : PrometheusLaws vectors
unfolding Dict.lookup
vectors_laws = record {
  gauge_labels = λ v. v.names;
  gauge_value = λ v ls. value_of (pos 0) v ls;
  counter_labels = λ v. v.names;
  counter_value = λ v ls. value_of 0 v ls;
  labels-new_gauge = λ n. refl;
  value-new_gauge = λ n ls. refl;
  labels-new_counter = λ n. refl;
  value-new_counter = λ n ls. refl;
  set_labels = λ ls k v h. set_value-value_of (pos 0) ls k v h;
  inc_labels = λ ls v h. set_value-value_of 0 ls (value_of 0 v ls + 1) v h;
  inc_panics = λ ls v h. rw h refl;
}

calls_of-records_example :
    ((mm : MonitoringManager vectors) × (calls_of vectors calls
          (record { metrics = new_metrics_collector vectors; node_type = "lobby"; node_id = "n1" })
        ≡ some mm)
      × Holds vectors vectors_laws "lobby" "n1" mm 2 (pos 6) (pos 0)
      × (record_error vectors "timeout" mm ≡ none)
      × (set_db_connections vectors (pos 3) mm ≡ none))
    × (new_monitoring_manager vectors true "lobby" "n1" ≡ none)
calls_of-records_example =
    calls_of-records vectors vectors_laws "lobby" "n1" calls "timeout" (pos 3) true
