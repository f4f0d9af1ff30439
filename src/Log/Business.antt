-- ===== src/Log/Business.antt =====
-- internal/logger/logger.go: the loggers of business, of a context, of metrics and of audits.
use cogame.Base.{ℕ, ℤ, String, Bool, List, [], ◌∷◌, ◌++◌, Option}
use cogame.Base.Dict
use cogame.Log.Zap.{Level, Value, text, uint, flag, uints, duration, float, time, Entry, Zap}
use cogame.Log.Logger.{Logger, info, log_embedded}
use cogame.Log.Global.{Globals, with_global_field}
use cogame.Log.Kinds.{field, fields_of, label_fields}

module _ (z : Zap) where
  open z use {Any}

  unfoldable pub new_business_logger : Globals z → Option (Logger z) × Globals z
  unfolding with_global_field
  new_business_logger = with_global_field z "component" (text "business")

  unfoldable pub log_user_login :
      ℕ → String → String → String → List String → Logger z → Option (Entry Any)
  unfolding info
  log_user_login user_id username platform client_ip calls =
      info z "User login"
        (field "user_id" (uint user_id)
          ∷ field "username" (text username)
          ∷ field "platform" (text platform)
          ∷ field "client_ip" (text client_ip)
          ∷ [])
        ("BusinessLogger.LogUserLogin" ∷ calls)

  unfoldable pub log_user_logout : ℕ → ℤ → List String → Logger z → Option (Entry Any)
  unfolding info
  log_user_logout user_id online_time calls =
      info z "User logout"
        (field "user_id" (uint user_id) ∷ field "online_time" (duration online_time) ∷ [])
        ("BusinessLogger.LogUserLogout" ∷ calls)

  unfoldable pub log_game_start : ℕ → String → List ℕ → List String → Logger z → Option (Entry Any)
  unfolding info
  log_game_start room_id game_type players calls =
      info z "Game started"
        (field "room_id" (uint room_id)
          ∷ field "game_type" (text game_type)
          ∷ field "players" (uints players)
          ∷ [])
        ("BusinessLogger.LogGameStart" ∷ calls)

  unfoldable pub log_game_end : ℕ → ℕ → ℤ → String → List String → Logger z → Option (Entry Any)
  unfolding info
  log_game_end room_id winner took reason calls =
      info z "Game ended"
        (field "room_id" (uint room_id)
          ∷ field "winner" (uint winner)
          ∷ field "duration" (duration took)
          ∷ field "reason" (text reason)
          ∷ [])
        ("BusinessLogger.LogGameEnd" ∷ calls)

  pub record StructuredLogger : Type 0 where
    pub logger : Logger z
    pub context : List (String × Value Any)

  unfoldable pub set_context : String → Value Any → StructuredLogger → StructuredLogger
  set_context key value sl = record sl { context = Dict.insert key value sl.context }

  unfoldable pub log_with_context :
      Level
      → String
      → List (String × Value Any)
      → List String
      → StructuredLogger
      → Option (Entry Any)
  log_with_context level msg additional_fields calls sl =
      log_embedded z level msg (fields_of sl.context ++ fields_of additional_fields)
        ("StructuredLogger.LogWithContext" ∷ calls) sl.logger

  unfoldable pub new_metrics_logger : Globals z → Option (Logger z) × Globals z
  unfolding with_global_field
  new_metrics_logger = with_global_field z "component" (text "metrics")

  unfoldable pub log_metric :
      String → ℕ → List (String × String) → List String → Logger z → Option (Entry Any)
  unfolding info
  log_metric name value labels calls =
      info z "Metric recorded"
        (field "metric_name" (text name) ∷ field "value" (float value) ∷ label_fields labels)
        ("MetricsLogger.LogMetric" ∷ calls)

  unfoldable pub new_audit_logger : Globals z → Option (Logger z) × Globals z
  unfolding with_global_field
  new_audit_logger = with_global_field z "component" (text "audit")

  unfoldable pub log_audit_event :
      ℕ → ℕ → String → String → Bool → Value Any → List String → Logger z → Option (Entry Any)
  unfolding info
  log_audit_event now user_id action resource success details calls =
      info z "Audit event"
        (field "user_id" (uint user_id)
          ∷ field "action" (text action)
          ∷ field "resource" (text resource)
          ∷ field "success" (flag success)
          ∷ field "details" details
          ∷ field "audit_time" (time now)
          ∷ [])
        ("AuditLogger.LogAuditEvent" ∷ calls)
