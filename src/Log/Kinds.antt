-- ===== src/Log/Kinds.antt =====
-- internal/logger/logger.go: the loggers for one purpose. Each holds a Logger; the fields of a map
-- come in the order in which the range takes it, which for NewGameLogger is the one in the source.
use Prim.Native.String.{◌++◌ as str_append}
use cogame.Base.{ℕ, ℤ, ◌-◌, ◌/◌, pos, String, Bool, List, [], ◌∷◌, ◌++◌, Option, if◌then◌else◌}
use cogame.Log.Zap.{
  info_level, warn_level, Value, text, uint, int, flag, duration, Field, Entry, Zap,
}
use cogame.Log.Logger.{Logger, info, warn, log_embedded}
use cogame.Log.Global.{Globals, with_global_field, with_global_fields}

abbrev pub field : {A : Type 0} → String → Value A → Field A
field key value = record { key = key; value = value }

abbrev pub fields_of : {A : Type 0} → List (String × Value A) → List (Field A)
fields_of [] = []
fields_of ((key, value) ∷ rest) = field key value ∷ fields_of rest

abbrev pub label_fields : {A : Type 0} → List (String × String) → List (Field A)
label_fields [] = []
label_fields ((key, value) ∷ rest) =
    field (str_append "label_" key) (text value) ∷ label_fields rest

module _ (z : Zap) where
  open z use {Any}

  -- Times are in nanoseconds, of a clock that does not go back.
  pub record PerformanceLogger : Type 0 where
    pub logger : Logger z
    pub start_time : ℕ
    pub operation : String

  abbrev pub measured : ℕ → PerformanceLogger → List (Field Any)
  measured now p =
      field "operation" (text p.operation)
      ∷ field "duration" (duration (pos (now - p.start_time)))
      ∷ field "duration_ms" (int (pos ((now - p.start_time) / 1000000)))
      ∷ []

  unfoldable pub end : ℕ → List String → PerformanceLogger → Option (Entry Any)
  unfolding info
  end now calls p =
      info z "Performance measurement" (measured now p) ("PerformanceLogger.End" ∷ calls) p.logger

  unfoldable pub end_with_fields :
      ℕ → List (String × Value Any) → List String → PerformanceLogger → Option (Entry Any)
  unfolding info
  end_with_fields now fields calls p =
      info z "Performance measurement" (measured now p ++ fields_of fields)
        ("PerformanceLogger.EndWithFields" ∷ calls) p.logger

  unfoldable pub new_security_logger : Globals z → Option (Logger z) × Globals z
  unfolding with_global_field
  new_security_logger = with_global_field z "component" (text "security")

  unfoldable pub log_security_event :
      String → String → ℕ → Value Any → List String → Logger z → Option (Entry Any)
  unfolding warn
  log_security_event event_type client_ip user_id details calls =
      warn z "Security event"
        (field "event_type" (text event_type)
          ∷ field "client_ip" (text client_ip)
          ∷ field "user_id" (uint user_id)
          ∷ field "details" details
          ∷ [])
        ("SecurityLogger.LogSecurityEvent" ∷ calls)

  unfoldable pub log_auth_attempt :
      String → String → Bool → String → List String → Logger z → Option (Entry Any)
  log_auth_attempt username client_ip success reason calls =
      log_embedded z (if success then info_level else warn_level) "Authentication attempt"
        (field "username" (text username)
          ∷ field "client_ip" (text client_ip)
          ∷ field "success" (flag success)
          ∷ field "reason" (text reason)
          ∷ [])
        ("SecurityLogger.LogAuthAttempt" ∷ calls)

  unfoldable pub log_request :
      String → String → String → ℤ → ℤ → ℤ → List String → Logger z → Option (Entry Any)
  unfolding info
  log_request method path client_ip status_code took size calls =
      info z "HTTP Request"
        (field "method" (text method)
          ∷ field "path" (text path)
          ∷ field "client_ip" (text client_ip)
          ∷ field "status_code" (int status_code)
          ∷ field "duration" (duration took)
          ∷ field "response_size" (int size)
          ∷ [])
        ("AccessLogger.LogRequest" ∷ calls)

  unfoldable pub new_game_logger : String → String → Globals z → Option (Logger z) × Globals z
  unfolding with_global_fields
  new_game_logger game_id room_id = with_global_fields z (
      field "game_id" (text game_id)
      ∷ field "room_id" (text room_id)
      ∷ field "component" (text "game")
      ∷ [])

  unfoldable pub log_player_action :
      ℕ → String → Value Any → List String → Logger z → Option (Entry Any)
  unfolding info
  log_player_action user_id action content calls =
      info z "Player action"
        (field "user_id" (uint user_id) ∷ field "action" (text action) ∷ field "data" content ∷ [])
        ("GameLogger.LogPlayerAction" ∷ calls)

  unfoldable pub log_game_event : String → Value Any → List String → Logger z → Option (Entry Any)
  unfolding info
  log_game_event event_type content calls =
      info z "Game event" (field "event_type" (text event_type) ∷ field "data" content ∷ [])
        ("GameLogger.LogGameEvent" ∷ calls)
