-- ===== src/Log/Purposes.antt =====
-- What the loggers for one purpose of internal/logger/logger.go write.
use cogame.Base.{ℕ, String, Bool, true, List, [], ◌∷◌, some, ◌≡◌, refl, if◌then◌else◌}
use cogame.Log.Zap.{info_level, warn_level, Value, Field, Zap, ZapLaws, text, uint, flag}
use cogame.Log.Config.{LogConfig, parse_log_level}
use cogame.Log.Logger.{Logger, new_logger, warn}
use cogame.Log.Global.{with_global_field}
use cogame.Log.Kinds.{field, new_security_logger, log_security_event, log_auth_attempt}
use cogame.Log.Entries.{Step, one, after, IsTelling, log-after-fields, log-after}
use cogame.Log.First.{Use, inits, uses, fresh, uses-first}

abbrev pub event_fields : {A : Type 0} → String → String → ℕ → Value A → List (Field A)
event_fields event_type client_ip user_id details =
    field "event_type" (text event_type)
    ∷ field "client_ip" (text client_ip)
    ∷ field "user_id" (uint user_id)
    ∷ field "details" details
    ∷ []

abbrev pub attempt_fields : {A : Type 0} → String → String → Bool → String → List (Field A)
attempt_fields username client_ip success reason =
    field "username" (text username)
    ∷ field "client_ip" (text client_ip)
    ∷ field "success" (flag success)
    ∷ field "reason" (text reason)
    ∷ []

module _ (z : Zap) (laws : ZapLaws z) where
  open z use {Any}

  abbrev component : String → List (Step Any)
  component name = one "component" (text name) ∷ []

  new_security_logger-after :
      (opens : Bool) (config : LogConfig) (us : List Use)
      → (new_security_logger z (uses z (inits opens config ∷ us) (fresh z))).0
        ≡ some (after z (component "security") (new_logger z opens config))
  unfolding new_security_logger with_global_field after
  new_security_logger-after opens config us = rw ((uses-first z (inits opens config) us).1) refl

  -- A security logger, made after InitGlobalLogger with a configuration that names callers and takes
  -- no samples: LogSecurityEvent writes the component security before its fields, and names itself
  -- as the caller; LogAuthAttempt leaves the component out, and names its caller.
  pub security_component :
      (opens : Bool) (config : LogConfig) (us : List Use)
      (event_type client_ip username reason : String) (user_id : ℕ) (details : Value Any)
      (success : Bool) (caller : String) (calls : List String)
      → IsTelling config
      → laws.enabled (parse_log_level config.level) warn_level ≡ true
      → laws.enabled (parse_log_level config.level) (if success then info_level else warn_level)
        ≡ true
      → (l : Logger z) × ((new_security_logger z (uses z (inits opens config ∷ us) (fresh z))).0
          ≡ some l)
        × (log_security_event z event_type client_ip user_id details (caller ∷ calls) l
            ≡ some (record {
              level = warn_level;
              message = "Security event";
              fields =
                  field "component" (text "security")
                  ∷ event_fields event_type client_ip user_id details;
              caller = some "SecurityLogger.LogSecurityEvent";
            }))
        × (log_auth_attempt z username client_ip success reason (caller ∷ calls) l
            ≡ some (record {
              level = if success then info_level else warn_level;
              message = "Authentication attempt";
              fields = attempt_fields username client_ip success reason;
              caller = some caller;
            }))
  unfolding log_security_event log_auth_attempt warn
  security_component opens config us event_type client_ip username reason user_id details success
        caller calls telling on_warn on =
      (
        after z (component "security") (new_logger z opens config),
        new_security_logger-after opens config us,
        log-after-fields z laws opens config (component "security") warn_level "Security event"
            (event_fields event_type client_ip user_id details)
            ("Logger.Warn" ∷ "SecurityLogger.LogSecurityEvent" ∷ caller ∷ calls) telling on_warn,
        log-after z laws opens config (component "security")
            (if success then info_level else warn_level) "Authentication attempt"
            (attempt_fields username client_ip success reason)
            ("SecurityLogger.LogAuthAttempt" ∷ caller ∷ calls) telling on,
      )
