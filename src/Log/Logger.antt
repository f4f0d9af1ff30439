-- ===== src/Log/Logger.antt =====
-- internal/logger/logger.go: Logger and its methods. What a method logs is the entry that zap writes,
-- if any. `calls` are the functions that are being called, from the caller of the method outwards.
-- The formatted methods go to the sugared logger of the same zap logger, which names the same caller.
use cogame.Base.{String, str_eq, Bool, List, [], ◌∷◌, ◌++◌, Option}
use cogame.Log.Zap.{
  Level, debug_level, info_level, warn_level, error_level, panic_level, fatal_level, Value, Field,
  Entry, Zap,
}
use cogame.Log.Config.{LogConfig, parse_log_level, get_log_writer, build_logger_options}

module _ (z : Zap) where
  open z use {Any, ZapLogger}

  pub record Logger : Type 0 where
    pub zap : ZapLogger
    pub fields : List (Field Any)

  unfoldable pub new_logger : Bool → LogConfig → Logger
  unfolding parse_log_level get_log_writer build_logger_options
  new_logger opens config = record {
    zap =
        z.new
          (record { is_json = str_eq config.format "json"; is_development = config.is_development })
          (get_log_writer opens config) (parse_log_level config.level)
          (build_logger_options config);
    fields = [];
  }

  unfoldable pub with_field : String → Value Any → Logger → Logger
  with_field key value l = record l {
    fields = l.fields ++ (record { key = key; value = value } ∷ []);
  }

  -- The list is the map in the order in which the range takes it.
  unfoldable pub with_fields : List (Field Any) → Logger → Logger
  with_fields fields l = record l { fields = l.fields ++ fields }

  -- The method of the zap logger that a Logger has by embedding.
  abbrev pub log_embedded :
      Level → String → List (Field Any) → List String → Logger → Option (Entry Any)
  log_embedded level msg fields calls l = z.log l.zap level msg fields calls

  unfoldable pub debug : String → List (Field Any) → List String → Logger → Option (Entry Any)
  debug msg fields calls l =
      z.log l.zap debug_level msg (l.fields ++ fields) ("Logger.Debug" ∷ calls)

  unfoldable pub info : String → List (Field Any) → List String → Logger → Option (Entry Any)
  info msg fields calls l = z.log l.zap info_level msg (l.fields ++ fields) ("Logger.Info" ∷ calls)

  unfoldable pub warn : String → List (Field Any) → List String → Logger → Option (Entry Any)
  warn msg fields calls l = z.log l.zap warn_level msg (l.fields ++ fields) ("Logger.Warn" ∷ calls)

  unfoldable pub error : String → List (Field Any) → List String → Logger → Option (Entry Any)
  error msg fields calls l =
      z.log l.zap error_level msg (l.fields ++ fields) ("Logger.Error" ∷ calls)

  -- Fatal ends the process after the entry, and Panic panics.
  unfoldable pub fatal : String → List (Field Any) → List String → Logger → Option (Entry Any)
  fatal msg fields calls l =
      z.log l.zap fatal_level msg (l.fields ++ fields) ("Logger.Fatal" ∷ calls)

  unfoldable pub panic : String → List (Field Any) → List String → Logger → Option (Entry Any)
  panic msg fields calls l =
      z.log l.zap panic_level msg (l.fields ++ fields) ("Logger.Panic" ∷ calls)

  unfoldable pub debugf : String → List Any → List String → Logger → Option (Entry Any)
  debugf template args calls l =
      z.log l.zap debug_level (z.sprintf template args) [] ("Logger.Debugf" ∷ calls)

  unfoldable pub infof : String → List Any → List String → Logger → Option (Entry Any)
  infof template args calls l =
      z.log l.zap info_level (z.sprintf template args) [] ("Logger.Infof" ∷ calls)

  unfoldable pub warnf : String → List Any → List String → Logger → Option (Entry Any)
  warnf template args calls l =
      z.log l.zap warn_level (z.sprintf template args) [] ("Logger.Warnf" ∷ calls)

  unfoldable pub errorf : String → List Any → List String → Logger → Option (Entry Any)
  errorf template args calls l =
      z.log l.zap error_level (z.sprintf template args) [] ("Logger.Errorf" ∷ calls)

  unfoldable pub fatalf : String → List Any → List String → Logger → Option (Entry Any)
  fatalf template args calls l =
      z.log l.zap fatal_level (z.sprintf template args) [] ("Logger.Fatalf" ∷ calls)

  unfoldable pub panicf : String → List Any → List String → Logger → Option (Entry Any)
  panicf template args calls l =
      z.log l.zap panic_level (z.sprintf template args) [] ("Logger.Panicf" ∷ calls)
