-- ===== src/Log/Global.antt =====
-- internal/logger/logger.go: the global logger and the functions of the package that log with it.
use cogame.Base.{
  String, Bool, true, false, pos, List, ◌∷◌, Option, none, some, map_option, if◌then◌else◌,
}
use cogame.Log.Zap.{Value, Field, Entry, Zap}
use cogame.Log.Config.{LogConfig}
use cogame.Log.Logger
use cogame.Log.Logger.{Logger, new_logger, with_field, with_fields}

-- It opens no file.
abbrev pub default_config : LogConfig
default_config = record {
  level = "info";
  format = "console";
  output = "stdout";
  file_path = "";
  max_size = pos 0;
  max_backups = pos 0;
  max_age = pos 0;
  compress = false;
  is_development = true;
  disable_caller = false;
  disable_stacktrace = false;
  sampling = none;
}

module _ (z : Zap) where
  open z use {Any}

  -- `done` is the sync.Once.
  pub record Globals : Type 0 where
    pub global_logger : Option (Logger z)
    pub done : Bool

  unfoldable pub init_global_logger : Bool → LogConfig → Globals → Globals
  init_global_logger opens config g =
      if g.done then g else record { global_logger = some (new_logger z opens config); done = true }

  unfoldable pub get_global_logger : Globals → Option (Logger z) × Globals
  unfolding init_global_logger
  get_global_logger g = elim g.global_logger [
    | some l ↦ (some l, g)
    | none ↦ let g1 = init_global_logger true default_config g in (g1.global_logger, g1)
  ]

  -- What is logged with the global logger. A global logger that is nil, which is not reached from
  -- the start of the program, would make the call panic.
  abbrev pub on_global : (Logger z → Option (Entry Any)) → Globals → Option (Entry Any) × Globals
  on_global f g =
      let (l, g1) = get_global_logger g in (elim l [ none ↦ none | some logger ↦ f logger ], g1)

  unfoldable pub with_global_field : String → Value Any → Globals → Option (Logger z) × Globals
  unfolding get_global_logger with_field
  with_global_field key value g =
      let (l, g1) = get_global_logger g in (map_option (with_field z key value) l, g1)

  unfoldable pub with_global_fields : List (Field Any) → Globals → Option (Logger z) × Globals
  unfolding get_global_logger with_fields
  with_global_fields fields g =
      let (l, g1) = get_global_logger g in (map_option (with_fields z fields) l, g1)

  unfoldable pub debug :
      String → List (Field Any) → List String → Globals → Option (Entry Any) × Globals
  unfolding get_global_logger Logger.debug
  debug msg fields calls = on_global (Logger.debug z msg fields ("logger.Debug" ∷ calls))

  unfoldable pub debugf : String → List Any → List String → Globals → Option (Entry Any) × Globals
  unfolding get_global_logger Logger.debugf
  debugf template args calls = on_global (Logger.debugf z template args ("logger.Debugf" ∷ calls))

  unfoldable pub info :
      String → List (Field Any) → List String → Globals → Option (Entry Any) × Globals
  unfolding get_global_logger Logger.info
  info msg fields calls = on_global (Logger.info z msg fields ("logger.Info" ∷ calls))

  unfoldable pub infof : String → List Any → List String → Globals → Option (Entry Any) × Globals
  unfolding get_global_logger Logger.infof
  infof template args calls = on_global (Logger.infof z template args ("logger.Infof" ∷ calls))

  unfoldable pub warn :
      String → List (Field Any) → List String → Globals → Option (Entry Any) × Globals
  unfolding get_global_logger Logger.warn
  warn msg fields calls = on_global (Logger.warn z msg fields ("logger.Warn" ∷ calls))

  unfoldable pub warnf : String → List Any → List String → Globals → Option (Entry Any) × Globals
  unfolding get_global_logger Logger.warnf
  warnf template args calls = on_global (Logger.warnf z template args ("logger.Warnf" ∷ calls))

  unfoldable pub error :
      String → List (Field Any) → List String → Globals → Option (Entry Any) × Globals
  unfolding get_global_logger Logger.error
  error msg fields calls = on_global (Logger.error z msg fields ("logger.Error" ∷ calls))

  unfoldable pub errorf : String → List Any → List String → Globals → Option (Entry Any) × Globals
  unfolding get_global_logger Logger.errorf
  errorf template args calls = on_global (Logger.errorf z template args ("logger.Errorf" ∷ calls))

  unfoldable pub fatal :
      String → List (Field Any) → List String → Globals → Option (Entry Any) × Globals
  unfolding get_global_logger Logger.fatal
  fatal msg fields calls = on_global (Logger.fatal z msg fields ("logger.Fatal" ∷ calls))

  unfoldable pub fatalf : String → List Any → List String → Globals → Option (Entry Any) × Globals
  unfolding get_global_logger Logger.fatalf
  fatalf template args calls = on_global (Logger.fatalf z template args ("logger.Fatalf" ∷ calls))

  unfoldable pub panic :
      String → List (Field Any) → List String → Globals → Option (Entry Any) × Globals
  unfolding get_global_logger Logger.panic
  panic msg fields calls = on_global (Logger.panic z msg fields ("logger.Panic" ∷ calls))

  unfoldable pub panicf : String → List Any → List String → Globals → Option (Entry Any) × Globals
  unfolding get_global_logger Logger.panicf
  panicf template args calls = on_global (Logger.panicf z template args ("logger.Panicf" ∷ calls))
