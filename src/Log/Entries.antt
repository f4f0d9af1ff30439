-- ===== src/Log/Entries.antt =====
-- What the entries of internal/logger/logger.go hold.
use cogame.Base.{
  String, Bool, true, false, List, [], ◌∷◌, ◌++◌, Option, none, some, ◌≡◌, refl, sym, ◌∙◌, ap,
  arith, get_elem?,
}
use mathlib.Core.List.{append_assoc, append-nil}
use cogame.Log.Zap.{
  Level, debug_level, info_level, warn_level, error_level, fatal_level, panic_level, Value, Field,
  Entry, Zap, ZapLaws, all_plain,
}
use cogame.Log.Config.{
  LogConfig, parse_log_level, stacktrace_options, sampling_options, development_options,
  build_logger_options,
}
use cogame.Log.Logger
use cogame.Log.Logger.{Logger, new_logger, with_field, with_fields, log_embedded}

-- The calls of With that made a logger.
pub data Step (A : Type 0) : Type 0 where
  one : String → Value A → Step A
  many : List (Field A) → Step A

abbrev pub added : {A : Type 0} → List (Step A) → List (Field A)
added [] = []
added (one key value ∷ steps) = record { key = key; value = value } ∷ added steps
added (many fields ∷ steps) = fields ++ added steps

unfoldable pub after : (z : Zap) → List (Step z.Any) → Logger z → Logger z
unfolding with_field with_fields
after z [] l = l
after z (one key value ∷ steps) l = after z steps (with_field z key value l)
after z (many fields ∷ steps) l = after z steps (with_fields z fields l)

-- The configurations whose loggers write each entry, with its caller.
abbrev pub IsTelling : LogConfig → Type 0
IsTelling config = (config.disable_caller ≡ false) × (config.sampling ≡ none)

pub data Method : Type 0 where
  debugs infos warns errors fatals panics : Method

abbrev pub level_of : Method → Level
level_of debugs = debug_level
level_of infos = info_level
level_of warns = warn_level
level_of errors = error_level
level_of fatals = fatal_level
level_of panics = panic_level

abbrev pub logs :
    (z : Zap) → Method → String → List (Field z.Any) → List String → Logger z → Option (Entry z.Any)
logs z debugs = Logger.debug z
logs z infos = Logger.info z
logs z warns = Logger.warn z
logs z errors = Logger.error z
logs z fatals = Logger.fatal z
logs z panics = Logger.panic z

abbrev pub formats :
    (z : Zap) → Method → String → List z.Any → List String → Logger z → Option (Entry z.Any)
formats z debugs = Logger.debugf z
formats z infos = Logger.infof z
formats z warns = Logger.warnf z
formats z errors = Logger.errorf z
formats z fatals = Logger.fatalf z
formats z panics = Logger.panicf z

module _ (z : Zap) (laws : ZapLaws z) where
  open z use {Any}

  pub after-zap : (steps : List (Step Any)) (l : Logger z) → (after z steps l).zap ≡ l.zap
  unfolding after with_field with_fields
  after-zap [] l = refl
  after-zap (one key value ∷ steps) l = after-zap steps (with_field z key value l)
  after-zap (many fields ∷ steps) l = after-zap steps (with_fields z fields l)

  pub after-fields :
      (steps : List (Step Any)) (l : Logger z) → (after z steps l).fields ≡ l.fields ++ added steps
  unfolding after with_field with_fields
  after-fields [] l = sym (append-nil l.fields)
  after-fields (one key value ∷ steps) l =
      after-fields steps (with_field z key value l)
      ∙ append_assoc l.fields (record { key = key; value = value } ∷ []) (added steps)
  after-fields (many fields ∷ steps) l =
      after-fields steps (with_fields z fields l) ∙ append_assoc l.fields fields (added steps)

  rest_plain :
      (no_stack dev : Bool)
      → all_plain
          (stacktrace_options no_stack ++ (sampling_options none ++ development_options dev))
        ≡ true
  rest_plain no_stack dev = ground arith

  -- What the zap logger of such a configuration is asked to write, it writes, with the second of the
  -- functions that are being called.
  pub log-new_logger :
      (opens : Bool) (config : LogConfig) (lv : Level) (msg : String) (fs : List (Field Any))
      (calls : List String)
      → IsTelling config
      → laws.enabled (parse_log_level config.level) lv ≡ true
      → z.log (new_logger z opens config).zap lv msg fs calls
        ≡ some (record { level = lv; message = msg; fields = fs; caller = get_elem? calls 1 })
  unfolding new_logger build_logger_options
  log-new_logger opens config lv msg fs calls (told, every) on =
      rw (told, every)
        (laws.log-caller _ _ (parse_log_level config.level) lv 1 _ msg fs calls
          (rest_plain config.disable_stacktrace config.is_development) on)

  -- The same of a logger that With has made from it.
  pub log-after :
      (opens : Bool) (config : LogConfig) (steps : List (Step Any)) (lv : Level) (msg : String)
      (fs : List (Field Any)) (calls : List String)
      → IsTelling config
      → laws.enabled (parse_log_level config.level) lv ≡ true
      → z.log (after z steps (new_logger z opens config)).zap lv msg fs calls
        ≡ some (record { level = lv; message = msg; fields = fs; caller = get_elem? calls 1 })
  log-after opens config steps lv msg fs calls telling on =
      rw (after-zap steps (new_logger z opens config))
        (log-new_logger opens config lv msg fs calls telling on)

  abbrev pub Written :
      Bool
      → LogConfig
      → List (Step Any)
      → Method
      → String
      → List (Field Any)
      → String
      → List Any
      → String
      → List String
      → Type 0
  Written opens config steps method msg fs template args caller calls =
      let l = after z steps (new_logger z opens config) in
      (logs z method msg fs (caller ∷ calls) l
        ≡ some (record {
          level = level_of method;
          message = msg;
          fields = added steps ++ fs;
          caller = some caller;
        }))
      × (formats z method template args (caller ∷ calls) l
          ≡ some (record {
            level = level_of method;
            message = z.sprintf template args;
            fields = [];
            caller = some caller;
          }))

  after_new-fields :
      (opens : Bool) (config : LogConfig) (steps : List (Step Any)) (fs : List (Field Any))
      → (after z steps (new_logger z opens config)).fields ++ fs ≡ added steps ++ fs
  unfolding new_logger
  after_new-fields opens config steps fs =
      ap (λ xs. xs ++ fs) (after-fields steps (new_logger z opens config))

  pub log-after-fields :
      (opens : Bool) (config : LogConfig) (steps : List (Step Any)) (lv : Level) (msg : String)
      (fs : List (Field Any)) (calls : List String)
      → IsTelling config
      → laws.enabled (parse_log_level config.level) lv ≡ true
      → z.log
          (after z steps (new_logger z opens config)).zap
          lv
          msg
          ((after z steps (new_logger z opens config)).fields ++ fs)
          calls
        ≡ some (record {
          level = lv;
          message = msg;
          fields = added steps ++ fs;
          caller = get_elem? calls 1;
        })
  log-after-fields opens config steps lv msg fs calls telling on =
      rw (after_new-fields opens config steps fs)
        (log-after opens config steps lv msg (added steps ++ fs) calls telling on)

  -- A logger that With has made, of a configuration that names callers and takes no samples: the six
  -- methods write what is of the level, with the fields of With in their order, then those of the
  -- call, and with their caller. The six formatted ones write none of the fields.
  pub logs-Written :
      (opens : Bool) (config : LogConfig) (steps : List (Step Any)) (method : Method) (msg : String)
      (fs : List (Field Any)) (template : String) (args : List Any) (caller : String)
      (calls : List String)
      → IsTelling config
      → laws.enabled (parse_log_level config.level) (level_of method) ≡ true
      → Written opens config steps method msg fs template args caller calls
  unfolding Logger.debug Logger.debugf Logger.info Logger.infof Logger.warn Logger.warnf
      Logger.error Logger.errorf Logger.fatal Logger.fatalf Logger.panic Logger.panicf
  logs-Written opens config steps debugs msg fs template args caller calls telling on = (
    log-after-fields opens config steps debug_level msg fs ("Logger.Debug" ∷ caller ∷ calls) telling
        on,
    log-after opens config steps debug_level (z.sprintf template args) []
        ("Logger.Debugf" ∷ caller ∷ calls) telling on,
  )
  logs-Written opens config steps infos msg fs template args caller calls telling on = (
    log-after-fields opens config steps info_level msg fs ("Logger.Info" ∷ caller ∷ calls) telling
        on,
    log-after opens config steps info_level (z.sprintf template args) []
        ("Logger.Infof" ∷ caller ∷ calls) telling on,
  )
  logs-Written opens config steps warns msg fs template args caller calls telling on = (
    log-after-fields opens config steps warn_level msg fs ("Logger.Warn" ∷ caller ∷ calls) telling
        on,
    log-after opens config steps warn_level (z.sprintf template args) []
        ("Logger.Warnf" ∷ caller ∷ calls) telling on,
  )
  logs-Written opens config steps errors msg fs template args caller calls telling on = (
    log-after-fields opens config steps error_level msg fs ("Logger.Error" ∷ caller ∷ calls) telling
        on,
    log-after opens config steps error_level (z.sprintf template args) []
        ("Logger.Errorf" ∷ caller ∷ calls) telling on,
  )
  logs-Written opens config steps fatals msg fs template args caller calls telling on = (
    log-after-fields opens config steps fatal_level msg fs ("Logger.Fatal" ∷ caller ∷ calls) telling
        on,
    log-after opens config steps fatal_level (z.sprintf template args) []
        ("Logger.Fatalf" ∷ caller ∷ calls) telling on,
  )
  logs-Written opens config steps panics msg fs template args caller calls telling on = (
    log-after-fields opens config steps panic_level msg fs ("Logger.Panic" ∷ caller ∷ calls) telling
        on,
    log-after opens config steps panic_level (z.sprintf template args) []
        ("Logger.Panicf" ∷ caller ∷ calls) telling on,
  )
