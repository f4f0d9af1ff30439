-- ===== src/Log/First.antt =====
-- The global logger of internal/logger/logger.go, and the functions of the package.
use cogame.Base.{String, Bool, true, false, List, [], ◌∷◌, Option, none, some, ◌≡◌, refl, ◌∙◌, ap}
use cogame.Log.Zap.{Field, Entry, Zap, ZapLaws}
use cogame.Log.Config.{LogConfig, parse_log_level}
use cogame.Log.Logger.{Logger, new_logger}
use cogame.Log.Global
use cogame.Log.Global.{Globals, default_config, init_global_logger, get_global_logger}
use cogame.Log.Entries.{
  Method, debugs, infos, warns, errors, fatals, panics, level_of, IsTelling, after, logs-Written,
}

-- InitGlobalLogger, with whether the file of the configuration opens, or any use of the global
-- logger.
pub data Use : Type 0 where
  inits : Bool → LogConfig → Use
  asks : Use

abbrev pub name_of : Method → String
name_of debugs = "logger.Debug"
name_of infos = "logger.Info"
name_of warns = "logger.Warn"
name_of errors = "logger.Error"
name_of fatals = "logger.Fatal"
name_of panics = "logger.Panic"

abbrev pub format_name_of : Method → String
format_name_of debugs = "logger.Debugf"
format_name_of infos = "logger.Infof"
format_name_of warns = "logger.Warnf"
format_name_of errors = "logger.Errorf"
format_name_of fatals = "logger.Fatalf"
format_name_of panics = "logger.Panicf"

abbrev pub global_logs :
    (z : Zap)
    → Method
    → String
    → List (Field z.Any)
    → List String
    → Globals z
    → Option (Entry z.Any) × Globals z
global_logs z debugs = Global.debug z
global_logs z infos = Global.info z
global_logs z warns = Global.warn z
global_logs z errors = Global.error z
global_logs z fatals = Global.fatal z
global_logs z panics = Global.panic z

abbrev pub global_formats :
    (z : Zap)
    → Method
    → String
    → List z.Any
    → List String
    → Globals z
    → Option (Entry z.Any) × Globals z
global_formats z debugs = Global.debugf z
global_formats z infos = Global.infof z
global_formats z warns = Global.warnf z
global_formats z errors = Global.errorf z
global_formats z fatals = Global.fatalf z
global_formats z panics = Global.panicf z

module _ (z : Zap) where
  open z use {Any}

  abbrev pub used : Use → Globals z → Globals z
  used (inits opens config) g = init_global_logger z opens config g
  used asks g = (get_global_logger z g).1

  unfoldable pub uses : List Use → Globals z → Globals z
  uses [] g = g
  uses (u ∷ us) g = uses us (used u g)

  abbrev pub fresh : Globals z
  fresh = record { global_logger = none; done = false }

  abbrev pub first : Use → Logger z
  first (inits opens config) = new_logger z opens config
  first asks = new_logger z true default_config

  abbrev pub settled : Logger z → Globals z
  settled l = record { global_logger = some l; done = true }

  used-settled : (u : Use) (l : Logger z) → used u (settled l) ≡ settled l
  unfolding init_global_logger get_global_logger
  used-settled (inits opens config) l = refl
  used-settled asks l = refl

  uses-settled : (us : List Use) (l : Logger z) → uses us (settled l) ≡ settled l
  unfolding uses
  uses-settled [] l = refl
  uses-settled (u ∷ us) l = ap (uses us) (used-settled u l) ∙ uses-settled us l

  used-fresh : (u : Use) → used u fresh ≡ settled (first u)
  unfolding init_global_logger get_global_logger
  used-fresh (inits opens config) = refl
  used-fresh asks = refl

  -- The first use of the global logger settles it for good: the configuration of the first
  -- InitGlobalLogger, or the default one where the logger was asked for before; later
  -- configurations change nothing.
  pub uses-first :
      (u : Use) (us : List Use)
      → (uses (u ∷ us) fresh ≡ settled (first u))
        × (get_global_logger z (uses (u ∷ us) fresh) ≡ (some (first u), settled (first u)))
  unfolding uses get_global_logger
  uses-first u us =
      let same : uses us (used u fresh) ≡ settled (first u) =
        ap (uses us) (used-fresh u) ∙ uses-settled us (first u) in
      (same, ap (get_global_logger z) same)

module _ (z : Zap) (laws : ZapLaws z) where
  open z use {Any}

  -- After InitGlobalLogger with a configuration that names callers and takes no samples, and any uses
  -- of the global logger, the functions of the package write what is of the level, and name
  -- themselves as the caller, whoever called them.
  pub global_logs-caller :
      (opens : Bool) (config : LogConfig) (us : List Use) (method : Method) (msg : String)
      (fs : List (Field Any)) (template : String) (args : List Any) (calls : List String)
      → IsTelling config
      → laws.enabled (parse_log_level config.level) (level_of method) ≡ true
      → ((global_logs z method msg fs calls (uses z (inits opens config ∷ us) (fresh z))).0
          ≡ some (record {
            level = level_of method;
            message = msg;
            fields = fs;
            caller = some (name_of method);
          }))
        × ((global_formats z method template args calls
              (uses z (inits opens config ∷ us) (fresh z))).0
            ≡ some (record {
              level = level_of method;
              message = z.sprintf template args;
              fields = [];
              caller = some (format_name_of method);
            }))
  unfolding Global.debug Global.debugf Global.info Global.infof Global.warn Global.warnf
      Global.error Global.errorf Global.fatal Global.fatalf Global.panic Global.panicf
      get_global_logger new_logger after
  global_logs-caller opens config us debugs msg fs template args calls telling on =
      rw ((uses-first z (inits opens config) us).0) (
        (logs-Written z laws opens config [] debugs msg fs template args (name_of debugs) calls
            telling on).0,
        (logs-Written z laws opens config [] debugs msg fs template args (format_name_of debugs)
            calls telling on).1,
      )
  global_logs-caller opens config us infos msg fs template args calls telling on =
      rw ((uses-first z (inits opens config) us).0) (
        (logs-Written z laws opens config [] infos msg fs template args (name_of infos) calls
            telling on).0,
        (logs-Written z laws opens config [] infos msg fs template args (format_name_of infos) calls
            telling on).1,
      )
  global_logs-caller opens config us warns msg fs template args calls telling on =
      rw ((uses-first z (inits opens config) us).0) (
        (logs-Written z laws opens config [] warns msg fs template args (name_of warns) calls
            telling on).0,
        (logs-Written z laws opens config [] warns msg fs template args (format_name_of warns) calls
            telling on).1,
      )
  global_logs-caller opens config us errors msg fs template args calls telling on =
      rw ((uses-first z (inits opens config) us).0) (
        (logs-Written z laws opens config [] errors msg fs template args (name_of errors) calls
            telling on).0,
        (logs-Written z laws opens config [] errors msg fs template args (format_name_of errors)
            calls telling on).1,
      )
  global_logs-caller opens config us fatals msg fs template args calls telling on =
      rw ((uses-first z (inits opens config) us).0) (
        (logs-Written z laws opens config [] fatals msg fs template args (name_of fatals) calls
            telling on).0,
        (logs-Written z laws opens config [] fatals msg fs template args (format_name_of fatals)
            calls telling on).1,
      )
  global_logs-caller opens config us panics msg fs template args calls telling on =
      rw ((uses-first z (inits opens config) us).0) (
        (logs-Written z laws opens config [] panics msg fs template args (name_of panics) calls
            telling on).0,
        (logs-Written z laws opens config [] panics msg fs template args (format_name_of panics)
            calls telling on).1,
      )
