-- ===== src/Log/Examples.antt =====
-- Runs of the loggers of internal/logger/logger.go over a simple zap.
use cogame.Base.{
  ℕ, leb, arith, String, true, List, [], ◌∷◌, Option, none, some, get_elem?, ◌≡◌, refl,
  if◌then◌else◌,
}
use cogame.Log.Zap.{
  Level, debug_level, info_level, warn_level, error_level, dpanic_level, panic_level, fatal_level,
  stdout, ZapOption, add_caller, add_caller_skip, add_stacktrace, wrap_sampler, development, Zap,
  ZapLaws, all_plain, text,
}
use cogame.Log.Config.{LogConfig, parse_log_level, get_log_writer}
use cogame.Log.Global.{default_config, get_global_logger}
use cogame.Log.Entries.{one, errors, Written, logs-Written}
use cogame.Log.First.{
  inits, asks, uses, fresh, settled, first, uses-first, global_logs, global_formats,
  global_logs-caller,
}

record Made : Type 0 where
  least : Level
  options : List ZapOption

abbrev rank : Level → ℕ
rank debug_level = 0
rank info_level = 1
rank warn_level = 2
rank error_level = 3
rank dpanic_level = 4
rank panic_level = 5
rank fatal_level = 6

abbrev skipped : List ZapOption → List String → Option String
skipped (add_caller ∷ add_caller_skip n ∷ os) calls = get_elem? calls n
skipped os calls = none

abbrev zap : Zap
zap = record {
  Any = ℕ;
  ZapLogger = Made;
  new = λ en w least os. record { least = least; options = os };
  log = λ l lv msg fs calls.
      if leb (rank l.least) (rank lv)
      then some
          (record { level = lv; message = msg; fields = fs; caller = skipped l.options calls })
      else none;
  sprintf = λ template args. template;
}

skipped_plain :
    (os : List ZapOption) (calls : List String) → all_plain os ≡ true → skipped os calls ≡ none
skipped_plain [] calls h = refl
skipped_plain (add_caller ∷ os) calls h = absurd (ground (arith, h))
skipped_plain (add_caller_skip n ∷ os) calls h = refl
skipped_plain (add_stacktrace lv ∷ os) calls h = refl
skipped_plain (wrap_sampler a b ∷ os) calls h = refl
skipped_plain (development ∷ os) calls h = refl

zap_laws : ZapLaws zap
zap_laws = record {
  enabled = λ least lv. leb (rank least) (rank lv);
  log-caller = λ en w least lv n os msg fs calls plain on. rw on refl;
  log-no_caller =
      λ en w least lv os msg fs calls plain on. rw (on, skipped_plain os calls plain) refl;
  log-below = λ en w least lv os msg fs calls off. rw off refl;
}

abbrev warnings : LogConfig
warnings = record default_config { level = "warning"; output = "file"; file_path = "" }

warnings_level :
    (parse_log_level warnings.level ≡ warn_level) × (get_log_writer true warnings ≡ stdout)
unfolding parse_log_level get_log_writer
warnings_level = (refl, refl)

logs-Written_example :
    Written zap zap_laws true warnings
      (one "room" (text "r1") ∷ [])
      errors
      "lost"
      []
      "lost %d"
      []
      "main"
      []
unfolding parse_log_level zap_laws
logs-Written_example =
    logs-Written zap zap_laws true warnings (one "room" (text "r1") ∷ []) errors "lost" [] "lost %d"
      [] "main" [] (refl, refl) refl

-- The default logger was asked for before the configuration was there.
uses-first_example :
    (uses zap (asks ∷ inits true warnings ∷ []) (fresh zap) ≡ settled zap (first zap asks))
    × (get_global_logger zap (uses zap (asks ∷ inits true warnings ∷ []) (fresh zap))
        ≡ (some (first zap asks), settled zap (first zap asks)))
uses-first_example = uses-first zap asks (inits true warnings ∷ [])

global_logs-caller_example :
    ((global_logs zap errors "lost" []
        ("main" ∷ [])
        (uses zap (inits true warnings ∷ []) (fresh zap))).0
      ≡ some (record {
        level = error_level;
        message = "lost";
        fields = [];
        caller = some "logger.Error";
      }))
    × ((global_formats zap errors "lost %d" []
          ("main" ∷ [])
          (uses zap (inits true warnings ∷ []) (fresh zap))).0
        ≡ some (record {
          level = error_level;
          message = "lost %d";
          fields = [];
          caller = some "logger.Errorf";
        }))
unfolding parse_log_level zap_laws
global_logs-caller_example =
    global_logs-caller zap zap_laws true warnings [] errors "lost" [] "lost %d" [] ("main" ∷ [])
      (refl, refl) refl
