-- ===== src/Log/Config.antt =====
-- internal/logger/logger.go: LogConfig and what NewLogger makes of it.
use cogame.Base.{
  ℤ, String, str_eq, Bool, List, [], ◌∷◌, ◌++◌, Option, none, some, ◌||◌, if◌then◌else◌,
}
use cogame.Log.Zap.{
  Level, debug_level, info_level, warn_level, error_level, panic_level, fatal_level, ZapOption,
  add_caller, add_caller_skip, add_stacktrace, wrap_sampler, development, Writer, stdout, stderr,
  file,
}

pub record SamplingConfig : Type 0 where
  pub initial : ℤ
  pub thereafter : ℤ

pub record LogConfig : Type 0 where
  pub level : String
  pub format : String
  pub output : String
  pub file_path : String
  pub max_size : ℤ
  pub max_backups : ℤ
  pub max_age : ℤ
  pub compress : Bool
  pub is_development : Bool
  pub disable_caller : Bool
  pub disable_stacktrace : Bool
  pub sampling : Option SamplingConfig

unfoldable pub parse_log_level : String → Level
parse_log_level level =
    if str_eq level "debug"
    then debug_level
    else if str_eq level "info"
    then info_level
    else if str_eq level "warn" || str_eq level "warning"
    then warn_level
    else if str_eq level "error"
    then error_level
    else if str_eq level "fatal"
    then fatal_level
    else if str_eq level "panic"
    then panic_level
    else info_level

-- `opens`: the file can be opened.
unfoldable pub get_rotating_file_writer : Bool → LogConfig → Writer
get_rotating_file_writer opens config = if opens then file config.file_path else stdout

unfoldable pub get_log_writer : Bool → LogConfig → Writer
unfolding get_rotating_file_writer
get_log_writer opens config =
    if str_eq config.output "stderr"
    then stderr
    else if str_eq config.output "file"
    then (if str_eq config.file_path "" then stdout else get_rotating_file_writer opens config)
    else stdout

abbrev pub caller_options : Bool → List ZapOption
caller_options disabled = if disabled then [] else add_caller ∷ add_caller_skip 1 ∷ []

abbrev pub stacktrace_options : Bool → List ZapOption
stacktrace_options disabled = if disabled then [] else add_stacktrace error_level ∷ []

abbrev pub sampling_options : Option SamplingConfig → List ZapOption
sampling_options none = []
sampling_options (some s) = wrap_sampler s.initial s.thereafter ∷ []

abbrev pub development_options : Bool → List ZapOption
development_options enabled = if enabled then development ∷ [] else []

unfoldable pub build_logger_options : LogConfig → List ZapOption
build_logger_options config =
    caller_options config.disable_caller
    ++ (stacktrace_options config.disable_stacktrace
        ++ (sampling_options config.sampling ++ development_options config.is_development))
