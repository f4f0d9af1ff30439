-- ===== src/Log/Zap.antt =====
-- The library zap that internal/logger/logger.go calls, as a parameter, with what its documentation
-- says of the entries that a logger writes.
use cogame.Base.{
  ℕ, ℤ, String, Bool, true, false, ◌&&◌, List, [], ◌∷◌, Option, none, some, get_elem?, ◌≡◌,
}

pub data Level : Type 0 where
  debug_level info_level warn_level error_level dpanic_level panic_level fatal_level : Level

-- The fields of zap.String, zap.Uint64 and so on, a float by its bits; zap.Any takes the values of a
-- type of its own.
pub data Value (A : Type 0) : Type 0 where
  text : String → Value A
  uint : ℕ → Value A
  int : ℤ → Value A
  flag : Bool → Value A
  uints : List ℕ → Value A
  duration : ℤ → Value A
  time : ℕ → Value A
  float : ℕ → Value A
  any : A → Value A

pub record Field (A : Type 0) : Type 0 where
  pub key : String
  pub value : Value A

-- zap.AddCaller, AddCallerSkip, AddStacktrace, WrapCore with a sampler, and Development.
pub data ZapOption : Type 0 where
  add_caller : ZapOption
  add_caller_skip : ℕ → ZapOption
  add_stacktrace : Level → ZapOption
  wrap_sampler : ℤ → ℤ → ZapOption
  development : ZapOption

-- Where entries go.
pub data Writer : Type 0 where
  stdout stderr : Writer
  file : String → Writer

-- The layout of an entry.
pub record Encoder : Type 0 where
  pub is_json : Bool
  pub is_development : Bool

-- An entry that was written, with the function that it says the call stands in.
pub record Entry (A : Type 0) : Type 0 where
  pub level : Level
  pub message : String
  pub fields : List (Field A)
  pub caller : Option String

-- `log` is given the functions that are being called, from the one that calls zap outwards. `sprintf`
-- is fmt.Sprintf.
pub record Zap : Type 1 where
  pub Any : Type 0
  pub ZapLogger : Type 0
  pub new : Encoder → Writer → Level → List ZapOption → ZapLogger
  pub log : ZapLogger → Level → String → List (Field Any) → List String → Option (Entry Any)
  pub sprintf : String → List Any → String

abbrev pub is_plain : ZapOption → Bool
is_plain (add_stacktrace lv) = true
is_plain development = true
is_plain _ = false

abbrev pub all_plain : List ZapOption → Bool
all_plain [] = true
all_plain (o ∷ os) = is_plain o && all_plain os

-- A logger with no sampler writes what is of its level or above, with the caller if it is to be
-- added: the function after the ones to skip.
pub record ZapLaws (z : Zap) : Type 0 where
  pub enabled : Level → Level → Bool
  pub log-caller :
      (en : Encoder) (w : Writer) (least lv : Level) (n : ℕ) (os : List ZapOption) (msg : String)
      (fs : List (Field z.Any)) (calls : List String)
      → all_plain os ≡ true
      → enabled least lv ≡ true
      → z.log (z.new en w least (add_caller ∷ add_caller_skip n ∷ os)) lv msg fs calls
        ≡ some (record { level = lv; message = msg; fields = fs; caller = get_elem? calls n })
  pub log-no_caller :
      (en : Encoder) (w : Writer) (least lv : Level) (os : List ZapOption) (msg : String)
      (fs : List (Field z.Any)) (calls : List String)
      → all_plain os ≡ true
      → enabled least lv ≡ true
      → z.log (z.new en w least os) lv msg fs calls
        ≡ some (record { level = lv; message = msg; fields = fs; caller = none })
  pub log-below :
      (en : Encoder) (w : Writer) (least lv : Level) (os : List ZapOption) (msg : String)
      (fs : List (Field z.Any)) (calls : List String)
      → enabled least lv ≡ false
      → z.log (z.new en w least os) lv msg fs calls ≡ none
