-- ===== src/Login/Sessions.antt =====
-- internal/cache/session.go and user.go over the Redis client of internal/cache/redis.go, which is
-- a parameter. The JSON of a uint64 or of a User is kept as what it is of.
use Prim.Native.String.{◌++◌ as str_append}
use cogame.Model.{User}
use cogame.Base.{ℕ, String, str_eq, Option, none, some, decimal, if◌then◌else◌, ◌≡◌}

pub data Value : Type 0 where
  text : String → Value
  uint : ℕ → Value
  user_json : User → Value

-- SET, GET, DEL and EXPIRE; the callers ignore the errors of all but GET, for which `none` is an
-- error or a missing key. Durations are nanoseconds.
-- The text of the JSON of a User is a parameter too.
pub record Redis : Type 1 where
  pub Store : Type 0
  pub set : String → Value → ℕ → Store → Store
  pub get : String → Store → Option Value
  pub delete : String → Store → Store
  pub expire : String → ℕ → Store → Store
  pub print_user : User → String

-- What Redis documents of these commands, while it can be reached and no key expires.
pub record RedisLaws (r : Redis) : Type 0 where
  pub get-set :
      (k j : String) (v : Value) (e : ℕ) (s : r.Store)
      → r.get j (r.set k v e s) ≡ (if str_eq k j then some v else r.get j s)
  pub get-delete :
      (k j : String) (s : r.Store)
      → r.get j (r.delete k s) ≡ (if str_eq k j then none else r.get j s)
  pub get-expire : (k j : String) (e : ℕ) (s : r.Store) → r.get j (r.expire k e s) ≡ r.get j s

abbrev pub session_key : String → String
session_key session_id = str_append "session:" session_id

abbrev pub online_key : ℕ → String
online_key user_id = str_append "online:" (decimal user_id)

abbrev pub user_key : ℕ → String
user_key user_id = str_append "user:" (decimal user_id)

-- 24 * time.Hour
abbrev pub user_expiry : ℕ
user_expiry = 86400000000000

-- 30 * time.Minute
abbrev pub online_expiry : ℕ
online_expiry = 1800000000000

-- 2 * time.Hour
abbrev pub session_expiry : ℕ
session_expiry = 7200000000000

module _ (r : Redis) where
  open r use {Store}

  unfoldable pub set_session : String → ℕ → Store → Store
  set_session session_id user_id s = r.set (session_key session_id) (uint user_id) session_expiry s

  -- json.Unmarshal of a text that is no number is an error.
  unfoldable pub get_session : String → Store → Option ℕ
  get_session session_id s = elim (r.get (session_key session_id) s) [
    | none ↦ none
    | some v ↦ elim v [ text t ↦ none | uint n ↦ some n | user_json u ↦ none ]
  ]

  unfoldable pub delete_session : String → Store → Store
  delete_session session_id s = r.delete (session_key session_id) s

  unfoldable pub refresh_session : String → Store → Store
  refresh_session session_id s = r.expire (session_key session_id) session_expiry s

  unfoldable pub set_user_offline : ℕ → Store → Store
  set_user_offline user_id s = r.delete (online_key user_id) s

  unfoldable pub set_user_online : ℕ → String → Store → Store
  set_user_online user_id node_id s = r.set (online_key user_id) (text node_id) online_expiry s

  unfoldable pub get_user_online : ℕ → Store → Option String
  get_user_online user_id s = elim (r.get (online_key user_id) s) [
    | none ↦ none
    | some v ↦ elim v [
      | text t ↦ some t
      | uint n ↦ some (decimal n)
      | user_json u ↦ some (r.print_user u)
    ]
  ]

  unfoldable pub set_user_info : ℕ → User → Store → Store
  set_user_info user_id user s = r.set (user_key user_id) (user_json user) user_expiry s

  unfoldable pub delete_user_info : ℕ → Store → Store
  delete_user_info user_id s = r.delete (user_key user_id) s
