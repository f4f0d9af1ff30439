-- ===== src/Login/Service.antt =====
-- internal/server/login_server.go: LoginServiceImpl, with the methods of UserRepository in
-- internal/database/mongodb/user.go that it calls. The MongoDB driver and MD5 are parameters.
use Prim.Native.String.{◌++◌ as str_append}
use cogame.Base.{
  ℕ, ◌==◌, ◌/◌, ℤ, pos, neg, eqb_ℤ, String, str_eq, Bool, not, List, [], ◌∷◌, Option, none, some,
  decimal, if◌then◌else◌,
}
use cogame.Model.{User}
use cogame.Database.Mongo.{Reply, document, no_documents, failure}
use cogame.Lobby.Messages.{MessageHeader}
use cogame.Gateway.Messages.{LoginRequest, LoginResponse}
use cogame.Login.Sessions.{
  Redis, set_session, get_session, delete_session, refresh_session, set_user_offline, set_user_info,
}

-- The fields that UpdateFields sets.
pub data Field : Type 0 where
  last_login_at : ℕ → Field
  last_login_ip : String → Field
  updated_at : ℕ → Field

-- FindOne by the username, UpdateOne by the user id, and MD5 as hexadecimal text.
pub record Accounts : Type 1 where
  pub World : Type 0
  pub find_by_name : String → World → Reply User × World
  pub update_user : ℕ → List Field → World → Bool × World
  pub md5_hex : String → String

unfoldable pub get_by_username : (a : Accounts) → String → a.World → Option User × a.World
get_by_username a username w =
    let (reply, w1) = a.find_by_name username w in
    (elim reply [ document u ↦ some u | no_documents ↦ none | failure ↦ none ], w1)

unfoldable pub update_fields : (a : Accounts) → ℕ → List Field → ℕ → a.World → Bool × a.World
update_fields a user_id fields now w = a.update_user user_id (updated_at now ∷ fields) w

-- The data of a response, which the code writes as JSON.
pub data Payload : Type 0 where
  no_payload : Payload
  user_id_json : ℕ → Payload
  token_json : String → Payload

pub record Response : Type 0 where
  pub header : MessageHeader
  pub code : ℤ
  pub msg : String
  pub payload : Payload

module _ (r : Redis) (a : Accounts) where
  open r use {Store}
  open a use {World}

  unfoldable pub hash_password : String → String
  hash_password password = a.md5_hex (str_append password "co_game_salt")

  unfoldable pub verify_password : String → String → Bool
  unfolding hash_password
  verify_password plain hashed = str_eq (hash_password plain) hashed

  -- The time is in nanoseconds, the token has its seconds.
  unfoldable pub generate_token : ℕ → ℕ → String
  generate_token user_id now = a.md5_hex (
      str_append (decimal user_id)
        (str_append "_" (str_append (decimal (now / 1000000000)) "_co_token_salt")))

  -- From the token on.
  unfoldable pub open_session : ℕ → User → World → Store → LoginResponse × World × Store
  unfolding generate_token
  open_session now user w s =
      let token = generate_token user.user_id now in
      (
        record {
          user_id = user.user_id;
          token = token;
          nickname = user.nickname;
          level = user.level;
          exp = user.experience;
          gold = user.gold;
          diamond = user.diamond;
        },
        (update_fields a user.user_id (last_login_at now ∷ last_login_ip "0.0.0.0" ∷ []) now w).1,
        set_session r token user.user_id (set_user_info r user.user_id user s),
      )

  -- `none` is an error.
  unfoldable pub login : ℕ → LoginRequest → World → Store → Option LoginResponse × World × Store
  unfolding open_session verify_password
  login now req w s =
      let (found, w1) = get_by_username a req.username w in
      elim found [
        | none ↦ (none, w1, s)
        | some user ↦
            if not (verify_password req.password user.password)
            then (none, w1, s)
            else if not (eqb_ℤ user.status (pos 0))
            then (none, w1, s)
            else let (reply, w2, s1) = open_session now user w1 s in (some reply, w2, s1)
      ]

  abbrev pub reply_of : MessageHeader → ℤ → String → Payload → Response
  reply_of h code msg payload = record { header = h; code = code; msg = msg; payload = payload }

  -- Each handler reads a field of the header, which panics where there is none: `none`.
  unfoldable pub logout : Option MessageHeader → Store → Option (Response × Store)
  logout none s = none
  logout (some h) s =
      if h.user_id == 0
      then some (reply_of h (neg 1) "invalid user id" no_payload, s)
      else some (
        reply_of h (pos 0) "logout success" no_payload,
        set_user_offline r h.user_id
            (if str_eq h.session_id "" then s else delete_session r h.session_id s),
      )

  unfoldable pub validate_token : Option MessageHeader → Store → Option (Response × Store)
  validate_token none s = none
  validate_token (some h) s =
      if str_eq h.session_id ""
      then some (reply_of h (neg 1) "missing session id" no_payload, s)
      else elim (get_session r h.session_id s) [
        | none ↦ some (reply_of h (neg 2) "invalid session" no_payload, s)
        | some user_id ↦ some (
          reply_of h (pos 0) "token valid" (user_id_json user_id),
          refresh_session r h.session_id s,
        )
      ]

  unfoldable pub refresh_token : ℕ → Option MessageHeader → Store → Option (Response × Store)
  unfolding generate_token
  refresh_token now none s = none
  refresh_token now (some h) s =
      if h.user_id == 0
      then some (reply_of h (neg 1) "invalid user id" no_payload, s)
      else let token = generate_token h.user_id now in
        some (
          reply_of h (pos 0) "token refreshed" (token_json token),
          set_session r token h.user_id
              (if str_eq h.session_id "" then s else delete_session r h.session_id s),
        )
