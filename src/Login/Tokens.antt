-- ===== src/Login/Tokens.antt =====
-- Which tokens of internal/server/login_server.go are valid.
use cogame.Base.{
  ℕ, ◌==◌, pos, String, str_eq, eq_iff, true, false, some, if◌then◌else◌, ◌≡◌, refl, ap, ◌∙◌,
}
use cogame.Lobby.Messages.{MessageHeader}
use cogame.Login.Sessions.{
  Redis, RedisLaws, uint, session_key, session_expiry, set_session, get_session, delete_session,
  refresh_session,
}
use cogame.Login.Service.{
  Accounts, user_id_json, token_json, generate_token, reply_of, validate_token, refresh_token,
}

module _ (r : Redis) (l : RedisLaws r) (a : Accounts) where
  open r use {Store}
  open a use {World}

  str_refl : (k : String) → str_eq k k ≡ true
  str_refl k = (eq_iff k k).1 refl

  get_session-set_session :
      (token : String) (user_id : ℕ) (s : Store)
      → get_session r token (set_session r token user_id s) ≡ some user_id
  unfolding get_session set_session
  get_session-set_session token user_id s =
      let stored : r.get (session_key token)
            (r.set (session_key token) (uint user_id) session_expiry s)
          ≡ some (uint user_id) =
        l.get-set (session_key token) (session_key token) (uint user_id) session_expiry s
        ∙ rw (str_refl (session_key token)) refl in
      rw (stored, get_session) refl

  -- ValidateToken says that the session is the user's.
  abbrev pub Validates : MessageHeader → ℕ → Store → Type 0
  Validates h user_id s =
      validate_token r a (some h) s
      ≡ some (
        reply_of r a h (pos 0) "token valid" (user_id_json user_id),
        refresh_session r h.session_id s,
      )

  validate_token-Validates :
      (h : MessageHeader) (token : String) (user_id : ℕ) (s : Store)
      → h.session_id ≡ token
      → str_eq token "" ≡ false
      → Validates h user_id (set_session r token user_id s)
  unfolding validate_token
  validate_token-Validates h token user_id s e full =
      let named : str_eq h.session_id "" ≡ false = ap (λ k. str_eq k "") e ∙ full in
      let found : get_session r h.session_id (set_session r token user_id s) ≡ some user_id =
        ap (λ k. get_session r k (set_session r token user_id s)) e
        ∙ get_session-set_session token user_id s in
      rw (named, validate_token, found) refl

  -- RefreshToken asks for no proof: whatever session a header names, or none, it is given a token
  -- that ValidateToken takes for the user that the header names, where MD5 is not empty.
  pub refresh_token-Validates :
      (now : ℕ) (h later : MessageHeader) (s : Store)
      → (h.user_id == 0) ≡ false
      → ((x : String) → str_eq (a.md5_hex x) "" ≡ false)
      → later.session_id ≡ generate_token r a h.user_id now
      → (s1 : Store) × (refresh_token r a now (some h) s
          ≡ some (reply_of r a h (pos 0) "token refreshed" (token_json later.session_id), s1))
        × Validates later h.user_id s1
  unfolding refresh_token generate_token
  refresh_token-Validates now h later s user md5 e =
      let token = generate_token r a h.user_id now in
      let cleared = if str_eq h.session_id "" then s else delete_session r h.session_id s in
      (
        set_session r token h.user_id cleared,
        rw (user, refresh_token, e) refl,
        validate_token-Validates later token h.user_id cleared e (md5 _),
      )
