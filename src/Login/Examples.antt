-- ===== src/Login/Examples.antt =====
-- Runs of the login service of internal/server/login_server.go over a map.
use cogame.Base.{ℕ, ◌+◌, pos, String, str_eq, true, List, [], Option, if◌then◌else◌}
use cogame.Base.Dict
use cogame.Database.Mongo.{document}
use cogame.Lobby.Messages.{MessageHeader}
use cogame.Lobby.Examples.{user}
use cogame.Gateway.Messages.{LoginResponse}
use cogame.Gateway.Examples.{anna}
use cogame.Login.Sessions.{Redis, Value}
use cogame.Login.Service.{Accounts, login}

-- A Redis whose keys do not expire.
abbrev map_redis : Redis
map_redis = record {
  Store = List (String × Value);
  set = λ k v e s. Dict.insert k v s;
  get = λ k s. Dict.lookup k s;
  delete = λ k s. Dict.delete k s;
  expire = λ k e s. s;
  print_user = λ u. u.username;
}

-- Every name is a user whose password is hashed to itself and its salt.
abbrev salted : Accounts
salted = record {
  World = ℕ;
  find_by_name = λ name w.
      (document (record (user 42) { username = name; password = "secretco_game_salt" }), w);
  update_user = λ id fields w. (true, w + 1);
  md5_hex = λ x. if str_eq x "" then "0" else x;
}

abbrev header : ℕ → String → MessageHeader
header user_id session_id = record {
  msg_id = 1;
  seq = 1;
  user_id = user_id;
  timestamp = 0;
  session_id = session_id;
}

abbrev anna_token : String
anna_token = "42_5_co_token_salt"

abbrev anna_login : Option LoginResponse × ℕ × List (String × Value)
anna_login = login map_redis salted 5000000000 anna 0 []

abbrev anna_session : LoginResponse
anna_session = record {
  user_id = 42;
  token = anna_token;
  nickname = "nick";
  level = pos 1;
  exp = pos 0;
  gold = pos 0;
  diamond = pos 0;
}
