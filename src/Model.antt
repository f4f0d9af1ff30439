-- ===== src/Model.antt =====
-- internal/model/room.go and internal/model/user.go: the documents of the two collections.
-- uint64 fields are ℕ, int32 and int64 fields are ℤ, a time.Time is a number of nanoseconds.
use cogame.Base.{ℕ, ℤ, String, Bool, List}

pub record RoomPlayer : Type 0 where
  pub user_id : ℕ
  pub nickname : String
  pub level : ℤ
  pub status : ℤ
  pub join_time : ℕ

pub record Room : Type 0 where
  pub id : ℕ
  pub room_id : ℕ
  pub room_name : String
  pub game_type : ℤ
  pub max_players : ℤ
  pub current_players : ℤ
  pub status : ℤ
  pub is_private : Bool
  pub password : String
  pub owner_id : ℕ
  pub players : List RoomPlayer
  pub created_at : ℕ
  pub updated_at : ℕ

pub record User : Type 0 where
  pub id : String
  pub user_id : ℕ
  pub username : String
  pub password : String
  pub nickname : String
  pub email : String
  pub phone : String
  pub level : ℤ
  pub experience : ℤ
  pub gold : ℤ
  pub diamond : ℤ
  pub avatar : String
  pub status : ℤ
  pub last_login_ip : String
  pub last_login_at : ℕ
  pub created_at : ℕ
  pub updated_at : ℕ
