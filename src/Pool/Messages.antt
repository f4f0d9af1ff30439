-- ===== src/Pool/Messages.antt =====
-- internal/pool/message_pool.go and actor_pool.go: messages that keep their buffer. A slice is its
-- bytes and its capacity; `Data` and `buf` share an array, which SetData writes whole.
use cogame.Base.{ℕ, ◌≤◌, ltb, String, List, [], length, some, if◌then◌else◌}
use cogame.Pool.Generic.{GenericPool, new}

pub record Slice : Type 0 where
  pub bytes : List ℕ
  pub capacity : ℕ

-- make([]byte, 0, n)
abbrev pub empty_slice : ℕ → Slice
empty_slice n = record { bytes = []; capacity = n }

-- s[:0]
abbrev pub truncate : Slice → Slice
truncate s = record s { bytes = [] }

-- A slice holds no more than its capacity.
abbrev pub IsSlice : Slice → Type 0
IsSlice s = length s.bytes ≤ s.capacity

-- The lines shared by the two SetData: a new array if the old one is too small, then the copy.
unfoldable pub fill : List ℕ → Slice → Slice
fill payload buf = record {
  bytes = payload;
  capacity = if ltb buf.capacity (length payload) then length payload else buf.capacity;
}

pub record Message : Type 0 where
  pub kind : String
  pub contents : Slice
  pub buf : Slice

-- Message.Reset
unfoldable pub reset_message : Message → Message
reset_message m = record {
  kind = "";
  contents = truncate m.contents;
  buf = if ltb 4096 (length m.buf.bytes) then empty_slice 1024 else truncate m.buf;
}

-- Message.SetData
unfoldable pub set_message_data : List ℕ → Message → Message
unfolding fill
set_message_data payload m = record m { contents = fill payload m.buf; buf = fill payload m.buf }

abbrev pub new_message : Message
new_message = record { kind = ""; contents = empty_slice 0; buf = empty_slice 1024 }

unfoldable pub message_pool : ℕ → GenericPool Message
unfolding new
message_pool max_size = new max_size new_message (some reset_message)

-- `Callback` is the number of a callback, or 0 for nil.
pub record ActorMessage : Type 0 where
  pub id : String
  pub kind : String
  pub from : String
  pub to : String
  pub contents : Slice
  pub callback : ℕ
  pub buf : Slice

-- ActorMessage.Reset
unfoldable pub reset_actor_message : ActorMessage → ActorMessage
reset_actor_message m = record {
  id = "";
  kind = "";
  from = "";
  to = "";
  contents = empty_slice 0;
  callback = 0;
  buf = truncate m.buf;
}

-- ActorMessage.SetData
unfoldable pub set_actor_message_data : List ℕ → ActorMessage → ActorMessage
unfolding fill
set_actor_message_data payload m = record m {
  contents = fill payload m.buf;
  buf = fill payload m.buf;
}

abbrev pub new_actor_message : ActorMessage
new_actor_message = record {
  id = "";
  kind = "";
  from = "";
  to = "";
  contents = empty_slice 0;
  callback = 0;
  buf = empty_slice 512;
}

unfoldable pub actor_pool : ℕ → GenericPool ActorMessage
unfolding new
actor_pool max_size = new max_size new_actor_message (some reset_actor_message)
