-- ===== src/Queue/Messages.antt =====
-- internal/mq/nsq_msg.go: MessageBroker and the handlers of the three kinds of messages. The JSON
-- of the messages is a parameter, and so are their maps of data and arguments.
use cogame.Base.{
  ℕ, ℤ, String, str_eq, Bool, true, false, ◌&&◌, not, List, [], Option, none, some, ◌≡◌,
  if◌then◌else◌,
}
use cogame.Base.Dict
use cogame.Queue.Nsq.{Nsq}
use cogame.Queue.Manager.{NsqManager, publish}
use cogame.Queue.Consumers.{subscribe}

-- What a map[string]interface{} of a message holds.
pub data Item : Type 0 where
  text : String → Item
  number : ℤ → Item

abbrev pub Items : Type 0
Items = List (String × Item)

pub record SystemMessage : Type 0 where
  pub kind : String
  pub target : String
  pub command : String
  pub args : Items
  pub timestamp : ℕ

pub record GameMessage : Type 0 where
  pub kind : String
  pub room_id : ℕ
  pub user_id : ℕ
  pub contents : Items
  pub timestamp : ℕ

pub record ChatMessage : Type 0 where
  pub from_user_id : ℕ
  pub to_user_id : ℕ
  pub channel : ℤ
  pub content : String
  pub timestamp : ℕ

pub record MessageCodec : Type 0 where
  pub marshal_system : SystemMessage → Option (List ℕ)
  pub marshal_game : GameMessage → Option (List ℕ)
  pub marshal_chat : ChatMessage → Option (List ℕ)
  pub unmarshal_system : List ℕ → Option SystemMessage
  pub unmarshal_game : List ℕ → Option GameMessage
  pub unmarshal_chat : List ℕ → Option ChatMessage

-- A text in UTF-8 is read as it was written.
pub record MessageCodecLaws (j : MessageCodec) : Type 0 where
  pub marshal_unmarshal :
      (m : SystemMessage) (bytes : List ℕ)
      → j.marshal_system m ≡ some bytes
      → (m' : SystemMessage) × (j.unmarshal_system bytes ≡ some m')
        × (m'.target ≡ m.target)
        × (m'.command ≡ m.command)

-- What a handler does to a state `S`, with whether it gives no error; `none`: it never returns.
abbrev pub Handler : Type 0 → Type 0 → Type 0
Handler M S = M → S → Option Bool × S

pub record SystemMessageHandler (S : Type 0) : Type 0 where
  pub node_id : String
  pub handlers : List (String × Handler SystemMessage S)

module _ {S : Type 0} where
  unfoldable pub new_system_message_handler : String → SystemMessageHandler S
  new_system_message_handler node_id = record { node_id = node_id; handlers = [] }

  unfoldable pub register_handler :
      String → Handler SystemMessage S → SystemMessageHandler S → SystemMessageHandler S
  register_handler command handler h = record h {
    handlers = Dict.insert command handler h.handlers;
  }

  -- From the test of the target on.
  unfoldable pub handle_system_message : SystemMessageHandler S → Handler SystemMessage S
  handle_system_message h m s =
      if not (str_eq m.target "") && not (str_eq m.target h.node_id)
      then (some true, s)
      else elim (Dict.lookup m.command h.handlers) [
        | none ↦ (some true, s)
        | some handler ↦ handler m s
      ]

module _ (j : MessageCodec) {S : Type 0} where
  -- SystemMessageHandler.HandleMessage
  unfoldable pub handle_system_bytes : SystemMessageHandler S → Handler (List ℕ) S
  unfolding handle_system_message
  handle_system_bytes h bytes s = elim (j.unmarshal_system bytes) [
    | none ↦ (some false, s)
    | some m ↦ handle_system_message h m s
  ]

  -- GameMessageHandler.HandleMessage
  unfoldable pub handle_game_bytes : List (String × Handler GameMessage S) → Handler (List ℕ) S
  handle_game_bytes handlers bytes s = elim (j.unmarshal_game bytes) [
    | none ↦ (some false, s)
    | some m ↦ elim (Dict.lookup m.kind handlers) [
      | none ↦ (some true, s)
      | some handler ↦ handler m s
    ]
  ]

  -- ChatMessageHandler.HandleMessage; its function may be nil.
  unfoldable pub handle_chat_bytes : Option (Handler ChatMessage S) → Handler (List ℕ) S
  handle_chat_bytes on_message bytes s = elim (j.unmarshal_chat bytes) [
    | none ↦ (some false, s)
    | some m ↦ elim on_message [ none ↦ (some true, s) | some handler ↦ handler m s ]
  ]

unfoldable pub new_system_message : ℕ → String → String → String → Items → SystemMessage
new_system_message now kind target command args = record {
  kind = kind;
  target = target;
  command = command;
  args = args;
  timestamp = now;
}

module _ (n : Nsq) (j : MessageCodec) {H : Type 0} where
  open n use {World}

  -- PublishJSON, from the encoding on.
  unfoldable pub publish_json :
      NsqManager H → String → Option (List ℕ) → World → Option (Bool × NsqManager H × World)
  publish_json m topic none w = some (false, m, w)
  publish_json m topic (some bytes) w = publish n m topic bytes w

  unfoldable pub publish_system_message :
      ℕ
      → String
      → String
      → String
      → Items
      → NsqManager H
      → World
      → Option (Bool × NsqManager H × World)
  unfolding publish_json new_system_message
  publish_system_message now kind target command args m w =
      publish_json m "system_messages"
        (j.marshal_system (new_system_message now kind target command args)) w

  unfoldable pub broadcast_system_message :
      ℕ → String → Items → NsqManager H → World → Option (Bool × NsqManager H × World)
  unfolding publish_system_message
  broadcast_system_message now command args m w =
      publish_system_message now "broadcast" "" command args m w

  unfoldable pub send_to_node :
      ℕ → String → String → Items → NsqManager H → World → Option (Bool × NsqManager H × World)
  unfolding publish_system_message
  send_to_node now target command args m w =
      publish_system_message now "unicast" target command args m w

  unfoldable pub publish_game_message :
      ℕ → String → ℕ → ℕ → Items → NsqManager H → World → Option (Bool × NsqManager H × World)
  unfolding publish_json
  publish_game_message now kind room_id user_id contents m w =
      publish_json m "game_events"
        (j.marshal_game (record {
          kind = kind;
          room_id = room_id;
          user_id = user_id;
          contents = contents;
          timestamp = now;
        }))
        w

  unfoldable pub publish_chat_message :
      ℕ → ℕ → ℕ → ℤ → String → NsqManager H → World → Option (Bool × NsqManager H × World)
  unfolding publish_json
  publish_chat_message now from_user_id to_user_id channel content m w =
      publish_json m "chat_messages"
        (j.marshal_chat (record {
          from_user_id = from_user_id;
          to_user_id = to_user_id;
          channel = channel;
          content = content;
          timestamp = now;
        }))
        w

module _ (n : Nsq) {H : Type 0} where
  open n use {World}

  -- SubscribeSystemMessages of a broker on the node; the other two differ in the topic.
  unfoldable pub subscribe_system_messages :
      String → H → NsqManager H → World → Bool × NsqManager H × World
  subscribe_system_messages node_id handler m w = subscribe n m "system_messages" node_id handler w

  unfoldable pub subscribe_game_events :
      String → H → NsqManager H → World → Bool × NsqManager H × World
  subscribe_game_events node_id handler m w = subscribe n m "game_events" node_id handler w

  unfoldable pub subscribe_chat_messages :
      String → H → NsqManager H → World → Bool × NsqManager H × World
  subscribe_chat_messages node_id handler m w = subscribe n m "chat_messages" node_id handler w
