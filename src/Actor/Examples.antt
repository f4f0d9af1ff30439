-- ===== src/Actor/Examples.antt =====
-- Runs of the actors of internal/actor.
use cogame.Base.{ℕ, ◌≤◌, true, List, [], ◌∷◌, ◌++◌, ◌≡◌, refl}
use cogame.Base.Dict
use cogame.Actor.Mailbox.{BaseActor, new_base_actor, get_mailbox_size, start, receive, tell}
use cogame.Actor.Order.{Ran, made, starts, takes, tells, Ran-get_mailbox_size}
use cogame.Actor.System.{Actor, Message, on_start, on_receive, on_stop}
use cogame.Actor.Lifecycle.{Call, spawns, tells as told, shuts_down, call, events}

-- An actor that was told 5 and 6, and was given 5.
abbrev started : BaseActor ℕ
started = (start true (new_base_actor "chat" "chat" 2)).1

abbrev waiting : BaseActor ℕ
waiting = record started { mailbox = 6 ∷ [] }

waiting-Ran : Ran "chat" "chat" 2 waiting (5 ∷ 6 ∷ []) (5 ∷ [])
unfolding start new_base_actor tell receive
waiting-Ran =
    takes (record started { mailbox = 5 ∷ 6 ∷ [] }) waiting 5 (5 ∷ 6 ∷ []) []
      (tells (record started { mailbox = 5 ∷ [] }) 6 (5 ∷ []) []
        (tells started 5 [] [] (starts true (new_base_actor "chat" "chat" 2) [] [] made) refl) refl)
      refl

Ran-get_mailbox_size_example :
    (5 ∷ 6 ∷ [] ≡ (5 ∷ []) ++ waiting.mailbox) × (get_mailbox_size waiting ≤ 2)
Ran-get_mailbox_size_example =
    Ran-get_mailbox_size "chat" "chat" 2 waiting (5 ∷ 6 ∷ []) (5 ∷ []) waiting-Ran

abbrev chat : Actor
chat = record { id = "chat"; actor_type = "chat" }

abbrev hello : Message
hello = record { kind = "chat_msg"; payload = 1 ∷ [] }

abbrev calls : List Call
calls =
    told true "chat" hello
    ∷ spawns true chat
    ∷ spawns true chat
    ∷ told true "chat" hello
    ∷ shuts_down
    ∷ told true "chat" hello
    ∷ []

chat_events : events calls [] ≡ on_start "chat" ∷ on_receive "chat" hello ∷ on_stop "chat" ∷ []
unfolding events call Dict.lookup Dict.insert
chat_events = refl
