-- ===== src/Actor/System.antt =====
-- internal/actor/actor_system.go: ActorSystem. It calls the methods of its actors itself: which
-- methods, in order, are the events; whether one returns an error is an argument.
use cogame.Base.{ℕ, String, Bool, true, false, List, [], ◌∷◌, none, some, length, if◌then◌else◌}
use cogame.Base.Dict

pub record Actor : Type 0 where
  pub id : String
  pub actor_type : String

-- What GetType and GetData of a message give.
pub record Message : Type 0 where
  pub kind : String
  pub payload : List ℕ

pub data Event : Type 0 where
  on_start : String → Event
  -- OnStart with an error
  on_start_failed : String → Event
  on_receive : String → Message → Event
  on_stop : String → Event

abbrev pub Actors : Type 0
Actors = List (String × Actor)

-- Each call gives whether there was no error, the actors after it, and what it called.
unfoldable pub spawn_actor : Bool → Actor → Actors → Bool × Actors × List Event
spawn_actor starts actor actors = elim (Dict.lookup actor.id actors) [
  | some other ↦ (false, actors, [])
  | none ↦
      if starts
      then (true, Dict.insert actor.id actor actors, on_start actor.id ∷ [])
      else (false, actors, on_start_failed actor.id ∷ [])
]

unfoldable pub tell_actor : Bool → String → Message → Actors → Bool × Actors × List Event
tell_actor handles id msg actors = elim (Dict.lookup id actors) [
  | none ↦ (false, actors, [])
  | some actor ↦ (handles, actors, on_receive id msg ∷ [])
]

-- The loop of Shutdown; the error of an OnStop is only logged.
unfoldable pub stop_all : Actors → List Event
stop_all [] = []
stop_all ((id, actor) ∷ actors) = on_stop id ∷ stop_all actors

unfoldable pub shutdown : Actors → Bool × Actors × List Event
unfolding stop_all
shutdown actors = (true, [], stop_all actors)

unfoldable pub get_actor_count : Actors → ℕ
get_actor_count actors = length actors

unfoldable pub list_actors : Actors → List String
list_actors [] = []
list_actors ((id, actor) ∷ actors) = id ∷ list_actors actors
