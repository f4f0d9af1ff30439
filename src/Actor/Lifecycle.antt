-- ===== src/Actor/Lifecycle.antt =====
-- The life of an actor in internal/actor/actor_system.go.
use cogame.Base.{
  String, str_eq, Bool, true, false, List, [], ◌∷◌, ◌++◌, none, some, if◌then◌else◌, ◌≡◌,
}
use cogame.Base.Dict
use cogame.Actor.System.{
  Actor, Actors, Event, Message, on_start, on_start_failed, on_receive, on_stop, spawn_actor,
  tell_actor, shutdown,
}

-- Whether an actor has been started and not stopped, from whether it had before the events.
abbrev pub alive : String → Bool → List Event → Bool
alive id up [] = up
alive id up (on_start j ∷ es) = alive id (if str_eq j id then true else up) es
alive id up (on_start_failed j ∷ es) = alive id up es
alive id up (on_receive j msg ∷ es) = alive id up es
alive id up (on_stop j ∷ es) = alive id (if str_eq j id then false else up) es

-- It is started when it is not, and given messages and stopped only when it is.
abbrev pub IsLife : String → Bool → List Event → Type 0
IsLife id up [] = Unit
IsLife id up (on_start j ∷ es) =
    (str_eq j id ≡ true → up ≡ false) × IsLife id (if str_eq j id then true else up) es
IsLife id up (on_start_failed j ∷ es) = IsLife id up es
IsLife id up (on_receive j msg ∷ es) = (str_eq j id ≡ true → up ≡ true) × IsLife id up es
IsLife id up (on_stop j ∷ es) =
    (str_eq j id ≡ true → up ≡ true) × IsLife id (if str_eq j id then false else up) es

abbrev pub registered : String → Actors → Bool
registered id actors = elim (Dict.lookup id actors) [ none ↦ false | some a ↦ true ]

pub data Call : Type 0 where
  spawns : Bool → Actor → Call
  tells : Bool → String → Message → Call
  shuts_down : Call

unfoldable pub call : Call → Actors → Bool × Actors × List Event
unfolding spawn_actor tell_actor shutdown
call (spawns starts actor) actors = spawn_actor starts actor actors
call (tells handles id msg) actors = tell_actor handles id msg actors
call shuts_down actors = shutdown actors

-- The events of calls, one after the other.
unfoldable pub events : List Call → Actors → List Event
events [] actors = []
events (c ∷ cs) actors = let (ok, actors1, es) = call c actors in es ++ events cs actors1

-- What a call leaves of one actor's life.
abbrev Lives : String → Actors → Bool × Actors × List Event → Type 0
Lives id actors (ok, actors1, es) =
    IsLife id (registered id actors) es
    × (alive id (registered id actors) es ≡ registered id actors1)
    × Dict.IsMap actors1
