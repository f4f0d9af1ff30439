-- ===== src/Actor/Mailbox.antt =====
-- internal/actor/actor.go: BaseActor. What the actor itself does with a message is left to it; the
-- model keeps which messages it was given. OnStart and OnStop may fail: whether they do is an
-- argument.
use cogame.Base.{
  ℕ, ltb, String, Bool, true, false, not, List, [], ◌∷◌, ◌++◌, Option, none, some, length,
  if◌then◌else◌,
}

pub record BaseActor (M : Type 0) : Type 0 where
  pub id : String
  pub actor_type : String
  pub mailbox : List M
  pub mailbox_size : ℕ
  -- The context is cancelled.
  pub cancelled : Bool
  pub running : Bool
  -- A goroutine is in the loop of run.
  pub looping : Bool

module _ {M : Type 0} where
  unfoldable pub new_base_actor : String → String → ℕ → BaseActor M
  new_base_actor id actor_type mailbox_size = record {
    id = id;
    actor_type = actor_type;
    mailbox = [];
    mailbox_size = mailbox_size;
    cancelled = false;
    running = false;
    looping = false;
  }

  unfoldable pub get_mailbox_size : BaseActor M → ℕ
  get_mailbox_size a = length a.mailbox

  -- Whether there was no error.
  unfoldable pub start : Bool → BaseActor M → Bool × BaseActor M
  start on_start a =
      if a.running then (false, a) else (on_start, record a { running = true; looping = true })

  -- One turn of run that takes a message, which OnReceive is given.
  unfoldable pub receive : BaseActor M → Option (M × BaseActor M)
  receive a =
      if a.looping
      then elim a.mailbox [ [] ↦ none | msg ∷ rest ↦ some (msg, record a { mailbox = rest }) ]
      else none

  -- The turn of run that sees the context cancelled.
  unfoldable pub leave_loop : BaseActor M → Option (BaseActor M)
  leave_loop a = if a.cancelled then some (record a { looping = false }) else none

  -- Stop up to its wait for the loop, which then leaves.
  unfoldable pub stop : Bool → BaseActor M → Bool × BaseActor M
  stop on_stop a =
      if a.running
      then (on_stop, record a { running = false; cancelled = true; looping = false })
      else (true, a)

  -- A mailbox that stays full for 5 seconds is an error.
  unfoldable pub tell : M → BaseActor M → Bool × BaseActor M
  tell msg a =
      if not a.running
      then (false, a)
      else if ltb (length a.mailbox) a.mailbox_size
      then (true, record a { mailbox = a.mailbox ++ (msg ∷ []) })
      else (false, a)
