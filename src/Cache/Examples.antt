-- ===== src/Cache/Examples.antt =====
-- Runs of clients of the lock of internal/cache/redis.go, over a Redis in memory.
use cogame.Base.{
  ℕ, ◌+◌, ltb, String, eq_iff, Bool, true, false, not, List, [], ◌∷◌, Option, none, some, ◌≡◌, refl,
  arith, inl, inr, if◌then◌else◌, ◌==◌,
}
use cogame.Base.Dict
use cogame.Cache.Locks.{LockClient, LockLaws, lock, unlock}
use cogame.Cache.Exclusion.{
  Shared, Event, locks, unlocks, passes, event, events, Excludes, events-Excludes,
  unlock_of_another,
}

-- The time, and when each key goes, if ever.
record Memory : Type 0 where
  now : ℕ
  keys : List (String × Option ℕ)

abbrev is_live : ℕ → Option (Option ℕ) → Bool
is_live now none = false
is_live now (some none) = true
is_live now (some (some end)) = ltb now end

abbrev end_of : ℕ → ℕ → Option ℕ
end_of now expiration = if expiration == 0 then none else some (now + expiration)

abbrev set_key : String → ℕ → Memory → Memory
set_key k e w = record w {
  keys =
      if is_live w.now (Dict.lookup k w.keys)
      then w.keys
      else Dict.insert k (end_of w.now e) w.keys;
}

abbrev client : LockClient
client = record {
  World = Memory;
  set_nx = λ k e w. (not (is_live w.now (Dict.lookup k w.keys)), set_key k e w);
  del = λ k w. record w { keys = Dict.delete k w.keys };
  passes = λ time w. record w { now = w.now + time };
}

client_laws : LockLaws client
unfolding Dict.lookup
client_laws = record {
  has = λ w k. is_live w.now (Dict.lookup k w.keys);
  set_nx-has = λ k e w. refl;
  has-set_nx = λ k e w. ground (arith, Dict.lookup-insert k k (end_of w.now e) w.keys, eq_iff k k);
  has-del = λ k w. ground (arith, Dict.lookup-delete k k w.keys, eq_iff k k);
  has-passes = λ k e w free some_time.
      ground (arith, Dict.lookup-insert k k (end_of w.now e) w.keys, eq_iff k k);
}

-- Nobody has the lock yet.
abbrev idle : Shared client "room"
idle = record { world = record { now = 0; keys = [] }; holders = [] }

-- 1 gets the lock, 2 does not until 1 gives it back.
abbrev in_turn : List Event
in_turn = locks 1 10 ∷ passes 5 ∷ locks 2 10 ∷ unlocks 1 ∷ passes 20 ∷ locks 2 10 ∷ []

in_turn_holders : (events client "room" in_turn idle).holders ≡ 2 ∷ []
unfolding events lock unlock Dict.lookup Dict.delete Dict.insert
in_turn_holders = refl

events-Excludes_example : Excludes client client_laws "room" (events client "room" in_turn idle)
unfolding event lock unlock Dict.lookup Dict.delete Dict.insert client_laws
events-Excludes_example =
    events-Excludes client client_laws "room" in_turn idle (inl refl)
      (inr refl, (refl, (inl refl, tt)))

unlock_of_another_example :
    (events client "room"
      (locks 1 10 ∷ passes 10 ∷ locks 2 10 ∷ unlocks 1 ∷ locks 3 10 ∷ [])
      idle).holders
    ≡ 3 ∷ 2 ∷ []
unfolding Dict.lookup client_laws
unlock_of_another_example =
    unlock_of_another client client_laws "room" 1 2 3 10 (record { now = 0; keys = [] }) refl refl
      (ground arith)
