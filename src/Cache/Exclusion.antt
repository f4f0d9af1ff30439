-- ===== src/Cache/Exclusion.antt =====
-- Clients that share a lock of internal/cache/redis.go.
use cogame.Base.{
  ℕ, ◌<◌, ◌==◌, String, Bool, true, false, List, [], ◌∷◌, ◌≡◌, ◌⊎◌, refl, arith, if◌then◌else◌,
  Bool-cases, inl, inr,
}
use cogame.Cache.Locks.{LockClient, LockLaws, lock_key, lock, unlock}

-- A client tries to lock, unlocks, or time passes.
pub data Event : Type 0 where
  locks : ℕ → ℕ → Event
  unlocks : ℕ → Event
  passes : ℕ → Event

abbrev pub without : ℕ → List ℕ → List ℕ
without c [] = []
without c (d ∷ ds) = if d == c then without c ds else d ∷ without c ds

module _ (r : LockClient) (key : String) where
  open r use {World}

  -- `holders` are the clients that were told they have the lock, and have not given it back.
  pub record Shared : Type 0 where
    pub world : World
    pub holders : List ℕ

  unfoldable pub event : Event → Shared → Shared
  unfolding lock
  event (locks c expiration) s =
      let (got, w) = lock r key expiration s.world in
      record { world = w; holders = if got then c ∷ s.holders else s.holders }
  event (unlocks c) s = record { world = unlock r key s.world; holders = without c s.holders }
  event (passes time) s = record s { world = r.passes time s.world }

  unfoldable pub events : List Event → Shared → Shared
  unfolding event
  events [] s = s
  events (e ∷ es) s = events es (event e s)

module _ (r : LockClient) (laws : LockLaws r) (key : String) where
  open r use {World}

  abbrev pub is_there : World → Bool
  is_there w = laws.has w (lock_key key)

  -- Only a holder unlocks, and no time passes by which the lock of a holder goes.
  abbrev pub Orderly : List Event → Shared r key → Type 0
  Orderly [] s = Unit {0}
  Orderly (locks c expiration ∷ es) s = Orderly es (event r key (locks c expiration) s)
  Orderly (unlocks c ∷ es) s = (s.holders ≡ c ∷ []) × Orderly es (event r key (unlocks c) s)
  Orderly (passes time ∷ es) s =
      ((s.holders ≡ []) ⊎ (is_there (r.passes time s.world) ≡ true))
      × Orderly es (event r key (passes time) s)

  -- Nobody has the lock, or one client has, and its key is there.
  abbrev pub Excludes : Shared r key → Type 0
  Excludes s = (s.holders ≡ []) ⊎ ((c : ℕ) × (s.holders ≡ c ∷ []) × (is_there s.world ≡ true))

  locks-Excludes :
      (c expiration : ℕ) (s : Shared r key)
      → Excludes s
      → Excludes (event r key (locks c expiration) s)
  unfolding event lock
  locks-Excludes c expiration s h =
      let k = lock_key key in
      let there : is_there (r.set_nx k expiration s.world).1 ≡ true =
        laws.has-set_nx k expiration s.world in
      elim (Bool-cases (is_there s.world)) [
        | inl taken ↦ elim h [
          | inl nobody ↦ rw (laws.set_nx-has k expiration s.world, taken) (inl nobody)
          | inr (d, held, live) ↦
              rw (laws.set_nx-has k expiration s.world, taken) (inr (d, held, there))
        ]
        | inr free ↦ elim h [
          | inl nobody ↦
              rw (laws.set_nx-has k expiration s.world, free, nobody) (inr (c, refl, there))
          | inr (d, held, live) ↦ absurd (ground (arith, free, live))
        ]
      ]

  unlocks-Excludes :
      (c : ℕ) (s : Shared r key) → s.holders ≡ c ∷ [] → Excludes (event r key (unlocks c) s)
  unfolding event
  unlocks-Excludes c s h = ground (arith, h)

  passes-Excludes :
      (time : ℕ) (s : Shared r key)
      → (s.holders ≡ []) ⊎ (is_there (r.passes time s.world) ≡ true)
      → Excludes s
      → Excludes (event r key (passes time) s)
  unfolding event
  passes-Excludes time s (inl nobody) h = inl nobody
  passes-Excludes time s (inr live) (inl nobody) = inl nobody
  passes-Excludes time s (inr live) (inr (c, held, before)) = inr (c, held, live)

  -- While only a holder unlocks, and no lock goes before it is given back, at most one client has the
  -- lock, and then its key is there.
  pub events-Excludes :
      (es : List Event) (s : Shared r key)
      → Excludes s
      → Orderly es s
      → Excludes (events r key es s)
  unfolding events
  events-Excludes [] s h o = h
  events-Excludes (locks c expiration ∷ es) s h o =
      events-Excludes es (event r key (locks c expiration) s) (locks-Excludes c expiration s h) o
  events-Excludes (unlocks c ∷ es) s h o =
      events-Excludes es (event r key (unlocks c) s) (unlocks-Excludes c s o.0) o.1
  events-Excludes (passes time ∷ es) s h o =
      events-Excludes es (event r key (passes time) s) (passes-Excludes time s o.0 h) o.1

  -- A client whose lock has gone unlocks that of the next: where a locks, its lock goes, b locks and a
  -- unlocks, c locks too, and both b and c have the lock.
  pub unlock_of_another :
      (a b c expiration : ℕ) (w : World)
      → is_there w ≡ false
      → (a == b) ≡ false
      → 0 < expiration
      → (events r key
          (locks a expiration
            ∷ passes expiration
            ∷ locks b expiration
            ∷ unlocks a
            ∷ locks c expiration
            ∷ [])
          (record { world = w; holders = [] })).holders
        ≡ c ∷ b ∷ []
  unfolding events lock unlock
  unlock_of_another a b c expiration w free other some_time =
      let k = lock_key key in
      let w1 = (r.set_nx k expiration w).1 in
      let w2 = r.passes expiration w1 in
      let w4 = r.del k (r.set_nx k expiration w2).1 in
      ground (
        arith,
        laws.set_nx-has k expiration w,
        laws.set_nx-has k expiration w2,
        laws.set_nx-has k expiration w4,
        laws.has-passes k expiration w free some_time,
        laws.has-del k (r.set_nx k expiration w2).1,
      )
