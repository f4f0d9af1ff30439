-- ===== src/Pool/Count.antt =====
-- The counter of created objects in internal/pool/object_pool.go.
use cogame.Base.{
  ◌^◌, ◌≤◌, ◌<◌, ◌≡◌, ltb_ℤ, int64, int64_small, pos, some, arith, Bool-cases, Option-cases, inl,
  inr,
}
use cogame.Pool.Generic.{GenericPool, Got, object, waiting, next64, receive, create_or_wait, get}

module _ {ℓ} {A : Type ℓ} where
  abbrev pub pool_of : Got A → GenericPool A
  pool_of (object x q) = q
  pool_of (waiting q) = q

  create_or_wait-created :
      (p : GenericPool A)
      → p.max_size < 2 ^ 63
      → p.created ≤ p.max_size
      → (pool_of (create_or_wait p)).created ≤ p.max_size
  unfolding create_or_wait
  create_or_wait-created p small le =
      let same : int64 p.created ≡ pos p.created = int64_small p.created (omega arith) in
      elim (Bool-cases (ltb_ℤ (int64 p.created) (pos p.max_size))) [
        | inl less ↦
            let below : p.created < p.max_size = ground (arith, same, less) in rw less (omega arith)
        | inr more ↦ rw more le
      ]

  receive-created : (p q : GenericPool A) (x : A) → receive p ≡ some (x, q) → q.created ≡ p.created
  unfolding receive
  receive-created p q x h = ground arith

  -- A Get that no other call overlaps keeps the counter of created objects within the maximum, for
  -- a maximum that an int64 holds.
  pub get-created :
      (p : GenericPool A)
      → p.max_size < 2 ^ 63
      → p.created ≤ p.max_size
      → (pool_of (get p)).created ≤ p.max_size
  unfolding get
  get-created p small le =
      let p1 = record p { gotten = next64 p.gotten } in
      elim (Option-cases (receive p1)) [
        | inl empty ↦ rw (empty, get) (create_or_wait-created p1 small le)
        | inr ((x, q), full) ↦ rw (full, get) (omega (arith, receive-created p1 q x full))
      ]
