-- ===== src/Node/Lifecycle.antt =====
-- How Start, the turns of loadUpdateLoop and Stop of internal/server/server.go follow one another.
use cogame.Base.{ℕ, pos, Bool, true, false, ◌≡◌, refl, ap, ◌∙◌, arith}
use cogame.Base.Dict
use cogame.Security.Limiter.{TokenBuckets}
use cogame.Discovery.Registry.{
  Etcd, returned, blocked, register, unregister, update_load, update_load-register,
}
use cogame.Node.State.{
  BaseServer, returns, waits, initializing, running, stopping, start, stop, stop_parts,
  register_service, service_info, update_own_load, calculate_load,
}

module _ (t : Etcd) (b : TokenBuckets) where
  -- Start without an error registers the service, and makes the server run.
  start-registers :
      (free : Bool) (now : ℕ) (s s1 : BaseServer t b)
      → start t b free now s ≡ returns true s1
      → (s1.status ≡ running)
        × (s1.node_id ≡ s.node_id)
        × (register t now (service_info t b now s) s.registry ≡ returned true s1.registry)
  unfolding start register_service
  start-registers free now s s1 h = ground (arith, h)

  -- Once a turn of the loop has come, the UpdateLoad of that turn holds the registry's lock for ever,
  -- and so a Stop never returns: the server stays stopping.
  pub stop_waits :
      (free : Bool) (now later : ℕ) (s s1 : BaseServer t b)
      → start t b free now s ≡ returns true s1
      → (s2 : BaseServer t b) × (update_own_load t b later s1 ≡ waits s2)
        × (stop t b s2 ≡ waits (stop_parts t b s2))
        × ((stop_parts t b s2).status ≡ stopping)
  unfolding stop stop_parts update_own_load unregister
  stop_waits free now later s s1 h =
      let (active, named, registered) = start-registers free now s s1 h in
      let stuck =
        update_load-register t now later (service_info t b now s) (pos (calculate_load t b s1))
          s.registry s1.registry registered in
      let stuck' : update_load t later s1.node_id (pos (calculate_load t b s1)) s1.registry
          ≡ blocked =
        ap (λ k. update_load t later k (pos (calculate_load t b s1)) s1.registry) named ∙ stuck in
      (
        record s1 { registry = record (s1.registry) { locked = true } },
        rw (stuck', update_own_load) refl,
        ground (arith, active),
        refl,
      )

  -- A Start that fails at the registration leaves the port taken: the server is still initializing,
  -- and every later Start fails.
  pub start_fails_for_good :
      (free : Bool) (now : ℕ) (s s1 : BaseServer t b)
      → s.status ≡ initializing
      → register_service t b now (record s { listening = true }) ≡ returns false s1
      → (again : Bool) (later : ℕ) → start t b again later s1 ≡ returns false s1
  unfolding start register_service
  start_fails_for_good free now s s1 fresh h again later = ground (arith, h, fresh)
