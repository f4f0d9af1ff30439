-- ===== src/Discovery/ById.antt =====
-- internal/discovery/etcd.go: GetService of ETCDRegistry, which finds a service by its node, and what
-- the calls of a registry keep.
use cogame.Base.{
  ℕ, ℤ, String, str_eq, eq_iff, Bool, true, List, [], ◌∷◌, none, some, if◌then◌else◌, ◌≡◌, refl,
  arith, Option-cases, inl, inr,
}
use cogame.Base.Dict
use cogame.Discovery.Balance.{ServiceInfo}
use cogame.Discovery.Registry.{
  Etcd, EtcdRegistry, Outcome, returned, blocked, key_prefix, decode_all, register, unregister,
  update_load, store_service, register-services,
}

-- A call finds a service, fails, or waits for ever for the mutex.
pub data Answer : Type 0 where
  found : ServiceInfo → Answer
  fails : Answer
  stuck : Answer

abbrev pub first_of : String → List ServiceInfo → Answer
first_of node_id [] = fails
first_of node_id (info ∷ infos) =
    let rest = first_of node_id infos in if str_eq info.node_id node_id then found info else rest

module _ (t : Etcd) where
  -- The services that were registered here come first, then the ones of etcd.
  unfoldable pub get_registered_service : String → EtcdRegistry t → Answer
  unfolding decode_all
  get_registered_service node_id r =
      if r.locked then stuck else elim (Dict.lookup node_id r.services) [
        | some info ↦ found info
        | none ↦ elim (t.get_prefix key_prefix r.store) [
          | none ↦ fails
          | some values ↦ first_of node_id (decode_all t values)
        ]
      ]

  pub data Call : Type 0 where
    registers : ℕ → ServiceInfo → Call
    unregisters : String → Call
    updates : ℕ → String → ℤ → Call

  abbrev pub call : Call → EtcdRegistry t → Outcome t
  call (registers now info) r = register t now info r
  call (unregisters node_id) r = unregister t node_id r
  call (updates now node_id load) r = update_load t now node_id load r

  -- Calls one after the other, up to one that does not return.
  unfoldable pub calls : List Call → EtcdRegistry t → EtcdRegistry t
  calls [] r = r
  calls (c ∷ cs) r = elim (call c r) [ blocked ↦ r | returned ok r1 ↦ calls cs r1 ]

  -- Every service is stored under its node.
  abbrev pub IsKeyed : EtcdRegistry t → Type 0
  IsKeyed r =
      (k : String) (info : ServiceInfo) → Dict.lookup k r.services ≡ some info → info.node_id ≡ k

  store_service-IsKeyed :
      (info : ServiceInfo) (r : EtcdRegistry t) → IsKeyed r → IsKeyed (store_service t info r).1
  unfolding store_service
  store_service-IsKeyed info r h k found_info e = ground (
    arith,
    e,
    h k found_info,
    Dict.lookup-insert info.node_id k info r.services,
    eq_iff info.node_id k,
  )

  register-IsKeyed :
      (now : ℕ) (info : ServiceInfo) (r r1 : EtcdRegistry t) (ok : Bool)
      → IsKeyed r
      → register t now info r ≡ returned ok r1
      → IsKeyed r1
  unfolding register
  register-IsKeyed now info r r1 ok h e k found_info at_k =
      ground
        (arith, e, at_k, store_service-IsKeyed (record info { update_time = now }) r h k found_info)

  unregister-IsKeyed :
      (node_id : String) (r r1 : EtcdRegistry t) (ok : Bool)
      → IsKeyed r
      → unregister t node_id r ≡ returned ok r1
      → IsKeyed r1
  unfolding unregister
  unregister-IsKeyed node_id r r1 ok h e k found_info at_k =
      ground (arith, e, at_k, h k found_info, Dict.lookup-delete node_id k r.services)

  -- UpdateLoad of a service that is registered does not return.
  update_load-IsKeyed :
      (now : ℕ) (node_id : String) (load : ℤ) (r r1 : EtcdRegistry t) (ok : Bool)
      → IsKeyed r
      → update_load t now node_id load r ≡ returned ok r1
      → IsKeyed r1
  unfolding update_load register
  update_load-IsKeyed now node_id load r r1 ok h e k found_info at_k =
      ground (arith, e, at_k, h k found_info)

  call-IsKeyed :
      (c : Call) (r r1 : EtcdRegistry t) (ok : Bool)
      → IsKeyed r
      → call c r ≡ returned ok r1
      → IsKeyed r1
  call-IsKeyed (registers now info) r r1 ok h e = register-IsKeyed now info r r1 ok h e
  call-IsKeyed (unregisters node_id) r r1 ok h e = unregister-IsKeyed node_id r r1 ok h e
  call-IsKeyed (updates now node_id load) r r1 ok h e =
      update_load-IsKeyed now node_id load r r1 ok h e

  pub calls-IsKeyed : (cs : List Call) (r : EtcdRegistry t) → IsKeyed r → IsKeyed (calls cs r)
  unfolding calls
  calls-IsKeyed [] r h = h
  calls-IsKeyed (c ∷ cs) r h =
      let go : (o : Outcome t)
          → call c r ≡ o
          → IsKeyed (elim o [ blocked ↦ r | returned ok r1 ↦ calls cs r1 ]) =
        λ o e.
          elim o
              as (λ o.
                call c r ≡ o → IsKeyed (elim o [ blocked ↦ r | returned ok r1 ↦ calls cs r1 ])) [
                  | blocked ↦ λ e. h
                  | returned ok r1 ↦ λ e. calls-IsKeyed cs r1 (call-IsKeyed c r r1 ok h e)
                ]
            e in
      go (call c r) refl

  first_of-node_id :
      (k : String) (infos : List ServiceInfo) (info : ServiceInfo)
      → first_of k infos ≡ found info
      → info.node_id ≡ k
  first_of-node_id k [] info h = absurd (ground (arith, h))
  first_of-node_id k (x ∷ infos) info h =
      ground (arith, h, eq_iff x.node_id k, first_of-node_id k infos info)

  -- After any calls of a registry whose services are stored under their nodes, GetService of a node
  -- finds a service of that node, if it finds one.
  pub get_registered_service-node_id :
      (cs : List Call) (r : EtcdRegistry t) (k : String) (info : ServiceInfo)
      → IsKeyed r
      → get_registered_service k (calls cs r) ≡ found info
      → info.node_id ≡ k
  unfolding get_registered_service
  get_registered_service-node_id cs r k info h e =
      let keyed = calls-IsKeyed cs r h k info in
      elim (Option-cases (t.get_prefix key_prefix (calls cs r).store)) [
        | inl failed ↦ ground (arith, e, failed, keyed)
        | inr (values, got) ↦
            ground (arith, e, got, keyed, first_of-node_id k (decode_all t values) info)
      ]

  -- A service that Register took is found by its node at once, with the time of the call.
  pub register-get_registered_service :
      (now : ℕ) (info : ServiceInfo) (r r1 : EtcdRegistry t)
      → register t now info r ≡ returned true r1
      → get_registered_service info.node_id r1 ≡ found (record info { update_time = now })
  unfolding get_registered_service
  register-get_registered_service now info r r1 h =
      let (unlocked, stored) = register-services t now info r r1 h in rw (unlocked, stored) refl
