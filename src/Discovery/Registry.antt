-- ===== src/Discovery/Registry.antt =====
-- internal/discovery/etcd.go: ETCDRegistry, with its mutex. etcd and the JSON of a ServiceInfo are
-- parameters; the lease is not modelled.
use Prim.Native.String.{◌++◌ as str_append}
use cogame.Base.{
  ℕ, ℤ, String, eq_iff, Bool, true, false, List, [], ◌∷◌, Option, none, some, if◌then◌else◌, ◌≡◌,
  refl, arith,
}
use cogame.Base.Dict
use cogame.Discovery.Balance.{ServiceInfo}

-- The client: Put, Delete and the values under a prefix; `none` is an error.
pub record Etcd : Type 1 where
  pub Store : Type 0
  pub put : String → String → Store → Option Store
  pub remove : String → Store → Option Store
  pub get_prefix : String → Store → Option (List String)
  pub marshal : ServiceInfo → Option String
  pub unmarshal : String → Option ServiceInfo

abbrev pub key_prefix : String
key_prefix = "/lufy/services/"

abbrev pub key_of : String → String → String
key_of node_type node_id = str_append (str_append (str_append key_prefix node_type) "/") node_id

module _ (t : Etcd) where
  open t use {Store}

  -- `locked` is the write lock of the mutex.
  pub record EtcdRegistry : Type 0 where
    pub services : List (String × ServiceInfo)
    pub store : Store
    pub locked : Bool

  -- A call returns, with whether there was no error, or waits for ever for the mutex.
  pub data Outcome : Type 0 where
    returned : Bool → EtcdRegistry → Outcome
    blocked : Outcome

  -- What Register does with the lock.
  unfoldable pub store_service : ServiceInfo → EtcdRegistry → Bool × EtcdRegistry
  store_service info r = elim (t.marshal info) [
    | none ↦ (false, r)
    | some bytes ↦ elim (t.put (key_of info.node_type info.node_id) bytes r.store) [
      | none ↦ (false, r)
      | some store ↦
          (true, record r { services = Dict.insert info.node_id info r.services; store = store })
    ]
  ]

  -- The lock is released by the deferred Unlock.
  unfoldable pub register : ℕ → ServiceInfo → EtcdRegistry → Outcome
  unfolding store_service
  register now info r =
      if r.locked
      then blocked
      else let (ok, r1) = store_service (record info { update_time = now }) r in returned ok r1

  unfoldable pub unregister : String → EtcdRegistry → Outcome
  unregister node_id r = if r.locked then blocked else elim (Dict.lookup node_id r.services) [
    | none ↦ returned false r
    | some info ↦ elim (t.remove (key_of info.node_type node_id) r.store) [
      | none ↦ returned false r
      | some store ↦
          returned true (record r { services = Dict.delete node_id r.services; store = store })
    ]
  ]

  -- UpdateLoad takes the lock and calls Register.
  unfoldable pub update_load : ℕ → String → ℤ → EtcdRegistry → Outcome
  unfolding register
  update_load now node_id load r =
      if r.locked then blocked else elim (Dict.lookup node_id r.services) [
        | none ↦ returned false r
        | some info ↦
            let changed = record info { load = load; update_time = now } in
            register now changed
              (record r { services = Dict.insert node_id changed r.services; locked = true })
      ]

  -- The values that can be decoded.
  unfoldable pub decode_all : List String → List ServiceInfo
  decode_all [] = []
  decode_all (v ∷ vs) =
      let rest = decode_all vs in elim (t.unmarshal v) [ none ↦ rest | some info ↦ info ∷ rest ]

  unfoldable pub get_services : String → EtcdRegistry → Option (List ServiceInfo)
  unfolding decode_all
  get_services node_type r =
      elim (t.get_prefix (str_append (str_append key_prefix node_type) "/") r.store) [
        | none ↦ none
        | some values ↦ some (decode_all values)
      ]

  pub register-services :
      (now : ℕ) (info : ServiceInfo) (r r' : EtcdRegistry)
      → register now info r ≡ returned true r'
      → (r'.locked ≡ false)
        × (Dict.lookup info.node_id r'.services ≡ some (record info { update_time = now }))
  unfolding register store_service
  register-services now info r r' h = ground (
    arith,
    h,
    Dict.lookup-insert info.node_id info.node_id (record info { update_time = now }) r.services,
    eq_iff info.node_id info.node_id,
  )

  -- Once a service is registered, UpdateLoad of it never returns: it waits, with the lock of the
  -- registry, for that lock.
  pub update_load-register :
      (now later : ℕ) (info : ServiceInfo) (load : ℤ) (r r' : EtcdRegistry)
      → register now info r ≡ returned true r'
      → update_load later info.node_id load r' ≡ blocked
  unfolding update_load register
  update_load-register now later info load r r' h =
      let (unlocked, stored) = register-services now info r r' h in
      rw (unlocked, update_load, stored) refl
