-- ===== src/Node/Answers.antt =====
-- What the gRPC methods of internal/server/system_service.go answer.
use cogame.Base.{
  ℕ, pos, neg, String, Bool, true, List, Option, none, some, ◌≡◌, ◌⊎◌, inl, inr, refl,
}
use cogame.Security.Limiter.{TokenBuckets}
use cogame.Network.Server as Tcp
use cogame.Actor.System.{Actors}
use cogame.Discovery.Registry.{Etcd}
use cogame.Queue.Messages.{SystemMessage}
use cogame.Node.State.{BaseServer, returns, waits, start, stop, stop_parts}
use cogame.Node.System.{handle_update_load}
use cogame.Node.Lifecycle.{stop_waits}
use cogame.Node.Service.{
  MemoryStats, BaseResponse, SystemCodec, Answer, responds, fails, hangs, with_content,
  plain_response, get_server_info, get_server_stats, reload_config, grpc_update_load,
  get_actor_stats, get_pool_stats,
}

-- The methods that ask.
pub data Query : Type 0 where
  asks_info : ℕ → Query
  asks_stats : ℕ → MemoryStats → Query
  asks_reload asks_actors asks_pools : Query

module _ (t : Etcd) (b : TokenBuckets) (p : SystemCodec) where
  open p use {H}

  abbrev pub query : Query → Option H → BaseServer t b → Answer t b p
  query (asks_info now) header s = get_server_info t b p now header s
  query (asks_stats goroutines memory) header s = get_server_stats t b p goroutines memory header s
  query asks_reload header s = reload_config t b p header s
  query asks_actors header s = get_actor_stats t b p header s
  query asks_pools header s = get_pool_stats t b p header s

  -- The answer to a query, in which the server is as it was.
  abbrev pub IsAnswer : Option H → BaseServer t b → Answer t b p → Type 0
  IsAnswer header s a =
      ((r : BaseResponse H) × (a ≡ responds r s)
        × (r.header ≡ header)
        × ((r.code ≡ pos 0) ⊎ ((r.code ≡ neg 1) × (s.actors ≡ none))))
      ⊎ (a ≡ fails s)

  with_content-IsAnswer :
      (header : Option H) (msg : String) (content : Option (List ℕ)) (s : BaseServer t b)
      → IsAnswer header s (with_content t b p header msg content s)
  with_content-IsAnswer header msg none s = inr refl
  with_content-IsAnswer header msg (some bytes) s = inl (_, refl, refl, inl refl)

  actors-IsAnswer :
      (header : Option H) (o : Option Actors) (s : BaseServer t b)
      → s.actors ≡ o
      → IsAnswer header s (elim o [
        | none ↦ responds (plain_response t b p header (neg 1) "Actor系统未初始化") s
        | some actors ↦
            with_content t b p header "success--todo"
              (p.marshal_response (plain_response t b p header (pos 0) "success--todo"))
              s
      ])
  actors-IsAnswer header none s absent = inl (_, refl, refl, inr (refl, absent))
  actors-IsAnswer header (some actors) s there = with_content-IsAnswer header _ _ s

  -- The queries always answer at once, with the header of the request or with the error that their
  -- content cannot be encoded, and leave the server as it is. The code is 0, or -1 where the server
  -- has no actors.
  pub query-IsAnswer :
      (q : Query) (header : Option H) (s : BaseServer t b) → IsAnswer header s (query q header s)
  unfolding get_server_info get_server_stats reload_config get_actor_stats get_pool_stats
  query-IsAnswer (asks_info now) header s = with_content-IsAnswer header _ _ s
  query-IsAnswer (asks_stats goroutines memory) header s = with_content-IsAnswer header _ _ s
  query-IsAnswer asks_reload header s = inl (_, refl, refl, inl refl)
  query-IsAnswer asks_actors header s = actors-IsAnswer header s.actors s refl
  query-IsAnswer asks_pools header s = with_content-IsAnswer header _ _ s

  -- An UpdateLoad of a server that has started, by gRPC or by a command, never answers, and a Stop
  -- after it never returns.
  pub grpc_update_load_hangs :
      (free : Bool) (now later : ℕ) (header : Option H) (msg : SystemMessage)
      (s s1 : BaseServer t b)
      → start t b free now s ≡ returns true s1
      → (s2 : BaseServer t b) × (grpc_update_load t b p later header s1 ≡ hangs s2)
        × (handle_update_load t b later msg s1 ≡ (none, s2))
        × (stop t b s2 ≡ waits (stop_parts t b s2))
  unfolding grpc_update_load handle_update_load
  grpc_update_load_hangs free now later header msg s s1 h =
      let (s2, waited, stuck, _) = stop_waits t b free now later s s1 h in
      (s2, rw (waited, grpc_update_load) refl, rw (waited, handle_update_load) refl, stuck)
