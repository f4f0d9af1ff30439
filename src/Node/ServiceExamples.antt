-- ===== src/Node/ServiceExamples.antt =====
-- Runs of the gRPC methods of internal/server/system_service.go.
use cogame.Base.{ℕ, pos, [], ◌∷◌, some, ◌≡◌, refl}
use cogame.Discovery.Examples.{plain_etcd}
use cogame.Security.Examples.{counting}
use cogame.Node.Service.{MemoryStats, SystemCodec, responds, get_actor_stats}
use cogame.Node.Examples.{started}

-- Headers are numbers, and everything is encoded as a byte.
abbrev codec : SystemCodec
codec = record {
  H = ℕ;
  marshal_node_info = λ info. some (1 ∷ []);
  marshal_server_stats = λ stats. some (2 ∷ []);
  marshal_response = λ r. some (3 ∷ []);
  load_updated = λ n. "Load updated successfully";
  update_load_failed = "service not found";
}

abbrev memory : MemoryStats
memory = record { alloc = 5; total_alloc = 9; sys = 12; num_gc = 1 }

actors_answered :
    get_actor_stats plain_etcd counting codec (some 4) started
    ≡ responds
        (record { header = some 4; code = pos 0; msg = "success--todo"; content = 3 ∷ [] })
        started
unfolding get_actor_stats
actors_answered = refl
