-- ===== src/Database/Examples.antt =====
-- Runs of NewMongoManager of internal/database/mongodb/manager.go with a driver in memory.
use cogame.Base.{
  ℕ, zero, suc, ℤ, pos, String, Bool, true, false, List, [], ◌∷◌, length, Option, none, some, ◌≡◌,
  ◌⊎◌, refl, ap, arith, eq_of_some,
}
use cogame.Database.Manager.{
  MongoConfig, Driver, secondary, parse_read_preference, acknowledged, parse_write_concern,
  parse_int_or_default, build_options, build_replica_set_options, new_mongo_manager,
}
use cogame.Database.Connecting.{DriverLaws, Connected, new_mongo_manager-Connected}

abbrev rest : {A : Type 0} → List A → List A
rest [] = []
rest (x ∷ xs) = xs

-- Clients are numbers, and 0 does not answer.
abbrev answers : ℕ → Bool
answers zero = false
answers (suc n) = true

abbrev driver : Driver
driver = record {
  World = List ℕ;
  Client = ℕ;
  connect = λ o w. (some (length w), length w ∷ w);
  ping = λ c w. (answers c, w);
  disconnect = λ c w. rest w;
}

driver_laws : DriverLaws driver
driver_laws = record {
  clients = λ w. w;
  connect_made = λ o w c h. ap (λ n. n ∷ w) (eq_of_some h);
  connect_failed = λ o w h. absurd (ground (arith, h));
  clients-ping = λ c w. refl;
  clients-disconnect = λ c cs w h. ap rest h;
}

-- strconv.Atoi for one text.
abbrev read_int : String → Option ℤ
read_int text = some (pos 5)

abbrev config : MongoConfig
config = record {
  uri = "";
  database = "game";
  replica_set = true;
  replica_set_name = "rs0";
  hosts = "a:1" ∷ "b:2" ∷ [];
  auth_source = "admin";
  username = "u";
  password = "p";
  sharded_cluster = false;
  mongos_hosts = [];
  connect_timeout = pos 10;
  max_pool_size = 100;
  min_pool_size = 5;
  max_conn_idle_time = pos 60;
  read_preference = "secondary";
  write_concern = "5";
  read_concern = "";
  tls_enabled = false;
  tls_cert_file = "";
  tls_key_file = "";
  tls_ca_file = "";
}

replica_options :
    build_options read_int config
    ≡ some (record {
      applied_uri = "mongodb://u:p@a:1,b:2/game?replicaSet=rs0&authSource=admin";
      connect_timeout = pos 10;
      max_pool_size = 100;
      min_pool_size = 5;
      max_conn_idle_time = pos 60;
      auth = none;
      replica_set = some "rs0";
      read_preference = some secondary;
      write_concern = some (acknowledged (pos 5));
    })
unfolding build_options build_replica_set_options parse_read_preference parse_write_concern
    parse_int_or_default
replica_options = refl

new_mongo_manager-Connected_example :
    Connected driver driver_laws read_int config
      (7 ∷ [])
      (new_mongo_manager driver read_int config (7 ∷ []))
    ⊎ (((new_mongo_manager driver read_int config (7 ∷ [])).0 ≡ none)
        × (driver_laws.clients (new_mongo_manager driver read_int config (7 ∷ [])).1
            ≡ driver_laws.clients (7 ∷ [])))
new_mongo_manager-Connected_example =
    new_mongo_manager-Connected driver driver_laws read_int config (7 ∷ [])
