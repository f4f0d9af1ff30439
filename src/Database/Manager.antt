-- ===== src/Database/Manager.antt =====
-- internal/database/mongodb/manager.go: the options of a MongoManager and its connection. The MongoDB
-- driver is a parameter; `atoi` is strconv.Atoi, where `none` is an error.
use Prim.Native.String.{◌++◌ as str_append}
use cogame.Base.{
  ℕ, ℤ, pos, ltb_ℤ, String, str_eq, Bool, true, false, ◌&&◌, not, List, [], ◌∷◌, Option, none, some,
  if◌then◌else◌,
}

pub record MongoConfig : Type 0 where
  pub uri : String
  pub database : String
  pub replica_set : Bool
  pub replica_set_name : String
  pub hosts : List String
  pub auth_source : String
  pub username : String
  pub password : String
  pub sharded_cluster : Bool
  pub mongos_hosts : List String
  pub connect_timeout : ℤ
  pub max_pool_size : ℕ
  pub min_pool_size : ℕ
  pub max_conn_idle_time : ℤ
  pub read_preference : String
  pub write_concern : String
  pub read_concern : String
  pub tls_enabled : Bool
  pub tls_cert_file : String
  pub tls_key_file : String
  pub tls_ca_file : String

pub data ReadPref : Type 0 where
  primary primary_preferred secondary secondary_preferred nearest : ReadPref

pub data WriteConcern : Type 0 where
  majority : WriteConcern
  acknowledged : ℤ → WriteConcern

pub record Credential : Type 0 where
  pub user : String
  pub secret : String
  pub source : String

-- The options that are set; ApplyURI takes what the URI says too.
pub record ClientOptions : Type 0 where
  pub applied_uri : String
  pub connect_timeout : ℤ
  pub max_pool_size : ℕ
  pub min_pool_size : ℕ
  pub max_conn_idle_time : ℤ
  pub auth : Option Credential
  pub replica_set : Option String
  pub read_preference : Option ReadPref
  pub write_concern : Option WriteConcern

unfoldable pub parse_read_preference : String → Option ReadPref
parse_read_preference pref =
    if str_eq pref "primary"
    then some primary
    else if str_eq pref "primaryPreferred"
    then some primary_preferred
    else if str_eq pref "secondary"
    then some secondary
    else if str_eq pref "secondaryPreferred"
    then some secondary_preferred
    else if str_eq pref "nearest"
    then some nearest
    else none

unfoldable pub parse_int_or_default : (String → Option ℤ) → String → ℤ → ℤ
parse_int_or_default atoi s default_value = elim (atoi s) [ none ↦ default_value | some n ↦ n ]

unfoldable pub parse_write_concern : (String → Option ℤ) → String → Option WriteConcern
unfolding parse_int_or_default
parse_write_concern atoi concern =
    if str_eq concern "majority"
    then some majority
    else if str_eq concern "1"
    then some (acknowledged (pos 1))
    else if str_eq concern "2"
    then some (acknowledged (pos 2))
    else if str_eq concern "3"
    then some (acknowledged (pos 3))
    else let w = parse_int_or_default atoi concern (ℤ.negsuc 0) in
      if ltb_ℤ (pos 0) w then some (acknowledged w) else none

abbrev pub has_login : MongoConfig → Bool
has_login c = not (str_eq c.username "") && not (str_eq c.password "")

abbrev pub basic_options : String → MongoConfig → ClientOptions
basic_options uri c = record {
  applied_uri = uri;
  connect_timeout = c.connect_timeout;
  max_pool_size = c.max_pool_size;
  min_pool_size = c.min_pool_size;
  max_conn_idle_time = c.max_conn_idle_time;
  auth = none;
  replica_set = none;
  read_preference = none;
  write_concern = none;
}

unfoldable pub build_single_options : MongoConfig → ClientOptions
build_single_options c =
    let opts = basic_options c.uri c in
    if has_login c
    then record opts {
      auth = some (record { user = c.username; secret = c.password; source = c.auth_source });
    }
    else opts

-- strings.Join with a comma.
abbrev pub join : List String → String
join [] = ""
join (x ∷ []) = x
join (x ∷ y ∷ ys) = str_append x (str_append "," (join (y ∷ ys)))

abbrev pub login_prefix : MongoConfig → String
login_prefix c =
    if has_login c
    then str_append "mongodb://"
        (str_append c.username (str_append ":" (str_append c.password "@")))
    else "mongodb://"

abbrev pub replica_set_uri : MongoConfig → String
replica_set_uri c =
    let uri = str_append (login_prefix c) (
      str_append (join c.hosts)
        (str_append "/" (str_append c.database (str_append "?replicaSet=" c.replica_set_name)))) in
    if str_eq c.auth_source ""
    then uri
    else str_append uri (str_append "&authSource=" c.auth_source)

abbrev pub sharded_uri : MongoConfig → String
sharded_uri c =
    let uri =
      str_append (login_prefix c) (str_append (join c.mongos_hosts) (str_append "/" c.database)) in
    if str_eq c.auth_source ""
    then uri
    else str_append uri (str_append "?authSource=" c.auth_source)

-- A setting that is empty is left out, and one that cannot be read is an error.
abbrev pub optional : {A : Type 0} → (String → Option A) → String → Option (Option A)
optional parse setting =
    if str_eq setting ""
    then some none
    else elim (parse setting) [ none ↦ none | some a ↦ some (some a) ]

abbrev pub is_empty : List String → Bool
is_empty [] = true
is_empty (x ∷ xs) = false

unfoldable pub build_replica_set_options : (String → Option ℤ) → MongoConfig → Option ClientOptions
unfolding parse_read_preference parse_write_concern
build_replica_set_options atoi c =
    if is_empty c.hosts
    then none
    else if str_eq c.replica_set_name ""
    then none
    else elim (optional parse_read_preference c.read_preference) [
      | none ↦ none
      | some pref ↦ elim (optional (parse_write_concern atoi) c.write_concern) [
        | none ↦ none
        | some concern ↦ some (record (basic_options (replica_set_uri c) c) {
          replica_set = some c.replica_set_name;
          read_preference = pref;
          write_concern = concern;
        })
      ]
    ]

unfoldable pub build_sharded_cluster_options : MongoConfig → Option ClientOptions
build_sharded_cluster_options c =
    if is_empty c.mongos_hosts then none else some (basic_options (sharded_uri c) c)

-- The driver: Connect, Ping and Disconnect.
pub record Driver : Type 1 where
  pub World : Type 0
  pub Client : Type 0
  pub connect : ClientOptions → World → Option Client × World
  pub ping : Client → World → Bool × World
  pub disconnect : Client → World → World

pub data Mode : Type 0 where
  single replica sharded : Mode

pub record MongoManager (C : Type 0) : Type 0 where
  pub client : C
  pub config : MongoConfig
  pub mode : Mode

abbrev pub mode_of : MongoConfig → Mode
mode_of c = if c.sharded_cluster then sharded else if c.replica_set then replica else single

unfoldable pub build_options : (String → Option ℤ) → MongoConfig → Option ClientOptions
unfolding build_sharded_cluster_options build_replica_set_options build_single_options
build_options atoi c = elim (mode_of c) [
  | sharded ↦ build_sharded_cluster_options c
  | replica ↦ build_replica_set_options atoi c
  | single ↦ some (build_single_options c)
]

module _ (d : Driver) where
  open d use {World, Client}

  -- `none` is an error.
  unfoldable pub new_mongo_manager :
      (String → Option ℤ) → MongoConfig → World → Option (MongoManager Client) × World
  unfolding build_options
  new_mongo_manager atoi c w = elim (build_options atoi c) [
    | none ↦ (none, w)
    | some opts ↦
        let (made, w1) = d.connect opts w in
        elim made [
          | none ↦ (none, w1)
          | some client ↦
              let (alive, w2) = d.ping client w1 in
              elim alive [
                | false ↦ (none, d.disconnect client w2)
                | true ↦ (some (record { client = client; config = c; mode = mode_of c }), w2)
              ]
        ]
  ]

  unfoldable pub close : MongoManager Client → World → World
  close mm w = d.disconnect mm.client w
