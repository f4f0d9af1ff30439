-- ===== src/Node/Config.antt =====
-- internal/server/server.go: loadConfig, after the reading of the file. Texts are lists of bytes.
use cogame.Base.{
  ℕ, ◌+◌, ◌-◌, ◌*◌, ◌^◌, ◌==◌, ltb, leb, ℤ, pos, ◌+ℤ◌, String, Bool, true, ◌&&◌, List, [], ◌∷◌,
  Option, none, some, get_elem?, if◌then◌else◌,
}
use cogame.Base.Dict

pub record NetworkConfig : Type 0 where
  pub tcp_port : ℤ
  pub rpc_port : ℤ
  pub http_port : ℤ

-- `nodes` has the ports of each type of node.
pub record ServerConfig : Type 0 where
  pub network : NetworkConfig
  pub nodes : List (String × List ℤ)

abbrev pub is_digit : ℕ → Bool
is_digit c = leb b'0' c && leb c b'9'

abbrev pub all_digits : List ℕ → Bool
all_digits [] = true
all_digits (c ∷ cs) = is_digit c && all_digits cs

-- What the expression (\d+)$ finds: the longest end that is of digits; [] is no match.
unfoldable pub digits_at_end : List ℕ → List ℕ
digits_at_end [] = []
digits_at_end (c ∷ cs) = let rest = digits_at_end cs in if all_digits (c ∷ cs) then c ∷ cs else rest

abbrev pub value_from : ℕ → List ℕ → ℕ
value_from n [] = n
value_from n (c ∷ cs) = value_from (n * 10 + (c - b'0')) cs

-- strconv.Atoi of digits: `none` is out of range.
unfoldable pub atoi : List ℕ → Option ℕ
atoi cs = if ltb (value_from 0 cs) (2 ^ 63) then some (value_from 0 cs) else none

-- A port is small, so that no sum wraps.
abbrev pub with_ports : ServerConfig → ℤ → ServerConfig
with_ports config base = record config {
  network = record { tcp_port = base; rpc_port = base +ℤ pos 1000; http_port = base +ℤ pos 2000 };
}

-- The ports of the node with this number, which counts from 1.
unfoldable pub port_of : ServerConfig → String → ℕ → Option ServerConfig
port_of config node_type number = elim (Dict.lookup node_type config.nodes) [
  | none ↦ none
  | some ports ↦ if number == 0 then none else elim (get_elem? ports (number - 1)) [
    | none ↦ none
    | some base ↦ some (with_ports config base)
  ]
]

-- `none` is an error.
unfoldable pub load_config : Option ServerConfig → String → List ℕ → Option ServerConfig
unfolding digits_at_end atoi port_of
load_config read node_type node_id = elim read [
  | none ↦ none
  | some config ↦ elim (digits_at_end node_id) [
    | [] ↦ none
    | c ∷ cs ↦ elim (atoi (c ∷ cs)) [ none ↦ none | some number ↦ port_of config node_type number ]
  ]
]
