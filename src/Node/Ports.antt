-- ===== src/Node/Ports.antt =====
-- Which ports loadConfig of internal/server/server.go gives to a node.
use cogame.Base.{
  ℕ, zero, suc, ◌^◌, ◌<◌, lt→ltb, ℤ, String, true, false, List, [], ◌∷◌, ◌++◌, Option, none, some,
  map_option, ◌≡◌, refl, arith, get_elem?,
}
use cogame.Base.Dict
use cogame.Node.Config.{
  ServerConfig, is_digit, all_digits, digits_at_end, value_from, atoi, with_ports, port_of,
  load_config,
}

digits_at_end_self : (ds : List ℕ) → all_digits ds ≡ true → digits_at_end ds ≡ ds
unfolding digits_at_end
digits_at_end_self [] h = refl
digits_at_end_self (d ∷ ds) h = rw h refl

not-all_digits :
    (name : List ℕ) (c : ℕ) (ds : List ℕ)
    → is_digit c ≡ false
    → all_digits (name ++ (c ∷ ds)) ≡ false
not-all_digits [] c ds h = rw h refl
not-all_digits (n ∷ name) c ds h = ground (arith, not-all_digits name c ds h)

digits_at_end-append :
    (name : List ℕ) (c : ℕ) (ds : List ℕ)
    → is_digit c ≡ false
    → all_digits ds ≡ true
    → digits_at_end (name ++ (c ∷ ds)) ≡ ds
unfolding digits_at_end
digits_at_end-append [] c ds h all = ground (arith, digits_at_end_self ds all)
digits_at_end-append (n ∷ name) c ds h all =
    ground (arith, not-all_digits name c ds h, digits_at_end-append name c ds h all)

-- What the number of a node, from 1, gets of the ports of its type.
abbrev pub numbered : ServerConfig → List ℤ → ℕ → Option ServerConfig
numbered config ports zero = none
numbered config ports (suc i) = map_option (with_ports config) (get_elem? ports i)

port_of-numbered :
    (config : ServerConfig) (node_type : String) (ports : List ℤ) (number : ℕ)
    → Dict.lookup node_type config.nodes ≡ some ports
    → port_of config node_type number ≡ numbered config ports number
unfolding port_of
port_of-numbered config node_type ports zero known = ground (arith, known)
port_of-numbered config node_type ports (suc i) known = ground (arith, known)

-- A node whose id is a name that ends in no digit, and then a number below 2 ^ 63, gets the port at
-- the place of that number, from 1, among those of its type in the file; its gRPC port is 1000 more,
-- its HTTP port 2000 more. For 0 and for a number beyond those ports loadConfig has an error.
pub load_config-numbered :
    (config : ServerConfig) (node_type : String) (ports : List ℤ) (name : List ℕ) (c d : ℕ)
    (ds : List ℕ)
    → Dict.lookup node_type config.nodes ≡ some ports
    → is_digit c ≡ false
    → all_digits (d ∷ ds) ≡ true
    → value_from 0 (d ∷ ds) < 2 ^ 63
    → load_config (some config) node_type (name ++ (c ∷ d ∷ ds))
      ≡ numbered config ports (value_from 0 (d ∷ ds))
unfolding load_config atoi
load_config-numbered config node_type ports name c d ds known h all small =
    let found = digits_at_end-append name c (d ∷ ds) h all in
    let number : ℕ = value_from 0 (d ∷ ds) in
    let in_range = lt→ltb number (2 ^ 63) small in
    rw (found, load_config, in_range) (port_of-numbered config node_type ports number known)
