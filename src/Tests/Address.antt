-- ===== src/Tests/Address.antt =====
-- The addresses and the ports of a test network.
use vector_chain.Prelude.{
  ℕ, ◌+◌, ◌%◌, ◌≡◌, ◌≢◌, ◌<◌, refl, true, Option, none, some, List, ok, arith,
}
use vector_chain.Testnet.Address.{Ip, codes, parse_ip, ip_string, calculate_ip}
use vector_chain.Testnet.AddressLaws.{
  IsBytes, parse_ip-ip_string, calculate_ip_lem, calculate_ip_distinct,
}
use vector_chain.Testnet.Config.{Service, rpc, port_of}
use vector_chain.Testnet.Ports.{port_of-injective}

abbrev no_ipv6 : List ℕ → Option Ip
no_ipv6 s = none

abbrev start : Ip
start = record { b0 = 192; b1 = 168; b2 = 0; b3 = 254 }

start-IsBytes : IsBytes start
start-IsBytes = (omega arith, omega arith, omega arith, omega arith)

parse_ip-ip_string_runs :
    parse_ip no_ipv6 (codes (ip_string start)) (codes (ip_string start)) ≡ some start
parse_ip-ip_string_runs = parse_ip-ip_string no_ipv6 start start-IsBytes

calculate_ip_lem_example :
    calculate_ip no_ipv6 (ip_string start) 1
    ≡ ok (ip_string (record start { b3 = (start.b3 + 1) % 256 }))
calculate_ip_lem_example = calculate_ip_lem no_ipv6 start 1 start-IsBytes

calculate_ip_distinct_applied :
    calculate_ip no_ipv6 (ip_string start) 1 ≢ calculate_ip no_ipv6 (ip_string start) 5
calculate_ip_distinct_applied =
    calculate_ip_distinct no_ipv6 start 1 5 start-IsBytes (omega arith) (omega arith)

port_of-injective_example :
    (◌≡◌ {A = Service} rpc rpc) × (◌≡◌ {A = ℕ} 4 4) × (port_of rpc true 4 < 65536)
port_of-injective_example = port_of-injective rpc rpc 4 4 (omega arith) (omega arith) refl
