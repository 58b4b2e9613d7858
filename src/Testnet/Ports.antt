-- ===== src/Testnet/Ports.antt =====
-- The ports of the nodes of cmd/vectord/testnet.go.
use vector_chain.Prelude.{ℕ, ◌≡◌, ◌<◌, refl, true, arith}
use vector_chain.Testnet.Config.{Service, rpc, api, grpc, p2p, port_of}

-- On a single machine, among at most 7566 nodes, no two services of the nodes share a port: the port
-- determines the service and the node. Every port is a valid one.
pub port_of-injective :
    (a b : Service) (i j : ℕ)
    → i < 7566
    → j < 7566
    → port_of a true i ≡ port_of b true j
    → (a ≡ b) × (i ≡ j) × (port_of a true i < 65536)
unfolding port_of
port_of-injective rpc rpc i j hi hj e = (refl, omega arith, omega arith)
port_of-injective api api i j hi hj e = (refl, omega arith, omega arith)
port_of-injective grpc grpc i j hi hj e = (refl, omega arith, omega arith)
port_of-injective p2p p2p i j hi hj e = (refl, omega arith, omega arith)
port_of-injective _ _ i j hi hj e = absurd (omega arith)
