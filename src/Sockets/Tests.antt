-- ===== src/Sockets/Tests.antt =====
-- Addresses of a machine, and the theorems about them.
use summer.Prelude.{◌≤◌, ◌≡◌, refl, arith, true, ◌∷◌, ◌++◌, none, some, length}
use summer.Decimal.{decimal}
use summer.Sockets.{
  Sockaddr, Inet, IsDocumented, host_of, of_host_port, to_host_port, is_self_connect,
}
use summer.Sockets.Addresses.{length-to_host_port}
use summer.Sockets.Machine.{localhost, loopback, machine, machine-IsDocumented}

length-to_host_port_example :
    (to_host_port machine (record { addr = loopback; port = 20480 })
      ≡ host_of (some localhost) ++ (b':' ∷ decimal 80))
    × (length (to_host_port machine (record { addr = loopback; port = 20480 })) ≤ 21)
length-to_host_port_example =
    length-to_host_port machine machine-IsDocumented (record { addr = loopback; port = 20480 })
      (omega arith)

-- Two failures look like a connection to itself.
failures_connect : is_self_connect none none ≡ true
unfolding is_self_connect summer.Sockets.get_local_addr summer.Sockets.get_peer_addr
failures_connect = refl
