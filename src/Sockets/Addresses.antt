-- ===== src/Sockets/Addresses.antt =====
-- Addresses that are printed and read.
use summer.Prelude.{
  ℕ, ◌≤◌, ◌<◌, ◌^◌, ◌≡◌, arith, ◌∷◌, ◌++◌, some, length, length-append, Option-cases, inl, inr,
}
use summer.Decimal.{Text, decimal, length-decimal, take_all}
use summer.Sockets.{
  Sockaddr, Inet, IsDocumented, host_of, print_host_port, from_host_port, of_host_port,
  to_host_port,
}

module _ (net : Inet) (doc : IsDocumented net) where
  length-host : (a : Sockaddr) → length (host_of (net.ntop a.addr)) ≤ 15
  length-host a = elim (Option-cases (net.ntop a.addr)) [
    | inl e ↦ rw e (omega arith)
    | inr (host, e) ↦ rw e (doc.length-ntop a.addr host e)
  ]

  -- `toHostPort` prints an address and its port in no more than 21 characters, so that nothing of them is
  -- cut, neither by its own buffer of 32 bytes nor by one of 22.
  pub length-to_host_port :
      (a : Sockaddr)
      → a.port < 2 ^ 16
      → (to_host_port net a ≡ host_of (net.ntop a.addr) ++ (b':' ∷ decimal (net.ntohs a.port)))
        × (length (to_host_port net a) ≤ 21)
  unfolding to_host_port print_host_port
  length-to_host_port a h =
      let short : length (host_of (net.ntop a.addr) ++ (b':' ∷ decimal (net.ntohs a.port))) ≤ 21 =
        omega (
          arith,
          length-append (host_of (net.ntop a.addr)) (b':' ∷ decimal (net.ntohs a.port)),
          length-host a,
          length-decimal 5 (net.ntohs a.port) (omega (arith, doc.ntohs-below a.port h))
              (omega arith),
        ) in
      let whole =
        take_all 31 (host_of (net.ntop a.addr) ++ (b':' ∷ decimal (net.ntohs a.port)))
          (omega (arith, short)) in
      (whole, rw whole short)

  of_host_port-reads :
      (addr : ℕ) (ip : Text) (port : ℕ)
      → net.ntop addr ≡ some ip
      → of_host_port net ip port ≡ record { addr = addr; port = net.htons port }
  unfolding of_host_port from_host_port
  of_host_port-reads addr ip port e = ground (arith, doc.pton-ntop addr ip e)

  -- An address that is built of a printed one and a port prints as just these.
  pub to_host_port-of_host_port :
      (addr : ℕ) (ip : Text) (port : ℕ)
      → net.ntop addr ≡ some ip
      → port < 2 ^ 16
      → to_host_port net (of_host_port net ip port) ≡ ip ++ (b':' ∷ decimal port)
  unfolding to_host_port print_host_port
  to_host_port-of_host_port addr ip port e h =
      rw (of_host_port-reads addr ip port e, e, doc.ntohs-htons port h)
        (take_all 31 (ip ++ (b':' ∷ decimal port)) (
          omega (
            arith,
            length-append ip (b':' ∷ decimal port),
            doc.length-ntop addr ip e,
            length-decimal 5 port (omega arith) (omega arith),
          )))
