-- ===== src/Net.antt =====
-- Addresses of `std::net`, as the program uses them. An IPv4 address is its four octets, an IPv6
-- address its sixteen.
use netmon.Base.{ℕ, List, ℕ_discrete, PartialEq, of_discrete}

pub data IpAddr : Type 0 where
  v4 : ℕ → ℕ → ℕ → ℕ → IpAddr
  v6 : List ℕ → IpAddr

pub record SocketAddr : Type 0 where
  pub ip : IpAddr
  pub port : ℕ

unfoldable pub IpAddr-discrete : Discrete IpAddr
IpAddr-discrete = hlevel ℕ_discrete

unfoldable pub SocketAddr-discrete : Discrete SocketAddr
unfolding IpAddr-discrete
SocketAddr-discrete = hlevel ℕ_discrete

instance abbrev pub ip_eq : PartialEq IpAddr
ip_eq = of_discrete IpAddr-discrete

instance abbrev pub socket_addr_eq : PartialEq SocketAddr
socket_addr_eq = of_discrete SocketAddr-discrete
