-- ===== src/Net.antt =====
-- `std::net`: addresses as their octets, most significant first, and sockets.
pub mod Parse
use mini_dns.Prelude.{ℕ, List}

pub data IpAddr : Type 0 where
  v4 : List ℕ → IpAddr
  v6 : List ℕ → IpAddr

pub record SocketAddr : Type 0 where
  pub ip : IpAddr
  pub port : ℕ
