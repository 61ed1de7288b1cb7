-- ===== src/Capture/Types.antt =====
-- The data of crates/capture/src/lib.rs.
use netmon.Base.{ℕ, ℕ_discrete, PartialEq, of_discrete}
use netmon.Net.{IpAddr}

pub data Protocol : Type 0 where
  tcp udp : Protocol
  other : ℕ → Protocol

pub data Direction : Type 0 where
  tx rx : Direction

pub record FlowKey : Type 0 where
  pub src_ip : IpAddr
  pub dst_ip : IpAddr
  pub src_port : ℕ
  pub dst_port : ℕ
  pub protocol : Protocol

-- Times are milliseconds on the monotonic clock.
pub record FlowRecord : Type 0 where
  pub key : FlowKey
  pub byte_count : ℕ
  pub timestamp : ℕ
  pub direction : Direction

unfoldable pub Protocol-discrete : Discrete Protocol
Protocol-discrete = hlevel ℕ_discrete

instance abbrev pub protocol_eq : PartialEq Protocol
protocol_eq = of_discrete Protocol-discrete
