-- ===== src/Resolver/Types.antt =====
-- The data of crates/resolver/src/lib.rs and crates/resolver/src/netlink.rs.
use netmon.Base.{ℕ}
use netmon.Base.Text.{Text}
use netmon.Net.{SocketAddr}
use netmon.Capture.Types.{Protocol}

pub record ProcessInfo : Type 0 where
  pub pid : ℕ
  pub tid : ℕ
  pub name : Text
  pub thread_name : Text
  pub uid : ℕ
  pub username : Text

pub record ResolvedConnection : Type 0 where
  pub local_addr : SocketAddr
  pub remote_addr : SocketAddr
  pub protocol : Protocol
  pub state : Text
  pub inode : ℕ
  pub pid : ℕ
  pub tid : ℕ
  pub process : Text
  pub thread_name : Text
  pub uid : ℕ
  pub username : Text

pub record SocketEntry : Type 0 where
  pub inode : ℕ
  pub local_addr : SocketAddr
  pub remote_addr : SocketAddr
  pub state : Text
  pub uid : ℕ
  pub protocol : Protocol
