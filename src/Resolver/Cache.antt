-- ===== src/Resolver/Cache.antt =====
-- `ResolverCache` of crates/resolver/src/lib.rs, to which `Resolver` forwards every call. What the
-- host shows at each time is a parameter, so that a refresh at a time is a function of it.
pub mod Laws
pub mod Owners
use netmon.Base.{
  ℕ, ◌-◌, Bool, true, false, ◌&&◌, not, List, [], ◌∷◌, ◌++◌, Option, none, some, ltb, nat_eq,
  get_or, length, ◌==◌, if◌then◌else◌, ℕ_eq,
}
use netmon.Base.Text.{Text, text, split_on}
use netmon.Base.Outcome.{Outcome, ret, err, panicked}
use netmon.HashMap.{HashMap, get, insert, or_default, values}
use netmon.Capture.Types.{FlowKey, protocol_eq}
use netmon.Resolver.Types.{ProcessInfo, ResolvedConnection, SocketEntry}
use netmon.Resolver.Netlink.{Sockets}
use netmon.Resolver.Wire.{NetlinkError}
use netmon.Resolver.Netlink.Messages.{Kernel, query_sockets}
use netmon.Resolver.ProcNet.{FallbackError, read_proc_net}
use netmon.Resolver.PidMap.{InodePidEntry, InodeMap, ProcDir, build_inode_pid_map, parse_u32}
use netmon.Flow.{flow_matches}

-- The host at a time: its netlink socket, its files under `/proc/net` and its processes.
pub record Host : Type 0 where
  pub kernel : ℕ → Kernel
  pub read_to_string : ℕ → Text → Option Text
  pub proc : ℕ → Option (List (Option ProcDir))

abbrev pub unknown_label : Text
unknown_label = text "[unknown]"

abbrev pub refresh_period : ℕ
refresh_period = 1000

pub record ResolverCache : Type 0 where
  pub uid_map : HashMap ℕ Text
  pub inode_to_process : HashMap ℕ ProcessInfo
  pub socket_entries : Sockets
  pub connections : List ResolvedConnection
  pub last_refresh : ℕ

-- Lines of `/etc/passwd`; one that cannot be read is none.
unfoldable pub load_uid_map : List (Option Text) → HashMap ℕ Text → HashMap ℕ Text
load_uid_map [] uid_map = uid_map
load_uid_map (none ∷ rest) uid_map = load_uid_map rest uid_map
load_uid_map (some line ∷ rest) uid_map =
    let parts = split_on 58 line in
    load_uid_map rest (
      if ltb (length parts) 3 then uid_map else elim (parse_u32 (get_or parts 2 [])) [
        | none ↦ uid_map
        | some uid ↦ insert uid (get_or parts 0 []) uid_map
      ])

-- `uid_map.get(uid).cloned().unwrap_or_else(unknown)`
abbrev pub username : HashMap ℕ Text → ℕ → Text
username uid_map uid = or_default (get uid uid_map) unknown_label

abbrev pub process_of : HashMap ℕ Text → Option InodePidEntry → ProcessInfo
process_of uid_map (some e) = record {
  pid = e.pid;
  tid = e.tid;
  name = e.process_name;
  thread_name = e.thread_name;
  uid = e.uid;
  username = username uid_map e.uid;
}
process_of uid_map none = record {
  pid = 0;
  tid = 0;
  name = unknown_label;
  thread_name = unknown_label;
  uid = 0;
  username = unknown_label;
}

unfoldable pub build_inode_process_map : Sockets → InodeMap → HashMap ℕ Text → HashMap ℕ ProcessInfo
build_inode_process_map [] inode_pid_map uid_map = []
build_inode_process_map ((inode, s) ∷ rest) inode_pid_map uid_map =
    insert inode (process_of uid_map (get inode inode_pid_map))
      (build_inode_process_map rest inode_pid_map uid_map)

abbrev pub unknown_owner : ℕ → InodePidEntry
unknown_owner default_uid = record {
  pid = 0;
  tid = 0;
  process_name = unknown_label;
  thread_name = unknown_label;
  uid = default_uid;
}

unfoldable pub build_connections : Sockets → InodeMap → HashMap ℕ Text → List ResolvedConnection
build_connections [] inode_pid_map uid_map = []
build_connections ((inode, s) ∷ rest) inode_pid_map uid_map =
    let owner = or_default (get s.inode inode_pid_map) (unknown_owner s.uid) in
    record {
      local_addr = s.local_addr;
      remote_addr = s.remote_addr;
      protocol = s.protocol;
      state = s.state;
      inode = s.inode;
      pid = owner.pid;
      tid = owner.tid;
      process = owner.process_name;
      thread_name = owner.thread_name;
      uid = owner.uid;
      username = username uid_map owner.uid;
    }
    ∷ build_connections rest inode_pid_map uid_map

-- Netlink first, and the files where it fails.
unfoldable pub first_source :
    Outcome NetlinkError Sockets → Outcome FallbackError Sockets → Option Sockets
first_source (ret sockets) fallback = some sockets
first_source (err e) (ret sockets) = some sockets
first_source (err e) (err f) = none
first_source (err e) panicked = none
first_source panicked fallback = none

-- A source that fails leaves the cache as it is.
unfoldable pub refreshed : Option Sockets → InodeMap → ℕ → ResolverCache → ResolverCache
refreshed none inode_pid_map now c = c
refreshed (some sockets) inode_pid_map now c = record {
  uid_map = c.uid_map;
  inode_to_process = build_inode_process_map sockets inode_pid_map c.uid_map;
  socket_entries = sockets;
  connections = build_connections sockets inode_pid_map c.uid_map;
  last_refresh = now;
}

unfoldable pub find_owner : FlowKey → Sockets → HashMap ℕ ProcessInfo → Option ProcessInfo
find_owner flow [] inode_to_process = none
find_owner flow ((inode, s) ∷ rest) inode_to_process =
    let others = find_owner flow rest inode_to_process in
    if s.protocol == flow.protocol && flow_matches s.local_addr s.remote_addr flow
    then elim (get s.inode inode_to_process) [ some info ↦ some info | none ↦ others ]
    else others

unfoldable pub find_pid : ℕ → HashMap ℕ ProcessInfo → Option ProcessInfo
find_pid pid [] = none
find_pid pid ((inode, info) ∷ rest) =
    let others = find_pid pid rest in if nat_eq info.pid pid then some info else others

module _ (host : Host) where
  unfoldable pub refresh : ℕ → ResolverCache → ResolverCache
  refresh now c =
      refreshed
        (first_source (query_sockets (host.kernel now)) (read_proc_net (host.read_to_string now)))
        (build_inode_pid_map (host.proc now)) now c

  unfoldable pub refresh_if_needed : ℕ → ResolverCache → ResolverCache
  refresh_if_needed now c = if ltb (now - c.last_refresh) refresh_period then c else refresh now c

  unfoldable pub resolve_flow_owner :
      ℕ → FlowKey → ResolverCache → Option ProcessInfo × ResolverCache
  resolve_flow_owner now flow c =
      let c' = refresh_if_needed now c in
      (find_owner flow c'.socket_entries c'.inode_to_process, c')

  unfoldable pub list_connections : ℕ → ResolverCache → List ResolvedConnection × ResolverCache
  list_connections now c = let c' = refresh_if_needed now c in (c'.connections, c')

  unfoldable pub process_by_pid : ℕ → ℕ → ResolverCache → Option ProcessInfo × ResolverCache
  process_by_pid now pid c =
      let c' = refresh_if_needed now c in (find_pid pid c'.inode_to_process, c')

-- `ResolverCache::new`: the clock is past its first five seconds.
unfoldable pub new_cache : ℕ → List (Option Text) → ResolverCache
new_cache now passwd = record {
  uid_map = load_uid_map passwd [];
  inode_to_process = [];
  socket_entries = [];
  connections = [];
  last_refresh = now - 5000;
}
