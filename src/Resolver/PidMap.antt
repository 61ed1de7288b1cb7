-- ===== src/Resolver/PidMap.antt =====
-- Which thread holds which socket: crates/resolver/src/pid_map.rs. The directory `/proc` is a
-- parameter: what listing it and reading its files give, none standing for an error.
use mathlib.Core.Option.{bind}
use mathlib.Core.List.{reverse}
use netmon.Base.{
  ℕ, ◌-◌, ◌||◌, not, List, [], ◌∷◌, Option, none, some, ltb, take, drop, length, get_or,
  if◌then◌else◌, ℕ_eq,
}
use netmon.Base.Text.{
  Text, text, starts_with, ends_with, strip_prefix, split_whitespace, lines, is_whitespace,
}
use netmon.Base.Word.{u64_max}
use netmon.Base.Numbers.{from_str_radix}
use netmon.HashMap.{HashMap, insert}

-- `(pid, tid, process_name, thread_name, uid)`
pub record InodePidEntry : Type 0 where
  pub pid : ℕ
  pub tid : ℕ
  pub process_name : Text
  pub thread_name : Text
  pub uid : ℕ

-- The links of an `fd` directory.
abbrev pub FdDir : Type 0
FdDir = Option (List (Option Text))

pub record TaskDir : Type 0 where
  pub file_name : Text
  pub comm : Option Text
  pub fd : FdDir

pub record ProcDir : Type 0 where
  pub file_name : Text
  pub comm : Option Text
  pub status : Option Text
  pub task : Option (List (Option TaskDir))
  pub fd : FdDir

abbrev pub InodeMap : Type 0
InodeMap = HashMap ℕ InodePidEntry

abbrev pub parse_u32 : Text → Option ℕ
parse_u32 s = from_str_radix 0xffff_ffff 10 s

unfoldable pub trim_start : Text → Text
trim_start [] = []
trim_start (c ∷ s) = let rest = trim_start s in if is_whitespace c then rest else c ∷ s

-- `t.trim()`
unfoldable pub trim : Text → Text
unfolding trim_start
trim s = reverse (trim_start (reverse (trim_start s)))

abbrev pub socket_prefix : Text
socket_prefix = text "socket:["

unfoldable pub parse_socket_inode : Text → Option ℕ
parse_socket_inode target =
    if not (starts_with socket_prefix target) || not (ends_with (text "]") target)
    then none
    else from_str_radix u64_max 10 (take (length target - 1 - 8) (drop 8 target))

abbrev insert_inode : Option ℕ → InodePidEntry → InodeMap → InodeMap
insert_inode none owner m = m
insert_inode (some inode) owner m = insert inode owner m

unfoldable pub scan_links : List (Option Text) → InodePidEntry → InodeMap → InodeMap
scan_links [] owner m = m
scan_links (none ∷ rest) owner m = scan_links rest owner m
scan_links (some target ∷ rest) owner m =
    scan_links rest owner (insert_inode (parse_socket_inode target) owner m)

unfoldable pub scan_fd_dir : FdDir → InodePidEntry → InodeMap → InodeMap
scan_fd_dir none owner m = m
scan_fd_dir (some links) owner m = scan_links links owner m

-- The first line `Uid:` with a second column.
unfoldable pub uid_of_lines : List Text → Option ℕ
uid_of_lines [] = none
uid_of_lines (line ∷ rest) = elim (strip_prefix (text "Uid:") line) [
  | none ↦ uid_of_lines rest
  | some columns ↦
      let others = uid_of_lines rest in
      if ltb (length (split_whitespace columns)) 2
      then others
      else parse_u32 (get_or (split_whitespace columns) 1 [])
]

unfoldable pub read_process_effective_uid : Option Text → Option ℕ
read_process_effective_uid status = bind status (λ s. uid_of_lines (lines s))

abbrev or_name : Option Text → Text → Text
or_name none name = name
or_name (some comm) name = trim comm

unfoldable pub scan_tasks : List (Option TaskDir) → ℕ → Text → ℕ → InodeMap → InodeMap
scan_tasks [] pid process_name uid m = m
scan_tasks (none ∷ rest) pid process_name uid m = scan_tasks rest pid process_name uid m
scan_tasks (some task ∷ rest) pid process_name uid m = elim (parse_u32 task.file_name) [
  | none ↦ scan_tasks rest pid process_name uid m
  | some tid ↦ scan_tasks rest pid process_name uid (
      scan_fd_dir task.fd
        (record {
          pid = pid;
          tid = tid;
          process_name = process_name;
          thread_name = or_name task.comm process_name;
          uid = uid;
        })
        m)
]

-- A process whose number, name and user are known.
unfoldable pub scan_process : ProcDir → ℕ → Text → ℕ → InodeMap → InodeMap
scan_process entry pid process_name uid m = elim entry.task [
  | none ↦
      scan_fd_dir entry.fd
        (record {
          pid = pid;
          tid = pid;
          process_name = process_name;
          thread_name = process_name;
          uid = uid;
        })
        m
  | some tasks ↦ scan_tasks tasks pid process_name uid m
]

unfoldable pub scan_entry : ProcDir → InodeMap → InodeMap
scan_entry entry m = elim (parse_u32 entry.file_name) [
  | none ↦ m
  | some pid ↦ elim entry.comm [
    | none ↦ m
    | some comm ↦ elim (read_process_effective_uid entry.status) [
      | none ↦ m
      | some uid ↦ scan_process entry pid (trim comm) uid m
    ]
  ]
]

unfoldable pub scan_entries : List (Option ProcDir) → InodeMap → InodeMap
scan_entries [] m = m
scan_entries (none ∷ rest) m = scan_entries rest m
scan_entries (some entry ∷ rest) m = scan_entries rest (scan_entry entry m)

unfoldable pub build_inode_pid_map : Option (List (Option ProcDir)) → InodeMap
build_inode_pid_map none = []
build_inode_pid_map (some entries) = scan_entries entries []
