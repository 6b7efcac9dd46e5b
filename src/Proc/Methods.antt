-- ===== src/Proc/Methods.antt =====
-- The methods of `ProcFs` in libs/planten_fs_proc/src/fs.rs, on the components of a path. Every call of
-- `pid_exists` and of `with_process` refreshes the processes, so that a method takes a snapshot for each.
use planten.Base.{ℕ, ◌^◌, Bool, false, Option, none, some, is_some, List, [], ◌∷◌, Str, bytes}
use planten.Base.{parse_uint, to_decimal, contains, if◌then◌else◌, map, bit_or}
use planten.Fs.Inode.{Inode, new, dmdir}
use planten.Fs.FilePath.{components}
use planten.Net.{timed_at}
use planten.Ramfs.Tree.{with_contents}
use planten.Ramfs.Sort.{sort}
use planten.Served.View.{FsView}
use planten.Proc.Host.{ProcHost}
use planten.Proc.Files.{
  EntryKind, file_kind, dir_kind, ProcDir, fd, task, proc_dirs, fd_entries, task_entries,
  dir_entries, directory_listing, process_entry_names, find_dir, find_entry_kind, read_file_entry,
  read_fd_entry, read_task_entry,
}
use mathlib.Core.Option

-- `pid.parse::<usize>()`
unfoldable pub parse_pid : Str → Option ℕ
parse_pid pid = parse_uint (2 ^ 64) pid

unfoldable pub list_pids : ProcHost → List Str
list_pids host = sort (map to_decimal host.pids)

unfoldable pub pid_exists : ProcHost → Str → Bool
pid_exists host pid = elim (parse_pid pid) [ none ↦ false | some n ↦ is_some (host.process n) ]

-- What `walk` returns for an entry of a process.
abbrev pub entry_walked : EntryKind → List Str
entry_walked (dir_kind dir) = dir_entries dir
entry_walked (file_kind file) = []

unfoldable pub walk_item : Str → Option ProcDir → Option (List Str)
walk_item item none = none
walk_item item (some fd) = if contains fd_entries item then some [] else none
walk_item item (some task) = if contains task_entries item then some [] else none

unfoldable pub walk_proc : ProcHost → List Str → Option (List Str)
walk_proc host [] = some (list_pids host)
walk_proc host (pid ∷ []) = if pid_exists host pid then some process_entry_names else none
walk_proc host (pid ∷ name ∷ []) =
    if pid_exists host pid then Option.map entry_walked (find_entry_kind name) else none
walk_proc host (pid ∷ dir ∷ item ∷ []) =
    if pid_exists host pid then walk_item item (find_dir proc_dirs dir) else none
walk_proc host (a ∷ b ∷ c ∷ d ∷ names) = none

unfoldable pub open_proc : ProcHost → List Str → Option (Unit {0})
open_proc host [] = some tt
open_proc host (pid ∷ []) = if pid_exists host pid then some tt else none
open_proc host (pid ∷ name ∷ []) =
    if pid_exists host pid then Option.map (λ kind. tt) (find_entry_kind name) else none
open_proc host (pid ∷ dir ∷ entry ∷ []) =
    if pid_exists host pid then Option.map (λ found. tt) (find_dir proc_dirs dir) else none
open_proc host (a ∷ b ∷ c ∷ d ∷ names) = none

unfoldable pub read_file : ProcHost → Str → EntryKind → Option Str
read_file host pid (dir_kind dir) = some (directory_listing (dir_entries dir))
read_file host pid (file_kind file) = elim (parse_pid pid) [
  | none ↦ none
  | some n ↦ read_file_entry host n file
]

unfoldable pub read_named : ProcHost → Str → Option EntryKind → Option Str
read_named host pid none = none
read_named host pid (some kind) = read_file host pid kind

unfoldable pub read_in_dir : ProcHost → ℕ → Str → Option ProcDir → Option Str
read_in_dir host pid entry none = none
read_in_dir host pid entry (some fd) = read_fd_entry pid entry
read_in_dir host pid entry (some task) = read_task_entry host pid entry

unfoldable pub read_item : ProcHost → Option ℕ → Str → Str → Option Str
read_item host none dir entry = none
read_item host (some pid) dir entry = read_in_dir host pid entry (find_dir proc_dirs dir)

-- The snapshots of `pid_exists` and of `with_process`.
unfoldable pub read_proc : ProcHost → ProcHost → List Str → Option Str
read_proc first host [] = some (directory_listing (list_pids first))
read_proc first host (pid ∷ []) =
    if pid_exists first pid then some (directory_listing process_entry_names) else none
read_proc first host (pid ∷ name ∷ []) =
    if pid_exists first pid then read_named host pid (find_entry_kind name) else none
read_proc first host (pid ∷ dir ∷ entry ∷ []) =
    if pid_exists first pid then read_item host (parse_pid pid) dir entry else none
read_proc first host (a ∷ b ∷ c ∷ d ∷ names) = none

-- `Inode::new(name, 0o555 | 0x80000000, "root", "root")`, with its two times.
abbrev pub proc_dir_inode : ℕ → Str → Inode
proc_dir_inode now name =
    timed_at now (new now name (bit_or 0o555 dmdir) (bytes "root") (bytes "root"))

abbrev pub proc_file_inode : ℕ → Str → Str → Inode
proc_file_inode now name text =
    timed_at now (with_contents text (new now name 0o444 (bytes "root") (bytes "root")))

-- `read` is `self.read(path)`.
unfoldable pub stat_entry : ℕ → Str → Option Str → EntryKind → Option Inode
stat_entry now name read (dir_kind dir) = some (proc_dir_inode now name)
stat_entry now name read (file_kind file) = Option.map (proc_file_inode now name) read

unfoldable pub stat_named : ℕ → Str → Option Str → Option EntryKind → Option Inode
stat_named now name read none = none
stat_named now name read (some kind) = stat_entry now name read kind

-- The snapshots of `pid_exists`, of the `pid_exists` that `self.read` calls, and of `with_process`.
unfoldable pub stat_proc : ℕ → ProcHost → ProcHost → ProcHost → List Str → Option Inode
stat_proc now first second host [] = some (proc_dir_inode now (bytes "/"))
stat_proc now first second host (pid ∷ []) =
    if pid_exists first pid then some (proc_dir_inode now pid) else none
stat_proc now first second host (pid ∷ name ∷ []) =
    if pid_exists first pid
    then stat_named now name (read_proc second host (pid ∷ name ∷ [])) (find_entry_kind name)
    else none
stat_proc now first second host (pid ∷ dir ∷ entry ∷ []) =
    if pid_exists first pid
    then Option.map (proc_file_inode now entry) (read_item host (parse_pid pid) dir entry)
    else none
stat_proc now first second host (a ∷ b ∷ c ∷ d ∷ names) = none

-- The methods on paths, on one snapshot; `clunk` succeeds, `write`, `remove` and `wstat` fail.
unfoldable pub proc_view : ℕ → ProcHost → FsView
proc_view now host = record {
  stat = λ path. stat_proc now host host host (components path);
  read = λ path. read_proc host host (components path);
}
