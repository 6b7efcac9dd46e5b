-- ===== src/Proc/Files.antt =====
-- The files of a process in libs/planten_fs_proc/src/fs.rs.
use planten.Base.{ℕ, Bool, false, Option, none, some, List, [], ◌∷◌, ◌++◌, Str, bytes, str_eq}
use planten.Base.{join, contains, to_decimal, get_last?, ◌==◌, if◌then◌else◌, map}
use planten.Proc.Host.{ProcessStatus, run_status, sleep_status, idle_status, stop_status}
use planten.Proc.Host.{zombie_status, other_status, Process, ProcHost}
use mathlib.Core.Option

pub data ProcFile : Type 0 where
  cmdline status stat info statm mounts : ProcFile

pub data ProcDir : Type 0 where
  fd task : ProcDir

pub data EntryKind : Type 0 where
  file_kind : ProcFile → EntryKind
  dir_kind : ProcDir → EntryKind

pub record ProcEntry : Type 0 where
  pub name : Str
  pub kind : EntryKind

-- `ProcEntry::file`
abbrev pub file_entry : Str → ProcFile → ProcEntry
file_entry name file = record { name = name; kind = file_kind file }

abbrev pub proc_entries : List ProcEntry
proc_entries =
    file_entry (bytes "cmdline") cmdline
    ∷ file_entry (bytes "status") status
    ∷ file_entry (bytes "stat") stat
    ∷ file_entry (bytes "info") info
    ∷ file_entry (bytes "statm") statm
    ∷ file_entry (bytes "mounts") mounts
    ∷ []

abbrev pub proc_dirs : List ProcDir
proc_dirs = fd ∷ task ∷ []

abbrev pub fd_entries : List Str
fd_entries = bytes "0" ∷ bytes "1" ∷ bytes "2" ∷ []

abbrev pub task_entries : List Str
task_entries = bytes "self" ∷ []

-- `ProcDir::name`
abbrev pub dir_name : ProcDir → Str
dir_name fd = bytes "fd"
dir_name task = bytes "task"

-- `ProcDir::entries`
abbrev pub dir_entries : ProcDir → List Str
dir_entries fd = fd_entries
dir_entries task = task_entries

unfoldable pub directory_listing : List Str → Str
directory_listing entries = join (bytes "\n") entries ++ bytes "\n"

unfoldable pub process_entry_names : List Str
process_entry_names = map (λ (e : ProcEntry). e.name) proc_entries ++ map dir_name proc_dirs

-- The loop over `PROC_DIRS`, which `PROC_DIRS.iter().find(…)` is as well.
unfoldable pub find_dir : List ProcDir → Str → Option ProcDir
find_dir [] name = none
find_dir (dir ∷ dirs) name = if str_eq (dir_name dir) name then some dir else find_dir dirs name

unfoldable pub find_entry : List ProcEntry → Str → Option EntryKind
find_entry [] name = Option.map dir_kind (find_dir proc_dirs name)
find_entry (entry ∷ entries) name =
    if str_eq entry.name name then some entry.kind else find_entry entries name

unfoldable pub find_entry_kind : Str → Option EntryKind
find_entry_kind name = find_entry proc_entries name

-- `data.ends_with(&[0])`
abbrev ends_with_zero : Option ℕ → Bool
ends_with_zero none = false
ends_with_zero (some c) = c == 0

unfoldable pub write_cmdline : Process → Str
write_cmdline process =
    let joined = join (0 ∷ []) process.cmd in
    if ends_with_zero (get_last? joined) then joined else joined ++ (0 ∷ [])

-- `{:?}` of an `Option<u32>`
abbrev debug_option : Option ℕ → Str
debug_option none = bytes "None"
debug_option (some n) = bytes "Some(" ++ (to_decimal n ++ bytes ")")

abbrev or_text : Str → Option Str → Str
or_text other none = other
or_text other (some text) = text

abbrev parent_or_zero : Option ℕ → ℕ
parent_or_zero none = 0
parent_or_zero (some pid) = pid

unfoldable pub write_status : Process → Str
write_status process =
    bytes "Name: "
    ++ (process.name
        ++ (bytes "\nPid: "
            ++ (to_decimal process.pid
                ++ (bytes "\nStatus: "
                    ++ (process.status_text
                        ++ (bytes "\nPPid: "
                            ++ (debug_option process.parent
                                ++ (bytes "\nCmd: "
                                    ++ (join (bytes " ") process.cmd
                                        ++ (bytes "\nCPU: "
                                            ++ (process.cpu_usage
                                                ++ (bytes "\nMemory: "
                                                    ++ (to_decimal process.memory
                                                        ++ bytes "\n")))))))))))))

abbrev pub state_char : ProcessStatus → ℕ
state_char run_status = b'R'
state_char sleep_status = b'S'
state_char idle_status = b'I'
state_char stop_status = b'T'
state_char zombie_status = b'Z'
state_char other_status = b'U'

-- `{} {} …\n`
abbrev words : List Str → Str
words texts = join (bytes " ") texts ++ bytes "\n"

unfoldable pub write_stat : Process → Str
write_stat process = words (
    to_decimal process.pid
    ∷ (bytes "(" ++ (process.name ++ bytes ")"))
    ∷ (state_char process.status ∷ [])
    ∷ to_decimal (parent_or_zero process.parent)
    ∷ to_decimal process.memory
    ∷ process.cpu_usage
    ∷ [])

unfoldable pub write_info : Process → Str
write_info process =
    bytes "pid "
    ++ (to_decimal process.pid
        ++ (bytes "\nname "
            ++ (process.name
                ++ (bytes "\nstate "
                    ++ (process.status_text
                        ++ (bytes "\ncwd "
                            ++ (or_text (bytes "<unknown>") process.cwd
                                ++ (bytes "\nexe "
                                    ++ (or_text (bytes "<unknown>") process.exe
                                        ++ (bytes "\nusermode "
                                            ++ (or_text (bytes "unknown") process.user_id
                                                ++ bytes "\n")))))))))))

unfoldable pub write_statm : Process → Str
write_statm process = words (
    to_decimal process.virtual_memory
    ∷ to_decimal process.memory
    ∷ bytes "0"
    ∷ bytes "0"
    ∷ bytes "0"
    ∷ to_decimal process.memory
    ∷ bytes "0"
    ∷ [])

-- In the build for Linux, the host's own file if it can be read.
unfoldable pub write_mounts : ProcHost → Process → Str
write_mounts host process =
    or_text (bytes "proc /proc proc rw 0 0\n")
      (host.read_to_string (bytes "/proc/" ++ (to_decimal process.pid ++ bytes "/mounts")))

-- The contents of a file of a process.
unfoldable pub file_text : ProcHost → ProcFile → Process → Str
file_text host cmdline process = write_cmdline process
file_text host status process = write_status process
file_text host stat process = write_stat process
file_text host info process = write_info process
file_text host statm process = write_statm process
file_text host mounts process = write_mounts host process

-- `with_process` and the choice of the writer.
unfoldable pub read_file_entry : ProcHost → ℕ → ProcFile → Option Str
read_file_entry host pid file = Option.map (file_text host file) (host.process pid)

unfoldable pub read_fd_entry : ℕ → Str → Option Str
read_fd_entry pid name =
    if contains fd_entries name
    then some
        (bytes "fd " ++ (to_decimal pid ++ (bytes "/" ++ (name ++ bytes " -> placeholder\n"))))
    else none

unfoldable pub read_task_entry : ProcHost → ℕ → Str → Option Str
read_task_entry host pid name =
    if contains task_entries name then read_file_entry host pid status else none
