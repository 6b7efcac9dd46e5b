-- ===== src/Proc/Host.antt =====
-- What libs/planten_fs_proc/src/fs.rs reads of the host, by the crate `sysinfo` and by the host's own files.
-- `sysinfo` is not part of this repository: a snapshot of its processes is a parameter.
use planten.Base.{ℕ, ◌<◌, ◌^◌, ◌≡◌, Option, some, List, All, Str}

-- `sysinfo::ProcessStatus`, whose other values are told apart only by their `Debug` text.
pub data ProcessStatus : Type 0 where
  run_status sleep_status idle_status stop_status zombie_status other_status : ProcessStatus

-- `sysinfo::Process` by its methods. A float, a path or a user is the text that it is printed as.
pub record Process : Type 0 where
  pub name : Str
  pub pid : ℕ
  pub status : ProcessStatus
  pub status_text : Str
  pub parent : Option ℕ
  pub cmd : List Str
  pub cpu_usage : Str
  pub memory : ℕ
  pub virtual_memory : ℕ
  pub cwd : Option Str
  pub exe : Option Str
  pub user_id : Option Str

-- The processes after a refresh: the keys of the map, the process that `Pid::from` finds for a number,
-- and the host's files that hold UTF-8 text. A pid prints as its number.
pub record ProcHost : Type 0 where
  pub pids : List ℕ
  pub process : ℕ → Option Process
  pub read_to_string : Str → Option Str

-- `Pid::from` is a conversion of `usize`: the number of a pid finds the process that the pid stands for.
abbrev pub FindsPids : ProcHost → Type 0
FindsPids host =
    All (λ pid. (pid < 2 ^ 64) × ((p : Process) × (host.process pid ≡ some p))) host.pids
