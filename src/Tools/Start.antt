-- ===== src/Tools/Start.antt =====
-- `main` of userspace/planten_coreutils/src/bin/10_ns.rs, in the build for Linux.
use planten.Base.{ℕ, ◌≡◌, Bool, ◌||◌, some, Res, if◌then◌else◌}
use planten.Base.{List, [], ◌∷◌, ◌++◌, Str, false, true}
use planten.Ns.{Namespace, ensure_procfs, ensure_srvfs, mount_plan}
use planten.Ns.Ensure.{with_defaults, ensure-with_defaults}
use planten.Ns.Storage.{Disk, Json, StoragePath, storage_path, load_from_storage, save_to_storage}
use planten.Ns.Persist.{load_from_storage-save_to_storage}
use planten.Tools.Text.{contains_char}
use planten.Tools.Args.{Flags, ready, usage, parse_flags, Request, print_requests, apply_requests}
use planten.Tools.Args.{IsCommand, parse_flags-print_requests}
use planten.Tools.Commands.{loaded_or_new, saved_or_same}
use planten.Tools.Shell.{Shell, Status, shell_loop}
use planten.Tools.Mounts.{Host, Event, child_events}

-- `fork()`
pub data Fork : Type 0 where
  parent_of : ℕ → Fork
  child fork_failed : Fork

pub data Finish : Type 0 where
  usage_printed : Str → Finish
  shell_run : Res Shell → Finish
  nul_panic fork_refused : Finish
  child_pid : ℕ → Finish
  child_run : List Event → Finish

-- What the disk holds when the flags are done, and how `main` goes on.
pub record Started : Type 0 where
  pub disk : Disk
  pub finish : Finish

-- `CString::new(…).unwrap()` panics at a zero byte.
unfoldable pub has_nul : List Str → Bool
has_nul [] = false
has_nul (arg ∷ args) = contains_char 0 arg || has_nul args

unfoldable pub forked : Host → Namespace → Fork → Finish
forked host ns (parent_of pid) = child_pid pid
forked host ns child = child_run (child_events host (mount_plan ns))
forked host ns fork_failed = fork_refused

unfoldable pub run_command : Host → Fork → List Str → Namespace → Finish
run_command host fork cmd ns = if has_nul cmd then nul_panic else forked host ns fork

-- The namespace that `main` starts from.
unfoldable pub start_namespace : Json → Disk → Namespace
start_namespace json disk =
    ensure_srvfs (ensure_procfs (loaded_or_new (load_from_storage json disk)))

start_namespace-loaded :
    (json : Json) (disk : Disk) (ns : Namespace)
    → load_from_storage json disk ≡ some ns
    → start_namespace json disk ≡ with_defaults ns
unfolding start_namespace
start_namespace-loaded json disk ns loaded = rw loaded (ensure-with_defaults ns)

module _ (json : Json) (host : Host) (fork : Fork) (status : Str → List Str → Status) where
  unfoldable pub run_rest : List Str → List Str → Namespace → Disk → Finish
  run_rest lines [] ns disk =
      shell_run (shell_loop json status lines (record { ns = ns; disk = disk; events = [] }))
  run_rest lines (cmd ∷ args) ns disk = run_command host fork (cmd ∷ args) ns

  unfoldable pub with_flags : List Str → Flags → Disk → Started
  with_flags lines (usage message) disk = record { disk = disk; finish = usage_printed message }
  with_flags lines (ready ns rest) disk =
      let disk' = saved_or_same disk (save_to_storage json ns disk) in
      record { disk = disk'; finish = run_rest lines rest ns disk' }

  -- `args` are those behind the program's name, `lines` those of the input.
  unfoldable pub ns_main : List Str → List Str → Disk → Started
  ns_main args lines disk = with_flags lines (parse_flags args (start_namespace json disk)) disk

  -- Where a namespace is stored, flags with their arguments and a command behind them, where the result can
  -- be saved and its JSON is read back: what is loaded afterwards is the namespace that was stored before,
  -- behind its entries one for 127.0.0.1:5641 at /proc and one for 127.0.0.1:5652 at /srv where no entry had
  -- that target, and the requests of the flags carried out on it in their order.
  pub ns_main-loaded :
      (requests : List Request) (command lines : List Str) (serialized : Str) (disk : Disk)
      (path : StoragePath) (ns : Namespace)
      → IsCommand command
      → load_from_storage json disk ≡ some ns
      → json.to_string_pretty (apply_requests requests (with_defaults ns)) ≡ some serialized
      → json.from_str serialized ≡ some (apply_requests requests (with_defaults ns))
      → storage_path disk ≡ some path
      → disk.writes path ≡ true
      → load_from_storage json (ns_main (print_requests requests ++ command) lines disk).disk
        ≡ some (apply_requests requests (with_defaults ns))
  unfolding ns_main with_flags
  ns_main-loaded requests command lines serialized disk path ns h loaded print parse found
        writable =
      let (disk', saves, loads) =
        load_from_storage-save_to_storage json (apply_requests requests (with_defaults ns))
          serialized disk path print parse found writable in
      rw
        (
          start_namespace-loaded json disk ns loaded,
          parse_flags-print_requests requests command (with_defaults ns) h,
          with_flags,
          saves,
        )
        loads
