-- ===== src/Tools/Mounts.antt =====
-- The child process in `main` of userspace/planten_coreutils/src/bin/10_ns.rs, which carries out the plan of
-- the namespace. Whether a call of the host succeeds is a parameter.
use planten.Base.{ℕ, Bool, Option, none, some, if◌then◌else◌, get_last?}
use planten.Base.{List, [], ◌∷◌, ◌++◌, Str, bytes, to_decimal, length}
use planten.Fs.FilePath.{split}
use planten.Ns.{MountPlan, bind_plan, union_plan, p9_plan}
use planten.Ns.Storage.{push_path}
use planten.Tools.Probe.{Probe, reachable, probe_panicked, refusal}
use planten.Tools.Address.{Parsed, host_port, refused, parse_9p_addr}

-- The system calls that change what is mounted, with the removal of a temporary directory when it is
-- dropped.
pub data Call : Type 0 where
  bind_call : Str → Str → Call
  p9_call : Str → Str → Str → Call
  remove_dir_all : Str → Call

pub record Host : Type 0 where
  pub unshare : Bool
  -- `tempdir()`, for the step before the last `n` of the plan.
  pub tempdir : ℕ → Option Str
  pub mount : Call → Bool
  pub exists : Str → Bool
  pub is_dir : Str → Bool
  pub create_dir_all : Str → Bool
  pub probe : Str → Str → Probe

pub data Event : Type 0 where
  mounted mount_failed : Call → Event
  cleaned : Call → Event
  probe_refused mount_refused : Str → Event
  unshare_failed tempdir_failed panicked executed : Event

abbrev pub mount_event : Host → Call → Event
mount_event host call = if host.mount call then mounted call else mount_failed call

unfoldable pub ensure_mount_point : Host → Str → Bool
ensure_mount_point host target =
    if host.exists target then host.is_dir target else host.create_dir_all target

abbrev remote_or_root : Str → Str
remote_or_root [] = bytes "/"
remote_or_root (c ∷ s) = c ∷ s

unfoldable pub mount_options : Str → ℕ → Str
mount_options remote port =
    bytes "trans=tcp,port="
    ++ (to_decimal port ++ (bytes ",aname=" ++ (remote ++ bytes ",msize=131072,cache=loose")))

unfoldable pub mount_at : Host → Str → Str → Parsed → Event
mount_at host target remote (refused e) = mount_refused target
mount_at host target remote (host_port source port) =
    mount_event host (p9_call source target (mount_options remote port))

unfoldable pub mount_9p_target : Host → Str → Str → Str → Event
mount_9p_target host target addr remote_path =
    if ensure_mount_point host target
    then mount_at host target (remote_or_root remote_path) (parse_9p_addr addr)
    else mount_refused target

-- `tmp_dir.path().join(path.split('/').last().unwrap())`
abbrev joined_name : Str → Option Str → Str
joined_name dir none = dir
joined_name dir (some name) = push_path dir name

abbrev pub union_target : Str → Str → Str
union_target dir path = joined_name dir (get_last? (split path))

-- A union: its paths are mounted in the temporary directory, this at the place, and then it is dropped.
unfoldable pub union_events : Host → Str → Str → List Str → List Event
union_events host dir new [] =
    mount_event host (bind_call dir new) ∷ cleaned (remove_dir_all dir) ∷ []
union_events host dir new (path ∷ paths) =
    mount_event host (bind_call path (union_target dir path)) ∷ union_events host dir new paths

-- How `main` goes on after a step of the plan: to the next one, or out of the loop by its last event.
pub data Stepped : Type 0 where
  goes_on : List Event → Stepped
  ends_by : Event → Stepped

abbrev pub probed : Host → Str → Str → Str → Probe → Stepped
probed host new addr path reachable = goes_on (mount_9p_target host new addr path ∷ [])
probed host new addr path probe_panicked = ends_by panicked
probed host new addr path (refusal step) = goes_on (probe_refused new ∷ [])

abbrev pub in_directory : Host → Str → List Str → Option Str → Stepped
in_directory host new paths none = ends_by tempdir_failed
in_directory host new paths (some dir) = goes_on (union_events host dir new paths)

unfoldable pub step_events : Host → ℕ → Str → MountPlan → Stepped
step_events host n new (bind_plan path) = goes_on (mount_event host (bind_call path new) ∷ [])
step_events host n new (union_plan paths) = in_directory host new paths (host.tempdir n)
step_events host n new (p9_plan addr path) = probed host new addr path (host.probe addr path)

unfoldable pub plan_events : Host → List (Str × MountPlan) → List Event
plan_events host [] = executed ∷ []
plan_events host ((new, step) ∷ plan) = elim (step_events host (length plan) new step) [
  | ends_by event ↦ event ∷ []
  | goes_on events ↦ events ++ plan_events host plan
]

unfoldable pub child_events : Host → List (Str × MountPlan) → List Event
child_events host plan = if host.unshare then plan_events host plan else unshare_failed ∷ []
