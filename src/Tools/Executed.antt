-- ===== src/Tools/Executed.antt =====
-- When the child of userspace/planten_coreutils/src/bin/10_ns.rs comes to its command.
use planten.Base.{◌≡◌, refl, ◌∙◌, Bool, true, false, ◌&&◌, ◌||◌}
use planten.Base.{
  if◌then◌else◌, is_some, Bool-cases, Option-cases, inl, inr, List, [], ◌∷◌, ◌++◌, Str,
}
use planten.Base.{length}
use planten.Ns.{MountPlan, bind_plan, union_plan, p9_plan}
use planten.Tools.Address.{Parsed, host_port, refused, parse_9p_addr}
use planten.Tools.Probe.{Probe, reachable, refusal, probe_panicked}
use planten.Tools.Mounts.{
  Call, bind_call, Host, Event, unshare_failed, executed, mount_event, union_events,
  mount_9p_target, mount_at, ensure_mount_point, step_events, plan_events, child_events,
}

abbrev is_executed : Event → Bool
is_executed executed = true
is_executed _ = false

abbrev pub runs_command : List Event → Bool
runs_command [] = false
runs_command (e ∷ events) = is_executed e || runs_command events

-- The steps of the plan at which `main` can end: a union without a temporary directory, and a probe that
-- panics.
abbrev pub survives : Probe → Bool
survives probe_panicked = false
survives reachable = true
survives (refusal step) = true

abbrev pub all_pass : Host → List (Str × MountPlan) → Bool
all_pass host [] = true
all_pass host ((new, union_plan paths) ∷ plan) =
    is_some (host.tempdir (length plan)) && all_pass host plan
all_pass host ((new, bind_plan path) ∷ plan) = all_pass host plan
all_pass host ((new, p9_plan addr path) ∷ plan) =
    survives (host.probe addr path) && all_pass host plan

mount_event-is_executed : (host : Host) (call : Call) → is_executed (mount_event host call) ≡ false
mount_event-is_executed host call = elim (Bool-cases (host.mount call)) [
  | inl e ↦ rw e refl
  | inr e ↦ rw e refl
]

union_events-runs_command :
    (host : Host) (dir new : Str) (paths : List Str) (rest : List Event)
    → runs_command (union_events host dir new paths ++ rest) ≡ runs_command rest
unfolding union_events
union_events-runs_command host dir new [] rest =
    rw (mount_event-is_executed host (bind_call dir new)) refl
union_events-runs_command host dir new (path ∷ paths) rest =
    rw (mount_event-is_executed host (bind_call path _))
      (union_events-runs_command host dir new paths rest)

mount_at-is_executed :
    (host : Host) (target remote : Str) (addr : Parsed)
    → is_executed (mount_at host target remote addr) ≡ false
unfolding mount_at
mount_at-is_executed host target remote (refused e) = refl
mount_at-is_executed host target remote (host_port source port) = mount_event-is_executed host _

mount_9p_target-is_executed :
    (host : Host) (target addr path : Str)
    → is_executed (mount_9p_target host target addr path) ≡ false
unfolding mount_9p_target
mount_9p_target-is_executed host target addr path =
    elim (Bool-cases (ensure_mount_point host target)) [
      | inl e ↦ rw e (mount_at-is_executed host target _ (parse_9p_addr addr))
      | inr e ↦ rw e refl
    ]

probed-runs_command :
    (host : Host) (new addr path : Str) (probe : Probe) (plan : List (Str × MountPlan))
    → host.probe addr path ≡ probe
    → runs_command (plan_events host plan) ≡ all_pass host plan
    → runs_command (plan_events host ((new, p9_plan addr path) ∷ plan))
      ≡ (survives probe && all_pass host plan)
unfolding plan_events step_events
probed-runs_command host new addr path reachable plan e h =
    rw (e, plan_events, mount_9p_target-is_executed host new addr path) h
probed-runs_command host new addr path probe_panicked plan e h = rw (e, plan_events) refl
probed-runs_command host new addr path (refusal step) plan e h = rw (e, plan_events) h

plan_events-runs_command :
    (host : Host) (plan : List (Str × MountPlan))
    → runs_command (plan_events host plan) ≡ all_pass host plan
unfolding plan_events step_events
plan_events-runs_command host [] = refl
plan_events-runs_command host ((new, bind_plan path) ∷ plan) =
    rw (mount_event-is_executed host (bind_call path new)) (plan_events-runs_command host plan)
plan_events-runs_command host ((new, union_plan paths) ∷ plan) =
    elim (Option-cases (host.tempdir (length plan))) [
      | inl e ↦ rw (e, plan_events) refl
      | inr (dir, e) ↦
          rw (e, plan_events)
            (union_events-runs_command host dir new paths (plan_events host plan)
              ∙ plan_events-runs_command host plan)
    ]
plan_events-runs_command host ((new, p9_plan addr path) ∷ plan) =
    probed-runs_command host new addr path (host.probe addr path) plan refl
      (plan_events-runs_command host plan)

separated :
    (b : Bool) (events : List Event) (passes : Bool)
    → runs_command events ≡ passes
    → runs_command (if b then events else unshare_failed ∷ []) ≡ (b && passes)
separated true events passes h = h
separated false events passes h = refl

-- Whatever the calls of the host return: the child executes the command exactly where its namespace could be
-- separated, every union of the plan was given a temporary directory, and no probe panicked. No failure to
-- mount keeps the command from running.
pub child_events-runs_command :
    (host : Host) (plan : List (Str × MountPlan))
    → runs_command (child_events host plan) ≡ (host.unshare && all_pass host plan)
unfolding child_events
child_events-runs_command host plan =
    separated host.unshare (plan_events host plan) (all_pass host plan)
      (plan_events-runs_command host plan)
