-- ===== src/Ns.antt =====
-- `Namespace` of libs/planten_ns/src/lib.rs: the mounts, in the order in which they were made, and the
-- plan by which they are carried out.
use planten.Base.{
  Bool, true, false, ◌&&◌, ◌||◌, if◌then◌else◌, List, [], ◌∷◌, ◌++◌, Str, bytes, str_eq,
}
pub mod Plan
pub mod Separate
pub mod Unions
pub mod Ensure
pub mod Storage
pub mod Persist
mod Examples

pub data Mount : Type 0 where
  bind_mount : Str → Mount
  union_mount : List Str → Mount
  p9_mount : Str → Str → Mount

pub record MountEntry : Type 0 where
  pub target : Str
  pub mount : Mount

pub record Namespace : Type 0 where
  pub mounts : List MountEntry

unfoldable pub new_namespace : Namespace
new_namespace = record { mounts = [] }

unfoldable pub add_mount_entry : Str → Mount → Namespace → Namespace
add_mount_entry target mount ns = record {
  mounts = ns.mounts ++ (record { target = target; mount = mount } ∷ []);
}

unfoldable pub bind : Str → Str → Namespace → Namespace
bind new old ns = add_mount_entry new (bind_mount old) ns

unfoldable pub union : Str → Str → Namespace → Namespace
union new old ns = add_mount_entry new (union_mount (old ∷ [])) ns

unfoldable pub union_multi : Str → List Str → Namespace → Namespace
union_multi new old_paths ns = add_mount_entry new (union_mount old_paths) ns

unfoldable pub p9 : Str → Str → Str → Namespace → Namespace
p9 new addr path ns = add_mount_entry new (p9_mount addr path) ns

pub data MountPlan : Type 0 where
  bind_plan : Str → MountPlan
  union_plan : List Str → MountPlan
  p9_plan : Str → Str → MountPlan

-- `_ => plan.push(…)`, and the union that the last step of the plan takes in.
unfoldable pub push_union : Str → List Str → List (Str × MountPlan) → List (Str × MountPlan)
push_union target paths [] = (target, union_plan paths) ∷ []
push_union target paths ((t, union_plan existing) ∷ []) =
    if str_eq t target
    then (t, union_plan (existing ++ paths)) ∷ []
    else (t, union_plan existing) ∷ (target, union_plan paths) ∷ []
push_union target paths ((t, bind_plan path) ∷ []) =
    (t, bind_plan path) ∷ (target, union_plan paths) ∷ []
push_union target paths ((t, p9_plan addr path) ∷ []) =
    (t, p9_plan addr path) ∷ (target, union_plan paths) ∷ []
push_union target paths (s ∷ u ∷ plan) = s ∷ push_union target paths (u ∷ plan)

-- One round of the loop of `mount_plan`.
unfoldable pub push_entry : Str → Mount → List (Str × MountPlan) → List (Str × MountPlan)
push_entry target (bind_mount path) plan = plan ++ ((target, bind_plan path) ∷ [])
push_entry target (p9_mount addr path) plan = plan ++ ((target, p9_plan addr path) ∷ [])
push_entry target (union_mount paths) plan = push_union target paths plan

unfoldable pub plan_entries : List MountEntry → List (Str × MountPlan) → List (Str × MountPlan)
plan_entries [] plan = plan
plan_entries (e ∷ entries) plan = plan_entries entries (push_entry e.target e.mount plan)

unfoldable pub mount_plan : Namespace → List (Str × MountPlan)
mount_plan ns = plan_entries ns.mounts []

abbrev pub procfs_target : Str
procfs_target = bytes "/proc"

abbrev pub procfs_addr : Str
procfs_addr = bytes "127.0.0.1:5641"

abbrev pub srvfs_target : Str
srvfs_target = bytes "/srv"

abbrev pub srvfs_addr : Str
srvfs_addr = bytes "127.0.0.1:5652"

-- `self.mounts.iter().any(|entry| entry.target == target)`
unfoldable pub has_target : Str → List MountEntry → Bool
has_target target [] = false
has_target target (e ∷ entries) = str_eq e.target target || has_target target entries

unfoldable pub ensure_procfs : Namespace → Namespace
ensure_procfs ns =
    if has_target procfs_target ns.mounts
    then ns
    else add_mount_entry procfs_target (p9_mount procfs_addr []) ns

unfoldable pub ensure_srvfs : Namespace → Namespace
ensure_srvfs ns =
    if has_target srvfs_target ns.mounts
    then ns
    else add_mount_entry srvfs_target (p9_mount srvfs_addr []) ns
