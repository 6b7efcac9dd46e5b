-- ===== src/Ns/Plan.antt =====
-- `mount_plan` of libs/planten_ns/src/lib.rs against its entries, read as a sequence of actions.
use planten.Base.{◌≡◌, refl, sym, ap, Bool-cases, inl, inr, List, [], ◌∷◌, ◌++◌, map, Str, str_eq}
use planten.Base.{str_eq_iff, append_assoc, append-nil}
use planten.Ns.{
  Mount, bind_mount, union_mount, p9_mount, MountEntry, Namespace, MountPlan, bind_plan,
}
use planten.Ns.{union_plan, p9_plan, push_union, push_entry, plan_entries, mount_plan}

-- What is to be mounted where, one path at a time: the meaning of an entry and of a step of a plan.
pub data Action : Type 0 where
  bound : Str → Str → Action
  joined : Str → Str → Action
  remote : Str → Str → Str → Action

abbrev pub actions_of_mount : Str → Mount → List Action
actions_of_mount target (bind_mount path) = bound target path ∷ []
actions_of_mount target (union_mount paths) = map (joined target) paths
actions_of_mount target (p9_mount addr path) = remote target addr path ∷ []

abbrev pub actions_of_entries : List MountEntry → List Action
actions_of_entries [] = []
actions_of_entries (e ∷ entries) = actions_of_mount e.target e.mount ++ actions_of_entries entries

abbrev pub actions_of_step : Str → MountPlan → List Action
actions_of_step target (bind_plan path) = bound target path ∷ []
actions_of_step target (union_plan paths) = map (joined target) paths
actions_of_step target (p9_plan addr path) = remote target addr path ∷ []

abbrev pub actions_of_plan : List (Str × MountPlan) → List Action
actions_of_plan [] = []
actions_of_plan ((t, p) ∷ plan) = actions_of_step t p ++ actions_of_plan plan

map-append :
    (t : Str) (ps qs : List Str)
    → map (joined t) (ps ++ qs) ≡ map (joined t) ps ++ map (joined t) qs
map-append t [] qs = refl
map-append t (p ∷ ps) qs = ap (λ l. joined t p ∷ l) (map-append t ps qs)

actions-append :
    (p q : List (Str × MountPlan))
    → actions_of_plan (p ++ q) ≡ actions_of_plan p ++ actions_of_plan q
actions-append [] q = refl
actions-append ((t, m) ∷ p) q =
    rw (actions-append p q)
      (sym (append_assoc (actions_of_step t m) (actions_of_plan p) (actions_of_plan q)))

actions-push_union :
    (target : Str) (paths : List Str) (plan : List (Str × MountPlan))
    → actions_of_plan (push_union target paths plan)
      ≡ actions_of_plan plan ++ map (joined target) paths
unfolding push_union
actions-push_union target paths [] = append-nil _
actions-push_union target paths ((t, union_plan existing) ∷ []) =
    elim (Bool-cases (str_eq t target)) [
      | inl e ↦
          rw
            (e, (str_eq_iff t target).0 e, append-nil, append-nil, map-append target existing paths)
            refl
      | inr e ↦ rw (e, append-nil, append-nil) refl
    ]
actions-push_union target paths ((t, bind_plan path) ∷ []) =
    ap (λ l. bound t path ∷ l) (append-nil _)
actions-push_union target paths ((t, p9_plan addr path) ∷ []) =
    ap (λ l. remote t addr path ∷ l) (append-nil _)
actions-push_union target paths ((t, m) ∷ u ∷ plan) =
    rw (actions-push_union target paths (u ∷ plan)) (
      sym (
        append_assoc (actions_of_step t m) (actions_of_plan (u ∷ plan))
          (map (joined target) paths)))

actions-push_entry :
    (target : Str) (mount : Mount) (plan : List (Str × MountPlan))
    → actions_of_plan (push_entry target mount plan)
      ≡ actions_of_plan plan ++ actions_of_mount target mount
unfolding push_entry
actions-push_entry target (bind_mount path) plan =
    actions-append plan ((target, bind_plan path) ∷ [])
actions-push_entry target (p9_mount addr path) plan =
    actions-append plan ((target, p9_plan addr path) ∷ [])
actions-push_entry target (union_mount paths) plan = actions-push_union target paths plan

actions-plan_entries :
    (entries : List MountEntry) (plan : List (Str × MountPlan))
    → actions_of_plan (plan_entries entries plan)
      ≡ actions_of_plan plan ++ actions_of_entries entries
unfolding plan_entries
actions-plan_entries [] plan = sym (append-nil _)
actions-plan_entries (e ∷ entries) plan =
    rw
      (
        actions-plan_entries entries (push_entry e.target e.mount plan),
        actions-push_entry e.target e.mount plan,
      )
      (append_assoc (actions_of_plan plan) (actions_of_mount e.target e.mount)
        (actions_of_entries entries))

-- The steps of the plan mount what the entries say: every path of every entry, at its target, in order.
pub actions-mount_plan :
    (ns : Namespace) → actions_of_plan (mount_plan ns) ≡ actions_of_entries ns.mounts
unfolding mount_plan
actions-mount_plan ns = actions-plan_entries ns.mounts []
