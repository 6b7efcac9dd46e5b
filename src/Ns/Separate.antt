-- ===== src/Ns/Separate.antt =====
-- How `mount_plan` of libs/planten_ns/src/lib.rs joins adjacent unions.
use planten.Base.{◌≡◌, false, Bool-cases, inl, inr, List, [], ◌∷◌, ◌++◌, Str, str_eq}
use planten.Ns.{
  Mount, bind_mount, union_mount, p9_mount, MountEntry, Namespace, MountPlan, bind_plan,
}
use planten.Ns.{union_plan, p9_plan, push_union, push_entry, plan_entries, mount_plan}

-- No step is a union at the target of the union before it.
abbrev pub Separate : Str × MountPlan → Str × MountPlan → Type 0
Separate (t, union_plan paths) (u, union_plan others) = str_eq t u ≡ false
Separate (t, union_plan paths) (u, bind_plan path) = Unit
Separate (t, union_plan paths) (u, p9_plan addr path) = Unit
Separate (t, bind_plan path) s = Unit
Separate (t, p9_plan addr path) s = Unit

abbrev pub AllSeparate : List (Str × MountPlan) → Type 0
AllSeparate [] = Unit {0}
AllSeparate (s ∷ []) = Unit {0}
AllSeparate (s ∷ u ∷ plan) = Separate s u × AllSeparate (u ∷ plan)

-- A step that follows any plan.
abbrev Follows : MountPlan → Type 0
Follows (union_plan paths) = ⊥
Follows (bind_plan path) = Unit
Follows (p9_plan addr path) = Unit

Separate-of_Follows :
    (s : Str × MountPlan) (u : Str) (m : MountPlan) → Follows m → Separate s (u, m)
Separate-of_Follows (t, union_plan paths) u (bind_plan path) h = tt
Separate-of_Follows (t, union_plan paths) u (p9_plan addr path) h = tt
Separate-of_Follows (t, union_plan paths) u (union_plan others) h = absurd h
Separate-of_Follows (t, bind_plan path) u m h = tt
Separate-of_Follows (t, p9_plan addr path) u m h = tt

append-AllSeparate :
    (plan : List (Str × MountPlan)) (u : Str) (m : MountPlan)
    → Follows m
    → AllSeparate plan
    → AllSeparate (plan ++ ((u, m) ∷ []))
append-AllSeparate [] u m h k = tt
append-AllSeparate (s ∷ []) u m h k = (Separate-of_Follows s u m h, tt)
append-AllSeparate (s ∷ v ∷ plan) u m h (k, ks) = (k, append-AllSeparate (v ∷ plan) u m h ks)

Separate-union_plan :
    (s : Str × MountPlan) (u : Str) (ps qs : List Str)
    → Separate s (u, union_plan ps)
    → Separate s (u, union_plan qs)
Separate-union_plan (t, union_plan paths) u ps qs h = h
Separate-union_plan (t, bind_plan path) u ps qs h = tt
Separate-union_plan (t, p9_plan addr path) u ps qs h = tt

cons-AllSeparate :
    (target : Str) (paths : List Str) (s u : Str × MountPlan) (plan : List (Str × MountPlan))
    → Separate s u
    → AllSeparate (push_union target paths (u ∷ plan))
    → AllSeparate (s ∷ push_union target paths (u ∷ plan))
unfolding push_union
cons-AllSeparate target paths s (t, union_plan existing) [] h k =
    elim (Bool-cases (str_eq t target)) [
      | inl e ↦ rw e (Separate-union_plan s t existing (existing ++ paths) h, tt)
      | inr e ↦ rw e (h, (e, tt))
    ]
cons-AllSeparate target paths s (t, bind_plan path) [] h k = (h, k)
cons-AllSeparate target paths s (t, p9_plan addr path) [] h k = (h, k)
cons-AllSeparate target paths s (t, m) (v ∷ plan) h k = (h, k)

push_union-AllSeparate :
    (target : Str) (paths : List Str) (plan : List (Str × MountPlan))
    → AllSeparate plan
    → AllSeparate (push_union target paths plan)
unfolding push_union
push_union-AllSeparate target paths [] h = tt
push_union-AllSeparate target paths ((t, union_plan existing) ∷ []) h =
    elim (Bool-cases (str_eq t target)) [ inl e ↦ rw e tt | inr e ↦ rw e (e, tt) ]
push_union-AllSeparate target paths ((t, bind_plan path) ∷ []) h = (tt, tt)
push_union-AllSeparate target paths ((t, p9_plan addr path) ∷ []) h = (tt, tt)
push_union-AllSeparate target paths (s ∷ u ∷ plan) (h, hs) =
    cons-AllSeparate target paths s u plan h (push_union-AllSeparate target paths (u ∷ plan) hs)

push_entry-AllSeparate :
    (target : Str) (mount : Mount) (plan : List (Str × MountPlan))
    → AllSeparate plan
    → AllSeparate (push_entry target mount plan)
unfolding push_entry
push_entry-AllSeparate target (bind_mount path) plan h =
    append-AllSeparate plan target (bind_plan path) tt h
push_entry-AllSeparate target (p9_mount addr path) plan h =
    append-AllSeparate plan target (p9_plan addr path) tt h
push_entry-AllSeparate target (union_mount paths) plan h =
    push_union-AllSeparate target paths plan h

plan_entries-AllSeparate :
    (entries : List MountEntry) (plan : List (Str × MountPlan))
    → AllSeparate plan
    → AllSeparate (plan_entries entries plan)
unfolding plan_entries
plan_entries-AllSeparate [] plan h = h
plan_entries-AllSeparate (e ∷ entries) plan h =
    plan_entries-AllSeparate entries (push_entry e.target e.mount plan)
      (push_entry-AllSeparate e.target e.mount plan h)

-- In a plan no union follows a union at the same target: they are one step.
pub mount_plan-AllSeparate : (ns : Namespace) → AllSeparate (mount_plan ns)
unfolding mount_plan
mount_plan-AllSeparate ns = plan_entries-AllSeparate ns.mounts [] tt
