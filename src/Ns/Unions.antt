-- ===== src/Ns/Unions.antt =====
-- Unions that are made at one target in several calls, in libs/planten_ns/src/lib.rs.
use planten.Base.{◌≡◌, refl, ◌∙◌, ap, Bool-cases, inl, inr, List, [], ◌∷◌, ◌++◌, Str, str_eq}
use planten.Base.{str_eq_self, append_assoc}
use planten.Ns.{MountEntry, Namespace, MountPlan, bind_plan}
use planten.Ns.{union_plan, p9_plan, push_union, push_entry, plan_entries, mount_plan, union_multi}
use planten.Ns.{add_mount_entry}

push_union-cons :
    (target : Str) (ps qs : List Str) (s u : Str × MountPlan) (plan : List (Str × MountPlan))
    → push_union target qs (s ∷ push_union target ps (u ∷ plan))
      ≡ s ∷ push_union target qs (push_union target ps (u ∷ plan))
unfolding push_union
push_union-cons target ps qs s (t, union_plan existing) [] = elim (Bool-cases (str_eq t target)) [
  | inl e ↦ rw (e, push_union) refl
  | inr e ↦ rw (e, push_union) refl
]
push_union-cons target ps qs s (t, bind_plan path) [] = refl
push_union-cons target ps qs s (t, p9_plan addr path) [] = refl
push_union-cons target ps qs s (t, m) (v ∷ plan) = refl

push_union_twice :
    (target : Str) (ps qs : List Str) (plan : List (Str × MountPlan))
    → push_union target qs (push_union target ps plan) ≡ push_union target (ps ++ qs) plan
unfolding push_union
push_union_twice target ps qs [] = rw (str_eq_self target) refl
push_union_twice target ps qs ((t, union_plan existing) ∷ []) =
    elim (Bool-cases (str_eq t target)) [
      | inl e ↦ rw (e, push_union, e, append_assoc existing ps qs) refl
      | inr e ↦ rw (e, push_union, str_eq_self target) refl
    ]
push_union_twice target ps qs ((t, bind_plan path) ∷ []) = rw (str_eq_self target) refl
push_union_twice target ps qs ((t, p9_plan addr path) ∷ []) = rw (str_eq_self target) refl
push_union_twice target ps qs (s ∷ u ∷ plan) =
    push_union-cons target ps qs s u plan
    ∙ ap (λ l. s ∷ l) (push_union_twice target ps qs (u ∷ plan))

plan_entries-append :
    (p q : List MountEntry) (plan : List (Str × MountPlan))
    → plan_entries (p ++ q) plan ≡ plan_entries q (plan_entries p plan)
unfolding plan_entries
plan_entries-append [] q plan = refl
plan_entries-append (e ∷ p) q plan = plan_entries-append p q (push_entry e.target e.mount plan)

-- Paths that are joined at a target in two calls are planned as those of one call.
pub mount_plan-union_multi :
    (target : Str) (ps qs : List Str) (ns : Namespace)
    → mount_plan (union_multi target qs (union_multi target ps ns))
      ≡ mount_plan (union_multi target (ps ++ qs) ns)
unfolding mount_plan union_multi add_mount_entry plan_entries push_entry
mount_plan-union_multi target ps qs ns =
    rw (plan_entries-append, plan_entries-append, plan_entries-append)
      (push_union_twice target ps qs (plan_entries ns.mounts []))
