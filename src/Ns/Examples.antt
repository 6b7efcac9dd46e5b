-- ===== src/Ns/Examples.antt =====
-- The namespace of libs/planten_ns/src/lib.rs at a small input, that of its test `mount_plan_merges_unions`.
use planten.Base.{◌≡◌, refl, [], ◌∷◌, bytes, str_eq}
use planten.Ns.{Namespace, union_plan, new_namespace, add_mount_entry, union}
use planten.Ns.{mount_plan, plan_entries, push_entry, push_union}
use planten.Ns.Plan.{actions_of_plan, actions_of_entries, actions-mount_plan}

abbrev unions : Namespace
unions = union (bytes "/other") (bytes "/x") (
    union (bytes "/union") (bytes "/second")
      (union (bytes "/union") (bytes "/first") new_namespace))

unions_plan :
    mount_plan unions
    ≡ (bytes "/union", union_plan (bytes "/first" ∷ bytes "/second" ∷ []))
      ∷ (bytes "/other", union_plan (bytes "/x" ∷ []))
      ∷ []
unfolding mount_plan plan_entries push_entry push_union union add_mount_entry new_namespace str_eq
unions_plan = refl

actions-mount_plan_example : actions_of_plan (mount_plan unions) ≡ actions_of_entries unions.mounts
actions-mount_plan_example = actions-mount_plan unions
