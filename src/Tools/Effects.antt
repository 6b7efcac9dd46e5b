-- ===== src/Tools/Effects.antt =====
-- What the tools of userspace/planten_coreutils/src/bin leave in the file of the namespace.
use planten.Base.{◌≡◌, refl, sym, ap, ◌∙◌, true, Option, none, some, ok}
use planten.Base.{List, [], ◌∷◌, ◌++◌, Str, bytes, str_eq, append_assoc, append-nil}
use planten.Ns.{
  Namespace, Mount, bind_mount, union_mount, MountEntry, mount_plan, bind, union_multi,
}
use planten.Ns.{add_mount_entry}
use planten.Ns.Plan.{actions_of_mount, actions_of_entries, actions_of_plan}
use planten.Ns.Plan.{actions-mount_plan}
use planten.Ns.Storage.{Disk, Json, StoragePath, storage_path, load_from_storage, save_to_storage}
use planten.Ns.Persist.{load_from_storage-save_to_storage}
use planten.Tools.Commands.{mount_paths, mount_main, run_mount, bind_main, run_bind, loaded_or_new}
use planten.Tools.Commands.{saved_or_same}
use planten.Tools.Shell.{
  Shell, Status, run_line, mount_builtin, bind_builtin, save_shell, noted_save,
}

-- What `mount` asks for: one path is bound, several are joined.
abbrev pub asked : List Str → Mount
asked [] = union_mount []
asked (old ∷ []) = bind_mount old
asked (old ∷ other ∷ others) = union_mount (old ∷ other ∷ others)

actions-append :
    (p q : List MountEntry)
    → actions_of_entries (p ++ q) ≡ actions_of_entries p ++ actions_of_entries q
actions-append [] q = refl
actions-append (e ∷ p) q = rw (actions-append p q) (
    sym (
      append_assoc (actions_of_mount e.target e.mount) (actions_of_entries p)
        (actions_of_entries q)))

mount_paths-add :
    (new : Str) (paths : List Str) (ns : Namespace)
    → mount_paths new paths ns ≡ add_mount_entry new (asked paths) ns
unfolding mount_paths bind union_multi
mount_paths-add new [] ns = refl
mount_paths-add new (old ∷ []) ns = refl
mount_paths-add new (old ∷ other ∷ others) ns = refl

added-actions :
    (new : Str) (mount : Mount) (ns : Namespace)
    → actions_of_entries (add_mount_entry new mount ns).mounts
      ≡ actions_of_entries ns.mounts ++ actions_of_mount new mount
unfolding add_mount_entry
added-actions new mount ns =
    actions-append ns.mounts (record { target = new; mount = mount } ∷ [])
    ∙ ap (λ l. actions_of_entries ns.mounts ++ l) (append-nil (actions_of_mount new mount))

-- What a plan does after a further entry.
mount_paths-actions :
    (new : Str) (paths : List Str) (ns : Namespace)
    → actions_of_plan (mount_plan (mount_paths new paths ns))
      ≡ actions_of_plan (mount_plan ns) ++ actions_of_mount new (asked paths)
mount_paths-actions new paths ns =
    actions-mount_plan (mount_paths new paths ns)
    ∙ ap (λ (n : Namespace). actions_of_entries n.mounts) (mount_paths-add new paths ns)
    ∙ added-actions new (asked paths) ns
    ∙ ap (λ l. l ++ actions_of_mount new (asked paths)) (sym (actions-mount_plan ns))

-- Where the namespace can be saved and its JSON is read back, the tool `mount` changes what the next one
-- loads: the plan does what it did, and then mounts the path or joins the paths at the new place.
pub mount_main-loaded :
    (json : Json) (program new old : Str) (others : List Str) (ns : Namespace) (serialized : Str)
    (disk : Disk) (path : StoragePath)
    → load_from_storage json disk ≡ some ns
    → json.to_string_pretty (mount_paths new (old ∷ others) ns) ≡ some serialized
    → json.from_str serialized ≡ some (mount_paths new (old ∷ others) ns)
    → storage_path disk ≡ some path
    → disk.writes path ≡ true
    → (ns' : Namespace) × (load_from_storage json
          (mount_main json (program ∷ new ∷ old ∷ others) disk).disk
        ≡ some ns')
      × (actions_of_plan (mount_plan ns')
          ≡ actions_of_plan (mount_plan ns) ++ actions_of_mount new (asked (old ∷ others)))
unfolding mount_main run_mount
mount_main-loaded json program new old others ns serialized disk path h print parse found writable =
    let added = mount_paths new (old ∷ others) ns in
    let (disk', saves, loads) =
      load_from_storage-save_to_storage json added serialized disk path print parse found
        writable in
    (added, rw (h, saves) loads, mount_paths-actions new (old ∷ others) ns)

noted_save-disk :
    (saved : Option Disk) (s : Shell) → (noted_save saved s).disk ≡ saved_or_same s.disk saved
noted_save-disk none s = refl
noted_save-disk (some disk) s = refl

-- In a shell that works on the namespace of the file, `mount` and `bind` leave the file as the tools of those
-- names do.
pub run_line-mount_main :
    (json : Json) (status : Str → List Str → Status) (program new old : Str) (others : List Str)
    (s : Shell)
    → s.ns ≡ loaded_or_new (load_from_storage json s.disk)
    → (s' : Shell) × (t : Shell) × (run_line json status (bytes "mount") (new ∷ old ∷ others) s
        ≡ ok s')
      × (run_line json status (bytes "bind") (new ∷ old ∷ []) s ≡ ok t)
      × (s'.disk ≡ (mount_main json (program ∷ new ∷ old ∷ others) s.disk).disk)
      × (t.disk ≡ (bind_main json (program ∷ new ∷ old ∷ []) s.disk).disk)
unfolding run_line mount_builtin bind_builtin save_shell mount_main run_mount bind_main run_bind
    str_eq
run_line-mount_main json status program new old others s h = (
  save_shell json (mount_builtin (new ∷ old ∷ others) s),
  save_shell json (bind_builtin (new ∷ old ∷ []) s),
  refl,
  refl,
  noted_save-disk (save_to_storage json (mount_paths new (old ∷ others) s.ns) s.disk) _
      ∙ ap
          (λ n.
            saved_or_same s.disk (save_to_storage json (mount_paths new (old ∷ others) n) s.disk))
          h,
  noted_save-disk (save_to_storage json (bind new old s.ns) s.disk) _
      ∙ ap (λ n. saved_or_same s.disk (save_to_storage json (bind new old n) s.disk)) h,
)
