-- ===== src/Tools/Commands.antt =====
-- The tools bind.rs, mount.rs and nsctl.rs of userspace/planten_coreutils/src/bin, on the file of the
-- namespace. The text of a JSON or I/O error is left out of what they print.
use planten.Base.{Option, none, some, List, [], ◌∷◌, ◌++◌, Str}
use planten.Ns.{Namespace, Mount, bind_mount, union_mount, p9_mount, MountEntry, new_namespace}
use planten.Ns.{bind, union_multi}
use planten.Ns.Storage.{Disk, Json, load_from_storage, save_to_storage}

-- A line of what a tool prints, with the texts that it is about.
pub data Message : Type 0 where
  usage load_failed save_failed no_mounts heading : Message
  bound_to : Str → Str → Message
  created_union : Str → Message
  shows_bind : Str → Str → Message
  shows_union : Str → List Str → Message
  shows_p9 : Str → Str → Str → Message

pub record Run : Type 0 where
  pub printed : List Message
  pub disk : Disk

-- `Namespace::load_from_storage().unwrap_or_else(…)`
abbrev pub loaded_or_new : Option Namespace → Namespace
loaded_or_new none = new_namespace
loaded_or_new (some ns) = ns

abbrev pub load_messages : Option Namespace → List Message
load_messages none = load_failed ∷ []
load_messages (some ns) = []

-- The end of `bind` and of `mount`: the disk as it is if the save fails.
abbrev pub saved_or_same : Disk → Option Disk → Disk
saved_or_same disk none = disk
saved_or_same disk (some disk') = disk'

abbrev pub save_messages : Option Disk → List Message
save_messages none = save_failed ∷ []
save_messages (some disk) = []

-- `mount` with its paths: one path is bound, several are joined.
unfoldable pub mount_paths : Str → List Str → Namespace → Namespace
mount_paths new [] ns = union_multi new [] ns
mount_paths new (old ∷ []) ns = bind new old ns
mount_paths new (old ∷ other ∷ others) ns = union_multi new (old ∷ other ∷ others) ns

abbrev mount_message : Str → List Str → Message
mount_message new [] = created_union new
mount_message new (old ∷ []) = bound_to new old
mount_message new (old ∷ other ∷ others) = created_union new

abbrev show_mount : Str → Mount → Message
show_mount target (bind_mount path) = shows_bind target path
show_mount target (union_mount paths) = shows_union target paths
show_mount target (p9_mount addr path) = shows_p9 target path addr

unfoldable pub show_entries : List MountEntry → List Message
show_entries [] = []
show_entries (e ∷ entries) = show_mount e.target e.mount ∷ show_entries entries

unfoldable pub show_namespace : List MountEntry → List Message
show_namespace [] = no_mounts ∷ []
show_namespace (e ∷ entries) = heading ∷ show_entries (e ∷ entries)

module _ (json : Json) where
  unfoldable pub run_bind : Str → Str → Disk → Run
  run_bind new old disk =
      let loaded = load_from_storage json disk in
      let saved = save_to_storage json (bind new old (loaded_or_new loaded)) disk in
      record {
        printed = load_messages loaded ++ (save_messages saved ++ (bound_to new old ∷ []));
        disk = saved_or_same disk saved;
      }

  -- `main` of bind.rs, on the arguments with the program's name.
  unfoldable pub bind_main : List Str → Disk → Run
  bind_main (program ∷ new ∷ old ∷ []) disk = run_bind new old disk
  bind_main _ disk = record { printed = usage ∷ []; disk = disk }

  unfoldable pub run_mount : Str → List Str → Disk → Run
  run_mount new old disk =
      let loaded = load_from_storage json disk in
      let saved = save_to_storage json (mount_paths new old (loaded_or_new loaded)) disk in
      record {
        printed = load_messages loaded ++ ((mount_message new old ∷ []) ++ save_messages saved);
        disk = saved_or_same disk saved;
      }

  -- `main` of mount.rs
  unfoldable pub mount_main : List Str → Disk → Run
  mount_main (program ∷ new ∷ old ∷ others) disk = run_mount new (old ∷ others) disk
  mount_main _ disk = record { printed = usage ∷ []; disk = disk }

  -- `main` of nsctl.rs, which changes nothing.
  unfoldable pub nsctl_main : List Str → Disk → List Message
  nsctl_main (program ∷ arg ∷ args) disk = usage ∷ []
  nsctl_main _ disk = elim (load_from_storage json disk) [
    | none ↦ load_failed ∷ []
    | some ns ↦ show_namespace ns.mounts
  ]
