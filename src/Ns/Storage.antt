-- ===== src/Ns/Storage.antt =====
-- Saving and loading of the namespace in libs/planten_ns/src/lib.rs. The files of the host are a record; the
-- JSON text of a namespace, which the crate `serde_json` writes and reads, is a parameter.
use planten.Base.{ℕ, ◌&&◌, Bool, Option, none, some, if◌then◌else◌, ◌==◌}
use planten.Base.{◌++◌, Str, bytes, str_eq, get_last?}
use planten.Ns.{Namespace, new_namespace}

-- A path of a file: a directory and a name in it.
pub record StoragePath : Type 0 where
  pub directory : Str
  pub file_name : Str

pub data DiskFile : Type 0 where
  absent unreadable : DiskFile
  text : Str → DiskFile

-- The environment's HOME, which directories `create_dir_all` can make, which files can be written, and
-- what stands in the files. A call that fails is an `io::Error`.
pub record Disk : Type 0 where
  pub home : Option Str
  pub creates : Str → Bool
  pub writes : StoragePath → Bool
  pub file : StoragePath → DiskFile

-- `serde_json::to_string_pretty` and `serde_json::from_str`.
pub record Json : Type 0 where
  pub to_string_pretty : Namespace → Option Str
  pub from_str : Str → Option Namespace

abbrev push_separated : Str → Str → Option ℕ → Str
push_separated base name none = name
push_separated base name (some last) =
    if last == b'/' then base ++ name else base ++ (bytes "/" ++ name)

-- `PathBuf::push` of a plain name.
abbrev pub push_path : Str → Str → Str
push_path base name = push_separated base name (get_last? base)

abbrev pub ns_json : Str → StoragePath
ns_json directory = record { directory = directory; file_name = bytes "ns.json" }

abbrev pub fallback_directory : Str
fallback_directory = bytes "/srv/planten"

unfoldable pub fallback_path : Disk → Option StoragePath
fallback_path disk =
    if disk.creates fallback_directory then some (ns_json fallback_directory) else none

unfoldable pub storage_path_at : Disk → Option Str → Option StoragePath
storage_path_at disk none = fallback_path disk
storage_path_at disk (some home_dir) =
    if disk.creates (push_path home_dir (bytes ".planten"))
    then some (ns_json (push_path home_dir (bytes ".planten")))
    else fallback_path disk

unfoldable pub storage_path : Disk → Option StoragePath
storage_path disk = storage_path_at disk disk.home

abbrev same_path : StoragePath → StoragePath → Bool
same_path p q = str_eq p.directory q.directory && str_eq p.file_name q.file_name

abbrev pub written : StoragePath → Str → Disk → Disk
written path contents disk = record disk {
  file = λ other. if same_path path other then text contents else disk.file other;
}

-- `fs::write`
unfoldable pub write_file : StoragePath → Str → Disk → Option Disk
write_file path contents disk = if disk.writes path then some (written path contents disk) else none

unfoldable pub write_serialized : StoragePath → Option Str → Disk → Option Disk
write_serialized path none disk = none
write_serialized path (some serialized) disk = write_file path serialized disk

module _ (json : Json) where
  unfoldable pub save_to_file : StoragePath → Namespace → Disk → Option Disk
  save_to_file path ns disk =
      if disk.creates path.directory
      then write_serialized path (json.to_string_pretty ns) disk
      else none

  unfoldable pub load_from_file : Disk → StoragePath → Option Namespace
  load_from_file disk path = elim (disk.file path) [
    | absent ↦ some new_namespace
    | unreadable ↦ none
    | text contents ↦ json.from_str contents
  ]

  unfoldable pub load_from_storage : Disk → Option Namespace
  load_from_storage disk = elim (storage_path disk) [
    | none ↦ none
    | some path ↦ load_from_file disk path
  ]

  unfoldable pub save_to_storage : Namespace → Disk → Option Disk
  save_to_storage ns disk = elim (storage_path disk) [
    | none ↦ none
    | some path ↦ save_to_file path ns disk
  ]
