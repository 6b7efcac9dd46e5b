-- ===== src/Ns/Persist.antt =====
-- What `save_to_storage` of libs/planten_ns/src/lib.rs leaves for `load_from_storage`.
use planten.Base.{◌≡◌, refl, sym, ap, ◌∙◌, bytes, true, Bool-cases, inl, inr, Option, none, some}
use planten.Base.{some-injective, Str, str_eq_self}
use planten.Ns.{Namespace}
use planten.Ns.Storage.{StoragePath, Disk, Json, text, storage_path}
use planten.Ns.Storage.{
  storage_path_at, fallback_path, fallback_directory, push_path, written, write_file,
  write_serialized,
}
use planten.Ns.Storage.{save_to_file, load_from_file, load_from_storage, save_to_storage}

-- A file that is written holds the text, and the path of the storage stays.
write_file-there :
    (path : StoragePath) (contents : Str) (disk : Disk)
    → disk.writes path ≡ true
    → (disk' : Disk) × (write_file path contents disk ≡ some disk')
      × (disk'.file path ≡ text contents)
      × (storage_path disk' ≡ storage_path disk)
unfolding write_file storage_path storage_path_at fallback_path
write_file-there path contents disk h = (
  written path contents disk,
  rw h refl,
  rw (str_eq_self path.directory, str_eq_self path.file_name) refl,
  refl,
)

fallback_path-creates :
    (disk : Disk) (path : StoragePath)
    → fallback_path disk ≡ some path
    → disk.creates path.directory ≡ true
unfolding fallback_path
fallback_path-creates disk path h = elim (Bool-cases (disk.creates fallback_directory)) [
  | inl made ↦
      ap (λ (p : StoragePath). disk.creates p.directory) (sym (some-injective (rw made at h)))
      ∙ made
  | inr refused ↦ cc (rw refused at h)
]

-- The directory of the path is one that can be made.
storage_path_at-creates :
    (disk : Disk) (home : Option Str) (path : StoragePath)
    → storage_path_at disk home ≡ some path
    → disk.creates path.directory ≡ true
unfolding storage_path_at
storage_path_at-creates disk none path h = fallback_path-creates disk path h
storage_path_at-creates disk (some home_dir) path h =
    elim (Bool-cases (disk.creates (push_path home_dir (bytes ".planten")))) [
      | inl made ↦
          ap (λ (p : StoragePath). disk.creates p.directory) (sym (some-injective (rw made at h)))
          ∙ made
      | inr refused ↦ fallback_path-creates disk path (rw refused at h)
    ]

storage_path-creates :
    (disk : Disk) (path : StoragePath)
    → storage_path disk ≡ some path
    → disk.creates path.directory ≡ true
unfolding storage_path
storage_path-creates disk path h = storage_path_at-creates disk disk.home path h

-- Where a directory of the storage can be made and its file written, and the JSON of the namespace is read
-- back: the namespace is saved, and the next load returns it, with its entries in their order.
pub load_from_storage-save_to_storage :
    (json : Json) (ns : Namespace) (serialized : Str) (disk : Disk) (path : StoragePath)
    → json.to_string_pretty ns ≡ some serialized
    → json.from_str serialized ≡ some ns
    → storage_path disk ≡ some path
    → disk.writes path ≡ true
    → (disk' : Disk) × (save_to_storage json ns disk ≡ some disk')
      × (load_from_storage json disk' ≡ some ns)
unfolding save_to_storage save_to_file write_serialized load_from_storage load_from_file
load_from_storage-save_to_storage json ns serialized disk path h k found writable =
    let (disk', runs, holds, same) = write_file-there path serialized disk writable in
    (
      disk',
      rw (found, save_to_storage, storage_path-creates disk path found, h, write_serialized) runs,
      rw (same ∙ found, load_from_storage, holds, load_from_file) k,
    )
