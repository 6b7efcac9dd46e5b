-- ===== src/Tools/Examples.antt =====
-- The tools of userspace/planten_coreutils/src/bin on a disk with an empty namespace.
use planten.Base.{
  arith, ◌≡◌, refl, sym, ap, if◌then◌else◌, true, some, none, ok, List, [], ◌∷◌, ◌++◌, Str, bytes,
  str_eq,
}
use planten.Ns.{Namespace, new_namespace, bind}
use planten.Ns.{mount_plan}
use planten.Ns.Plan.{actions_of_mount, actions_of_plan}
use planten.Ns.Storage.{
  text, Disk, Json, StoragePath, absent, ns_json, storage_path, storage_path_at,
}
use planten.Ns.Storage.{load_from_storage, load_from_file, save_to_storage}
use planten.Ns.Persist.{load_from_storage-save_to_storage}
use planten.Tools.Args.{Request, ask_bind, ask_union, print_requests, apply_requests}
use planten.Tools.Args.{flag_of, IsCommand}
use planten.Tools.Commands.{mount_paths, mount_main, bind_main, loaded_or_new}
use planten.Tools.Shell.{Shell, Status, success, run_line, read_command, command}
use planten.Tools.Effects.{mount_main-loaded, run_line-mount_main, asked}
use planten.Tools.Mounts.{Host, child_events}
use planten.Tools.Executed.{runs_command, child_events-runs_command}
use planten.Tools.Probe.{reachable, probe_remote_share, probe_panicked}
use planten.Tools.Shared.{probe_remote_share-reachable}
use planten.Client.Peer.{ramfs_peer}
use planten.Client.Guest.{with_fids}
use planten.Ramfs.Examples.{small, note, note_path, note_there}
use planten.Ramfs.Server.Examples.{note_names-IsPlain}
use planten.Ramfs.Server.Dispatch.{Env}
use planten.Wire.Encode.{encode_names, encode_string}
use planten.Wire.Bytes.{le_bytes}
use planten.Wire.Utf8.{is_utf8}
use planten.Tools.Sound.{probe_remote_share-ne-panicked}
use planten.Ns.{union_plan, p9}
use planten.Ns.Ensure.{with_defaults}
use planten.Base.{false, ◌≢◌}
use planten.Tools.Start.{ns_main, ns_main-loaded, child}
use planten.Tools.Text.{is_whitespace, trim, trim_start, trim_end, split_by}
use planten.Fs.FilePath.{non_empty, components, split}

abbrev one_bind : Namespace
one_bind = bind (bytes "/a") (bytes "/b") new_namespace

-- A stand-in for JSON that knows one namespace beside the empty one.
abbrev json_of : Namespace → Json
json_of ns = record {
  to_string_pretty = λ n. some (bytes "ns");
  from_str = λ s. if str_eq s (bytes "ns") then some ns else some new_namespace;
}

abbrev home_path : StoragePath
home_path = ns_json (bytes "/home/u/.planten")

abbrev empty_disk : Disk
empty_disk = record {
  home = some (bytes "/home/u");
  creates = λ directory. true;
  writes = λ path. true;
  file = λ path. absent;
}

home_path_found : storage_path empty_disk ≡ some home_path
unfolding storage_path storage_path_at
home_path_found = refl

empty_loaded : (ns : Namespace) → load_from_storage (json_of ns) empty_disk ≡ some new_namespace
unfolding load_from_storage storage_path storage_path_at load_from_file
empty_loaded ns = refl

parsed_back : (ns : Namespace) → (json_of ns).from_str (bytes "ns") ≡ some ns
unfolding str_eq
parsed_back ns = refl

load_from_storage-save_to_storage_example :
    (disk : Disk) × (save_to_storage (json_of one_bind) one_bind empty_disk ≡ some disk)
    × (load_from_storage (json_of one_bind) disk ≡ some one_bind)
load_from_storage-save_to_storage_example =
    load_from_storage-save_to_storage (json_of one_bind) one_bind (bytes "ns") empty_disk home_path
      refl (parsed_back one_bind) home_path_found refl

abbrev after_mount : Namespace
after_mount = mount_paths (bytes "/a") (bytes "/b" ∷ []) new_namespace

mount_main-loaded_example :
    (ns : Namespace) × (load_from_storage
        (json_of after_mount)
        (mount_main
          (json_of after_mount)
          (bytes "mount" ∷ bytes "/a" ∷ bytes "/b" ∷ [])
          empty_disk).disk
      ≡ some ns)
    × (actions_of_plan (mount_plan ns)
        ≡ actions_of_plan (mount_plan new_namespace)
          ++ actions_of_mount (bytes "/a") (asked (bytes "/b" ∷ [])))
mount_main-loaded_example =
    mount_main-loaded (json_of after_mount) (bytes "mount") (bytes "/a") (bytes "/b") []
      new_namespace (bytes "ns") empty_disk home_path (empty_loaded after_mount) refl
      (parsed_back after_mount) home_path_found refl

abbrev quiet : Str → List Str → Status
quiet name args = success

abbrev shell : Shell
shell = record { ns = new_namespace; disk = empty_disk; events = [] }

run_line-mount_main_example :
    (s : Shell) × (t : Shell) × (run_line
        (json_of one_bind)
        quiet
        (bytes "mount")
        (bytes "/a" ∷ bytes "/b" ∷ [])
        shell
      ≡ ok s)
    × (run_line (json_of one_bind) quiet (bytes "bind") (bytes "/a" ∷ bytes "/b" ∷ []) shell ≡ ok t)
    × (s.disk
        ≡ (mount_main
            (json_of one_bind)
            (bytes "m" ∷ bytes "/a" ∷ bytes "/b" ∷ [])
            empty_disk).disk)
    × (t.disk
        ≡ (bind_main (json_of one_bind) (bytes "m" ∷ bytes "/a" ∷ bytes "/b" ∷ []) empty_disk).disk)
run_line-mount_main_example =
    run_line-mount_main (json_of one_bind) quiet (bytes "m") (bytes "/a") (bytes "/b") [] shell
      (sym (ap loaded_or_new (empty_loaded one_bind)))

abbrev two_requests : List Request
two_requests = ask_bind (bytes "/a") (bytes "/b") ∷ ask_union (bytes "/u") (bytes "/c") ∷ []

abbrev ls : List Str
ls = bytes "ls" ∷ []

ls-IsCommand : IsCommand ls
unfolding flag_of str_eq
ls-IsCommand = refl

abbrev host : Host
host = record {
  unshare = true;
  tempdir = λ n. none;
  mount = λ call. true;
  exists = λ path. true;
  is_dir = λ path. true;
  create_dir_all = λ path. true;
  probe = λ addr path. reachable;
}

-- It has an entry for procfs, elsewhere.
abbrev stored : Namespace
stored = p9 (bytes "/proc") (bytes "host:1") [] new_namespace

abbrev flagged : Namespace
flagged = apply_requests two_requests (with_defaults stored)

-- A disk with a namespace on it.
abbrev used_disk : Disk
used_disk = record empty_disk { file = λ path. text (bytes "old") }

-- A stand-in for JSON that knows one namespace and another that it is changed to.
abbrev json_both : Json
json_both = record {
  to_string_pretty = λ n. some (bytes "ns");
  from_str = λ s. if str_eq s (bytes "ns") then some flagged else some stored;
}

stored_loaded : load_from_storage json_both used_disk ≡ some stored
unfolding load_from_storage storage_path storage_path_at load_from_file str_eq
stored_loaded = refl

flagged_parsed : json_both.from_str (bytes "ns") ≡ some flagged
unfolding str_eq
flagged_parsed = refl

used_path_found : storage_path used_disk ≡ some home_path
unfolding storage_path storage_path_at
used_path_found = refl

ns_main-loaded_example :
    load_from_storage json_both
      (ns_main json_both host child quiet (print_requests two_requests ++ ls) [] used_disk).disk
    ≡ some (apply_requests two_requests (with_defaults stored))
ns_main-loaded_example =
    ns_main-loaded json_both host child quiet two_requests ls [] (bytes "ns") used_disk home_path
      stored ls-IsCommand stored_loaded refl flagged_parsed used_path_found refl

words_split :
    read_command (bytes "  mount /a  /b\n") ≡ command (bytes "mount") (bytes "/a" ∷ bytes "/b" ∷ [])
unfolding read_command str_eq is_whitespace trim trim_start trim_end split_by non_empty
words_split = refl

child_events-runs_command_example :
    runs_command (child_events host ((bytes "/u", union_plan (bytes "/c" ∷ [])) ∷ [])) ≡ false
child_events-runs_command_example =
    child_events-runs_command host ((bytes "/u", union_plan (bytes "/c" ∷ [])) ∷ [])

-- An end that hangs up at once.
abbrev silent : Str → Unit {0} → Str × Unit {0}
silent frame u = ([], u)

probe_remote_share-ne-panicked_example :
    probe_remote_share silent (some tt) (bytes "guest") (bytes "/x") ≢ probe_panicked
probe_remote_share-ne-panicked_example =
    probe_remote_share-ne-panicked silent (some tt) (bytes "guest") (bytes "/x")

abbrev still_env : Env
still_env = record { checks = true; hash = λ p t. t; text = λ e. []; now = λ d. d }

probe_remote_share-reachable_example :
    probe_remote_share
      (ramfs_peer still_env)
      (some (with_fids still_env small []))
      (bytes "guest")
      note_path
    ≡ reachable
unfolding components split non_empty encode_names encode_string le_bytes is_utf8
probe_remote_share-reachable_example =
    probe_remote_share-reachable still_env small (bytes "guest") note_path note
      (record { len = omega arith; utf8 = refl }) note_names-IsPlain (omega arith) (omega arith)
      note_there
