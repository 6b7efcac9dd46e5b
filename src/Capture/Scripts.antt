-- ===== src/Capture/Scripts.antt =====
-- The requests of tools/capture_procfs, capture_srvfs, capture_devfs and capture_netfs (src/main.rs of each).
use planten.Base.{ℕ, ◌+◌, Res, ok, err, panic, ◌>>=◌, none, List, [], ◌∷◌, ◌++◌, Str}
use planten.Base.{bytes}
use planten.Wire.Messages.{tversion, tattach, twalk, topen, tread}
use planten.Wire.Encode.{encode_version_body, encode_attach_body, encode_walk_body}
use planten.Wire.Encode.{encode_open_body, encode_read_body}
use planten.Dev.{dev_entries}
use planten.Net.{net_entries}
use planten.Capture.{Pair, Files, TraceRecorder, capture_all}

abbrev pub pair : Str → Str → ℕ → Str → Pair
pair request_name response_name msg_type body = record {
  request_name = request_name;
  response_name = response_name;
  msg_type = msg_type;
  body = body;
}

-- `format!("{}_{}{}", …)` of the names of a pair of files, of which the type letter is `t` or `r`.
abbrev request_file : Str → Str → Str
request_file verb entry = bytes "t" ++ (verb ++ (bytes "_" ++ (entry ++ bytes "_request.bin")))

abbrev response_file : Str → Str → Str
response_file verb entry = bytes "r" ++ (verb ++ (bytes "_" ++ (entry ++ bytes "_response.bin")))

-- A walk, an open for reading and a read from the beginning, in files that are named for the entry.
abbrev pub walk_open_read : Str → ℕ → ℕ → List Str → ℕ → List Pair
walk_open_read entry from_fid fid names count =
    pair (request_file (bytes "walk") entry) (response_file (bytes "walk") entry) twalk
      (encode_walk_body from_fid fid names)
    ∷ pair (request_file (bytes "open") entry) (response_file (bytes "open") entry) topen
        (encode_open_body fid 0)
    ∷ pair (request_file (bytes "read") entry) (response_file (bytes "read") entry) tread
        (encode_read_body fid 0 count)
    ∷ []

-- The beginning that the four tools share.
abbrev pub opening : List Pair
opening =
    pair (bytes "tversion_request.bin") (bytes "rversion_response.bin") tversion
      (encode_version_body 131072 (bytes "9P2000"))
    ∷ pair (bytes "tattach_request.bin") (bytes "rattach_response.bin") tattach
        (encode_attach_body 1 none (bytes "user") [])
    ∷ pair (bytes "topen_root_request.bin") (bytes "ropen_root_response.bin") topen
        (encode_open_body 1 0)
    ∷ pair (bytes "tread_root_request.bin") (bytes "rread_root_response.bin") tread
        (encode_read_body 1 0 4096)
    ∷ []

-- `for (idx, entry) in entries.iter().enumerate()`, from the fid of the entry on.
unfoldable pub entry_pairs : ℕ → ℕ → List Str → List Pair
entry_pairs count fid [] = []
entry_pairs count fid (entry ∷ entries) =
    walk_open_read entry 1 fid (entry ∷ []) count ++ entry_pairs count (fid + 1) entries

unfoldable pub dev_script : List Pair
dev_script = opening ++ entry_pairs 256 2 dev_entries

unfoldable pub net_script : List Pair
net_script = opening ++ entry_pairs 4096 2 net_entries

unfoldable pub service_pairs : ℕ → List Str → List Pair
service_pairs fid [] = []
service_pairs fid (service ∷ services) =
    walk_open_read service 1 fid (service ∷ []) 4096
    ++ (walk_open_read (service ++ bytes "_ctl") fid (fid + 1) (bytes "ctl" ∷ []) 4096
        ++ service_pairs (fid + 2) services)

abbrev srv_services : List Str
srv_services = bytes "planten" ∷ bytes "service" ∷ []

unfoldable pub srv_script : List Pair
srv_script = opening ++ service_pairs 2 srv_services

unfoldable pub proc_entry_pairs : Str → ℕ → Str → List Pair
proc_entry_pairs pid fid entry = walk_open_read entry 1 fid (pid ∷ entry ∷ []) 4096

unfoldable pub fd_pairs : Str → List Pair
fd_pairs pid =
    walk_open_read (bytes "fd") 1 5 (pid ∷ bytes "fd" ∷ []) 4096
    ++ walk_open_read (bytes "fd0") 5 6 (bytes "0" ∷ []) 256

unfoldable pub task_pairs : Str → List Pair
task_pairs pid =
    walk_open_read (bytes "task") 1 7 (pid ∷ bytes "task" ∷ []) 4096
    ++ walk_open_read (bytes "task_self") 7 8 (bytes "self" ∷ []) 4096

unfoldable pub proc_entries_script : Str → List Pair
proc_entries_script pid =
    proc_entry_pairs pid 2 (bytes "status")
    ++ (proc_entry_pairs pid 3 (bytes "statm")
        ++ (proc_entry_pairs pid 4 (bytes "mounts") ++ (fd_pairs pid ++ task_pairs pid)))

-- `.unwrap()`
abbrev unwrapped : {A : Type 0} → Res A → Res A
unwrapped (ok a) = ok a
unwrapped (err e) = panic
unwrapped panic = panic

-- After the opening, an error of an exchange is a panic.
unfoldable pub capture_proc :
    {C : Type 0} → (Str → C → Str × C) → Str → TraceRecorder C → Res (Files × TraceRecorder C)
capture_proc answer pid r = do
  (files, r) ← capture_all answer opening r
  (others, r) ← unwrapped (capture_all answer (proc_entries_script pid) r)
  ok (files ++ others, r)
