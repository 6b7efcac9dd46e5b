-- ===== src/Proc/Contents.antt =====
-- What `read` of libs/planten_fs_proc/src/fs.rs returns, against `stat` and `walk`.
use planten.Base.{ℕ, ◌≡◌, ◌⊎◌, refl, sym, ap, true, false, Bool-cases, inl, inr}
use planten.Base.{Option-cases, none, some, some-injective, Option, List, [], ◌∷◌, Str, bytes}
use planten.Fs.Inode.{Inode, attrs, contents, new}
use planten.Ramfs.Server.State.{is_dir_mode}
use planten.Net.{timed_at}
use planten.Proc.Host.{ProcHost}
use planten.Proc.Files.{EntryKind, file_kind, dir_kind, directory_listing}
use planten.Proc.Files.{find_entry_kind}
use planten.Proc.Methods.{
  pid_exists, parse_pid, walk_proc, read_proc, stat_proc, entry_walked, proc_dir_inode,
}
use planten.Proc.Methods.{read_named, read_file, read_item, stat_named, stat_entry, proc_file_inode}
use mathlib.Core.Option

-- A directory, which `read` lists by the names that `walk` returns, a line each; or a file, of which
-- `read` returns the contents.
abbrev pub Shows : ProcHost → List Str → Inode → Type 0
Shows host p inode =
    ((is_dir_mode (attrs inode).mode ≡ true)
      × (read_proc host host p ≡ Option.map directory_listing (walk_proc host p)))
    ⊎ ((is_dir_mode (attrs inode).mode ≡ false) × (read_proc host host p ≡ some (contents inode)))

file_of_map :
    (now : ℕ) (name : Str) (text : Option Str) (inode : Inode)
    → Option.map (proc_file_inode now name) text ≡ some inode
    → (is_dir_mode (attrs inode).mode ≡ false) × (text ≡ some (contents inode))
unfolding timed_at new
file_of_map now name none inode h = cc
file_of_map now name (some text) inode h = (
  ap (λ i. is_dir_mode (attrs i).mode) (sym (some-injective h)),
  ap (λ i. some (contents i)) (some-injective h),
)

dir_of_some :
    (now : ℕ) (name : Str) (inode : Inode)
    → some (proc_dir_inode now name) ≡ some inode
    → is_dir_mode (attrs inode).mode ≡ true
unfolding timed_at new
dir_of_some now name inode h = ap (λ i. is_dir_mode (attrs i).mode) (sym (some-injective h))

entry_Shows :
    (now : ℕ) (host : ProcHost) (pid name : Str) (kind : EntryKind) (inode : Inode)
    → stat_named now name (read_named host pid (some kind)) (some kind) ≡ some inode
    → ((is_dir_mode (attrs inode).mode ≡ true)
        × (read_named host pid (some kind)
            ≡ Option.map directory_listing (Option.map entry_walked (some kind))))
      ⊎ ((is_dir_mode (attrs inode).mode ≡ false)
          × (read_named host pid (some kind) ≡ some (contents inode)))
unfolding stat_named stat_entry read_named read_file
entry_Shows now host pid name (dir_kind dir) inode h = inl (dir_of_some now name inode h, refl)
entry_Shows now host pid name (file_kind file) inode h =
    inr (file_of_map now name (read_named host pid (some (file_kind file))) inode h)

-- On one snapshot of the processes, `stat` and `read` show the same directory or file at every path.
pub stat_proc-Shows :
    (now : ℕ) (host : ProcHost) (p : List Str) (inode : Inode)
    → stat_proc now host host host p ≡ some inode
    → Shows host p inode
unfolding stat_proc read_proc walk_proc stat_named
stat_proc-Shows now host [] inode h = inl (dir_of_some now (bytes "/") inode h, refl)
stat_proc-Shows now host (pid ∷ []) inode h = elim (Bool-cases (pid_exists host pid)) [
  | inl there ↦ rw there (inl (dir_of_some now pid inode (rw there at h), refl))
  | inr gone ↦ cc (rw gone at h)
]
stat_proc-Shows now host (pid ∷ name ∷ []) inode h = elim (Bool-cases (pid_exists host pid)) [
  | inl there ↦ elim (Option-cases (find_entry_kind name)) [
    | inl unknown ↦ cc (rw (there, unknown, stat_named) at h)
    | inr (kind, found) ↦
        rw (there, found) (entry_Shows now host pid name kind inode (rw (there, found) at h))
  ]
  | inr gone ↦ cc (rw gone at h)
]
stat_proc-Shows now host (pid ∷ dir ∷ entry ∷ []) inode h =
    elim (Bool-cases (pid_exists host pid)) [
      | inl there ↦ rw there (
          inr (
            file_of_map now entry (read_item host (parse_pid pid) dir entry) inode (rw there at h)))
      | inr gone ↦ cc (rw gone at h)
    ]
stat_proc-Shows now host (a ∷ b ∷ c ∷ d ∷ names) inode h = cc
