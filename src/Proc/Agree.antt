-- ===== src/Proc/Agree.antt =====
-- The methods of `ProcFs` against each other (libs/planten_fs_proc/src/fs.rs).
use planten.Base.{
  ℕ, ◌≡◌, refl, ◌∙◌, not, ◌||◌, arith, true, false, Bool, ◌&&◌, Bool-cases, inl, inr, is_some,
  is_some-map,
}
use planten.Base.{Option-cases, none, some, Option, List, [], ◌∷◌, Str, contains}
use planten.Proc.Host.{ProcHost}
use planten.Proc.Files.{EntryKind, file_kind, dir_kind, fd, task, proc_dirs, fd_entries}
use planten.Proc.Files.{task_entries, find_dir, find_entry_kind, ProcDir}
use planten.Proc.Files.{read_file_entry, read_fd_entry, read_task_entry}
use planten.Proc.Methods.{pid_exists, parse_pid, walk_proc, walk_item, open_proc, read_proc}
use planten.Proc.Methods.{read_named, read_file, read_item, read_in_dir, stat_proc, stat_named}
use planten.Proc.Methods.{stat_entry}

-- The process of a pid that exists.
pid_exists-process :
    (host : ProcHost) (pid : Str)
    → pid_exists host pid ≡ true
    → (n : ℕ) × (parse_pid pid ≡ some n) × (is_some (host.process n) ≡ true)
unfolding pid_exists
pid_exists-process host pid h = elim (Option-cases (parse_pid pid)) [
  | inl e ↦ cc (rw (e, pid_exists) at h)
  | inr (n, e) ↦ (n, e, rw (e, pid_exists) at h)
]

read_named-is_some :
    (host : ProcHost) (pid : Str) (kind : Option EntryKind)
    → pid_exists host pid ≡ true
    → is_some (read_named host pid kind) ≡ is_some kind
unfolding read_named read_file read_file_entry
read_named-is_some host pid none h = refl
read_named-is_some host pid (some (dir_kind dir)) h = refl
read_named-is_some host pid (some (file_kind file)) h =
    let (n, parsed, there) = pid_exists-process host pid h in
    rw (parsed, read_file) (is_some-map _ (host.process n) ∙ there)

read_in_dir-is_some :
    (host : ProcHost) (n : ℕ) (entry : Str) (dir : Option ProcDir)
    → is_some (host.process n) ≡ true
    → is_some (read_in_dir host n entry dir) ≡ is_some (walk_item entry dir)
unfolding read_in_dir walk_item read_fd_entry read_task_entry read_file_entry
read_in_dir-is_some host n entry none h = refl
read_in_dir-is_some host n entry (some fd) h = elim (Bool-cases (contains fd_entries entry)) [
  | inl e ↦ rw e refl
  | inr e ↦ rw e refl
]
read_in_dir-is_some host n entry (some task) h = elim (Bool-cases (contains task_entries entry)) [
  | inl e ↦ rw e (is_some-map _ (host.process n) ∙ h)
  | inr e ↦ rw e refl
]

read_item-is_some :
    (host : ProcHost) (pid dir entry : Str)
    → pid_exists host pid ≡ true
    → is_some (read_item host (parse_pid pid) dir entry)
      ≡ is_some (walk_item entry (find_dir proc_dirs dir))
unfolding read_item
read_item-is_some host pid dir entry h =
    let (n, parsed, there) = pid_exists-process host pid h in
    rw parsed (read_in_dir-is_some host n entry (find_dir proc_dirs dir) there)

stat_named-is_some :
    (now : ℕ) (host : ProcHost) (pid name : Str) (kind : Option EntryKind)
    → pid_exists host pid ≡ true
    → is_some (stat_named now name (read_named host pid kind) kind) ≡ is_some kind
unfolding stat_named stat_entry
stat_named-is_some now host pid name none h = refl
stat_named-is_some now host pid name (some (dir_kind dir)) h = refl
stat_named-is_some now host pid name (some (file_kind file)) h =
    is_some-map _ (read_named host pid (some (file_kind file)))
    ∙ read_named-is_some host pid (some (file_kind file)) h

-- Does a path lead to a name that is not in the directory `fd` or `task` of a process?
abbrev pub opens_unknown : ProcHost → List Str → Bool
opens_unknown host (pid ∷ dir ∷ item ∷ []) =
    pid_exists host pid
    && (is_some (find_dir proc_dirs dir) && not (is_some (walk_item item (find_dir proc_dirs dir))))
opens_unknown host _ = false

dir_opens :
    (item : Str) (dir : Option ProcDir)
    → is_some dir
      ≡ (is_some (walk_item item dir) || (is_some dir && not (is_some (walk_item item dir))))
unfolding walk_item
dir_opens item none = refl
dir_opens item (some fd) = ground arith
dir_opens item (some task) = ground arith

-- On one snapshot of the processes, `read` and `stat` succeed exactly where `walk` does, and `open` there
-- and at every name below the `fd` or `task` of a process that exists.
pub walk_proc-agrees :
    (now : ℕ) (host : ProcHost) (p : List Str)
    → (is_some (read_proc host host p) ≡ is_some (walk_proc host p))
      × (is_some (stat_proc now host host host p) ≡ is_some (walk_proc host p))
      × (is_some (open_proc host p) ≡ (is_some (walk_proc host p) || opens_unknown host p))
unfolding walk_proc read_proc stat_proc open_proc
walk_proc-agrees now host [] = (refl, refl, refl)
walk_proc-agrees now host (pid ∷ []) = elim (Bool-cases (pid_exists host pid)) [
  | inl e ↦ rw e (refl, refl, refl)
  | inr e ↦ rw e (refl, refl, refl)
]
walk_proc-agrees now host (pid ∷ name ∷ []) = elim (Bool-cases (pid_exists host pid)) [
  | inl e ↦ elim (Option-cases (find_entry_kind name)) [
    | inl k ↦
        rw (e, k)
          (read_named-is_some host pid none e, stat_named-is_some now host pid name none e, refl)
    | inr (kind, k) ↦
        rw (e, k)
          (
            read_named-is_some host pid (some kind) e,
            stat_named-is_some now host pid name (some kind) e,
            refl,
          )
  ]
  | inr e ↦ rw e (refl, refl, refl)
]
walk_proc-agrees now host (pid ∷ dir ∷ item ∷ []) = elim (Bool-cases (pid_exists host pid)) [
  | inl e ↦ rw e (
    read_item-is_some host pid dir item e,
    is_some-map _ (read_item host (parse_pid pid) dir item) ∙ read_item-is_some host pid dir item e,
    is_some-map _ (find_dir proc_dirs dir) ∙ dir_opens item (find_dir proc_dirs dir),
  )
  | inr e ↦ rw e (refl, refl, refl)
]
walk_proc-agrees now host (a ∷ b ∷ c ∷ d ∷ names) = (refl, refl, refl)
