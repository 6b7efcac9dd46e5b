-- ===== src/Proc/Listed.antt =====
-- The names that `walk` of libs/planten_fs_proc/src/fs.rs lists, as components of the next path.
use planten.Base.{ℕ, ◌<◌, ◌^◌, ◌≡◌, ◌≢◌, refl, sym, ap, ◌∙◌, arith, true, Bool-cases}
use planten.Base.{
  ◌||◌, inl, inr, is_some, is_some-map, some-injective, contains-nil, Option-cases, none, some,
  Option, List, [], ◌∷◌, ◌++◌,
}
use planten.Base.{Str, str_eq, str_eq_iff, str_eq_comm, contains, contains-append, map, All}
use planten.Base.{to_decimal, parse_uint-to_decimal}
use planten.Ramfs.Sort.{contains-sort}
use planten.Proc.Host.{ProcHost, Process, FindsPids}
use planten.Proc.Files.{EntryKind, file_kind, dir_kind, fd, task, proc_dirs, proc_entries}
use planten.Proc.Files.{ProcEntry, dir_name, process_entry_names, find_dir, find_entry}
use planten.Proc.Files.{find_entry_kind, ProcDir, fd_entries, task_entries}
use planten.Proc.Methods.{
  pid_exists, parse_pid, list_pids, walk_proc, walk_item, entry_walked, open_proc,
}
use planten.Proc.Methods.{read_proc, stat_proc}
use planten.Proc.Agree.{walk_proc-agrees, opens_unknown}
use mathlib.Core.Option

pid_exists-to_decimal :
    (host : ProcHost) (pid : ℕ) (p : Process)
    → pid < 2 ^ 64
    → host.process pid ≡ some p
    → pid_exists host (to_decimal pid) ≡ true
unfolding pid_exists parse_pid
pid_exists-to_decimal host pid p h e = rw (parse_uint-to_decimal (2 ^ 64) pid h, pid_exists, e) refl

listed-pid_exists :
    (host : ProcHost) (pids : List ℕ) (name : Str)
    → All (λ pid. (pid < 2 ^ 64) × ((p : Process) × (host.process pid ≡ some p))) pids
    → contains (map to_decimal pids) name ≡ true
    → pid_exists host name ≡ true
unfolding contains
listed-pid_exists host [] name h k = cc
listed-pid_exists host (pid ∷ pids) name ((small, (p, found)), hs) k =
    elim (Bool-cases (str_eq name (to_decimal pid))) [
      | inl e ↦
          rw ((str_eq_iff name (to_decimal pid)).0 e) (pid_exists-to_decimal host pid p small found)
      | inr e ↦ listed-pid_exists host pids name hs (rw e at k)
    ]

find_dir-is_some :
    (dirs : List ProcDir) (name : Str)
    → is_some (find_dir dirs name) ≡ contains (map dir_name dirs) name
unfolding find_dir contains
find_dir-is_some [] name = refl
find_dir-is_some (dir ∷ dirs) name =
    ground (arith, str_eq_comm (dir_name dir) name, find_dir-is_some dirs name)

find_entry-is_some :
    (entries : List ProcEntry) (name : Str)
    → is_some (find_entry entries name) ≡ (
        contains (map (λ (e : ProcEntry). e.name) entries) name
        || contains (map dir_name proc_dirs) name)
unfolding find_entry contains
find_entry-is_some [] name =
    is_some-map dir_kind (find_dir proc_dirs name) ∙ find_dir-is_some proc_dirs name
find_entry-is_some (entry ∷ entries) name =
    ground (arith, str_eq_comm entry.name name, find_entry-is_some entries name)

map-dir_kind :
    (found : Option ProcDir) (dir : ProcDir)
    → Option.map dir_kind found ≡ some (dir_kind dir)
    → found ≡ some dir
map-dir_kind none dir h = cc
map-dir_kind (some d) dir h = cc

find_entry-dir :
    (entries : List ProcEntry) (name : Str) (dir : ProcDir)
    → All (λ (e : ProcEntry). (d : ProcDir) → e.kind ≢ dir_kind d) entries
    → find_entry entries name ≡ some (dir_kind dir)
    → find_dir proc_dirs name ≡ some dir
unfolding find_entry
find_entry-dir [] name dir h k = map-dir_kind (find_dir proc_dirs name) dir k
find_entry-dir (entry ∷ entries) name dir (h, hs) k = elim (Bool-cases (str_eq entry.name name)) [
  | inl e ↦ absurd (h dir (some-injective (rw e at k)))
  | inr e ↦ find_entry-dir entries name dir hs (rw e at k)
]

find_entry_kind-listed :
    (name : Str) → contains process_entry_names name ≡ true → is_some (find_entry_kind name) ≡ true
unfolding find_entry_kind process_entry_names
find_entry_kind-listed name h =
    find_entry-is_some proc_entries name
    ∙ sym (
        contains-append (map (λ (e : ProcEntry). e.name) proc_entries) (map dir_name proc_dirs)
          name)
    ∙ h

find_entry_kind-dir :
    (name : Str) (dir : ProcDir)
    → find_entry_kind name ≡ some (dir_kind dir)
    → find_dir proc_dirs name ≡ some dir
unfolding find_entry_kind
find_entry_kind-dir name dir h =
    find_entry-dir proc_entries name dir
      (λ d p. cc, (λ d p. cc, (λ d p. cc, (λ d p. cc, (λ d p. cc, (λ d p. cc, tt)))))) h

walk_item-listed :
    (name item : Str) (kind : EntryKind)
    → find_entry_kind name ≡ some kind
    → contains (entry_walked kind) item ≡ true
    → is_some (walk_item item (find_dir proc_dirs name)) ≡ true
unfolding walk_item
walk_item-listed name item (file_kind file) h k = absurd (contains-nil item k)
walk_item-listed name item (dir_kind fd) h k = rw (find_entry_kind-dir name fd h, walk_item, k) refl
walk_item-listed name item (dir_kind task) h k =
    rw (find_entry_kind-dir name task h, walk_item, k) refl

-- `walk` lists nothing below `fd` and `task`.
walk_item-empty :
    (item : Str) (dir : Option ProcDir) (names : List Str) (name : Str)
    → walk_item item dir ≡ some names
    → contains names name ≡ true
    → ⊥
unfolding walk_item
walk_item-empty item none names name e k = cc
walk_item-empty item (some fd) names name e k = elim (Bool-cases (contains fd_entries item)) [
  | inl q ↦ contains-nil name (ap (λ l. contains l name) (some-injective (rw q at e)) ∙ k)
  | inr q ↦ cc (rw q at e)
]
walk_item-empty item (some task) names name e k = elim (Bool-cases (contains task_entries item)) [
  | inl q ↦ contains-nil name (ap (λ l. contains l name) (some-injective (rw q at e)) ∙ k)
  | inr q ↦ cc (rw q at e)
]

listed_walks :
    (host : ProcHost) (p names : List Str) (name : Str)
    → FindsPids host
    → walk_proc host p ≡ some names
    → contains names name ≡ true
    → is_some (walk_proc host (p ++ (name ∷ []))) ≡ true
unfolding walk_proc list_pids
listed_walks host [] names name h e k =
    rw
      (listed-pid_exists host host.pids name h (
        sym (contains-sort (map to_decimal host.pids) name)
        ∙ ap (λ l. contains l name) (some-injective e)
        ∙ k))
      refl
listed_walks host (pid ∷ []) names name h e k = elim (Bool-cases (pid_exists host pid)) [
  | inl there ↦ rw there (
      is_some-map entry_walked (find_entry_kind name)
      ∙ find_entry_kind-listed name
          (ap (λ l. contains l name) (some-injective (rw there at e)) ∙ k))
  | inr gone ↦ cc (rw gone at e)
]
listed_walks host (pid ∷ dir ∷ []) names name h e k = elim (Bool-cases (pid_exists host pid)) [
  | inl there ↦ elim (Option-cases (find_entry_kind dir)) [
    | inl unknown ↦ cc (rw (there, unknown) at e)
    | inr (kind, found) ↦ rw there (
        walk_item-listed dir name kind found
          (ap (λ l. contains l name) (some-injective (rw (there, found) at e)) ∙ k))
  ]
  | inr gone ↦ cc (rw gone at e)
]
listed_walks host (pid ∷ dir ∷ item ∷ []) names name h e k =
    elim (Bool-cases (pid_exists host pid)) [
      | inl there ↦
          absurd (walk_item-empty item (find_dir proc_dirs dir) names name (rw there at e) k)
      | inr gone ↦ cc (rw gone at e)
    ]
listed_walks host (a ∷ b ∷ c ∷ d ∷ p) names name h e k = cc

-- Where every pid that the host shows finds its process: each name that `walk` lists at a path leads on to
-- a path at which `walk` succeeds, and with it `read`, `stat` and `open`.
pub walk_proc-listed :
    (now : ℕ) (host : ProcHost) (p names : List Str) (name : Str)
    → FindsPids host
    → walk_proc host p ≡ some names
    → contains names name ≡ true
    → (is_some (walk_proc host (p ++ (name ∷ []))) ≡ true)
      × (is_some (read_proc host host (p ++ (name ∷ []))) ≡ true)
      × (is_some (stat_proc now host host host (p ++ (name ∷ []))) ≡ true)
      × (is_some (open_proc host (p ++ (name ∷ []))) ≡ true)
walk_proc-listed now host p names name h e k =
    let here = listed_walks host p names name h e k in
    let (by_read, by_stat, by_open) = walk_proc-agrees now host (p ++ (name ∷ [])) in
    (
      here,
      by_read ∙ here,
      by_stat ∙ here,
      by_open ∙ ap (λ b. b || opens_unknown host (p ++ (name ∷ []))) here,
    )
