-- ===== src/Ramfs/Server/Shape.antt =====
-- The shape of whole file systems of libs/planten_fs_ramfs/src/lib.rs under their operations, and under a
-- connection of libs/planten_fs_ramfs/src/server.rs.
use planten.Base.{
  ℕ, ◌≡◌, ap, Bool, Bool-cases, Option-cases, inl, inr, Option, none, some, Res, ok, ◌>>=◌,
  bind-eq-ok,
}
use planten.Base.{ok-injective, List, [], ◌∷◌, Str, length, ◌%◌, ◌^◌}
use planten.Wire.Types.{Stat}
use planten.Fs.Inode.{Inode, node}
use planten.Fs.FilePath.{components}
use planten.Ramfs.Tree.{RamFs, create_file, create_dir, update_at, commit, write_at, write}
use planten.Ramfs.Tree.{split_last, remove_at, remove_path}
use planten.Ramfs.Wstat.{wstat_root, wstat_at, wstat_from_stat}
use planten.Ramfs.WellFormed.{IsWellFormed}
use planten.Ramfs.Shape.{
  Keeps, update_at-IsWellFormed, create_file_at-IsWellFormed, create_dir_at-IsWellFormed,
}
use planten.Ramfs.Shape.{write_node-Keeps, remove_child-Keeps, wstat_child-Keeps}
use planten.Ramfs.Server.State.{Server, is_dir_mode}
use planten.Ramfs.Server.Files.{made}
use planten.Ramfs.Server.Absolute.{FidsAbsolute}
use planten.Ramfs.Server.Step.{
  Step, refused, looked, was_read, attached, walked_to, cloned, opened_for, dropped, wrote,
}
use planten.Ramfs.Server.Step.{changed, removed, created}
use planten.Wire.Types.{RawMessage}
use planten.Ramfs.Server.State.{Reply}
use planten.Ramfs.Server.Contract.{Steps, done, more, handle_client-Steps}
use planten.Ramfs.Server.Dispatch.{Env, handle_client}
use mathlib.Core.Path.{subst}

updated-IsWellFormed :
    {A : Type 0} (a : A) (p : List Str) (f : Inode → Res (Option Inode)) (fs fs' : RamFs)
    (r : Option A)
    → Keeps f
    → IsWellFormed fs.root
    → (update_at p f fs.root >>= λ x. ok (commit a fs x)) ≡ ok (r, fs')
    → IsWellFormed fs'.root
updated-IsWellFormed a p f fs fs' r k h e =
    let (x, u, c) = bind-eq-ok (update_at p f fs.root) _ e in
    go x u (ap (λ y. y.1) (ok-injective c))
  where
    go :
        (x : Option Inode)
        → update_at p f fs.root ≡ ok x
        → (commit a fs x).1 ≡ fs'
        → IsWellFormed fs'.root
    go none u c = subst (λ y. IsWellFormed y.root) c h
    go (some m) u c =
        subst (λ y. IsWellFormed y.root) c (update_at-IsWellFormed p f fs.root m k h u).1

write-IsWellFormed :
    (checks : Bool) (now : ℕ) (path : Str) (offset : ℕ) (bs : Str) (fs fs' : RamFs) (r : Option ℕ)
    → IsWellFormed fs.root
    → write checks now path offset bs fs ≡ ok (r, fs')
    → IsWellFormed fs'.root
unfolding write write_at
write-IsWellFormed checks now path offset bs fs fs' r h e = go (components path) e
  where
    go : (p : List Str) → write_at checks now p offset bs fs ≡ ok (r, fs') → IsWellFormed fs'.root
    go [] e = subst (λ y. IsWellFormed y.root) (ap (λ y. y.1) (ok-injective e)) h
    go (c ∷ p) e =
        updated-IsWellFormed (length bs % 2 ^ 32) (c ∷ p) _ fs fs' r
          (write_node-Keeps checks now offset bs) h e

remove_path-IsWellFormed :
    (path : Str) (fs fs' : RamFs) (r : Option (Unit {0}))
    → IsWellFormed fs.root
    → remove_path path fs ≡ ok (r, fs')
    → IsWellFormed fs'.root
unfolding remove_path remove_at
remove_path-IsWellFormed path fs fs' r h e = elim (Option-cases (split_last (components path))) [
  | inl s ↦
      subst (λ y. IsWellFormed y.root) (ap (λ y. y.1) (ok-injective (rw (s, remove_at) at e))) h
  | inr ((front, last), s) ↦
      updated-IsWellFormed tt front _ fs fs' r (remove_child-Keeps last) h (rw (s, remove_at) at e)
]

wstat_root-IsWellFormed : (st : Stat) (n : Inode) → IsWellFormed n → IsWellFormed (wstat_root st n)
unfolding wstat_root IsWellFormed
wstat_root-IsWellFormed st (node a cs) h = h

wstat_from_stat-IsWellFormed :
    (path : Str) (st : Stat) (fs fs' : RamFs) (r : Option (Unit {0}))
    → IsWellFormed fs.root
    → wstat_from_stat path st fs ≡ ok (r, fs')
    → IsWellFormed fs'.root
unfolding wstat_from_stat wstat_at
wstat_from_stat-IsWellFormed path st fs fs' r h e =
    elim (Option-cases (split_last (components path))) [
      | inl s ↦
          subst (λ y. IsWellFormed y.root) (ap (λ y. y.1) (ok-injective (rw (s, wstat_at) at e)))
            (wstat_root-IsWellFormed st fs.root h)
      | inr ((front, last), s) ↦
          updated-IsWellFormed tt front _ fs fs' r (wstat_child-Keeps st last) h
            (rw (s, wstat_at) at e)
    ]

made-IsWellFormed :
    (now : ℕ → ℕ) (perm : ℕ) (path : Str) (fs : RamFs)
    → IsWellFormed fs.root
    → IsWellFormed (made now perm path fs).root
unfolding made create_file create_dir
made-IsWellFormed now perm path fs h = elim (Bool-cases (is_dir_mode perm)) [
  | inl e ↦ rw e (create_dir_at-IsWellFormed now (components path) fs.root h)
  | inr e ↦ rw e (create_file_at-IsWellFormed now (components path) [] fs.root h)
]

Step-IsWellFormed :
    {m : RawMessage} {s t : Server} {r : Reply}
    → Step m s r t
    → IsWellFormed s.ramfs.root
    → IsWellFormed t.ramfs.root
Step-IsWellFormed (refused e) h = h
Step-IsWellFormed (looked e) h = h
Step-IsWellFormed (was_read fid rest st a o k) h = h
Step-IsWellFormed (attached fid rest qid a k) h = h
Step-IsWellFormed (walked_to fid newfid rest behind path qid a d p k) h = h
Step-IsWellFormed (cloned fid newfid rest behind st a d l k) h = h
Step-IsWellFormed (opened_for fid mode rest behind st inode qid a d l e k) h = h
Step-IsWellFormed (dropped fid rest a k) h = h
Step-IsWellFormed (wrote fid st checks now offset bs n fs a o w k) h =
    write-IsWellFormed checks now st.path offset bs _ fs n h w
Step-IsWellFormed (changed fid st rest behind to u fs a d l w) h =
    wstat_from_stat-IsWellFormed st.path to _ fs u h w
Step-IsWellFormed (removed fid st rest u fs a l w) h = remove_path-IsWellFormed st.path _ fs u h w
Step-IsWellFormed (created fid st name now perm path a l p e k) h =
    made-IsWellFormed now perm path _ h

pub Steps-IsWellFormed :
    {input sent : Str} {s t : Server}
    → Steps input s sent t
    → IsWellFormed s.ramfs.root
    → IsWellFormed t.ramfs.root
Steps-IsWellFormed done h = h
Steps-IsWellFormed (more e st r) h = Steps-IsWellFormed r (Step-IsWellFormed st h)

-- A connection, on any input and however it ends, keeps the shape of the file system, if its fids stand for
-- absolute paths at first: every child stands under its own name, and no name stands twice in a directory.
pub handle_client-IsWellFormed :
    (envs : ℕ → Env) (input : Str) (s : Server)
    → FidsAbsolute s
    → IsWellFormed s.ramfs.root
    → IsWellFormed (handle_client envs input s).server.ramfs.root
handle_client-IsWellFormed envs input s a h =
    Steps-IsWellFormed (handle_client-Steps envs input s a).0 h
