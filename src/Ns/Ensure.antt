-- ===== src/Ns/Ensure.antt =====
-- `ensure_procfs` and `ensure_srvfs` of libs/planten_ns/src/lib.rs.
use planten.Base.{◌≡◌, refl, ◌∙◌, arith, true, ◌||◌, Bool-cases, inl, inr, List, [], ◌∷◌, ◌++◌, Str}
use planten.Base.{str_eq, bytes, if◌then◌else◌, ap, append-nil, append_assoc, sym}
use planten.Ns.{
  Mount, MountEntry, Namespace, has_target, add_mount_entry, ensure_procfs, ensure_srvfs,
}
use planten.Ns.{procfs_target, srvfs_target, procfs_addr, p9_mount}

has_target-append_one :
    (t u : Str) (m : Mount) (p : List MountEntry)
    → has_target t (p ++ (record { target = u; mount = m } ∷ [])) ≡ (str_eq u t || has_target t p)
unfolding has_target
has_target-append_one t u m [] = refl
has_target-append_one t u m (e ∷ p) = ground (arith, has_target-append_one t u m p)

ensure_procfs-has_target :
    (ns : Namespace) → has_target procfs_target (ensure_procfs ns).mounts ≡ true
unfolding ensure_procfs add_mount_entry str_eq
ensure_procfs-has_target ns = elim (Bool-cases (has_target procfs_target ns.mounts)) [
  | inl e ↦ rw e e
  | inr e ↦ rw e (has_target-append_one procfs_target procfs_target _ ns.mounts)
]

ensure_srvfs-has_target :
    (ns : Namespace)
    → has_target procfs_target ns.mounts ≡ true
    → (has_target procfs_target (ensure_srvfs ns).mounts ≡ true)
      × (has_target srvfs_target (ensure_srvfs ns).mounts ≡ true)
unfolding ensure_srvfs add_mount_entry str_eq
ensure_srvfs-has_target ns h = elim (Bool-cases (has_target srvfs_target ns.mounts)) [
  | inl e ↦ rw e (h, e)
  | inr e ↦ rw e (
    has_target-append_one procfs_target srvfs_target _ ns.mounts ∙ h,
    has_target-append_one srvfs_target srvfs_target _ ns.mounts,
  )
]

ensure_procfs_there :
    (ns : Namespace) → has_target procfs_target ns.mounts ≡ true → ensure_procfs ns ≡ ns
unfolding ensure_procfs
ensure_procfs_there ns h = rw h refl

ensure_srvfs_there :
    (ns : Namespace) → has_target srvfs_target ns.mounts ≡ true → ensure_srvfs ns ≡ ns
unfolding ensure_srvfs
ensure_srvfs_there ns h = rw h refl

-- `ensure_procfs` and then `ensure_srvfs` leave any namespace with an entry at both targets, and either
-- of them changes nothing any more.
pub ensure_srvfs-ensure_procfs :
    (ns : Namespace)
    → (has_target procfs_target (ensure_srvfs (ensure_procfs ns)).mounts ≡ true)
      × (has_target srvfs_target (ensure_srvfs (ensure_procfs ns)).mounts ≡ true)
      × (ensure_procfs (ensure_srvfs (ensure_procfs ns)) ≡ ensure_srvfs (ensure_procfs ns))
      × (ensure_srvfs (ensure_srvfs (ensure_procfs ns)) ≡ ensure_srvfs (ensure_procfs ns))
ensure_srvfs-ensure_procfs ns =
    let (proc, srv) = ensure_srvfs-has_target (ensure_procfs ns) (ensure_procfs-has_target ns) in
    (proc, srv, ensure_procfs_there _ proc, ensure_srvfs_there _ srv)

-- An entry for a server on this machine, where no entry has its target yet.
abbrev pub if_missing : Str → Str → List MountEntry → List MountEntry
if_missing target addr entries =
    if has_target target entries
    then []
    else record { target = target; mount = p9_mount addr [] } ∷ []

-- The stored namespace with the entries of procfs and srvfs behind its own.
abbrev pub with_defaults : Namespace → Namespace
with_defaults ns = record {
  mounts =
      ns.mounts
      ++ (if_missing (bytes "/proc") (bytes "127.0.0.1:5641") ns.mounts
          ++ if_missing (bytes "/srv") (bytes "127.0.0.1:5652") ns.mounts);
}

pub ensure-with_defaults : (ns : Namespace) → ensure_srvfs (ensure_procfs ns) ≡ with_defaults ns
unfolding ensure_srvfs ensure_procfs add_mount_entry str_eq
ensure-with_defaults ns =
    let srv_of =
      has_target-append_one srvfs_target procfs_target (p9_mount procfs_addr []) ns.mounts in
    elim (Bool-cases (has_target procfs_target ns.mounts)) [
      | inl p ↦ elim (Bool-cases (has_target srvfs_target ns.mounts)) [
        | inl q ↦ rw (p, q) (ap (λ l. record { mounts = l }) (sym (append-nil ns.mounts)))
        | inr q ↦ rw (p, q) refl
      ]
      | inr p ↦ elim (Bool-cases (has_target srvfs_target ns.mounts)) [
        | inl q ↦ rw (p, srv_of, q) refl
        | inr q ↦ rw (p, srv_of, q) (ap (λ l. record { mounts = l }) (append_assoc ns.mounts _ _))
      ]
    ]
