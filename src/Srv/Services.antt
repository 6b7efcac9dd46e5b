-- ===== src/Srv/Services.antt =====
-- The methods of `SrvFs` against each other (libs/planten_fs_srv/src/lib.rs).
use planten.Base.{
  ℕ, ◌≡◌, refl, sym, ap, ◌∙◌, arith, true, false, Bool, ◌&&◌, Bool-cases, inl, inr, is_some,
  Option-cases,
}
use planten.Base.{List, [], ◌∷◌, Str, contains}
use planten.Srv.{
  SrvHost, missing, unreadable, holds, service_files, list_services, read_service_ctls,
}
use planten.Srv.{open_srv, read_srv, stat_srv}

-- Can the `ctl` file behind a path be read, if the path leads to one?
abbrev pub ctl_readable : SrvHost → List Str → Bool
ctl_readable host [] = true
ctl_readable host (service ∷ []) = true
ctl_readable host (service ∷ file ∷ names) = elim (host.ctl service) [
  | missing ↦ true
  | unreadable ↦ false
  | holds bs ↦ true
]

read_service_ctls-is_some :
    (host : SrvHost) (service file : Str)
    → is_some (read_service_ctls host service) ≡ ctl_readable host (service ∷ file ∷ [])
unfolding read_service_ctls
read_service_ctls-is_some host service file = ground arith

-- `read` and `stat` succeed at the same paths: where `open` succeeds and a `ctl` file, if the path leads to
-- one, can be read.
pub open_srv-agrees :
    (now : ℕ) (host : SrvHost) (p : List Str)
    → (is_some (stat_srv now host p) ≡ is_some (read_srv host p))
      × (is_some (read_srv host p) ≡ (is_some (open_srv host p) && ctl_readable host p))
unfolding open_srv read_srv stat_srv
open_srv-agrees now host [] = (refl, refl)
open_srv-agrees now host (service ∷ []) =
    elim (Bool-cases (contains (list_services host) service)) [
      | inl e ↦ rw e (refl, refl)
      | inr e ↦ rw e (refl, refl)
    ]
open_srv-agrees now host (service ∷ file ∷ []) = elim (Bool-cases (contains service_files file)) [
  | inl e ↦ elim (Option-cases (read_service_ctls host service)) [
    | inl r ↦ rw (e, r) (refl, ap is_some (sym r) ∙ read_service_ctls-is_some host service file)
    | inr (bs, r) ↦
        rw (e, r) (refl, ap is_some (sym r) ∙ read_service_ctls-is_some host service file)
  ]
  | inr e ↦ rw e (refl, refl)
]
open_srv-agrees now host (service ∷ file ∷ name ∷ names) = (refl, refl)
