-- ===== src/Ramfs/Server/Names.antt =====
-- The loop of `handle_walk` in libs/planten_fs_ramfs/src/server.rs, over plain names.
use planten.Base.{ℕ, suc, ◌≡◌, refl, sym, ap, ◌∙◌, arith, false}
use planten.Base.{none, some, ok, Bool-cases, inl, inr, Option-cases, List, [], ◌∷◌}
use planten.Base.{◌++◌, Str, bytes, str_eq, str_eq_iff, length, All, append_assoc}
use planten.Base.{append-nil}
use planten.Wire.Types.{Qid, StrFits}
use planten.Wire.Encode.{encode_names}
use planten.Wire.RoundTrip.{decode_string-encode_string}
use planten.Fs.Inode.{Inode}
use planten.Fs.FilePath.{components, split, non_empty, IsComponent, components-append-slash}
use planten.Fs.FilePath.{components-IsComponent}
use planten.Ramfs.Tree.{RamFs, stat, stat_at}
use planten.Ramfs.Update.{stat_at-append_none}
use planten.Ramfs.Server.Resolve.{child_path, resolve_step}
use planten.Ramfs.Server.State.{qid_from_inode}
use planten.Ramfs.Server.Handlers.{reached, failed, walk_step, walk_names}
use mathlib.Core.Path.{subst}

-- A name that a walk takes for a child: one component, and neither `.` nor `..`.
pub record IsPlain (name : Str) : Type 0 where
  pub component : IsComponent name
  pub not_dot : str_eq name (bytes ".") ≡ false
  pub not_dots : str_eq name (bytes "..") ≡ false
  pub fits : StrFits name

not-slash : (name : Str) → IsComponent name → str_eq name (bytes "/") ≡ false
unfolding str_eq
not-slash [] h = absurd h
not-slash (c ∷ s) (h, hs) = ground arith

pub resolve_step-plain :
    (base name : Str) → IsPlain name → resolve_step base name ≡ some (child_path base name)
unfolding resolve_step
resolve_step-plain base [] p = absurd p.component
resolve_step-plain base (c ∷ s) p = rw (p.not_dot, not-slash (c ∷ s) p.component, p.not_dots) refl

components-nil : components [] ≡ []
unfolding components split non_empty
components-nil = refl

components-slash : components (bytes "/") ≡ []
unfolding components split non_empty
components-slash = refl

pub components-child_path :
    (base name : Str)
    → IsComponent name
    → components (child_path base name) ≡ components base ++ (name ∷ [])
unfolding child_path
components-child_path base name h = elim (Bool-cases (str_eq base (bytes "/"))) [
  | inl e ↦
      rw (e, (str_eq_iff base (bytes "/")).0 e, components-slash)
        (components-append-slash [] name ∙ rw (components-nil, components-IsComponent name h) refl)
  | inr e ↦ rw e (components-append-slash base name ∙ rw (components-IsComponent name h) refl)
]

-- Where a path is there, what its first components lead to is there too.
stat_at_prefix :
    (p q : List Str) (n m : Inode)
    → stat_at (p ++ q) n ≡ some m
    → (k : Inode) × (stat_at p n ≡ some k)
stat_at_prefix p q n m h = elim (Option-cases (stat_at p n)) [
  | inl e ↦ cc (stat_at-append_none p q n e)
  | inr (k, e) ↦ (k, e)
]

pub stat-child_path :
    (path name : Str) (fs : RamFs)
    → IsComponent name
    → stat (child_path path name) fs ≡ stat_at (components path ++ (name ∷ [])) fs.root
unfolding stat
stat-child_path path name fs h = rw (components-child_path path name h) refl

module _ (hash : Str → ℕ → ℕ) (fs : RamFs) where
  walk_names-cons :
      (name : Str) (names : List Str) (path : Str) (qids : List Qid) (k : Inode)
      → IsPlain name
      → stat_at (components path ++ (name ∷ [])) fs.root ≡ some k
      → walk_names hash fs (suc (length names)) (encode_names (name ∷ names)) path qids
        ≡ walk_names hash fs
            (length names)
            (encode_names names)
            (child_path path name)
            (qids ++ (qid_from_inode hash (child_path path name) k ∷ []))
  unfolding walk_names encode_names walk_step
  walk_names-cons name names path qids k h e =
      rw
        (
          decode_string-encode_string name (encode_names names) h.fits,
          resolve_step-plain path name h,
          walk_step,
          stat-child_path path name fs h.component,
          e,
        )
        refl

  walk_names-absent :
      (name : Str) (names : List Str) (path : Str) (qids : List Qid)
      → IsPlain name
      → stat_at (components path ++ (name ∷ [])) fs.root ≡ none
      → walk_names hash fs (suc (length names)) (encode_names (name ∷ names)) path qids
        ≡ ok (failed (bytes "walk failed: component '" ++ (name ++ bytes "' not found")))
  unfolding walk_names encode_names walk_step
  walk_names-absent name names path qids h e =
      rw
        (
          decode_string-encode_string name (encode_names names) h.fits,
          resolve_step-plain path name h,
          walk_step,
          stat-child_path path name fs h.component,
          e,
        )
        refl

  -- Where every component is there, the loop reaches the path with one qid for each.
  pub walk_names-found :
      (names : List Str) (path : Str) (qids : List Qid) (m : Inode)
      → All IsPlain names
      → stat_at (components path ++ names) fs.root ≡ some m
      → (p : Str) × (qs : List Qid) × (walk_names hash fs
            (length names)
            (encode_names names)
            path
            qids
          ≡ ok (reached p (qids ++ qs)))
        × (components p ≡ components path ++ names)
        × (length qs ≡ length names)
  unfolding walk_names
  walk_names-found [] path qids m h e = (path, [], rw append-nil refl, sym (append-nil _), refl)
  walk_names-found (name ∷ names) path qids m (h, hs) e =
      let to_next = components-child_path path name h.component in
      let e' =
        subst (λ c. stat_at c fs.root ≡ some m)
          (sym (append_assoc (components path) (name ∷ []) names)) e in
      let (k, there) = stat_at_prefix (components path ++ (name ∷ [])) names fs.root m e' in
      let q = qid_from_inode hash (child_path path name) k in
      let (p, qs, walked, comps, len) =
        walk_names-found names (child_path path name) (qids ++ (q ∷ [])) m hs (rw to_next e') in
      (
        p,
        q ∷ qs,
        walk_names-cons name names path qids k h there
            ∙ (walked ∙ ap (λ c. ok (reached p c)) (append_assoc qids (q ∷ []) qs)),
        comps ∙ rw to_next (append_assoc (components path) (name ∷ []) names),
        ap suc len,
      )

  -- Where a component is missing, the loop ends with a message.
  pub walk_names-missing :
      (names : List Str) (path : Str) (qids : List Qid) (n : Inode)
      → All IsPlain names
      → stat_at (components path) fs.root ≡ some n
      → stat_at (components path ++ names) fs.root ≡ none
      → (message : Str) × (walk_names hash fs (length names) (encode_names names) path qids
          ≡ ok (failed message))
  walk_names-missing [] path qids n h there e = cc (rw append-nil at e)
  walk_names-missing (name ∷ names) path qids n (h, hs) there e =
      let to_next = components-child_path path name h.component in
      let e' =
        subst (λ c. stat_at c fs.root ≡ none)
          (sym (append_assoc (components path) (name ∷ []) names)) e in
      elim (Option-cases (stat_at (components path ++ (name ∷ [])) fs.root)) [
        | inl none_there ↦ (
          bytes "walk failed: component '" ++ (name ++ bytes "' not found"),
          walk_names-absent name names path qids h none_there,
        )
        | inr (k, k_there) ↦
            let (message, failed_) =
              walk_names-missing names (child_path path name)
                (qids ++ (qid_from_inode hash (child_path path name) k ∷ [])) k hs
                (rw to_next k_there) (rw to_next e') in
            (message, walk_names-cons name names path qids k h k_there ∙ failed_)
      ]
