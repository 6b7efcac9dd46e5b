-- ===== src/Served/Walks.antt =====
-- The walks of libs/planten_fs_srv/src/server.rs and libs/planten_fs_proc/src/server.rs, on requests as
-- libs/planten_9p/src/lib.rs encodes them.
use planten.Base.{sym, ◌∙◌, Option, false, get_elem?, take, append-nil, append_assoc, arith, zero}
use planten.Fs.Inode.{Inode}
use planten.Fs.FilePath.{components, IsComponent}
use planten.Ramfs.Server.Names.{components-child_path}
use mathlib.Core.Option
use planten.Base.{ℕ, suc, ◌^◌, ◌<◌, ◌≡◌, refl, ap, true, none, some, Option-cases, inl, inr}
use planten.Base.{
  ok, is_some, List, [], ◌∷◌, ◌++◌, Str, bytes, length, All, get_last?, lookup, insert,
}
use planten.Wire.Bytes.{le_bytes}
use planten.Wire.Types.{Qid, StrFits}
use planten.Wire.Encode.{encode_names, encode_walk_body}
use planten.Wire.Messages.{rwalk}
use planten.Wire.RoundTrip.{decode_string-encode_string, decode_u16-le_bytes, decode_u32-le_bytes}
use planten.Ramfs.Server.State.{new_fid}
use planten.Ramfs.Server.Handlers.{concat_qids}
use planten.Served.View.{FsView, resolve_path, dir_qid, read_names, walk_path, reply, error_reply}
use planten.Served.Opening.{Fids, path_or_empty, or_zero_qid, walked, walk_reply}
use native.Mathlib.Nat.{mod-eq_of_lt}

-- Every path on the way is there.
abbrev pub AllThere : FsView → Str → List Str → Type 0
AllThere v path [] = Unit {0}
AllThere v path (name ∷ names) =
    (is_some (v.stat (resolve_path path name)) ≡ true) × AllThere v (resolve_path path name) names

-- Where the names lead.
abbrev pub target_path : Str → List Str → Str
target_path path [] = path
target_path path (name ∷ names) = target_path (resolve_path path name) names

pub read_names-encode_names :
    (names : List Str)
    → All StrFits names
    → read_names (length names) (encode_names names) ≡ ok (names, [])
unfolding read_names encode_names
read_names-encode_names [] h = refl
read_names-encode_names (name ∷ names) (h, hs) =
    rw (decode_string-encode_string name (encode_names names) h, read_names-encode_names names hs)
      refl

pub walk_path-there :
    (v : FsView) (path : Str) (names : List Str)
    → AllThere v path names
    → (qids : List Qid) × (walk_path v path names ≡ some (target_path path names, qids))
      × (length qids ≡ length names)
unfolding walk_path
walk_path-there v path [] h = ([], refl, refl)
walk_path-there v path (name ∷ names) (h, hs) =
    elim (Option-cases (v.stat (resolve_path path name))) [
      | inl e ↦ cc (rw e at h)
      | inr (inode, e) ↦
          let (qids, w, len) = walk_path-there v (resolve_path path name) names hs in
          (dir_qid inode ∷ qids, rw (e, walk_path, w) refl, ap suc len)
    ]

get_elem?-cons :
    (g : ℕ → Option Qid) (q : Qid) (qids : List Qid) (n : ℕ)
    → some q ≡ g 0
    → ((i : ℕ) → i < n → get_elem? qids i ≡ g (suc i))
    → (i : ℕ) → i < suc n
    → get_elem? (q ∷ qids) i ≡ g i
get_elem?-cons g q qids n first others zero h = first
get_elem?-cons g q qids n first others (suc i) h = others i (omega arith)

-- A walk through a file system that looks paths up by their components.
walk_path-found :
    (v : FsView) (f : List Str → Option Inode)
    → ((path : Str) → v.stat path ≡ f (components path))
    → (names : List Str) (path : Str) → All IsComponent names
    → ((i : ℕ) → i < length names → is_some (f (components path ++ take (suc i) names)) ≡ true)
    → (p : Str) × (qids : List Qid) × (walk_path v path names ≡ some (p, qids))
      × (components p ≡ components path ++ names)
      × (length qids ≡ length names)
      × ((i : ℕ)
          → i < length names
          → get_elem? qids i ≡ Option.map dir_qid (f (components path ++ take (suc i) names)))
unfolding walk_path
walk_path-found v f by [] path hs there =
    (path, [], refl, sym (append-nil _), refl, λ i h. absurd (omega arith))
walk_path-found v f by (name ∷ names) path (h, hs) there =
    let next = resolve_path path name in
    let to_next : (t : List Str) → components next ++ t ≡ components path ++ (name ∷ t) = λ t.
      ap (λ c. c ++ t) (components-child_path path name h)
      ∙ append_assoc (components path) (name ∷ []) t in
    let here : v.stat next ≡ f (components path ++ (name ∷ [])) =
      by next ∙ ap f (components-child_path path name h) in
    elim (Option-cases (v.stat next)) [
      | inl e ↦
          let missing : false ≡ true = ap is_some (sym e ∙ here) ∙ there 0 (omega arith) in
          absurd cc
      | inr (inode, e) ↦
          let (p, qids, w, comps, len, each) =
            walk_path-found v f by names next hs
              (λ i k. ap (λ c. is_some (f c)) (to_next _) ∙ there (suc i) (omega arith)) in
          (
            p,
            dir_qid inode ∷ qids,
            rw (e, walk_path, w) refl,
            comps ∙ to_next names,
            ap suc len,
            get_elem?-cons
                (λ i. Option.map dir_qid (f (components path ++ take (suc i) (name ∷ names))))
                (dir_qid inode) qids (length names) (ap (λ o. Option.map dir_qid o) (sym e ∙ here))
                (λ i k. each i k ∙ ap (λ c. Option.map dir_qid (f c)) (to_next _)),
          )
    ]

pub walk_path-missing :
    (v : FsView) (path : Str) (names : List Str)
    → (AllThere v path names → ⊥)
    → walk_path v path names ≡ none
unfolding walk_path
walk_path-missing v path [] h = absurd (h tt)
walk_path-missing v path (name ∷ names) h = elim (Option-cases (v.stat (resolve_path path name))) [
  | inl e ↦ rw (e, walk_path) refl
  | inr (inode, e) ↦
      rw
        (e, walk_path, walk_path-missing v (resolve_path path name) names (λ hs. h (rw e refl, hs)))
        refl
]

module _ (v : FsView) (fid newfid : ℕ) (names : List Str) (texts : All StrFits names)
    (names_fit : length names < 2 ^ 16) (fid_fits : fid < 2 ^ 32)
    (newfid_fits : newfid < 2 ^ 32) where
  walk_reply-names :
      (fids : Fids)
      → walk_reply v (encode_walk_body fid newfid names) fids
        ≡ ok (walked newfid (walk_path v (path_or_empty (lookup fid fids)) names) fids)
  unfolding walk_reply encode_walk_body
  walk_reply-names fids =
      rw
        (
          decode_u32-le_bytes fid _ fid_fits,
          decode_u32-le_bytes newfid _ newfid_fits,
          mod-eq_of_lt names_fit,
          decode_u16-le_bytes (length names) _ names_fit,
          read_names-encode_names names texts,
        )
        refl

  -- A walk in srvfs or procfs by fewer than 2 ^ 16 texts without slashes, where the file system looks paths up
  -- by their components and something is there on every step of the way: the new fid stands for the path
  -- whose components are those of the old fid's path, or none where it is not in use, and the names behind
  -- them, and has the last qid; the reply has one qid for each name, that of what stands there.
  pub walk_reply-found :
      (f : List Str → Option Inode) (fids : Fids)
      → ((path : Str) → v.stat path ≡ f (components path))
      → All IsComponent names
      → ((i : ℕ)
          → i < length names
          → is_some (f (components (path_or_empty (lookup fid fids)) ++ take (suc i) names)) ≡ true)
      → (p : Str) × (qids : List Qid) × (walk_reply v (encode_walk_body fid newfid names) fids
          ≡ ok (
            reply rwalk (le_bytes 2 (length names) ++ concat_qids qids),
            insert newfid (new_fid p (or_zero_qid (get_last? qids))) fids,
          ))
        × (components p ≡ components (path_or_empty (lookup fid fids)) ++ names)
        × (length qids ≡ length names)
        × ((i : ℕ)
            → i < length names
            → get_elem? qids i
              ≡ Option.map dir_qid
                  (f (components (path_or_empty (lookup fid fids)) ++ take (suc i) names)))
  unfolding walked
  walk_reply-found f fids by comps there =
      let (p, qids, w, leads, len, each) =
        walk_path-found v f by names (path_or_empty (lookup fid fids)) comps there in
      (
        p,
        qids,
        rw (walk_reply-names fids, w, walked, len, mod-eq_of_lt names_fit) refl,
        leads,
        len,
        each,
      )

  -- A walk by fewer than 2 ^ 16 texts, in srvfs or procfs, on which some path is missing: the reply is an error,
  -- and no fid changes.
  pub walk_reply-missing :
      (fids : Fids)
      → (AllThere v (path_or_empty (lookup fid fids)) names → ⊥)
      → walk_reply v (encode_walk_body fid newfid names) fids
        ≡ ok (error_reply (bytes "file not found"), fids)
  unfolding walked
  walk_reply-missing fids h =
      rw
        (
          walk_reply-names fids,
          walk_path-missing v (path_or_empty (lookup fid fids)) names h,
          walked,
        )
        refl
