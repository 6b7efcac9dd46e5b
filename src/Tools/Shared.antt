-- ===== src/Tools/Shared.antt =====
-- `probe_remote_share` of userspace/planten_coreutils/src/bin/10_ns.rs against the server of
-- libs/planten_fs_ramfs/src/server.rs.
use planten.Base.{ℕ, ◌+◌, ◌%◌, ◌*◌, ◌^◌, ◌<◌, ◌≡◌, refl, ap, ◌∙◌, arith, none, some, ok}
use planten.Base.{List, [], ◌∷◌, ◌++◌, Str, All, length, length-append, lookup, insert, remove}
use planten.Fs.Inode.{Inode}
use planten.Fs.FilePath.{components, split, non_empty}
use planten.Wire.Utf8.{is_utf8}
use planten.Wire.Types.{Qid, StrFits}
use planten.Wire.Bytes.{le_bytes, from_le_bytes, read_exact}
use planten.Wire.Messages.{tattach, twalk, tclunk, rattach, rwalk, rclunk}
use planten.Wire.Encode.{encode_attach_body, encode_walk_body, encode_names, encode_string}
use planten.Wire.Encode.{encode_qid_bytes, encode_clunk_body}
use planten.Wire.Decode.{decode_u32, decode_qid}
use planten.Wire.RoundTrip.{
  decode_u16-le_bytes, decode_u32-le_bytes, decode_string-encode_string, decode_string_end,
  length-encode_qid_bytes, read_exact_of_length,
}
use planten.Ramfs.Tree.{RamFs, stat, stat_at}
use planten.Ramfs.Server.State.{FidState, Server, new_fid}
use planten.Ramfs.Server.Handlers.{concat_qids, handle_attach, attach_root, handle_clunk}
use planten.Ramfs.Server.Names.{IsPlain}
use planten.Ramfs.Server.Walk.{handle_walk-found}
use planten.Ramfs.Server.Dispatch.{Env, dispatch}
use planten.Client.{walk_result, skip_qids, no_result}
use planten.Client.Operations.{attach, walk, clunk}
use planten.Client.Peer.{ramfs_peer, client_of, call-ramfs_peer}
use planten.Client.Guest.{with_fids, root_qid, root_fid, versioned}
use planten.Tools.Probe.{reachable, probe_end, probe_walk, probe_remote_share}
use mathlib.Core.Path.{subst}

length-concat_qids : (qs : List Qid) → length (concat_qids qs) ≡ 13 * length qs
unfolding concat_qids
length-concat_qids [] = refl
length-concat_qids (q ∷ qs) = omega (
  arith,
  length-append (encode_qid_bytes q) (concat_qids qs),
  length-encode_qid_bytes q,
  length-concat_qids qs,
)

skip_qids-concat_qids : (qs : List Qid) → skip_qids (length qs) (concat_qids qs) ≡ ok []
unfolding skip_qids concat_qids decode_qid
skip_qids-concat_qids [] = refl
skip_qids-concat_qids (q ∷ qs) =
    rw (read_exact_of_length 13 (encode_qid_bytes q) (concat_qids qs) (length-encode_qid_bytes q))
      (skip_qids-concat_qids qs)

walk_result-concat_qids :
    (qs : List Qid)
    → length qs < 2 ^ 16
    → walk_result (le_bytes 2 (length qs) ++ concat_qids qs) ≡ ok (length qs)
unfolding walk_result
walk_result-concat_qids qs h =
    rw (decode_u16-le_bytes (length qs) (concat_qids qs) h, skip_qids-concat_qids qs) refl

module _ (v : Env) (fs : RamFs) where
  abbrev at_root : Server
  at_root = with_fids v fs ((0, root_fid v fs) ∷ [])

  attach_sent :
      (uname : Str)
      → StrFits uname
      → handle_attach v.hash (encode_attach_body 0 none uname []) (with_fids v fs [])
        ≡ ok (record { msg_type = rattach; body = encode_qid_bytes (root_qid v fs) }, at_root)
  unfolding handle_attach encode_attach_body attach_root stat stat_at components split non_empty
      insert is_utf8
  attach_sent uname fits =
      rw
        (
          decode_u32-le_bytes 0 _ (omega arith),
          decode_u32-le_bytes 0 _ (omega arith),
          decode_string-encode_string uname _ fits,
          decode_string_end [] (record { len = omega arith; utf8 = refl }),
        )
        refl

  attached :
      (uname : Str)
      → StrFits uname
      → attach (ramfs_peer v) 0 none uname [] (client_of (with_fids v fs []) 1)
        ≡ (ok tt, client_of at_root 2)
  unfolding attach dispatch encode_attach_body encode_string le_bytes encode_qid_bytes
  attached uname fits =
      call-ramfs_peer v tattach rattach 1 _ (encode_qid_bytes (root_qid v fs)) no_result
        (with_fids v fs []) at_root (omega arith)
        (omega (arith, fits.len, length-append uname (0 ∷ 0 ∷ []))) (omega arith)
        (attach_sent uname fits)

  walked :
      (names : List Str) (m : Inode)
      → All IsPlain names
      → length names < 2 ^ 16
      → 17 + length (encode_names names) < 2 ^ 32
      → stat_at names fs.root ≡ some m
      → (st : FidState) × (walk (ramfs_peer v) 0 1 names (client_of at_root 2) ≡ (
        ok (length names),
        client_of (with_fids v fs (insert 1 st ((0, root_fid v fs) ∷ []))) 3,
      ))
  unfolding walk dispatch lookup components split non_empty encode_walk_body le_bytes
  walked names m plain few fits found =
      let (p, qs, last, sent, comps, len) =
        handle_walk-found v.hash 0 1 names at_root (root_fid v fs) plain few (omega arith)
          (omega arith) refl m found in
      (
        new_fid p last,
        call-ramfs_peer v twalk rwalk 2 _ (le_bytes 2 (length names) ++ concat_qids qs) walk_result
              at_root (with_fids v fs (insert 1 (new_fid p last) ((0, root_fid v fs) ∷ [])))
              (omega arith) (omega arith) (omega (arith, len, length-concat_qids qs)) sent
            ∙ ap
                (λ r. (
                  r,
                  client_of (with_fids v fs (insert 1 (new_fid p last) ((0, root_fid v fs) ∷ [])))
                      3,
                ))
                (subst (λ n. walk_result (le_bytes 2 n ++ concat_qids qs) ≡ ok n) len
                  (walk_result-concat_qids qs (omega (arith, len)))),
      )

  clunked :
      (st : FidState)
      → clunk
          (ramfs_peer v)
          1
          (client_of (with_fids v fs (insert 1 st ((0, root_fid v fs) ∷ []))) 3)
        ≡ (ok tt, client_of at_root 4)
  unfolding clunk dispatch handle_clunk le_bytes decode_u32 read_exact from_le_bytes
      encode_clunk_body insert remove
  clunked st =
      call-ramfs_peer v tclunk rclunk 3 _ [] no_result
        (with_fids v fs (insert 1 st ((0, root_fid v fs) ∷ []))) at_root (omega arith) (omega arith)
        (omega arith) refl

  root_clunked :
      (tag : ℕ)
      → tag < 2 ^ 16
      → clunk (ramfs_peer v) 0 (client_of at_root tag)
        ≡ (ok tt, client_of (with_fids v fs []) ((tag + 1) % 2 ^ 16))
  unfolding clunk dispatch handle_clunk le_bytes decode_u32 read_exact from_le_bytes
      encode_clunk_body remove
  root_clunked tag h =
      call-ramfs_peer v tclunk rclunk tag _ [] no_result at_root (with_fids v fs []) h (omega arith)
        (omega arith) refl

  probe_walk-reachable :
      (names : List Str) (m : Inode)
      → All IsPlain names
      → length names < 2 ^ 16
      → 17 + length (encode_names names) < 2 ^ 32
      → stat_at names fs.root ≡ some m
      → probe_walk (ramfs_peer v) names (client_of at_root 2) ≡ reachable
  unfolding probe_walk probe_end
  probe_walk-reachable [] m plain few fits found = rw (root_clunked 2 (omega arith)) refl
  probe_walk-reachable (name ∷ names) m plain few fits found =
      let (st, w) = walked (name ∷ names) m plain few fits found in
      rw (w, clunked st, root_clunked 4 (omega arith)) refl

  -- The probe of 10_ns finds a share that the server of the in-memory file system has: where the path leads to
  -- an inode by plain names, the user is UTF-8 of fewer than 2 ^ 16 bytes and the walk fits a frame, every
  -- exchange succeeds.
  pub probe_remote_share-reachable :
      (uname path : Str) (m : Inode)
      → StrFits uname
      → All IsPlain (components path)
      → length (components path) < 2 ^ 16
      → 17 + length (encode_names (components path)) < 2 ^ 32
      → stat path fs ≡ some m
      → probe_remote_share (ramfs_peer v) (some (with_fids v fs [])) uname path ≡ reachable
  unfolding probe_remote_share stat
  probe_remote_share-reachable uname path m user plain few fits found =
      rw (versioned v fs, attached uname user)
        (probe_walk-reachable (components path) m plain few fits found)
