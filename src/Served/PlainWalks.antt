-- ===== src/Served/PlainWalks.antt =====
-- The walks of libs/planten_fs_dev/src/server.rs and libs/planten_fs_net/src/server.rs, on requests as
-- libs/planten_9p/src/lib.rs encodes them.

use planten.Base.{ℕ, ◌^◌, ◌<◌, ◌≡◌, refl}
use planten.Base.{ok, List, ◌++◌, Str, bytes, length, All, get_last?, lookup, insert}
use planten.Wire.Bytes.{le_bytes}
use planten.Wire.Types.{Qid, StrFits}
use planten.Wire.Encode.{encode_walk_body}
use planten.Wire.Messages.{rwalk}
use planten.Wire.RoundTrip.{decode_u16-le_bytes, decode_u32-le_bytes}
use planten.Ramfs.Server.Handlers.{concat_qids}
use planten.Served.View.{FsView, walk_path, reply, error_reply}
use planten.Served.Plain.{PlainFids, path_or_root, or_root_qid, plain_walked, plain_walk}
use native.Mathlib.Nat.{mod-eq_of_lt}
use planten.Served.Walks.{
  AllThere, target_path, read_names-encode_names, walk_path-there, walk_path-missing,
}

module _ (v : FsView) (fid newfid : ℕ) (names : List Str) (texts : All StrFits names)
    (names_fit : length names < 2 ^ 16) (fid_fits : fid < 2 ^ 32)
    (newfid_fits : newfid < 2 ^ 32) where
  plain_walk-names :
      (root : Str) (fids : PlainFids)
      → plain_walk root v (encode_walk_body fid newfid names) fids
        ≡ ok (plain_walked root newfid (walk_path v (path_or_root (lookup fid fids)) names) fids)
  unfolding plain_walk encode_walk_body
  plain_walk-names root fids =
      rw
        (
          decode_u32-le_bytes fid _ fid_fits,
          decode_u32-le_bytes newfid _ newfid_fits,
          mod-eq_of_lt names_fit,
          decode_u16-le_bytes (length names) _ names_fit,
          read_names-encode_names names texts,
        )
        refl

  -- A walk by fewer than 2 ^ 16 texts, in devfs or netfs, on which every path is there: the reply has one qid
  -- for each name, and the new fid stands for the path they lead to.
  pub plain_walk-found :
      (root : Str) (fids : PlainFids)
      → AllThere v (path_or_root (lookup fid fids)) names
      → (qids : List Qid) × (plain_walk root v (encode_walk_body fid newfid names) fids
          ≡ ok (
            reply rwalk (le_bytes 2 (length names) ++ concat_qids qids),
            insert newfid
                (record {
                  path = target_path (path_or_root (lookup fid fids)) names;
                  qid = or_root_qid root (get_last? qids);
                })
                fids,
          ))
        × (length qids ≡ length names)
  unfolding plain_walked
  plain_walk-found root fids h =
      let (qids, w, len) = walk_path-there v (path_or_root (lookup fid fids)) names h in
      (
        qids,
        rw (plain_walk-names root fids, w, plain_walked, len, mod-eq_of_lt names_fit) refl,
        len,
      )

  -- A walk by fewer than 2 ^ 16 texts, in devfs or netfs, on which some path is missing: the reply is an error,
  -- and no fid changes.
  pub plain_walk-missing :
      (root : Str) (fids : PlainFids)
      → (AllThere v (path_or_root (lookup fid fids)) names → ⊥)
      → plain_walk root v (encode_walk_body fid newfid names) fids
        ≡ ok (error_reply (bytes "walk failed"), fids)
  unfolding plain_walked
  plain_walk-missing root fids h =
      rw
        (
          plain_walk-names root fids,
          walk_path-missing v (path_or_root (lookup fid fids)) names h,
          plain_walked,
        )
        refl
