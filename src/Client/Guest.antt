-- ===== src/Client/Guest.antt =====
-- The client of tools/plan9_qemu_client/src/main.rs against the server of libs/planten_fs_ramfs/src/server.rs.
use planten.Base.{
  List, ℕ, ◌≡◌, refl, ap, ◌∙◌, arith, true, ok, some, inr, [], ◌∷◌, ◌++◌, Str, bytes, length, take,
  lookup, insert, remove, none,
}
use planten.Fs.Inode.{attrs}
use planten.Fs.FilePath.{components, split, non_empty}
use planten.Wire.Types.{Qid}
use planten.Wire.Messages.{
  tversion, tattach, twalk, topen, tread, tclunk, rversion, rattach, rwalk, ropen, rread, rclunk,
}
use planten.Wire.Bytes.{le_bytes, from_le_bytes, read_exact}
use planten.Wire.Framing.{framed}
use planten.Wire.Decode.{decode_u16, decode_u32, decode_string, decode_qid}
use planten.Wire.Encode.{
  encode_version_body, encode_attach_body, encode_walk_body, encode_open_body, encode_read_body,
  encode_clunk_body, encode_string, encode_names, encode_qid_bytes,
}
use planten.Wire.Utf8.{is_utf8}
use planten.Ramfs.Tree.{RamFs, list_dir, stat, stat_at}
use planten.Ramfs.Server.State.{
  FidState, Server, is_dir_mode, new_fid, qid_from_inode, build_version_body, read_u8,
}
use planten.Ramfs.Server.Files.{listing, read_fid, read_opened, read_path, read_data}
use planten.Base.{list_ext, get_elem?-take, length-take, ◌<◌, ◌^◌}
use planten.Ramfs.Server.Requests.{piece, piece_at, handle_read-encode_read_body}
use planten.Ramfs.Server.ReadBack.{read_chunk-fits}
use planten.Ramfs.Server.State.{mode_allows_read}
use planten.Client.ReadBack.{read_result-le_bytes}
use native.Mathlib.Nat.{mod-eq_of_lt}
use planten.Ramfs.Server.Handlers.{
  handle_version, handle_attach, attach_root, handle_walk, base_state, walk_names, finish_walk,
  walk_qid, handle_open, open_fid, open_inode, handle_clunk, concat_qids,
}
use planten.Ramfs.Server.Dispatch.{Env, dispatch}
use planten.Client.{read_result, version_result, walk_result, open_result, no_result, skip_qids}
use planten.Client.Peer.{ramfs_peer, client_of, call-ramfs_peer}
use planten.Client.Programs.{greet_guest}
use planten.Client.Operations.{version, attach, walk, open_file, clunk, read}

piece_zero : (n : ℕ) (bs : Str) → piece 0 n bs ≡ take n bs
piece_zero n bs = list_ext _ _ (λ i. ground (arith, piece_at 0 n bs i, get_elem?-take n bs i))

module _ (v : Env) (fs : RamFs) where
  abbrev pub with_fids : List (ℕ × FidState) → Server
  with_fids fids = record { fid_states = fids; ramfs = fs }

  abbrev pub root_qid : Qid
  root_qid = qid_from_inode v.hash (bytes "/") fs.root

  abbrev pub root_fid : FidState
  root_fid = new_fid (bytes "/") root_qid

  abbrev open_root : FidState
  open_root = record root_fid { open_mode = some 0 }

  version_sent :
      dispatch v (framed tversion 0 (encode_version_body 131072 (bytes "9P2000"))) (with_fids [])
      ≡ ok (
        record { msg_type = rversion; body = build_version_body 131072 (bytes "9P2000") },
        with_fids [],
      )
  unfolding dispatch handle_version decode_u32 decode_string encode_version_body le_bytes read_exact
      from_le_bytes decode_u16 is_utf8
  version_sent = refl

  pub versioned :
      version (ramfs_peer v) 131072 (bytes "9P2000") (client_of (with_fids []) 0)
      ≡ (ok (bytes "9P2000"), client_of (with_fids []) 1)
  unfolding version version_result build_version_body le_bytes decode_u32 decode_string read_exact
      from_le_bytes decode_u16 is_utf8 encode_version_body
  versioned =
      call-ramfs_peer v tversion rversion 0 _ (build_version_body 131072 (bytes "9P2000"))
        version_result (with_fids []) (with_fids []) (omega arith) (omega arith) (omega arith)
        version_sent

  attached :
      attach (ramfs_peer v) 0 none (bytes "guest") [] (client_of (with_fids []) 1)
      ≡ (ok tt, client_of (with_fids ((0, root_fid) ∷ [])) 2)
  unfolding attach dispatch handle_attach attach_root le_bytes decode_u32 decode_string read_exact
      from_le_bytes decode_u16 is_utf8 encode_attach_body encode_string stat stat_at components
      split non_empty insert encode_qid_bytes
  attached =
      call-ramfs_peer v tattach rattach 1 _ (encode_qid_bytes root_qid) no_result (with_fids [])
        (with_fids ((0, root_fid) ∷ [])) (omega arith) (omega arith) (omega arith) refl

  walked :
      walk (ramfs_peer v) 0 1 [] (client_of (with_fids ((0, root_fid) ∷ [])) 2)
      ≡ (ok 0, client_of (with_fids (insert 1 root_fid ((0, root_fid) ∷ []))) 3)
  unfolding walk dispatch handle_walk base_state walk_names finish_walk walk_qid le_bytes decode_u32
      read_exact from_le_bytes decode_u16 encode_walk_body encode_names stat stat_at components
      split non_empty insert concat_qids walk_result skip_qids lookup
  walked =
      call-ramfs_peer v twalk rwalk 2 _ (le_bytes 2 0) walk_result (with_fids ((0, root_fid) ∷ []))
        (with_fids (insert 1 root_fid ((0, root_fid) ∷ []))) (omega arith) (omega arith)
        (omega arith) refl

  opened :
      open_file
        (ramfs_peer v)
        1
        0
        (client_of (with_fids (insert 1 root_fid ((0, root_fid) ∷ []))) 3)
      ≡ (ok 0, client_of (with_fids (insert 1 open_root ((0, root_fid) ∷ []))) 4)
  unfolding open_file dispatch handle_open open_fid open_inode read_u8 le_bytes decode_u32
      read_exact from_le_bytes encode_open_body encode_qid_bytes stat stat_at components split
      non_empty insert open_result lookup decode_qid
  opened =
      call-ramfs_peer v topen ropen 3 _ (encode_qid_bytes root_qid ++ le_bytes 4 0) open_result
        (with_fids (insert 1 root_fid ((0, root_fid) ∷ [])))
        (with_fids (insert 1 open_root ((0, root_fid) ∷ []))) (omega arith) (omega arith)
        (omega arith) refl

  abbrev pub root_listing : Str
  root_listing = listing v.hash fs (bytes "/") (list_dir (bytes "/") fs)

  listing_fits : length (take 256 root_listing) < 2 ^ 32
  listing_fits = omega (arith, length-take 256 root_listing)

  abbrev opened_server : Server
  opened_server = with_fids (insert 1 open_root ((0, root_fid) ∷ []))

  root_data :
      is_dir_mode (attrs fs.root).mode ≡ true
      → read_data v.hash (bytes "/") fs (some fs.root) ≡ inr root_listing
  unfolding read_data
  root_data is_dir = rw is_dir refl

  root_read :
      is_dir_mode (attrs fs.root).mode ≡ true
      → read_path v.hash v.checks (bytes "/") 0 256 opened_server
        ≡ ok (
          record {
            msg_type = rread;
            body = le_bytes 4 (length (take 256 root_listing)) ++ take 256 root_listing;
          },
          opened_server,
        )
  unfolding read_path stat stat_at components split non_empty
  root_read is_dir =
      rw (read_path, root_data is_dir)
        (read_chunk-fits v.checks 0 256 root_listing opened_server (omega arith)
          ∙ rw (piece_zero 256 root_listing, mod-eq_of_lt listing_fits) refl)

  read_sent :
      is_dir_mode (attrs fs.root).mode ≡ true
      → dispatch v (framed tread 4 (encode_read_body 1 0 256)) opened_server
        ≡ ok (
          record {
            msg_type = rread;
            body = le_bytes 4 (length (take 256 root_listing)) ++ take 256 root_listing;
          },
          opened_server,
        )
  unfolding dispatch read_fid read_opened mode_allows_read lookup insert
  read_sent is_dir =
      handle_read-encode_read_body v.hash v.checks 1 0 256 opened_server (omega arith) (omega arith)
        (omega arith)
      ∙ root_read is_dir

  was_read :
      is_dir_mode (attrs fs.root).mode ≡ true
      → read (ramfs_peer v) 1 0 256 (client_of opened_server 4)
        ≡ (ok (take 256 root_listing), client_of opened_server 5)
  unfolding read le_bytes encode_read_body
  was_read is_dir =
      call-ramfs_peer v tread rread 4 _
        (le_bytes 4 (length (take 256 root_listing)) ++ take 256 root_listing) read_result
        opened_server opened_server (omega arith) (omega arith)
        (omega (arith, length-take 256 root_listing)) (read_sent is_dir)
      ∙ ap (λ r. (r, client_of opened_server 5))
          (read_result-le_bytes (take 256 root_listing) listing_fits)

  clunked :
      clunk (ramfs_peer v) 1 (client_of opened_server 5)
      ≡ (ok tt, client_of (with_fids ((0, root_fid) ∷ [])) 6)
  unfolding clunk dispatch handle_clunk le_bytes decode_u32 read_exact from_le_bytes
      encode_clunk_body insert remove
  clunked =
      call-ramfs_peer v tclunk rclunk 5 _ [] no_result opened_server
        (with_fids ((0, root_fid) ∷ [])) (omega arith) (omega arith) (omega arith) refl

  pub clunked_root :
      clunk (ramfs_peer v) 0 (client_of (with_fids ((0, root_fid) ∷ [])) 6)
      ≡ (ok tt, client_of (with_fids []) 7)
  unfolding clunk dispatch handle_clunk le_bytes decode_u32 read_exact from_le_bytes
      encode_clunk_body remove
  clunked_root =
      call-ramfs_peer v tclunk rclunk 6 _ [] no_result (with_fids ((0, root_fid) ∷ []))
        (with_fids []) (omega arith) (omega arith) (omega arith) refl

  -- The whole program of the QEMU client succeeds against the server of the in-memory file system, where the
  -- root is a directory: it walks over no name, and reads the first 256 bytes of the root's listing, or all of
  -- it.
  pub greet_guest-listing :
      is_dir_mode (attrs fs.root).mode ≡ true
      → greet_guest (ramfs_peer v) (client_of (with_fids []) 0)
        ≡ ok (record { version = bytes "9P2000"; walked = 0; payload = take 256 root_listing })
  unfolding greet_guest
  greet_guest-listing is_dir =
      rw (versioned, attached, walked, opened, was_read is_dir, clunked, clunked_root) refl
