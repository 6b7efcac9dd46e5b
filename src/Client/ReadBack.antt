-- ===== src/Client/ReadBack.antt =====
-- A write and a read by the client of libs/planten_9p/src/lib.rs, through frames, against the server of
-- libs/planten_fs_ramfs/src/server.rs.
use planten.Base.{ℕ, ◌+◌, ◌%◌, ◌^◌, ◌<◌, ◌≡◌, ◌≢◌, refl, ap, ◌∙◌, arith, true, false, some, ok}
use planten.Base.{[], ◌++◌, Str, length, lookup, length-append, append-nil}
use planten.Wire.Bytes.{le_bytes, length-le_bytes, read_exact, read_exact-append}
use planten.Wire.Encode.{encode_read_body, encode_write_body}
use planten.Wire.RoundTrip.{decode_u32-le_bytes}
use planten.Wire.Messages.{tread, twrite, rread, rwrite}
use planten.Wire.Framing.{framed}
use planten.Fs.Inode.{Inode, attrs}
use planten.Fs.FilePath.{components}
use planten.Ramfs.Tree.{stat}
use planten.Ramfs.Server.State.{FidState, Server, is_dir_mode, mode_allows_read, mode_allows_write}
use planten.Ramfs.Server.Files.{handle_read, handle_write}
use planten.Ramfs.Server.Dispatch.{Env, dispatch}
use planten.Ramfs.Server.ReadBack.{read_after_write}
use planten.Client.{read_result, write_result}
use planten.Client.Operations.{read, write}
use planten.Client.Peer.{ramfs_peer, client_of, call-ramfs_peer}
use mathlib.Core.Path.{subst}

write_result-le_bytes : (n : ℕ) → n < 2 ^ 32 → write_result (le_bytes 4 n) ≡ ok n
unfolding write_result
write_result-le_bytes n h =
    subst (λ b. write_result b ≡ ok n) (append-nil (le_bytes 4 n))
      (rw (write_result, decode_u32-le_bytes n [] h) refl)

pub read_result-le_bytes :
    (bs : Str) → length bs < 2 ^ 32 → read_result (le_bytes 4 (length bs) ++ bs) ≡ ok bs
unfolding read_result
read_result-le_bytes bs h =
    rw
      (
        decode_u32-le_bytes (length bs) bs h,
        subst (λ c. read_exact (length bs) c ≡ ok (bs, [])) (append-nil bs)
            (read_exact-append bs []),
      )
      refl

dispatch-twrite :
    (v : Env) (tag : ℕ) (body : Str) (s : Server)
    → dispatch v (framed twrite tag body) s ≡ handle_write v.checks (v.now 0) body s
unfolding dispatch
dispatch-twrite v tag body s = refl

dispatch-tread :
    (v : Env) (tag : ℕ) (body : Str) (s : Server)
    → dispatch v (framed tread tag body) s ≡ handle_read v.hash v.checks body s
unfolding dispatch
dispatch-tread v tag body s = refl

length-encode_write_body :
    (fid offset : ℕ) (bs : Str) → length (encode_write_body fid offset bs) ≡ 16 + length bs
unfolding encode_write_body le_bytes
length-encode_write_body fid offset bs = omega arith

length-encode_read_body : (fid offset count : ℕ) → length (encode_read_body fid offset count) ≡ 16
unfolding encode_read_body le_bytes
length-encode_read_body fid offset count = refl

module _ (v : Env) (fid offset mode tag : ℕ) (bs : Str) (s : Server) (st : FidState) (m : Inode)
    (used : lookup fid s.fid_states ≡ some st) (opened : st.open_mode ≡ some mode)
    (reads : mode_allows_read mode ≡ true) (writes : mode_allows_write mode ≡ true)
    (below_root : components st.path ≢ []) (found : stat st.path s.ramfs ≡ some m)
    (is_file : is_dir_mode (attrs m).mode ≡ false) (fid_fits : fid < 2 ^ 32)
    (tag_fits : tag < 2 ^ 16) (frame_fits : 23 + length bs < 2 ^ 32)
    (fits : offset + length bs < 2 ^ 63) where
  -- A client whose fid is open for reading and writing, on a path that is not the root and leads to a
  -- file, writes bytes that fit a frame and end below 2 ^ 63, and reads the same range: the write
  -- returns their number, the read returns them, and each took one tag.
  pub read-write :
      (s' : Server) × (write (ramfs_peer v) fid offset bs (client_of s tag)
        ≡ (ok (length bs), client_of s' ((tag + 1) % 2 ^ 16)))
      × (read (ramfs_peer v) fid offset (length bs) (client_of s' ((tag + 1) % 2 ^ 16))
          ≡ (ok bs, client_of s' (((tag + 1) % 2 ^ 16 + 1) % 2 ^ 16)))
  unfolding read write
  read-write =
      let (s', written, was_read) =
        read_after_write v.hash v.checks (v.now 0) fid offset mode bs s st m used opened reads
          writes below_root found is_file fid_fits (omega arith) fits in
      let tag' = (tag + 1) % 2 ^ 16 in
      (
        s',
        call-ramfs_peer v twrite rwrite tag (encode_write_body fid offset bs)
              (le_bytes 4 (length bs)) write_result s s' tag_fits
              (omega (arith, length-encode_write_body fid offset bs))
              (omega (arith, length-le_bytes 4 (length bs)))
              (dispatch-twrite v tag (encode_write_body fid offset bs) s ∙ written)
            ∙ ap (λ r. (r, client_of s' tag')) (write_result-le_bytes (length bs) (omega arith)),
        call-ramfs_peer v tread rread tag' (encode_read_body fid offset (length bs))
              (le_bytes 4 (length bs) ++ bs) read_result s' s' (omega arith)
              (omega (arith, length-encode_read_body fid offset (length bs)))
              (omega
                (arith, length-append (le_bytes 4 (length bs)) bs, length-le_bytes 4 (length bs)))
              (dispatch-tread v tag' (encode_read_body fid offset (length bs)) s' ∙ was_read)
            ∙ ap (λ r. (r, client_of s' ((tag' + 1) % 2 ^ 16)))
                (read_result-le_bytes bs (omega arith)),
      )
