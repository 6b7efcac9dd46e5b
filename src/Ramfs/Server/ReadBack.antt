-- ===== src/Ramfs/Server/ReadBack.antt =====
-- A write and a read through one fid of the server of libs/planten_fs_ramfs/src/server.rs.
use planten.Base.{ℕ, ◌+◌, ◌%◌, ◌^◌, ◌<◌, ◌≡◌, ◌≢◌, refl, arith, Bool, true, false}
use planten.Base.{Option, some, ok, inr, [], ◌++◌, Str, length, lookup}
use planten.Base.{get_elem?, get_elem?-none, list_ext, lt→ltb}
use planten.Wire.Bytes.{le_bytes}
use planten.Wire.Encode.{encode_read_body, encode_write_body}
use planten.Wire.Messages.{rread, rwrite}
use planten.Fs.Inode.{Inode, node, attrs, contents}
use planten.Fs.FilePath.{components}
use planten.Ramfs.Bytes.{add_usize}
use planten.Ramfs.Contents.{byte_after}
use planten.Ramfs.Tree.{RamFs, stat, write}
use planten.Ramfs.Files.{read_file-stat, stat-write, with_write}
use planten.Ramfs.Server.State.{FidState, Server, is_dir_mode, mode_allows_read, mode_allows_write}
use planten.Ramfs.Server.Files.{
  read_chunk, read_data, read_path, read_opened, read_fid, handle_read,
}
use planten.Ramfs.Server.Files.{or_zero, write_path, write_opened, write_fid, handle_write}
use planten.Ramfs.Server.Requests.{
  piece, piece_at, chunk-piece, handle_write-encode_write_body, handle_read-encode_read_body,
}
use native.Mathlib.Nat.{mod-eq_of_lt}

-- The range that was written holds what was written.
piece-byte_after :
    (offset : ℕ) (bs old file : Str)
    → ((i : ℕ) → get_elem? file i ≡ byte_after offset bs old i)
    → piece offset (length bs) file ≡ bs
piece-byte_after offset bs old file h =
    list_ext _ bs
      λ i. ground (arith, piece_at offset (length bs) file i, h (offset + i), get_elem?-none bs i)

pub read_chunk-fits :
    (checks : Bool) (offset count : ℕ) (file : Str) (s : Server)
    → offset + count < 2 ^ 64
    → read_chunk checks offset count file s ≡ (
        let part = piece offset count file in
        ok (record { msg_type = rread; body = le_bytes 4 (length part % 2 ^ 32) ++ part }, s))
unfolding read_chunk add_usize
read_chunk-fits checks offset count file s h = rw (lt→ltb _ _ h, chunk-piece offset count file) refl

file-with_write :
    (now : ℕ) (file : Str) (m : Inode)
    → is_dir_mode (attrs m).mode ≡ false
    → is_dir_mode (attrs (with_write now file m)).mode ≡ false
file-with_write now file (node a cs) h = h

contents-with_write : (now : ℕ) (file : Str) (m : Inode) → contents (with_write now file m) ≡ file
contents-with_write now file (node a cs) = refl

-- The bytes behind a path that leads to a file.
read_data-file :
    (hash : Str → ℕ → ℕ) (path : Str) (fs : RamFs) (m : Inode)
    → components path ≢ []
    → stat path fs ≡ some m
    → is_dir_mode (attrs m).mode ≡ false
    → read_data hash path fs (some m) ≡ inr (contents m)
unfolding read_data
read_data-file hash path fs m h e d = rw (d, read_file-stat path fs m h e)

pub write_fid-opened :
    (checks : Bool) (now offset mode : ℕ) (bs : Str) (s : Server) (st : FidState) (r : Option ℕ)
    (fs : RamFs)
    → st.open_mode ≡ some mode
    → mode_allows_write mode ≡ true
    → write checks now st.path offset bs s.ramfs ≡ ok (r, fs)
    → write_fid checks now (some st) offset bs s
      ≡ ok (record { msg_type = rwrite; body = le_bytes 4 (or_zero r) }, record s { ramfs = fs })
unfolding write_fid write_opened write_path
write_fid-opened checks now offset mode bs s st r fs opened writes w =
    rw (opened, write_opened, writes, w) refl

pub read_fid-opened :
    (hash : Str → ℕ → ℕ) (checks : Bool) (offset count mode : ℕ) (s : Server) (st : FidState)
    (m : Inode)
    → st.open_mode ≡ some mode
    → mode_allows_read mode ≡ true
    → components st.path ≢ []
    → stat st.path s.ramfs ≡ some m
    → is_dir_mode (attrs m).mode ≡ false
    → offset + count < 2 ^ 64
    → read_fid hash checks (some st) offset count s ≡ (
        let part = piece offset count (contents m) in
        ok (record { msg_type = rread; body = le_bytes 4 (length part % 2 ^ 32) ++ part }, s))
unfolding read_fid read_opened read_path
read_fid-opened hash checks offset count mode s st m opened reads below found is_file fits =
    rw
      (
        opened,
        read_opened,
        reads,
        found,
        read_data-file hash st.path s.ramfs m below found is_file,
        read_path,
      )
      (read_chunk-fits checks offset count (contents m) s fits)

module _ (hash : Str → ℕ → ℕ) (checks : Bool) (now fid offset mode : ℕ) (bs : Str) (s : Server)
    (st : FidState) (m : Inode) (used : lookup fid s.fid_states ≡ some st)
    (opened : st.open_mode ≡ some mode) (reads : mode_allows_read mode ≡ true)
    (writes : mode_allows_write mode ≡ true) (below_root : components st.path ≢ [])
    (found : stat st.path s.ramfs ≡ some m) (is_file : is_dir_mode (attrs m).mode ≡ false)
    (fid_fits : fid < 2 ^ 32) (bs_fits : length bs < 2 ^ 32)
    (fits : offset + length bs < 2 ^ 63) where
  -- Through a fid below 2 ^ 32 that is open for reading and writing, on a path that is not the root and
  -- leads to a file: a write of fewer than 2 ^ 32 bytes that ends below 2 ^ 63 is answered with its
  -- count, and a read of the same range is then answered with the bytes that were written.
  pub read_after_write :
      (s' : Server) × (handle_write checks now (encode_write_body fid offset bs) s
        ≡ ok (record { msg_type = rwrite; body = le_bytes 4 (length bs) }, s'))
      × (handle_read hash checks (encode_read_body fid offset (length bs)) s'
          ≡ ok (record { msg_type = rread; body = le_bytes 4 (length bs) ++ bs }, s'))
  read_after_write =
      let (fs', file, w, e, len, at, beside) =
        stat-write checks now st.path offset bs s.ramfs m below_root found fits in
      let s' = record s { ramfs = fs' } in
      let body = le_bytes 4 (length bs) in
      let written =
        write_fid-opened checks now offset mode bs s st (some (length bs % 2 ^ 32)) fs' opened
          writes w in
      let was_read =
        read_fid-opened hash checks offset (length bs) mode s' st (with_write now file m) opened
          reads below_root e (file-with_write now file m is_file) (omega arith) in
      (
        s',
        rw
            (
              handle_write-encode_write_body checks now fid offset bs s fid_fits (omega arith)
                  bs_fits,
              used,
              written,
              mod-eq_of_lt bs_fits,
            )
            refl,
        rw
            (
              handle_read-encode_read_body hash checks fid offset (length bs) s' fid_fits
                  (omega arith) bs_fits,
              used,
              was_read,
              contents-with_write now file m,
              piece-byte_after offset bs (contents m) file at,
              mod-eq_of_lt bs_fits,
            )
            refl,
      )
