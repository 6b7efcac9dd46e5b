-- ===== src/Ramfs/Server/Overflow.antt =====
-- Writes past the longest vector, through `handle_write` of libs/planten_fs_ramfs/src/server.rs.
use planten.Base.{ℕ, ◌+◌, ◌^◌, ◌≤◌, ◌<◌, ◌≡◌, ◌≢◌, refl, Bool, true, some, panic}
use planten.Base.{List, [], ◌∷◌, Str, length, lookup}
use planten.Wire.Encode.{encode_write_body}
use planten.Fs.Inode.{Inode, node, contents}
use planten.Fs.FilePath.{components}
use planten.Ramfs.Contents.{write_contents-panic}
use planten.Ramfs.Tree.{RamFs, stat, stat_at, write, write_at, write_node}
use planten.Ramfs.Update.{update_at-found}
use planten.Ramfs.Server.State.{FidState, Server, mode_allows_write}
use planten.Ramfs.Server.Files.{write_path, write_opened, write_fid, handle_write}
use planten.Ramfs.Server.Requests.{handle_write-encode_write_body}

write_at-panic :
    (checks : Bool) (now : ℕ) (p : List Str) (offset : ℕ) (bs : Str) (fs : RamFs) (m : Inode)
    → p ≢ []
    → stat_at p fs.root ≡ some m
    → write_node checks now offset bs m ≡ panic
    → write_at checks now p offset bs fs ≡ panic
unfolding write_at
write_at-panic checks now [] offset bs fs m h e w = absurd (h refl)
write_at-panic checks now (c ∷ p) offset bs fs m h e w =
    rw (update_at-found (c ∷ p) (write_node checks now offset bs) fs.root m e, w) refl

write_node-panic :
    (checks : Bool) (now offset : ℕ) (bs : Str) (m : Inode)
    → offset < 2 ^ 64
    → length bs < 2 ^ 32
    → length (contents m) < 2 ^ 63
    → 2 ^ 63 ≤ offset + length bs
    → write_node checks now offset bs m ≡ panic
unfolding write_node
write_node-panic checks now offset bs (node a cs) ho hb hf h =
    rw (write_contents-panic checks offset bs a.contents ho hb hf h) refl

-- A write request to an existing inode other than the root, through a fid that is open for writing, whose
-- range ends at 2 ^ 63 or later: the handler panics, in a build with overflow checks or without.
pub handle_write-panic :
    (checks : Bool) (now fid offset mode : ℕ) (bs : Str) (s : Server) (st : FidState) (m : Inode)
    → lookup fid s.fid_states ≡ some st
    → st.open_mode ≡ some mode
    → mode_allows_write mode ≡ true
    → components st.path ≢ []
    → stat st.path s.ramfs ≡ some m
    → fid < 2 ^ 32
    → offset < 2 ^ 64
    → length bs < 2 ^ 32
    → length (contents m) < 2 ^ 63
    → 2 ^ 63 ≤ offset + length bs
    → handle_write checks now (encode_write_body fid offset bs) s ≡ panic
unfolding write_fid write_opened write_path write stat
handle_write-panic checks now fid offset mode bs s st m used opened writes below found hfid ho hb hf
      h =
    rw
      (
        handle_write-encode_write_body checks now fid offset bs s hfid ho hb,
        used,
        write_fid,
        opened,
        write_opened,
        writes,
        write_path,
        write_at-panic checks now (components st.path) offset bs s.ramfs m below found
            (write_node-panic checks now offset bs m ho hb hf h),
      )
      refl
