-- ===== src/Ramfs/Server/Reads.antt =====
-- The handlers of libs/planten_fs_ramfs/src/server.rs that read the file system, against the contract.
use planten.Base.{ℕ, min, length, ◌≡◌, refl, Bool, Option, none, some, Str}
use planten.Base.{Bool-cases, inl, inr, ◌⊎◌, lookup}
use planten.Fs.Inode.{Inode}
use planten.Ramfs.Bytes.{add_usize}
use planten.Ramfs.Tree.{stat}
use planten.Ramfs.Server.State.{Reply, FidState, Server, read_u32, read_u64}
use planten.Ramfs.Server.State.{send_error, mode_allows_read}
use planten.Ramfs.Server.Files.{read_chunk, chunk}
use planten.Ramfs.Server.Files.{
  stat_path, stat_fid, handle_stat, read_data, read_path, read_opened, read_fid,
}
use planten.Ramfs.Server.Files.{handle_read}
use planten.Ramfs.Server.Step.{Step, refused, looked}
use planten.Ramfs.Server.Step.{Ensures, Ensures-bind}
use planten.Ramfs.Server.Step.{was_read, Asks}
use planten.Wire.Messages.{rread, tread, tstat}
use planten.Wire.Types.{RawMessage}

read_chunk-Step :
    (checks : Bool) (offset count : ℕ) (bs : Str) (m : RawMessage) (s : Server)
    → ((r : Reply) → r.msg_type ≡ rread → Step m s r s)
    → Ensures (Step m s) (read_chunk checks offset count bs s)
unfolding read_chunk
read_chunk-Step checks offset count bs m s k =
    Ensures-bind (Step m s) (add_usize checks offset count) _
      λ sum _. Ensures-bind (Step m s) (chunk offset (min sum (length bs)) bs) _ λ part _. k _ refl

module _ (hash : Str → ℕ → ℕ) where
  pub handle_stat-Step :
      (m : RawMessage) (s : Server)
      → m.msg_type ≡ tstat
      → Ensures (Step m s) (handle_stat hash m.body s)
  unfolding handle_stat
  handle_stat-Step m s t =
      Ensures-bind (Step m s) (read_u32 m.body) _ λ (fid, c) _. go (lookup fid s.fid_states)
    where
      found : (path : Str) (o : Option Inode) → Ensures (Step m s) (stat_path hash path o s)
      found path none = unfold stat_path in refused refl
      found path (some inode) = unfold stat_path in looked (rw t refl)

      go : (o : Option FidState) → Ensures (Step m s) (stat_fid hash o s)
      go none = unfold stat_fid in refused refl
      go (some st) = unfold stat_fid in found st.path (stat st.path s.ramfs)

  read_path-Step :
      (checks : Bool) (path : Str) (offset count : ℕ) (m : RawMessage) (s : Server)
      → ((r : Reply) → r.msg_type ≡ rread → Step m s r s)
      → Ensures (Step m s) (read_path hash checks path offset count s)
  unfolding read_path
  read_path-Step checks path offset count m s k =
      go (read_data hash path s.ramfs (stat path s.ramfs))
    where
      go :
          (d : Str ⊎ Str)
          → Ensures (Step m s) (elim d [
            | inl message ↦ send_error message s
            | inr bs ↦ read_chunk checks offset count bs s
          ])
      go (inl message) = refused refl
      go (inr bs) = read_chunk-Step checks offset count bs m s k

  read_opened-Step :
      (checks : Bool) (offset count : ℕ) (m : RawMessage) (s : Server) (fid : ℕ) (rest : Str)
      (st : FidState) (mode : Option ℕ)
      → Asks m tread fid rest
      → lookup fid s.fid_states ≡ some st
      → st.open_mode ≡ mode
      → Ensures (Step m s) (read_opened hash checks st.path mode offset count s)
  unfolding read_opened
  read_opened-Step checks offset count m s fid rest st none a l o = refused refl
  read_opened-Step checks offset count m s fid rest st (some mode) a l o =
      elim (Bool-cases (mode_allows_read mode)) [
        | inl allows ↦ rw allows (
            read_path-Step checks st.path offset count m s (λ r k.
              was_read fid rest st a (record { mode = mode; used = l; opened = o; allows = allows })
                k))
        | inr forbids ↦ rw forbids (refused refl)
      ]

  pub handle_read-Step :
      (checks : Bool) (m : RawMessage) (s : Server)
      → m.msg_type ≡ tread
      → Ensures (Step m s) (handle_read hash checks m.body s)
  unfolding handle_read
  handle_read-Step checks m s t = Ensures-bind (Step m s) (read_u32 m.body) _ λ (fid, c1) d.
      Ensures-bind (Step m s) (read_u64 c1) _ λ (offset, c2) _.
        Ensures-bind (Step m s) (read_u32 c2) _ λ (count, c3) _.
          go offset count fid c1 (record { asked = t; decoded = d }) (lookup fid s.fid_states) refl
    where
      go :
          (offset count fid : ℕ) (rest : Str)
          → Asks m tread fid rest
          → (o : Option FidState) → lookup fid s.fid_states ≡ o
          → Ensures (Step m s) (read_fid hash checks o offset count s)
      go offset count fid rest a none l = unfold read_fid in refused refl
      go offset count fid rest a (some st) l =
          unfold read_fid in
          read_opened-Step checks offset count m s fid rest st st.open_mode a l refl
