-- ===== src/Ramfs/Server/Changes.antt =====
-- The handlers of libs/planten_fs_ramfs/src/server.rs that change the file system, against the contract.
use planten.Base.{ℕ, ◌≡◌, refl, Bool, Option, none, some, Str}
use planten.Base.{Res, ok, err, panic, Bool-cases, inl, inr, lookup}
use planten.Base.{Option-cases, ErrorKind, unwrap}
use planten.Wire.Bytes.{read_exact}
use planten.Wire.Types.{Stat}
use planten.Wire.Decode.{decode_stat}
use planten.Ramfs.Tree.{stat, write, remove_path}
use planten.Ramfs.Wstat.{wstat_from_stat}
use planten.Ramfs.Server.Resolve.{resolve_step}
use planten.Ramfs.Server.State.{FidState, Server, read_u8, read_u32, read_u64, read_string}
use planten.Ramfs.Server.State.{mode_allows_write}
use planten.Ramfs.Server.Files.{
  outcome, remove_fid, handle_remove, set_stat, wstat_decoded, wstat_fid,
}
use planten.Ramfs.Server.Files.{handle_wstat, write_path, write_opened, write_fid, handle_write}
use planten.Ramfs.Server.Files.{made, create_new, create_at, create_fid, handle_create}
use planten.Ramfs.Server.Step.{
  Step, Asks, AsksWrite, AsksCreate, refused, wrote, changed, removed, created,
}
use planten.Ramfs.Server.Step.{Ensures, Ensures-bind}
use planten.Wire.Messages.{twrite, twstat, tremove, tcreate}
use planten.Wire.Types.{RawMessage}
use planten.Ramfs.Server.State.{Reply}

outcome-Step :
    (m : RawMessage) (s t : Server) (msg_type : ℕ) (message : Str) (r : Option (Unit {0}))
    → ((x : Reply) → Step m s x t)
    → Ensures (Step m s) (outcome msg_type message r t)
outcome-Step m s t msg_type message none h = h _
outcome-Step m s t msg_type message (some _) h = h _

pub handle_remove-Step :
    (m : RawMessage) (s : Server)
    → m.msg_type ≡ tremove
    → Ensures (Step m s) (handle_remove m.body s)
unfolding handle_remove
handle_remove-Step m s t =
    Ensures-bind (Step m s) (read_u32 m.body) _
      λ (fid, c) d. go fid c (record { asked = t; decoded = d }) (lookup fid s.fid_states) refl
  where
    go :
        (fid : ℕ) (c : Str)
        → Asks m tremove fid c
        → (o : Option FidState) → lookup fid s.fid_states ≡ o
        → Ensures (Step m s) (remove_fid fid o s)
    go fid c a none e = unfold remove_fid in refused refl
    go fid c a (some st) e =
        unfold remove_fid in
        Ensures-bind (Step m s) (remove_path st.path s.ramfs) _
          λ (r, fs) w. outcome-Step m s _ _ _ r (λ x. removed fid st c r fs a e w)

pub handle_wstat-Step :
    (text : ErrorKind → Str) (m : RawMessage) (s : Server)
    → m.msg_type ≡ twstat
    → Ensures (Step m s) (handle_wstat text m.body s)
unfolding handle_wstat
handle_wstat-Step text m s t =
    Ensures-bind (Step m s) (read_u32 m.body) _
      λ (fid, c) d. go fid c (record { asked = t; decoded = d }) (lookup fid s.fid_states) refl
  where
    decoded_as :
        (fid : ℕ) (c : Str) (st : FidState)
        → Asks m twstat fid c
        → lookup fid s.fid_states ≡ some st
        → (d : Res (Stat × Str)) → decode_stat c ≡ d
        → Ensures (Step m s) (wstat_decoded text st.path d s)
    decoded_as fid c st a e (ok (to, c')) q =
        unfold wstat_decoded set_stat in
        Ensures-bind (Step m s) (wstat_from_stat st.path to s.ramfs) _
          λ (r, fs) w. outcome-Step m s _ _ _ r (λ x. changed fid st c c' to r fs a q e w)
    decoded_as fid c st a e (err x) q = unfold wstat_decoded in refused refl
    decoded_as fid c st a e panic q = unfold wstat_decoded in tt

    go :
        (fid : ℕ) (c : Str)
        → Asks m twstat fid c
        → (o : Option FidState) → lookup fid s.fid_states ≡ o
        → Ensures (Step m s) (wstat_fid text c o s)
    go fid c a none e = unfold wstat_fid in refused refl
    go fid c a (some st) e = unfold wstat_fid in decoded_as fid c st a e (decode_stat c) refl

write_opened-Step :
    (checks : Bool) (now : ℕ) (m : RawMessage) (s : Server) (fid offset : ℕ) (buffer : Str)
    (st : FidState) (mode : Option ℕ)
    → AsksWrite m fid offset buffer
    → lookup fid s.fid_states ≡ some st
    → st.open_mode ≡ mode
    → Ensures (Step m s) (write_opened checks now st.path mode offset buffer s)
unfolding write_opened write_path
write_opened-Step checks now m s fid offset buffer st none a e o = refused refl
write_opened-Step checks now m s fid offset buffer st (some mode) a e o =
    elim (Bool-cases (mode_allows_write mode)) [
      | inl allows ↦ rw allows (
          Ensures-bind (Step m s) (write checks now st.path offset buffer s.ramfs) _ λ (r, fs) w.
            wrote fid st checks now offset buffer r fs a
              (record { mode = mode; used = e; opened = o; allows = allows }) w refl)
      | inr forbids ↦ rw forbids (refused refl)
    ]

write_fid-Step :
    (checks : Bool) (now : ℕ) (m : RawMessage) (s : Server) (fid offset : ℕ) (buffer : Str)
    (o : Option FidState)
    → AsksWrite m fid offset buffer
    → lookup fid s.fid_states ≡ o
    → Ensures (Step m s) (write_fid checks now o offset buffer s)
unfolding write_fid
write_fid-Step checks now m s fid offset buffer none a e = refused refl
write_fid-Step checks now m s fid offset buffer (some st) a e =
    write_opened-Step checks now m s fid offset buffer st st.open_mode a e refl

pub handle_write-Step :
    (checks : Bool) (now : ℕ) (m : RawMessage) (s : Server)
    → m.msg_type ≡ twrite
    → Ensures (Step m s) (handle_write checks now m.body s)
unfolding handle_write
handle_write-Step checks now m s t = Ensures-bind (Step m s) (read_u32 m.body) _ λ (fid, c1) d1.
    Ensures-bind (Step m s) (read_u64 c1) _ λ (offset, c2) d2.
      Ensures-bind (Step m s) (read_u32 c2) _ λ (count, c3) d3.
        Ensures-bind (Step m s) (read_exact count c3) _ λ (buffer, c4) d4.
          write_fid-Step checks now m s fid offset buffer (lookup fid s.fid_states)
            (record {
              behind_fid = c1;
              behind_offset = c2;
              behind_count = c3;
              rest = c4;
              count = count;
              asks = record { asked = t; decoded = d1 };
              offset_decoded = d2;
              count_decoded = d3;
              bytes_read = d4;
            })
            refl

module _ (hash : Str → ℕ → ℕ) where
  create_at-Step :
      (now : ℕ → ℕ) (m : RawMessage) (s : Server) (fid perm : ℕ) (name : Str) (st : FidState)
      (o : Option Str)
      → AsksCreate m fid name perm
      → lookup fid s.fid_states ≡ some st
      → resolve_step st.path name ≡ o
      → Ensures (Step m s) (create_at hash now perm o s)
  unfolding create_at create_new
  create_at-Step now m s fid perm name st none a l p = refused refl
  create_at-Step now m s fid perm name st (some path) a l p =
      elim (Option-cases (stat path s.ramfs)) [
        | inl e ↦ rw e (
            Ensures-bind (Step m s) (unwrap (stat path (made now perm path s.ramfs))) _
              λ inode _. created fid st name now perm path a l p e refl)
        | inr (n, e) ↦ rw e (refused refl)
      ]

  create_fid-Step :
      (now : ℕ → ℕ) (m : RawMessage) (s : Server) (fid perm : ℕ) (name : Str) (o : Option FidState)
      → AsksCreate m fid name perm
      → lookup fid s.fid_states ≡ o
      → Ensures (Step m s) (create_fid hash now perm name o s)
  unfolding create_fid
  create_fid-Step now m s fid perm name none a l = refused refl
  create_fid-Step now m s fid perm name (some st) a l =
      create_at-Step now m s fid perm name st (resolve_step st.path name) a l refl

  pub handle_create-Step :
      (now : ℕ → ℕ) (m : RawMessage) (s : Server)
      → m.msg_type ≡ tcreate
      → Ensures (Step m s) (handle_create hash now m.body s)
  unfolding handle_create
  handle_create-Step now m s t = Ensures-bind (Step m s) (read_u32 m.body) _ λ (fid, c1) d1.
      Ensures-bind (Step m s) (read_string c1) _ λ (name, c2) d2.
        Ensures-bind (Step m s) (read_u32 c2) _ λ (perm, c3) d3.
          Ensures-bind (Step m s) (read_u8 c3) _ λ (mode, c4) _.
            create_fid-Step now m s fid perm name (lookup fid s.fid_states)
              (record {
                behind_fid = c1;
                behind_name = c2;
                rest = c3;
                asks = record { asked = t; decoded = d1 };
                name_decoded = d2;
                perm_decoded = d3;
              })
              refl
