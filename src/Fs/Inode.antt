-- ===== src/Fs/Inode.antt =====
-- `Inode` and `Inode::new` of libs/planten_fs_core/src/lib.rs.
use planten.Base.{ℕ, Str, []}

-- The fields other than `children`; `contents` is `data`.
pub record Attrs : Type 0 where
  pub name : Str
  pub contents : Str
  pub mode : ℕ
  pub uid : Str
  pub gid : Str
  pub atime : ℕ
  pub mtime : ℕ

-- `HashMap<String, Inode>` as an association list: `add k n rest` holds `n` under `k`.
mutual
  pub data Inode : Type 0 where
    node : Attrs → Children → Inode

  pub data Children : Type 0 where
    empty : Children
    add : Str → Inode → Children → Children

abbrev pub attrs : Inode → Attrs
attrs (node a cs) = a

abbrev pub children : Inode → Children
children (node a cs) = cs

abbrev pub name : Inode → Str
name n = (attrs n).name

abbrev pub contents : Inode → Str
contents n = (attrs n).contents

-- The bit of a mode that marks a directory.
abbrev pub dmdir : ℕ
dmdir = 0x80000000

-- `Inode::new`, at the time `now`.
unfoldable pub new : ℕ → Str → ℕ → Str → Str → Inode
new now name mode uid gid =
    node
      (record {
        name = name;
        contents = [];
        mode = mode;
        uid = uid;
        gid = gid;
        atime = now;
        mtime = now;
      })
      empty
