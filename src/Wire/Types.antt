-- ===== src/Wire/Types.antt =====
-- The structs of libs/planten_9p/src/lib.rs, and the ranges of their fields' Rust types.
use planten.Base.{ℕ, ◌<◌, ◌^◌, ◌≡◌, true, Str, length}
use planten.Wire.Utf8.{is_utf8}

pub record RawMessage : Type 0 where
  pub size : ℕ
  pub msg_type : ℕ
  pub tag : ℕ
  pub body : Str

pub record Qid : Type 0 where
  pub qtype : ℕ
  pub version : ℕ
  pub path : ℕ

pub record Stat : Type 0 where
  pub type_ : ℕ
  pub dev : ℕ
  pub qid : Qid
  pub mode : ℕ
  pub atime : ℕ
  pub mtime : ℕ
  pub length : ℕ
  pub name : Str
  pub uid : Str
  pub gid : Str
  pub muid : Str

-- The values that a `Qid` can hold.
pub record QidFits (q : Qid) : Type 0 where
  pub qtype : q.qtype < 256
  pub version : q.version < 2 ^ 32
  pub path : q.path < 2 ^ 64

-- A `String` whose length fits the two bytes before it.
pub record StrFits (s : Str) : Type 0 where
  pub len : length s < 2 ^ 16
  pub utf8 : is_utf8 s ≡ true

-- The values that a `Stat` can hold, with names short enough for their length prefixes.
pub record StatFits (s : Stat) : Type 0 where
  pub type_ : s.type_ < 2 ^ 16
  pub dev : s.dev < 2 ^ 32
  pub qid : QidFits s.qid
  pub mode : s.mode < 2 ^ 32
  pub atime : s.atime < 2 ^ 32
  pub mtime : s.mtime < 2 ^ 32
  pub length : s.length < 2 ^ 64
  pub name : StrFits s.name
  pub uid : StrFits s.uid
  pub gid : StrFits s.gid
  pub muid : StrFits s.muid
