-- ===== src/Client/Operations.antt =====
-- The operations of `P9Client` in libs/planten_9p/src/lib.rs, each a request and what its reply holds.
use planten.Base.{ℕ, Option, Res, List, Str}
use planten.Wire.Types.{Qid, Stat}
use planten.Wire.Encode.{
  encode_version_body, encode_auth_body, encode_attach_body, encode_walk_body,
}
use planten.Wire.Encode.{encode_open_body, encode_create_body, encode_read_body, encode_write_body}
use planten.Wire.Encode.{encode_clunk_body, encode_stat_body, encode_wstat_body, encode_remove_body}
use planten.Wire.Encode.{encode_flush_body}
use planten.Wire.Messages.{
  tversion, tauth, tattach, twalk, topen, tcreate, tread, twrite, tclunk, tstat, twstat,
}
use planten.Wire.Messages.{
  tremove, tflush, rversion, rauth, rattach, rwalk, ropen, rcreate, rread, rwrite,
}
use planten.Wire.Messages.{rclunk, rstat, rwstat, rremove, rflush}
use planten.Client.{
  P9Client, version_result, auth_result, walk_result, open_result, create_result, read_result,
}
use planten.Client.{write_result, stat_result, no_result, call}

module _ {C : Type 0} (answer : Str → C → Str × C) where
  unfoldable pub version : ℕ → Str → P9Client C → Res Str × P9Client C
  version msize text c =
      call answer tversion rversion (encode_version_body msize text) version_result c

  unfoldable pub auth : ℕ → Str → Str → P9Client C → Res Qid × P9Client C
  auth afid uname aname c =
      call answer tauth rauth (encode_auth_body afid uname aname) auth_result c

  unfoldable pub attach : ℕ → Option ℕ → Str → Str → P9Client C → Res (Unit {0}) × P9Client C
  attach fid afid uname aname c =
      call answer tattach rattach (encode_attach_body fid afid uname aname) no_result c

  unfoldable pub walk : ℕ → ℕ → List Str → P9Client C → Res ℕ × P9Client C
  walk fid newfid names c =
      call answer twalk rwalk (encode_walk_body fid newfid names) walk_result c

  -- `open`
  unfoldable pub open_file : ℕ → ℕ → P9Client C → Res ℕ × P9Client C
  open_file fid mode c = call answer topen ropen (encode_open_body fid mode) open_result c

  unfoldable pub create : ℕ → Str → ℕ → ℕ → P9Client C → Res (Qid × ℕ) × P9Client C
  create fid name perm mode c =
      call answer tcreate rcreate (encode_create_body fid name perm mode) create_result c

  unfoldable pub read : ℕ → ℕ → ℕ → P9Client C → Res Str × P9Client C
  read fid offset count c =
      call answer tread rread (encode_read_body fid offset count) read_result c

  unfoldable pub write : ℕ → ℕ → Str → P9Client C → Res ℕ × P9Client C
  write fid offset bs c = call answer twrite rwrite (encode_write_body fid offset bs) write_result c

  unfoldable pub clunk : ℕ → P9Client C → Res (Unit {0}) × P9Client C
  clunk fid c = call answer tclunk rclunk (encode_clunk_body fid) no_result c

  unfoldable pub stat : ℕ → P9Client C → Res Stat × P9Client C
  stat fid c = call answer tstat rstat (encode_stat_body fid) stat_result c

  unfoldable pub wstat : ℕ → Stat → P9Client C → Res (Unit {0}) × P9Client C
  wstat fid st c = call answer twstat rwstat (encode_wstat_body fid st) no_result c

  unfoldable pub remove : ℕ → P9Client C → Res (Unit {0}) × P9Client C
  remove fid c = call answer tremove rremove (encode_remove_body fid) no_result c

  unfoldable pub flush : ℕ → P9Client C → Res (Unit {0}) × P9Client C
  flush oldtag c = call answer tflush rflush (encode_flush_body oldtag) no_result c
