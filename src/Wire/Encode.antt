-- ===== src/Wire/Encode.antt =====
-- The `encode_*` functions of libs/planten_9p/src/lib.rs. `x as u16` is `x % 2 ^ 16`.
use planten.Base.{ℕ, ◌%◌, ◌^◌, List, [], ◌∷◌, ◌++◌, length, Option, none, some, Str}
use planten.Wire.Bytes.{le_bytes}
use planten.Wire.Types.{Qid, Stat}

unfoldable pub encode_string : Str → Str
encode_string value = le_bytes 2 (length value % 2 ^ 16) ++ value

unfoldable pub encode_qid_bytes : Qid → Str
encode_qid_bytes qid = qid.qtype ∷ (le_bytes 4 qid.version ++ le_bytes 8 qid.path)

-- The fields of a stat, without the length before them.
unfoldable pub stat_buf : Stat → Str
stat_buf stat =
    le_bytes 2 stat.type_
    ++ (le_bytes 4 stat.dev
        ++ (encode_qid_bytes stat.qid
            ++ (le_bytes 4 stat.mode
                ++ (le_bytes 4 stat.atime
                    ++ (le_bytes 4 stat.mtime
                        ++ (le_bytes 8 stat.length
                            ++ (encode_string stat.name
                                ++ (encode_string stat.uid
                                    ++ (encode_string stat.gid ++ encode_string stat.muid)))))))))

unfoldable pub encode_stat_payload : Stat → Str
encode_stat_payload stat = le_bytes 2 (length (stat_buf stat) % 2 ^ 16) ++ stat_buf stat

unfoldable pub encode_version_body : ℕ → Str → Str
encode_version_body msize version =
    le_bytes 4 msize ++ (le_bytes 2 (length version % 2 ^ 16) ++ version)

unfoldable pub encode_auth_body : ℕ → Str → Str → Str
encode_auth_body fid uname aname = le_bytes 4 fid ++ (encode_string uname ++ encode_string aname)

-- `Option::unwrap_or(0)`
abbrev pub or_zero : Option ℕ → ℕ
or_zero none = 0
or_zero (some n) = n

unfoldable pub encode_attach_body : ℕ → Option ℕ → Str → Str → Str
encode_attach_body fid afid uname aname =
    le_bytes 4 fid ++ (le_bytes 4 (or_zero afid) ++ (encode_string uname ++ encode_string aname))

-- The loop over the names.
unfoldable pub encode_names : List Str → Str
encode_names [] = []
encode_names (name ∷ names) = encode_string name ++ encode_names names

unfoldable pub encode_walk_body : ℕ → ℕ → List Str → Str
encode_walk_body fid newfid names =
    le_bytes 4 fid
    ++ (le_bytes 4 newfid ++ (le_bytes 2 (length names % 2 ^ 16) ++ encode_names names))

unfoldable pub encode_open_body : ℕ → ℕ → Str
encode_open_body fid mode = le_bytes 4 fid ++ (mode ∷ [])

unfoldable pub encode_read_body : ℕ → ℕ → ℕ → Str
encode_read_body fid offset count = le_bytes 4 fid ++ (le_bytes 8 offset ++ le_bytes 4 count)

unfoldable pub encode_write_body : ℕ → ℕ → Str → Str
encode_write_body fid offset bs =
    le_bytes 4 fid ++ (le_bytes 8 offset ++ (le_bytes 4 (length bs % 2 ^ 32) ++ bs))

unfoldable pub encode_clunk_body : ℕ → Str
encode_clunk_body fid = le_bytes 4 fid

unfoldable pub encode_create_body : ℕ → Str → ℕ → ℕ → Str
encode_create_body fid name perm mode =
    le_bytes 4 fid ++ (encode_string name ++ (le_bytes 4 perm ++ (mode ∷ [])))

unfoldable pub encode_remove_body : ℕ → Str
encode_remove_body fid = le_bytes 4 fid

unfoldable pub encode_stat_body : ℕ → Str
encode_stat_body fid = le_bytes 4 fid

unfoldable pub encode_wstat_body : ℕ → Stat → Str
encode_wstat_body fid stat = le_bytes 4 fid ++ encode_stat_payload stat

unfoldable pub encode_clone_body : ℕ → ℕ → Str
encode_clone_body fid newfid = le_bytes 4 fid ++ le_bytes 4 newfid

unfoldable pub encode_flush_body : ℕ → Str
encode_flush_body oldtag = le_bytes 2 oldtag
