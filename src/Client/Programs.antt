-- ===== src/Client/Programs.antt =====
-- The programs around `P9Client`: tools/plan9_qemu_client/src/main.rs and tests/proc_client/src/main.rs, from
-- a connected client to what they print.
use planten.Base.{
  ℕ, Option, none, some, Res, ok, err, panic, ◌>>=◌, ltb, if◌then◌else◌, [], ◌∷◌, Str, bytes,
}
use planten.Client.{P9Client}
use planten.Client.Operations.{version, attach, walk, open_file, read, clunk}

-- `?` on what an operation returns.
abbrev pub followed : {A B C : Type 0} → Res A × P9Client C → (A → P9Client C → Res B) → Res B
followed (ok a, c) next = next a c
followed (err e, c) next = err e
followed (panic, c) next = panic

-- What the QEMU client learns: the version, the qids of the walk, and the bytes of the root, of which it
-- prints the first 32.
pub record Greeting : Type 0 where
  pub version : Str
  pub walked : ℕ
  pub payload : Str

-- What the client of procfs learns: the version, the qids of its first walk, and if there is one the contents
-- of the file `info` of process 1.
pub record Visit : Type 0 where
  pub version : Str
  pub pids : ℕ
  pub content : Option Str

module _ {C : Type 0} (answer : Str → C → Str × C) where
  unfoldable pub greet_guest : P9Client C → Res Greeting
  greet_guest c = followed (version answer 131072 (bytes "9P2000") c) λ text c.
      followed (attach answer 0 none (bytes "guest") [] c) λ u c.
        followed (walk answer 0 1 [] c) λ walked c. followed (open_file answer 1 0 c) λ iounit c.
          followed (read answer 1 0 256 c) λ payload c. followed (clunk answer 1 c) λ u c.
            followed (clunk answer 0 c)
              λ u c. ok (record { version = text; walked = walked; payload = payload })

  -- The block for `pids > 0`, and the client after it.
  unfoldable pub visit_first : P9Client C → Res (Str × P9Client C)
  visit_first c = followed (walk answer 0 2 (bytes "1" ∷ []) c) λ walked c.
      followed (walk answer 2 3 (bytes "info" ∷ []) c) λ walked c.
        followed (open_file answer 3 0 c) λ iounit c.
          followed (read answer 3 0 iounit c) λ content c. followed (clunk answer 3 c) λ u c.
            followed (clunk answer 2 c) λ u c. followed (clunk answer 1 c) λ u c. ok (content, c)

  unfoldable pub visit_end : Str → ℕ → Option Str → P9Client C → Res Visit
  visit_end text pids content c =
      followed (clunk answer 0 c)
        λ u c. ok (record { version = text; pids = pids; content = content })

  unfoldable pub visit_if : Str → ℕ → P9Client C → Res Visit
  visit_if text pids c =
      if ltb 0 pids
      then (do (content, c) ← visit_first c; visit_end text pids (some content) c)
      else visit_end text pids none c

  unfoldable pub visit_procfs : P9Client C → Res Visit
  visit_procfs c = followed (version answer 8192 (bytes "9P2000") c) λ text c.
      followed (attach answer 0 none (bytes "user") (bytes "none") c)
        λ u c. followed (walk answer 0 1 [] c) λ pids c. visit_if text pids c
