-- ===== src/Net/Entries.antt =====
-- The methods of `NetFs` against each other (libs/planten_fs_net/src/lib.rs).
use planten.Base.{ℕ, ◌≡◌, refl, Bool-cases, inl, inr, is_some, Option-cases}
use planten.Base.{List, [], ◌∷◌, Str, contains}
use planten.Fs.Inode.{contents}
use planten.Net.{
  net_entries, NetHost, read_entry, make_inode, walk_net, open_net, read_net, timed_at, stat_net,
}
use mathlib.Core.Option
use planten.Fs.Inode.{new}

-- Below the root, `stat` succeeds exactly where `read` does, with an inode of that contents, and `walk`
-- succeeds exactly where `open` does.
pub stat_net-read_net :
    (now : ℕ) (host : NetHost) (name : Str) (names : List Str)
    → (Option.map contents (stat_net now host (name ∷ names)) ≡ read_net host (name ∷ names))
      × (is_some (walk_net (name ∷ names)) ≡ is_some (open_net (name ∷ names)))
unfolding walk_net open_net read_net stat_net make_inode timed_at new
stat_net-read_net now host name [] = elim (Bool-cases (contains net_entries name)) [
  | inl e ↦ elim (Option-cases (read_entry host name)) [
    | inl r ↦ rw (e, r) (refl, refl)
    | inr (bs, r) ↦ rw (e, r) (refl, refl)
  ]
  | inr e ↦ rw e (refl, refl)
]
stat_net-read_net now host name (b ∷ names) = (refl, refl)
