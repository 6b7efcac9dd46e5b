-- ===== src/Ramfs/Rename.antt =====
-- Renaming by `wstat_from_stat` of libs/planten_fs_ramfs/src/lib.rs.
use planten.Base.{◌≡◌, refl, sym, ◌∙◌, arith, true, false, none, some}
use planten.Base.{ok, List, [], ◌∷◌, ◌++◌, Str, str_eq}
use planten.Wire.Types.{Stat}
use planten.Fs.Inode.{Attrs, Inode, Children, node}
use planten.Fs.Children.{get, insert, remove}
use planten.Fs.FilePath.{components}
use planten.Ramfs.Tree.{RamFs, stat_at, stat, split_last}
use planten.Ramfs.Wstat.{wstat_attrs, wstat_length, renames, put_renamed, wstat_child, wstat_at}
use planten.Ramfs.Wstat.{wstat_from_stat}
use planten.Ramfs.Lookup.{stat_at-insert_self}
use planten.Ramfs.Lookup.{stat_at-insert_ne}
use planten.Ramfs.Update.{update_at-found, stat_at-replace_at}
use planten.Ramfs.Update.{stat_at-append}
use planten.Ramfs.Parent.{split_last-eq_some, parent_of, get_of_stat_at}
use planten.Ramfs.Removal.{at_parent, stat_at-remove}
use mathlib.Core.Path.{subst}
use mathlib.Core.List.{append_assoc}

get-none_of_stat_at :
    (c : Str) (a : Attrs) (cs : Children) → stat_at (c ∷ []) (node a cs) ≡ none → get c cs ≡ none
unfolding stat_at
get-none_of_stat_at c a cs h = ground arith

-- The attributes of an inode after a `wstat` with this new contents.
abbrev pub wstat_changed : Stat → Str → Attrs → Attrs
wstat_changed st file b = wstat_attrs st (record b { contents = file })

-- Under its new name the inode hangs in place of the old one.
abbrev renamed_children : Stat → Str → Str → Attrs → Children → Children → Children
renamed_children st last file b ds cs =
    insert st.name (node (record (wstat_changed st file b) { name = st.name }) ds) (remove last cs)

renamed-ne : (st : Stat) (last : Str) → renames st last ≡ true → str_eq st.name last ≡ false
unfolding renames
renamed-ne st last h = ground arith

wstat_child-renamed :
    (st : Stat) (last file : Str) (a b : Attrs) (cs ds : Children)
    → get last cs ≡ some (node b ds)
    → renames st last ≡ true
    → get st.name cs ≡ none
    → wstat_length st b.contents ≡ ok file
    → wstat_child st last (node a cs) ≡ ok (some (node a (renamed_children st last file b ds cs)))
unfolding wstat_child put_renamed
wstat_child-renamed st last file a b cs ds g r free l = rw (g, wstat_child, l, r, free) refl

wstat_child-taken :
    (st : Stat) (last file : Str) (a b : Attrs) (cs ds : Children) (m : Inode)
    → get last cs ≡ some (node b ds)
    → renames st last ≡ true
    → get st.name cs ≡ some m
    → wstat_length st b.contents ≡ ok file
    → wstat_child st last (node a cs) ≡ ok none
unfolding wstat_child put_renamed
wstat_child-taken st last file a b cs ds m g r taken l = rw (g, wstat_child, l, r, taken) refl

-- The old name finds nothing among the renamed children.
stat_at-old_name :
    (st : Stat) (last file : Str) (a b : Attrs) (cs ds : Children) (q : List Str)
    → renames st last ≡ true
    → stat_at (last ∷ q) (node a (renamed_children st last file b ds cs)) ≡ none
stat_at-old_name st last file a b cs ds q r =
    stat_at-insert_ne st.name last q a a _ (remove last cs) (renamed-ne st last r)
    ∙ stat_at-remove last q a cs

module _ (path : Str) (st : Stat) (fs : RamFs) (front : List Str) (last file : Str) (b : Attrs)
    (ds : Children) (at_path : split_last (components path) ≡ some (front, last))
    (found : stat path fs ≡ some (node b ds)) (renaming : renames st last ≡ true)
    (sized : wstat_length st b.contents ≡ ok file) where
  at_front : stat_at (front ++ (last ∷ [])) fs.root ≡ some (node b ds)
  unfolding stat
  at_front =
      subst (λ l. stat_at l fs.root ≡ some (node b ds)) (split_last-eq_some _ front last at_path)
        found

  -- For a path that ends in `last` and leads to an inode, and a stat whose name is not empty and not
  -- `last` and whose length can be given to the contents: if the name is free in the same directory, the
  -- `wstat` succeeds, the old path finds nothing, nor does a path through it, and the new name finds the
  -- inode, with its changes, over the same children.
  pub wstat-renamed :
      stat_at (front ++ (st.name ∷ [])) fs.root ≡ none
      → (fs' : RamFs) × (wstat_from_stat path st fs ≡ ok (some tt, fs'))
        × ((q : List Str) → stat_at (components path ++ q) fs'.root ≡ none)
        × ((q : List Str)
            → stat_at (front ++ (st.name ∷ q)) fs'.root
              ≡ stat_at q (node (record (wstat_changed st file b) { name = st.name }) ds))
  unfolding wstat_from_stat wstat_at
  wstat-renamed free =
      let (a, cs, e, g) = parent_of front last fs.root (node b ds) at_front in
      let p' = node a (renamed_children st last file b ds cs) in
      let no_other : get st.name cs ≡ none =
        get-none_of_stat_at st.name a cs
          (sym (stat_at-append front (st.name ∷ []) fs.root (node a cs) e) ∙ free) in
      (
        at_parent front p' fs,
        rw
            (
              at_path,
              wstat_at,
              update_at-found front (wstat_child st last) fs.root (node a cs) e,
              wstat_child-renamed st last file a b cs ds g renaming no_other sized,
            )
            refl,
        λ q.
            rw (split_last-eq_some _ front last at_path, append_assoc)
              (stat_at-replace_at front (last ∷ q) p' fs.root (node a cs) e
                ∙ stat_at-old_name st last file a b cs ds q renaming),
        λ q.
            stat_at-replace_at front (st.name ∷ q) p' fs.root (node a cs) e
            ∙ stat_at-insert_self st.name q a _ (remove last cs),
      )

  -- For a path that ends in `last` and leads to an inode, and a stat whose name is not empty and not
  -- `last` and whose length can be given to the contents: if the name is taken in the same directory,
  -- the `wstat` fails and nothing changes.
  pub wstat-taken :
      (m : Inode)
      → stat_at (front ++ (st.name ∷ [])) fs.root ≡ some m
      → wstat_from_stat path st fs ≡ ok (none, fs)
  unfolding wstat_from_stat wstat_at
  wstat-taken m taken =
      let (a, cs, e, g) = parent_of front last fs.root (node b ds) at_front in
      let other : get st.name cs ≡ some m =
        get_of_stat_at st.name a cs m
          (sym (stat_at-append front (st.name ∷ []) fs.root (node a cs) e) ∙ taken) in
      rw
        (
          at_path,
          wstat_at,
          update_at-found front (wstat_child st last) fs.root (node a cs) e,
          wstat_child-taken st last file a b cs ds m g renaming other sized,
        )
        refl
