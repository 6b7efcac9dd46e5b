-- ===== src/Ramfs/Bytes.antt =====
-- The changes to a file's contents in `write` and `wstat_from_stat` of
-- libs/planten_fs_ramfs/src/lib.rs. `usize` has 64 bits.
use planten.Base.{ℕ, ◌≡◌, ◌≤◌, arith, ◌+◌, ◌-◌, ◌%◌, ◌^◌, Bool}
use planten.Base.{Res, ok, panic, ◌>>=◌, if◌then◌else◌, ltb, leb, ◌&&◌, Str, ◌++◌}
use planten.Base.{length, take, drop, replicate}

-- `a + b` on `usize`: a panic where the build checks for overflow, a wrap where it does not.
unfoldable pub add_usize : Bool → ℕ → ℕ → Res ℕ
add_usize checks a b =
    if ltb (a + b) (2 ^ 64) then ok (a + b) else if checks then panic else ok ((a + b) % 2 ^ 64)

-- `Vec::resize(n, 0)`; a vector holds at most `isize::MAX` bytes.
unfoldable pub resize : ℕ → Str → Res Str
resize n bs = if ltb n (2 ^ 63) then ok (take n bs ++ replicate (n - length bs) 0) else panic

-- `data[start..end].copy_from_slice(bs)`: the slice must lie in the vector and have the length of `bs`.
unfoldable pub copy_slice : ℕ → ℕ → Str → Str → Res Str
copy_slice start end bs file =
    if leb start end
      && leb end (length file)
      && leb (end - start) (length bs)
      && leb (length bs) (end - start)
    then ok (take start file ++ (bs ++ drop end file))
    else panic

-- `&data[start..end]`
unfoldable pub slice_of : ℕ → ℕ → Str → Res Str
slice_of start end bs =
    if leb start end && leb end (length bs) then ok (take (end - start) (drop start bs)) else panic

pub slice_of-fits :
    (start end : ℕ) (bs : Str)
    → start ≤ end
    → end ≤ length bs
    → slice_of start end bs ≡ ok (take (end - start) (drop start bs))
unfolding slice_of
slice_of-fits start end bs h k = ground arith

unfoldable pub grow : ℕ → Str → Res Str
grow end file = if ltb (length file) end then resize end file else ok file

-- What `write` does to the contents.
unfoldable pub write_contents : Bool → ℕ → Str → Str → Res Str
write_contents checks offset bs file = do
  end ← add_usize checks offset (length bs)
  grown ← grow end file
  copy_slice offset end bs grown
