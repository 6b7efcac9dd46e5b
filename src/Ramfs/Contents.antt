-- ===== src/Ramfs/Contents.antt =====
-- What a write does to the contents of a file.
use planten.Base.{ℕ, ◌+◌, ◌-◌, ◌%◌, max, ◌^◌, ◌≤◌, ◌<◌, ◌≡◌, refl, arith, Bool, true, false}
use planten.Base.{ok, panic, ◌>>=◌, if◌then◌else◌, ltb, leb, ◌&&◌, Str, ◌++◌}
use planten.Base.{
  length, take, drop, replicate, length-append, length-take, length-drop, length-replicate,
}
use planten.Base.{
  Bool-cases, ltb→lt, ltb→ge, inl, inr, lt→ltb, ge→ltb, Option, none, some, get_elem?,
}
use planten.Base.{get_elem?-none, get_elem?-append, get_elem?-take, get_elem?-drop}
use planten.Base.{get_elem?-replicate}
use planten.Ramfs.Bytes.{add_usize, resize, copy_slice, grow, write_contents}

-- The byte at an index after a write of `bs` at `offset`: the new bytes in their range, the old
-- ones elsewhere, and zeros between the old end and the offset.
abbrev pub byte_after : ℕ → Str → Str → ℕ → Option ℕ
byte_after offset bs file i =
    if leb offset i && ltb i (offset + length bs)
    then get_elem? bs (i - offset)
    else if ltb i (length file)
    then get_elem? file i
    else if ltb i offset
    then some 0
    else none

-- A file that `grow` has made at least `end` bytes long.
record IsGrown (end : ℕ) (file grown : Str) : Type 0 where
  size : length grown ≡ max (length file) end
  at :
      (i : ℕ)
      → get_elem? grown i
        ≡ (if ltb i (length file) then get_elem? file i else if ltb i end then some 0 else none)

grown_at :
    (end : ℕ) (file : Str) (i : ℕ)
    → length file < end
    → get_elem? (take end file ++ replicate (end - length file) 0) i
      ≡ (if ltb i (length file) then get_elem? file i else if ltb i end then some 0 else none)
grown_at end file i h = ground (
  arith,
  get_elem?-append (take end file) (replicate (end - length file) 0) i,
  length-take end file,
  get_elem?-take end file i,
  get_elem?-replicate {A = ℕ} (end - length file) 0 (i - length (take end file)),
)

kept_at :
    (end : ℕ) (file : Str) (i : ℕ)
    → end ≤ length file
    → get_elem? file i
      ≡ (if ltb i (length file) then get_elem? file i else if ltb i end then some 0 else none)
kept_at end file i h = ground (arith, get_elem?-none file i)

grow-IsGrown :
    (end : ℕ) (file : Str)
    → end < 2 ^ 63
    → (grown : Str) × (grow end file ≡ ok grown) × IsGrown end file grown
unfolding grow resize
grow-IsGrown end file h = elim (Bool-cases (ltb (length file) end)) [
  | inl more ↦ (
    take end file ++ replicate (end - length file) 0,
    rw (more, lt→ltb _ _ h),
    record {
      size = omega (
        arith,
        length-append (take end file) (replicate (end - length file) 0),
        length-take end file,
        length-replicate {A = ℕ} (end - length file) 0,
        ltb→lt (length file) end more,
      );
      at = λ i. grown_at end file i (ltb→lt (length file) end more);
    },
  )
  | inr enough ↦ (
    file,
    rw enough,
    record {
      size = omega (arith, ltb→ge (length file) end enough);
      at = λ i. kept_at end file i (ltb→ge (length file) end enough);
    },
  )
]

copied_at :
    (offset end : ℕ) (bs file grown : Str) (i : ℕ)
    → end ≡ offset + length bs
    → IsGrown end file grown
    → get_elem? (take offset grown ++ (bs ++ drop end grown)) i ≡ byte_after offset bs file i
copied_at offset end bs file grown i e g = ground (
  arith,
  g.size,
  g.at i,
  get_elem?-append (take offset grown) (bs ++ drop end grown) i,
  length-take offset grown,
  get_elem?-take offset grown i,
  get_elem?-append bs (drop end grown) (i - length (take offset grown)),
  get_elem?-drop end grown (i - length (take offset grown) - length bs),
)

-- A write that ends below 2 ^ 63 succeeds, in a build with or without overflow checks, and leaves
-- the new bytes in their place, the old ones elsewhere, and zeros in the gap; the file ends where the
-- longer of the two ends.
pub write_contents-byte_after :
    (checks : Bool) (offset : ℕ) (bs file : Str)
    → offset + length bs < 2 ^ 63
    → (r : Str) × (write_contents checks offset bs file ≡ ok r)
      × (length r ≡ max (length file) (offset + length bs))
      × ((i : ℕ) → get_elem? r i ≡ byte_after offset bs file i)
unfolding write_contents add_usize copy_slice
write_contents-byte_after checks offset bs file h =
    let end = offset + length bs in
    let (grown, e, g) = grow-IsGrown end file h in
    (
      take offset grown ++ (bs ++ drop end grown),
      ground (arith, e, g.size),
      omega (
        arith,
        g.size,
        length-append (take offset grown) (bs ++ drop end grown),
        length-append bs (drop end grown),
        length-take offset grown,
        length-drop end grown,
      ),
      λ i. copied_at offset end bs file grown i refl g,
    )

-- A range that ends before it starts.
backward-panic :
    (offset end : ℕ) (bs file : Str)
    → end < offset
    → (grow end file >>= λ grown. copy_slice offset end bs grown) ≡ panic
unfolding grow resize copy_slice
backward-panic offset end bs file h = ground arith

wrapped_write-panic :
    (checks : Bool) (offset : ℕ) (bs file : Str)
    → offset < 2 ^ 64
    → length bs < 2 ^ 32
    → 2 ^ 64 ≤ offset + length bs
    → ((if checks then panic else ok ((offset + length bs) % 2 ^ 64)) >>= λ end.
        grow end file >>= λ grown. copy_slice offset end bs grown)
      ≡ panic
wrapped_write-panic true offset bs file ho hb over = refl
wrapped_write-panic false offset bs file ho hb over =
    backward-panic offset ((offset + length bs) % 2 ^ 64) bs file (omega arith)

-- Past that, it panics, in either build: the sum overflows, or the vector cannot be that long, or
-- the wrapped range is empty the wrong way round.
pub write_contents-panic :
    (checks : Bool) (offset : ℕ) (bs file : Str)
    → offset < 2 ^ 64
    → length bs < 2 ^ 32
    → length file < 2 ^ 63
    → 2 ^ 63 ≤ offset + length bs
    → write_contents checks offset bs file ≡ panic
unfolding write_contents add_usize copy_slice grow resize
write_contents-panic checks offset bs file ho hb hf h =
    elim (Bool-cases (ltb (offset + length bs) (2 ^ 64))) [
      | inl fits ↦ rw (
        fits,
        lt→ltb (length file) (offset + length bs) (omega arith),
        ge→ltb (offset + length bs) (2 ^ 63) h,
      )
      | inr over ↦ rw over (wrapped_write-panic checks offset bs file ho hb (ltb→ge _ _ over))
    ]
