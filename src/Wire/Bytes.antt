-- ===== src/Wire/Bytes.antt =====
-- Little-endian integers (`to_le_bytes`, `from_le_bytes`) and `read_exact` on a `Cursor<&[u8]>`.
-- A cursor is the list of the bytes that are still to be read.
use planten.Base.{ℕ, zero, suc, ◌+◌, ◌*◌, ◌/◌, ◌%◌, ◌^◌, ◌<◌, ◌≡◌, refl, ap, arith}
use planten.Base.{[], ◌∷◌, ◌++◌, length, take, drop, take-append_length, drop-append_length}
use planten.Base.{length-append, All, Res, ok, err, unexpected_eof, ltb, if◌then◌else◌, ge→ltb, Str}
use native.Mathlib.Nat.{pow-suc}

abbrev pub IsByte : ℕ → Type 0
IsByte b = b < 256

-- The `n` bytes of an unsigned integer, lowest first.
unfoldable pub le_bytes : ℕ → ℕ → Str
le_bytes zero v = []
le_bytes (suc n) v = (v % 256) ∷ le_bytes n (v / 256)

unfoldable pub from_le_bytes : Str → ℕ
from_le_bytes [] = 0
from_le_bytes (b ∷ bs) = b + 256 * from_le_bytes bs

unfoldable pub read_exact : ℕ → Str → Res (Str × Str)
read_exact n c = if ltb (length c) n then err unexpected_eof else ok (take n c, drop n c)

pub length-le_bytes : (n v : ℕ) → length (le_bytes n v) ≡ n
unfolding le_bytes
length-le_bytes zero v = refl
length-le_bytes (suc n) v = ap suc (length-le_bytes n (v / 256))

pub le_bytes-IsByte : (n v : ℕ) → All IsByte (le_bytes n v)
unfolding le_bytes
le_bytes-IsByte zero v = tt
le_bytes-IsByte (suc n) v = (omega arith, le_bytes-IsByte n (v / 256))

pub from_le_bytes-le_bytes : (n v : ℕ) → v < 256 ^ n → from_le_bytes (le_bytes n v) ≡ v
unfolding le_bytes from_le_bytes
from_le_bytes-le_bytes zero v h = omega arith
from_le_bytes-le_bytes (suc n) v h =
    omega (arith, from_le_bytes-le_bytes n (v / 256) (omega (arith, pow-suc 256 n)))

-- Any bytes are the little-endian form of the integer that is read from them.
pub le_bytes-from_le_bytes :
    (bs : Str) → All IsByte bs → le_bytes (length bs) (from_le_bytes bs) ≡ bs
unfolding le_bytes from_le_bytes
le_bytes-from_le_bytes [] h = refl
le_bytes-from_le_bytes (b ∷ bs) (h, hs) = ground (arith, le_bytes-from_le_bytes bs hs)

pub from_le_bytes-lt : (bs : Str) → All IsByte bs → from_le_bytes bs < 256 ^ length bs
unfolding from_le_bytes
from_le_bytes-lt [] h = omega arith
from_le_bytes-lt (b ∷ bs) (h, hs) = omega (arith, from_le_bytes-lt bs hs, pow-suc 256 (length bs))

-- Reading exactly the bytes that were written first.
pub read_exact-append : (xs ys : Str) → read_exact (length xs) (xs ++ ys) ≡ ok (xs, ys)
unfolding read_exact
read_exact-append xs ys =
    rw (ge→ltb (length (xs ++ ys)) (length xs) (omega (arith, length-append xs ys)))
      (rw (take-append_length, drop-append_length))
