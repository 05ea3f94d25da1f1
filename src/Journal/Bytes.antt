-- ===== src/Journal/Bytes.antt =====
-- Reading and writing numbers, least significant byte first, as encoding/binary does for the codec of
-- internal/journal/codec.go. What is written stands in front of what is written next.
use matching_engine_go.Prelude.{
  ℕ, zero, suc, ◌+◌, ◌*◌, ◌/◌, ◌%◌, ◌≤◌, ◌<◌, ◌≡◌, refl, List, [], ◌∷◌, ◌++◌, length, take, arith,
  ltb, ◌==◌, if◌then◌else◌,
}

pub data DecodeError : Type 0 where
  unexpected_eof invalid_magic unsupported_version unsupported_type : DecodeError
  checksum_mismatch unexpected_tail end_of_file : DecodeError

-- What a decoder returns; `panic` is an index out of range.
pub data Decoded {ℓ} (A : Type ℓ) : Type ℓ where
  ok : A → Decoded A
  err : DecodeError → Decoded A
  panic : Decoded A

infixl 5 ◌>>=◌
abbrev pub ◌>>=◌ {ℓ κ} : {A : Type ℓ} {B : Type κ} → Decoded A → (A → Decoded B) → Decoded B
ok a >>= f = f a
err e >>= f = err e
panic >>= f = panic

-- PutUint8, PutUint16, PutUint32 and PutUint64 by their number of bytes.
unfoldable pub put : ℕ → ℕ → List ℕ → List ℕ
put zero v behind = behind
put (suc k) v behind = v % 256 ∷ put k (v / 256) behind

-- Uint16, Uint32 and Uint64 of a slice of as many bytes.
unfoldable pub uint : List ℕ → ℕ
uint [] = 0
uint (b ∷ bs) = b + 256 * uint bs

-- The number at the offset of a reader, and what is behind it.
unfoldable pub read : ℕ → List ℕ → Decoded (ℕ × List ℕ)
read zero bs = ok (0, bs)
read (suc k) [] = panic
read (suc k) (b ∷ bs) = do (v, behind) ← read k bs; ok (b + 256 * v, behind)

-- binary.Read of a number from a reader, which reports a missing and a cut number.
unfoldable pub read_checked : ℕ → List ℕ → Decoded (ℕ × List ℕ)
unfolding read
read_checked k bs =
    if length bs == 0
    then err end_of_file
    else if ltb (length bs) k
    then err unexpected_eof
    else read k bs

-- `b[:n]` as a string, and what is behind it.
unfoldable pub read_bytes : ℕ → List ℕ → Decoded (List ℕ × List ℕ)
read_bytes zero bs = ok ([], bs)
read_bytes (suc k) [] = panic
read_bytes (suc k) (b ∷ bs) = do (s, behind) ← read_bytes k bs; ok (b ∷ s, behind)

-- How many numbers so many bytes hold.
abbrev pub limit : ℕ → ℕ
limit zero = 1
limit (suc k) = 256 * limit k

pub length-put : (k v : ℕ) (behind : List ℕ) → length (put k v behind) ≡ k + length behind
unfolding put
length-put zero v behind = omega arith
length-put (suc k) v behind = omega (arith, length-put k (v / 256) behind)

pub read-put : (k v : ℕ) (behind : List ℕ) → v < limit k → read k (put k v behind) ≡ ok (v, behind)
unfolding put read
read-put zero v behind h = ground arith
read-put (suc k) v behind h = rw (read-put k (v / 256) behind (omega arith)) (ground arith)

pub uint-put : (k v : ℕ) (behind : List ℕ) → v < limit k → uint (take k (put k v behind)) ≡ v
unfolding put uint
uint-put zero v behind h = omega arith
uint-put (suc k) v behind h = omega (arith, uint-put k (v / 256) behind)

pub read_bytes-append : (s behind : List ℕ) → read_bytes (length s) (s ++ behind) ≡ ok (s, behind)
unfolding read_bytes
read_bytes-append [] behind = refl
read_bytes-append (b ∷ s) behind = rw (read_bytes-append s behind) refl

-- A read does not panic where there are enough bytes.
pub read-some :
    (k : ℕ) (bs : List ℕ)
    → k ≤ length bs
    → (v : ℕ) × (behind : List ℕ) × (read k bs ≡ ok (v, behind)) × (length behind + k ≡ length bs)
unfolding read
read-some zero bs h = (0, bs, refl, omega arith)
read-some (suc k) [] h = absurd (omega arith)
read-some (suc k) (b ∷ bs) h =
    let (v, behind, e, n) = read-some k bs (omega arith) in
    (b + 256 * v, behind, rw e refl, omega (arith, n))

pub read_bytes-some :
    (k : ℕ) (bs : List ℕ)
    → k ≤ length bs
    → (s behind : List ℕ) × (read_bytes k bs ≡ ok (s, behind)) × (length behind + k ≡ length bs)
unfolding read_bytes
read_bytes-some zero bs h = ([], bs, refl, omega arith)
read_bytes-some (suc k) [] h = absurd (omega arith)
read_bytes-some (suc k) (b ∷ bs) h =
    let (s, behind, e, n) = read_bytes-some k bs (omega arith) in
    (b ∷ s, behind, rw e refl, omega (arith, n))

pub read_checked-put :
    (k v : ℕ) (behind : List ℕ)
    → 0 < k
    → v < limit k
    → read_checked k (put k v behind) ≡ ok (v, behind)
unfolding read_checked
read_checked-put k v behind p h = rw (read-put k v behind h) (ground (arith, length-put k v behind))
