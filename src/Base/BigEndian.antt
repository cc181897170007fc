-- ===== src/Base/BigEndian.antt =====
-- `binary.BigEndian`: numbers as bytes, the most significant first.
use algorand_state_channels.Base.Tests.{ltb, Bool-cases, if◌then◌else◌}
use algorand_state_channels.Base.Lists.{length, length-append, length-take, take}
use algorand_state_channels.Base.ByteStrings.{Bytes, IsBytes}
use Prim.Native.Nat.{ℕ, zero, suc, ◌+◌, ◌*◌, ◌/◌, ◌%◌, ◌^◌, ◌<◌}
use mathlib.Core.Path.{subst, ◌≡◌, refl, ap}
use mathlib.Core.Bool.{false}
use mathlib.Core.Logic.{inl, inr}
use mathlib.Core.Option.{Option, none, some}
use mathlib.Core.List.{[], ◌∷◌, ◌++◌}
use native.Mathlib.Omega.{arith}
use native.Mathlib.Nat.{pow-suc}
use algorand_state_channels.Base.Word.{IsWord}

-- The `k` low bytes of `v`.
unfoldable pub put_bytes : ℕ → ℕ → Bytes
put_bytes zero v = []
put_bytes (suc k) v = put_bytes k (v / 256) ++ (v % 256) ∷ []

unfoldable pub from_bytes : ℕ → Bytes → ℕ
from_bytes acc [] = acc
from_bytes acc (b ∷ s) = from_bytes (acc * 256 + b) s

-- `PutUint64`
unfoldable pub put_uint64 : ℕ → Bytes
unfolding put_bytes
put_uint64 v = put_bytes 8 v

-- `Uint64`, which reads the first eight bytes and panics (`none`) if there are fewer.
unfoldable pub uint64 : Bytes → Option ℕ
unfolding from_bytes
uint64 s = if ltb (length s) 8 then none else some (from_bytes 0 (take 8 s))

pub length-put_bytes : (k v : ℕ) → length (put_bytes k v) ≡ k
unfolding put_bytes
length-put_bytes zero v = refl
length-put_bytes (suc k) v = omega (
  arith,
  length-append {0} (put_bytes k (v / 256)) ((v % 256) ∷ []),
  length-put_bytes k (v / 256),
)

from_bytes-append :
    (acc : ℕ) (s t : Bytes) → from_bytes acc (s ++ t) ≡ from_bytes (from_bytes acc s) t
unfolding from_bytes
from_bytes-append acc [] t = refl
from_bytes-append acc (b ∷ s) t = from_bytes-append (acc * 256 + b) s t

from_bytes-put_bytes : (k v : ℕ) → v < 256 ^ k → from_bytes 0 (put_bytes k v) ≡ v
unfolding put_bytes from_bytes
from_bytes-put_bytes zero v h = ground arith
from_bytes-put_bytes (suc k) v h =
    rw from_bytes-append
      (rw (from_bytes-put_bytes k (v / 256) (omega (arith, pow-suc 256 k))) (omega arith))

-- `Uint64` reads back what `PutUint64` wrote.
pub uint64-put_uint64 : (v : ℕ) → IsWord v → uint64 (put_uint64 v) ≡ some v
unfolding uint64 put_uint64
uint64-put_uint64 v h = ap some (from_bytes-put_bytes 8 v (omega arith))

pub length-put_uint64 : (v : ℕ) → length (put_uint64 v) ≡ 8
unfolding put_uint64
length-put_uint64 v = refl

-- Two uint64 values with the same eight bytes are equal.
pub put_uint64-injective : (v w : ℕ) → IsWord v → IsWord w → put_uint64 v ≡ put_uint64 w → v ≡ w
put_uint64-injective v w hv hw e = cc (uint64-put_uint64 v hv, uint64-put_uint64 w hw)

from_bytes-lt :
    (acc n : ℕ) (s : Bytes) → IsBytes s → acc < n → from_bytes acc s < n * 256 ^ length s
unfolding from_bytes
from_bytes-lt acc n [] h p = grind arith
from_bytes-lt acc n (b ∷ s) h p =
    let more = from_bytes-lt (acc * 256 + b) (n * 256) s h.1 (omega (arith, h.0)) in
    rw pow-suc (subst (λ m. from_bytes (acc * 256 + b) s < m) (grind arith) more)

take-IsBytes : (n : ℕ) (s : Bytes) → IsBytes s → IsBytes (take n s)
take-IsBytes zero s h = tt
take-IsBytes (suc n) [] h = tt
take-IsBytes (suc n) (b ∷ s) h = (h.0, take-IsBytes n s h.1)

length-take-eight : (s : Bytes) → ltb (length s) 8 ≡ false → length (take 8 s) ≡ 8
length-take-eight s h = ground (arith, length-take 8 s)

-- What `Uint64` reads from bytes is a uint64.
pub uint64-IsWord : (s : Bytes) (v : ℕ) → IsBytes s → uint64 s ≡ some v → IsWord v
unfolding uint64
uint64-IsWord s v h e = elim (Bool-cases (ltb (length s) 8)) [
  | inl short ↦ ground arith
  | inr long ↦
      let bound = from_bytes-lt 0 1 (take 8 s) (take-IsBytes 8 s h) (omega arith) in
      let eight = rw (length-take-eight s long) at bound in ground arith
]

-- The bytes of a uint64, read as a whole.
pub from_bytes-put_uint64 : (v : ℕ) → IsWord v → from_bytes 0 (put_uint64 v) ≡ v
unfolding put_uint64
from_bytes-put_uint64 v h = from_bytes-put_bytes 8 v (omega arith)
