-- ===== src/Base/Base64.antt =====
-- `base64.StdEncoding.DecodeString`: line breaks are skipped, and what remains is groups of four
-- characters, the last of which may end in one or two `=`.
use Prim.Native.Nat.{ℕ, ◌+◌, ◌-◌, ◌*◌, ◌/◌, ◌%◌}
use mathlib.Core.Path.{◌≡◌, refl}
use mathlib.Core.Bool.{◌&&◌, ◌||◌}
use mathlib.Core.Option.{Option, none, some}
use mathlib.Core.List.{[], ◌∷◌}
use algorand_state_channels.Base.Tests.{leb, nat_eq, if◌then◌else◌}
use algorand_state_channels.Base.ByteStrings.{Bytes, codes}

-- The six bits that a character stands for.
sextet : ℕ → Option ℕ
sextet c =
    if leb b'A' c && leb c b'Z'
    then some (c - 65)
    else if leb b'a' c && leb c b'z'
    then some (c - 71)
    else if leb b'0' c && leb c b'9'
    then some (c + 4)
    else if nat_eq c b'+'
    then some 62
    else if nat_eq c b'/'
    then some 63
    else none

without_breaks : Bytes → Bytes
without_breaks [] = []
without_breaks (c ∷ s) =
    let rest = without_breaks s in if nat_eq c 10 || nat_eq c 13 then rest else c ∷ rest

one_byte : Option ℕ → Option ℕ → Option Bytes
one_byte (some a) (some b) = some ((a * 4 + b / 16) ∷ [])
one_byte _ _ = none

-- `c` is the third character, whose first four bits are used.
two_bytes : Option ℕ → Option ℕ → Option ℕ → Option Bytes
two_bytes (some a) (some b) (some c) = some ((a * 4 + b / 16) ∷ (b % 16 * 16 + c / 4) ∷ [])
two_bytes _ _ _ = none

three_bytes : Option ℕ → Option ℕ → Option ℕ → Option ℕ → Option Bytes → Option Bytes
three_bytes (some a) (some b) (some c) (some d) (some rest) =
    some ((a * 4 + b / 16) ∷ (b % 16 * 16 + c / 4) ∷ (c % 4 * 64 + d) ∷ rest)
three_bytes _ _ _ _ _ = none

groups : Bytes → Option Bytes
unfolding sextet one_byte two_bytes three_bytes
groups [] = some []
groups (a ∷ b ∷ c ∷ d ∷ []) =
    if nat_eq c b'=' && nat_eq d b'='
    then one_byte (sextet a) (sextet b)
    else if nat_eq d b'='
    then two_bytes (sextet a) (sextet b) (sextet c)
    else three_bytes (sextet a) (sextet b) (sextet c) (sextet d) (some [])
groups (a ∷ b ∷ c ∷ d ∷ s) = three_bytes (sextet a) (sextet b) (sextet c) (sextet d) (groups s)
groups _ = none

unfoldable pub base64_decode : Bytes → Option Bytes
unfolding groups without_breaks
base64_decode s = groups (without_breaks s)

decodes_key : base64_decode (codes "YWxpY2VfYWRkcmVzcw==") ≡ some (codes "alice_address")
unfolding base64_decode
decodes_key = refl

decodes_one_pad : base64_decode (codes "dGltZW91dHM=") ≡ some (codes "timeouts")
unfolding base64_decode
decodes_one_pad = refl

refuses : base64_decode (codes "YWxpY2V") ≡ none
unfolding base64_decode
refuses = refl
