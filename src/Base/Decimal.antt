-- ===== src/Base/Decimal.antt =====
-- Decimal text, as `strconv` and `fmt` read and write it: `FormatUint(n, 10)` and `Itoa`,
-- `ParseUint(s, 10, 64)`, and `Sscanf(s, "%d", &i)` into an int.
use algorand_state_channels.Base.Tests.{ltb, leb, nat_eq, if◌then◌else◌, Bool-cases}
use algorand_state_channels.Base.ByteStrings.{Bytes}
use algorand_state_channels.Base.Word.{IsWord, neg64, sign_bit, word_mod}
use Prim.Native.Nat.{ℕ, zero, suc, ◌+◌, ◌-◌, ◌*◌, ◌/◌, ◌%◌, ◌^◌, ◌<◌}
use mathlib.Core.Path.{◌≡◌, ap, ◌∙◌}
use mathlib.Core.Logic.{inl, inr}
use mathlib.Core.Bool.{Bool, true, false, ◌&&◌, ◌||◌}
use mathlib.Core.Option.{Option, none, some}
use mathlib.Core.List.{[], ◌∷◌}
use native.Mathlib.Omega.{arith}
use native.Mathlib.Nat.{pow-suc}

abbrev pub is_digit : ℕ → Bool
is_digit c = leb b'0' c && leb c b'9'

-- The digits of `n`, in front of `out`; `fuel` bounds their number.
unfoldable pub emit : ℕ → ℕ → Bytes → Bytes
emit zero n out = out
emit (suc f) n out =
    let more = emit f (n / 10) ((n % 10 + b'0') ∷ out) in
    if ltb n 10 then (n + b'0') ∷ out else more

-- A uint64 has at most twenty digits.
unfoldable pub format_uint : ℕ → Bytes
format_uint n = emit 20 n []

-- The value of the longest run of digits at the front, whether there is one, and the rest.
unfoldable pub scan : ℕ → Bytes → ℕ × Bytes
scan acc [] = (acc, [])
scan acc (c ∷ s) =
    let rest = scan (acc * 10 + (c - b'0')) s in if is_digit c then rest else (acc, c ∷ s)

abbrev starts_with_digit : Bytes → Bool
starts_with_digit [] = false
starts_with_digit (c ∷ _) = is_digit c

abbrev is_nil : Bytes → Bool
is_nil [] = true
is_nil (_ ∷ _) = false

-- `ParseUint`: digits only, and at most 2 ^ 64 - 1.
unfoldable pub parse_uint : Bytes → Option ℕ
unfolding scan
parse_uint s =
    let (v, rest) = scan 0 s in
    if starts_with_digit s && (is_nil rest && ltb v word_mod) then some v else none

-- A number of at most `limit` at the front of the text; what follows it is left unread.
unfoldable pub scan_up_to : ℕ → Bytes → Option ℕ
unfolding scan
scan_up_to limit s =
    if starts_with_digit s && leb (scan 0 s).0 limit then some (scan 0 s).0 else none

unfoldable pub negated : Option ℕ → Option ℕ
negated none = none
negated (some v) = some (neg64 v)

abbrev is_space : ℕ → Bool
is_space c = nat_eq c 32 || (nat_eq c 9 || (nat_eq c 11 || (nat_eq c 12 || nat_eq c 13)))

-- `Sscanf` with `%d`: blanks, a sign and digits; the result is an int64.
unfoldable pub sscanf_int : Bytes → Option ℕ
unfolding scan_up_to negated
sscanf_int [] = none
sscanf_int (c ∷ s) =
    let blank = sscanf_int s in
    if is_space c
    then blank
    else if nat_eq c b'-'
    then negated (scan_up_to sign_bit s)
    else if nat_eq c b'+'
    then scan_up_to (sign_bit - 1) s
    else scan_up_to (sign_bit - 1) (c ∷ s)

-- One digit is read into the value.
scan-digit :
    (acc d : ℕ) (out : Bytes) → d < 10 → scan acc ((d + b'0') ∷ out) ≡ scan (acc * 10 + d) out
unfolding scan
scan-digit acc d out h =
    let same : acc * 10 + (d + b'0' - b'0') ≡ acc * 10 + d = omega arith in rw same (ground arith)

-- What `emit` wrote is read back.
scan-emit : (f n : ℕ) (out : Bytes) → n < 10 ^ f → scan 0 (emit f n out) ≡ scan n out
unfolding emit
scan-emit zero n out h = let empty : n ≡ 0 = omega arith in rw empty
scan-emit (suc f) n out h = elim (Bool-cases (ltb n 10)) [
  | inl small ↦ rw small (scan-digit 0 n out (ground arith) ∙ ap (λ v. scan v out) (omega arith))
  | inr big ↦
      let back : n / 10 * 10 + n % 10 ≡ n = omega arith in
      rw big (
        scan-emit f (n / 10) ((n % 10 + b'0') ∷ out) (omega (arith, pow-suc 10 f))
        ∙ (scan-digit (n / 10) (n % 10) out (omega arith) ∙ ap (λ v. scan v out) back))
]

-- The text begins with a digit, so with none of the bytes that `Sscanf` treats apart.
emit-starts :
    (f n : ℕ) (out : Bytes) → n < 10 ^ suc f → starts_with_digit (emit (suc f) n out) ≡ true
unfolding emit
emit-starts zero n out h = ground arith
emit-starts (suc f) n out h = elim (Bool-cases (ltb n 10)) [
  | inl small ↦ rw small (ground arith)
  | inr big ↦
      rw big (emit-starts f (n / 10) ((n % 10 + b'0') ∷ out) (omega (arith, pow-suc 10 (suc f))))
]

scan-format_uint : (n : ℕ) → IsWord n → scan 0 (format_uint n) ≡ (n, [])
unfolding format_uint scan
scan-format_uint n h = scan-emit 20 n [] (omega arith)

format_uint-starts : (n : ℕ) → IsWord n → starts_with_digit (format_uint n) ≡ true
unfolding format_uint
format_uint-starts n h = emit-starts 19 n [] (omega arith)

-- `ParseUint` reads back what `FormatUint` wrote, for every uint64.
pub parse_uint-format_uint : (n : ℕ) → IsWord n → parse_uint (format_uint n) ≡ some n
unfolding parse_uint
parse_uint-format_uint n h = rw (format_uint-starts n h) (rw (scan-format_uint n h) (ground arith))

sscanf_int-digits :
    (s : Bytes) → starts_with_digit s ≡ true → sscanf_int s ≡ scan_up_to (sign_bit - 1) s
unfolding sscanf_int
sscanf_int-digits [] h = cc
sscanf_int-digits (c ∷ s) h = ground arith

-- `Sscanf` reads back a number that fits an int64.
pub sscanf_int-format_uint : (n : ℕ) → n < sign_bit → sscanf_int (format_uint n) ≡ some n
unfolding scan_up_to
sscanf_int-format_uint n h =
    sscanf_int-digits (format_uint n) (format_uint-starts n (omega arith))
    ∙ rw (format_uint-starts n (omega arith)) (rw (scan-format_uint n (omega arith)) (ground arith))

scan_up_to-IsWord :
    (limit : ℕ) (s : Bytes) (v : ℕ) → limit < word_mod → scan_up_to limit s ≡ some v → IsWord v
unfolding scan_up_to
scan_up_to-IsWord limit s v h e = ground arith

negated-IsWord : (o : Option ℕ) (v : ℕ) → negated o ≡ some v → IsWord v
unfolding negated
negated-IsWord none v e = ground arith
negated-IsWord (some n) v e = ground arith

-- What is scanned is an int64 pattern.
pub sscanf_int-IsWord : (s : Bytes) (v : ℕ) → sscanf_int s ≡ some v → IsWord v
unfolding sscanf_int
sscanf_int-IsWord [] v e = ground arith
sscanf_int-IsWord (c ∷ s) v e = ground (
  arith,
  sscanf_int-IsWord s v,
  negated-IsWord (scan_up_to sign_bit s) v,
  scan_up_to-IsWord (sign_bit - 1) s v (omega arith),
  scan_up_to-IsWord (sign_bit - 1) (c ∷ s) v (omega arith),
)
