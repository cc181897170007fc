-- ===== src/Server/Log/Highest.antt =====
-- What getHighestBalanceOffChainState finds: a state with the greatest balance of one side.
use mathlib.Core.Path.{subst}
use algorand_state_channels.Base.{
  ℕ, suc, ◌<◌, ◌≤◌, ◌≡◌, ◌⊎◌, inl, inr, refl, sym, ap, Bool, true, false, none, some, [], ◌∷◌,
  arith, ltb, nat_eq, if◌then◌else◌, Bool-cases, All, get_elem?,
}
use algorand_state_channels.Server.State.{OffChainState, PaymentLog, zero_state}
use algorand_state_channels.Server.Log.{
  balance_of, highest_loop, get_highest_balance_off_chain_state,
}

-- No balance of the side in the log is above `b`.
abbrev pub IsBelow : Bool → ℕ → PaymentLog → Type 0
IsBelow is_alice b log = All (λ e. balance_of is_alice e.1 ≤ b) log

-- The log holds the state at some place.
abbrev pub Holds : OffChainState → PaymentLog → Type 0
Holds st log = (i : ℕ) × (k : ℕ) × (get_elem? log i ≡ some (k, st))

-- How the loop ends: with the first pair, or with a state of the log.
abbrev HighestEnds : Bool → ℕ → OffChainState → PaymentLog → ℕ × OffChainState → Type 0
HighestEnds is_alice b s log (b', s') =
    (b ≤ b')
    × IsBelow is_alice b' log
    × (((b' ≡ b) × (s' ≡ s)) ⊎ (Holds s' log × (balance_of is_alice s' ≡ b')))

highest_loop-round :
    (r is_alice : Bool) (b k : ℕ) (s v : OffChainState) (log : PaymentLog)
    → ltb b (balance_of is_alice v) ≡ r
    → highest_loop is_alice b s ((k, v) ∷ log)
      ≡ highest_loop is_alice (if r then balance_of is_alice v else b) (if r then v else s) log
unfolding highest_loop
highest_loop-round r is_alice b k s v log h i =
    highest_loop is_alice (if h i then balance_of is_alice v else b) (if h i then v else s) log

HighestEnds-cons :
    (r is_alice : Bool) (b k : ℕ) (s v : OffChainState) (log : PaymentLog) (e : ℕ × OffChainState)
    → ltb b (balance_of is_alice v) ≡ r
    → HighestEnds is_alice (if r then balance_of is_alice v else b) (if r then v else s) log e
    → HighestEnds is_alice b s ((k, v) ∷ log) e
HighestEnds-cons r is_alice b k s v log e h (above, below, inr ((i, j, at), same)) =
    (ground arith, (ground arith, below), inr ((suc i, j, at), same))
HighestEnds-cons true is_alice b k s v log e h (above, below, inl (same, state)) =
    (ground arith, (ground arith, below), inr ((0, k, ground arith), ground arith))
HighestEnds-cons false is_alice b k s v log e h (above, below, inl (same, state)) =
    (ground arith, (ground arith, below), inl (same, state))

highest_loop-ends :
    (is_alice : Bool) (b : ℕ) (s : OffChainState) (log : PaymentLog)
    → HighestEnds is_alice b s log (highest_loop is_alice b s log)
unfolding highest_loop
highest_loop-ends is_alice b s [] = (omega arith, tt, inl (refl, refl))
highest_loop-ends is_alice b s ((k, v) ∷ log) = elim (Bool-cases (ltb b (balance_of is_alice v))) [
  | inl h ↦
      subst (HighestEnds is_alice b s ((k, v) ∷ log))
        (sym (highest_loop-round true is_alice b k s v log h))
        (HighestEnds-cons true is_alice b k s v log _ h
          (highest_loop-ends is_alice (balance_of is_alice v) v log))
  | inr h ↦
      subst (HighestEnds is_alice b s ((k, v) ∷ log))
        (sym (highest_loop-round false is_alice b k s v log h))
        (HighestEnds-cons false is_alice b k s v log _ h (highest_loop-ends is_alice b s log))
]

highest_of_ends :
    (is_alice : Bool) (log : PaymentLog) (e : ℕ × OffChainState) (st : OffChainState)
    → HighestEnds is_alice 0 zero_state log e
    → (if nat_eq e.0 0 then none else some e.1) ≡ some st
    → Holds st log × (0 < balance_of is_alice st) × IsBelow is_alice (balance_of is_alice st) log
highest_of_ends is_alice log (b', s') st (above, below, inl (same, state)) h = absurd (ground arith)
highest_of_ends is_alice log (b', s') st (above, below, inr (held, same)) h =
    let state : s' ≡ st = ground arith in
    let balance : b' ≡ balance_of is_alice st = cc (same, ap (balance_of is_alice) state) in
    (
      subst (λ v. Holds v log) state held,
      ground arith,
      subst (λ b. IsBelow is_alice b log) balance below,
    )

-- The state that is found is one of the log, in which the side has a positive balance, and in no
-- state of the log does the side have more.
pub get_highest-greatest :
    (is_alice : Bool) (log : PaymentLog) (st : OffChainState)
    → get_highest_balance_off_chain_state is_alice log ≡ some st
    → Holds st log × (0 < balance_of is_alice st) × IsBelow is_alice (balance_of is_alice st) log
unfolding get_highest_balance_off_chain_state
get_highest-greatest is_alice log st h =
    highest_of_ends is_alice log (highest_loop is_alice 0 zero_state log) st
      (highest_loop-ends is_alice 0 zero_state log) h
