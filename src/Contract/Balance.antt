-- ===== src/Contract/Balance.antt =====
-- What every call keeps: the balances of a channel make up its deposit.
use mathlib.Core.Path.{subst}
use algorand_state_channels.Base.{
  ◌+◌, ◌≡◌, ◌⊎◌, inl, inr, refl, true, false, Bytes, codes, bytes_has_eq, nat_has_eq, some, List,
  arith, if◌then◌else◌, ◌==◌, ltb, Bool-cases, Option-cases,
}
use algorand_state_channels.Contract.State.{Channel, Chain, Call, Payout, plus, minus, btoi}
use algorand_state_channels.Contract.Program.{
  Signed, signed_args, state_hash, close_hash, is_agreed, put_state, is_party, start_closing,
  close_together, settle_dispute, punish_alice, punish_bob, on_funding, on_initiate_channel_closing,
  on_cooperative_close, on_raise_dispute,
}

-- The balances make up the deposit.
pub record IsBalanced (ch : Channel) : Type 0 where
  pub whole : ch.latest_alice_balance + ch.latest_bob_balance ≡ ch.total_deposit

-- A state that is taken over from an agreement is balanced.
put_state-IsBalanced :
    (chain : Chain) (hash : Bytes) (a : Signed) (ch ch0 ch' : Channel)
    → is_agreed chain hash a ch ≡ some true
    → ch0.total_deposit ≡ ch.total_deposit
    → put_state a ch0 ≡ some ch'
    → IsBalanced ch'
unfolding is_agreed put_state plus
put_state-IsBalanced chain hash a ch ch0 ch' agreed same e = record { whole = ground (arith) }

start_closing-IsBalanced :
    (chain : Chain) (c : Call) (a : Signed) (ch ch' : Channel)
    → is_agreed chain (state_hash chain a) a ch ≡ some true
    → start_closing chain c a ch ≡ some ch'
    → IsBalanced ch'
unfolding start_closing
start_closing-IsBalanced chain c a ch ch' agreed e =
    elim (Option-cases (plus chain.round ch.dispute_window)) [
      | inl late ↦ absurd (ground arith)
      | inr (timeout, at) ↦
          let initiator = if c.sender == ch.alice_address then codes "alice" else codes "bob" in
          let begun : Channel = record ch {
            closing_initiator = some initiator;
            timeout = timeout;
          } in
          put_state-IsBalanced chain (state_hash chain a) a ch begun ch' agreed refl (ground arith)
    ]

pub on_initiate-IsBalanced :
    (chain : Chain) (c : Call) (ch ch' : Channel)
    → IsBalanced ch
    → on_initiate_channel_closing chain c ch ≡ some ch'
    → IsBalanced ch'
unfolding on_initiate_channel_closing
on_initiate-IsBalanced chain c ch ch' h e = elim (Bool-cases (is_party c ch)) [
  | inr stranger ↦ absurd (ground arith)
  | inl party ↦ elim (Option-cases (signed_args c)) [
    | inl short ↦ absurd (ground arith)
    | inr (a, args) ↦ elim (Option-cases (is_agreed chain (state_hash chain a) a ch)) [
      | inl bad ↦ absurd (ground arith)
      | inr (true, agreed) ↦ start_closing-IsBalanced chain c a ch ch' agreed (ground arith)
      | inr (false, disagreed) ↦ let same : ch ≡ ch' = ground arith in subst IsBalanced same h
    ]
  ]
]

close_together-IsBalanced :
    (chain : Chain) (a : Signed) (ch ch' : Channel) (payouts : List Payout)
    → is_agreed chain (close_hash chain a) a ch ≡ some true
    → close_together chain a ch ≡ some (ch', payouts)
    → IsBalanced ch'
unfolding close_together
close_together-IsBalanced chain a ch ch' payouts agreed e = elim (Option-cases (put_state a ch)) [
  | inl bad ↦ absurd (ground arith)
  | inr (closed, put) ↦
      let same : closed ≡ ch' = ground arith in
      subst IsBalanced same
        (put_state-IsBalanced chain (close_hash chain a) a ch ch closed agreed refl put)
]

pub on_cooperative-IsBalanced :
    (chain : Chain) (c : Call) (ch ch' : Channel) (payouts : List Payout)
    → IsBalanced ch
    → on_cooperative_close chain c ch ≡ some (ch', payouts)
    → IsBalanced ch'
unfolding on_cooperative_close
on_cooperative-IsBalanced chain c ch ch' payouts h e = elim (Bool-cases (is_party c ch)) [
  | inr stranger ↦ absurd (ground arith)
  | inl party ↦ elim (Option-cases (signed_args c)) [
    | inl short ↦ absurd (ground arith)
    | inr (a, args) ↦ elim (Option-cases (is_agreed chain (close_hash chain a) a ch)) [
      | inl bad ↦ absurd (ground arith)
      | inr (true, agreed) ↦ close_together-IsBalanced chain a ch ch' payouts agreed (ground arith)
      | inr (false, disagreed) ↦ let same : ch ≡ ch' = ground arith in subst IsBalanced same h
    ]
  ]
]

-- A penalty moves from one balance to the other.
punish-IsBalanced :
    (ch ch' : Channel)
    → IsBalanced ch
    → (punish_alice ch ≡ some ch') ⊎ (punish_bob ch ≡ some ch')
    → IsBalanced ch'
unfolding punish_alice punish_bob plus minus
punish-IsBalanced ch ch' h (inl e) = record { whole = ground (arith, h.whole) }
punish-IsBalanced ch ch' h (inr e) = record { whole = ground (arith, h.whole) }

settle_dispute-IsBalanced :
    (chain : Chain) (a : Signed) (ch ch' : Channel)
    → is_agreed chain (close_hash chain a) a ch ≡ some true
    → settle_dispute a ch ≡ some ch'
    → IsBalanced ch'
unfolding settle_dispute
settle_dispute-IsBalanced chain a ch ch' agreed e = elim (Option-cases (put_state a ch)) [
  | inl bad ↦ absurd (ground arith)
  | inr (updated, put) ↦ elim (Option-cases updated.closing_initiator) [
    | inl unset ↦ absurd (ground arith)
    | inr (initiator, began) ↦
        punish-IsBalanced updated ch'
          (put_state-IsBalanced chain (close_hash chain a) a ch ch updated agreed refl put)
          (ground arith)
  ]
]

pub on_raise_dispute-IsBalanced :
    (chain : Chain) (c : Call) (ch ch' : Channel)
    → IsBalanced ch
    → on_raise_dispute chain c ch ≡ some ch'
    → IsBalanced ch'
unfolding on_raise_dispute
on_raise_dispute-IsBalanced chain c ch ch' h e = elim (Option-cases (signed_args c)) [
  | inl short ↦ absurd (ground arith)
  | inr (a, args) ↦ elim (Option-cases (is_agreed chain (close_hash chain a) a ch)) [
    | inl bad ↦ absurd (ground arith)
    | inr (false, disagreed) ↦ let same : ch ≡ ch' = ground arith in subst IsBalanced same h
    | inr (true, agreed) ↦ elim (Option-cases (btoi a.timestamp)) [
      | inl long ↦ absurd (ground arith)
      | inr (t, at) ↦ elim (Bool-cases (ltb ch.latest_timestamp t)) [
        | inl newer ↦ settle_dispute-IsBalanced chain a ch ch' agreed (ground arith)
        | inr older ↦ let same : ch ≡ ch' = ground arith in subst IsBalanced same h
      ]
    ]
  ]
]

-- The first funding.
pub on_funding-IsBalanced :
    (chain : Chain) (c : Call) (ch ch' : Channel)
    → IsBalanced ch
    → ch.total_deposit ≡ 0
    → on_funding chain c ch ≡ some ch'
    → IsBalanced ch'
unfolding on_funding
on_funding-IsBalanced chain c ch ch' h unfunded e = elim (Option-cases c.preceding) [
  | inl alone ↦ absurd (ground arith)
  | inr (funding, before) ↦ record { whole = ground (arith, h.whole) }
]
