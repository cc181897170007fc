-- ===== src/Contract/Trace.antt =====
-- The contract as a state machine: from its creation on, calls of anybody with any arguments.
use mathlib.Core.Path.{subst}
use algorand_state_channels.Base.{
  ◌≡◌, ◌≢◌, ◌⊎◌, inl, inr, Bytes, codes, bytes_eq_iff, bytes_has_eq, nat_has_eq, none, some, List,
  arith, ◌==◌, Bool-cases, Option-cases, get_elem?,
}
use algorand_state_channels.Contract.State.{Channel, Chain, Call, Payout, Run}
use algorand_state_channels.Contract.Program.{
  on_create, on_funding, on_initiate_channel_closing, on_raise_dispute, on_finalize_channel_closing,
  close_account_to, on_call, dispatch, no_payouts, Completion, no_op, opt_in, close_out,
  update_application, delete_application, program,
}
use algorand_state_channels.Contract.Balance.{
  IsBalanced, on_initiate-IsBalanced, on_cooperative-IsBalanced, on_raise_dispute-IsBalanced,
  on_funding-IsBalanced,
}

-- Funding calls are made only while nothing is deposited.
abbrev pub FundsOnce : Call → Channel → Type 0
FundsOnce c ch = (get_elem? c.args 0 ≢ some (codes "fund")) ⊎ (ch.total_deposit ≡ 0)

pub data Trace : Channel → Type 0 where
  created :
      (chain : Chain) (completion : Completion) (c : Call) (ch : Channel) (payouts : List Payout)
      → program chain completion c none ≡ some (ch, payouts)
      → Trace ch
  called :
      (chain : Chain) (completion : Completion) (c : Call) (ch ch' : Channel)
      (payouts : List Payout)
      → Trace ch
      → FundsOnce c ch
      → program chain completion c (some ch) ≡ some (ch', payouts)
      → Trace ch'

no_payouts-inversion :
    (m : Run Channel) (ch' : Channel) (payouts : List Payout)
    → no_payouts m ≡ some (ch', payouts)
    → m ≡ some ch'
no_payouts-inversion none ch' payouts e = ground arith
no_payouts-inversion (some ch) ch' payouts e = ground arith

on_finalize-eq :
    (chain : Chain) (ch ch' : Channel) (payouts : List Payout)
    → on_finalize_channel_closing chain ch ≡ some (ch', payouts)
    → ch ≡ ch'
unfolding on_finalize_channel_closing
on_finalize-eq chain ch ch' payouts e =
    elim (Option-cases (close_account_to chain ch.alice_address ch)) [
      | inl poor ↦ ground arith
      | inr (p, paid) ↦ ground arith
    ]

dispatch-IsBalanced :
    (chain : Chain) (c : Call) (ch ch' : Channel) (method : Bytes) (payouts : List Payout)
    → IsBalanced ch
    → (method ≢ codes "fund") ⊎ (ch.total_deposit ≡ 0)
    → dispatch chain c ch method ≡ some (ch', payouts)
    → IsBalanced ch'
unfolding dispatch
dispatch-IsBalanced chain c ch ch' method payouts h once e =
    elim (Bool-cases (method == codes "fund")) [
      | inl fund ↦
          on_funding-IsBalanced chain c ch ch' h
            (ground (arith, bytes_eq_iff method (codes "fund")))
            (no_payouts-inversion (on_funding chain c ch) ch' payouts (ground arith))
      | inr not_fund ↦ elim (Bool-cases (method == codes "increaseBudget")) [
        | inl budget ↦ let same : ch ≡ ch' = ground arith in subst IsBalanced same h
        | inr not_budget ↦ elim (Bool-cases (method == codes "initiateChannelClosing")) [
          | inl initiate ↦ on_initiate-IsBalanced chain c ch ch' h (
              no_payouts-inversion (on_initiate_channel_closing chain c ch) ch' payouts
                (ground arith))
          | inr not_initiate ↦ elim (Bool-cases (method == codes "raiseDispute")) [
            | inl dispute ↦
                on_raise_dispute-IsBalanced chain c ch ch' h
                  (no_payouts-inversion (on_raise_dispute chain c ch) ch' payouts (ground arith))
            | inr not_dispute ↦ elim (Bool-cases (method == codes "finalizeChannelClosing")) [
              | inl finalize ↦
                  subst IsBalanced (on_finalize-eq chain ch ch' payouts (ground arith)) h
              | inr not_finalize ↦ on_cooperative-IsBalanced chain c ch ch' payouts h (ground arith)
            ]
          ]
        ]
      ]
    ]

called-IsBalanced :
    (chain : Chain) (completion : Completion) (c : Call) (ch ch' : Channel) (payouts : List Payout)
    → IsBalanced ch
    → FundsOnce c ch
    → program chain completion c (some ch) ≡ some (ch', payouts)
    → IsBalanced ch'
unfolding program on_call
called-IsBalanced chain no_op c ch ch' payouts h once e = elim (Option-cases (get_elem? c.args 0)) [
  | inl missing ↦ absurd (ground arith)
  | inr (method, given) ↦
      dispatch-IsBalanced chain c ch ch' method payouts h (ground (arith, once)) (ground arith)
]
called-IsBalanced chain opt_in c ch ch' payouts h once e = ground arith
called-IsBalanced chain close_out c ch ch' payouts h once e = ground arith
called-IsBalanced chain update_application c ch ch' payouts h once e = ground arith
called-IsBalanced chain delete_application c ch ch' payouts h once e = ground arith

created-IsBalanced :
    (chain : Chain) (completion : Completion) (c : Call) (ch : Channel) (payouts : List Payout)
    → program chain completion c none ≡ some (ch, payouts)
    → IsBalanced ch
unfolding program on_create
created-IsBalanced chain completion c ch payouts e = record { whole = ground arith }

-- Whoever calls the contract with whatever arguments after its creation, if it is funded only
-- while nothing is deposited, the balances that it keeps make up the deposit.
pub Trace-IsBalanced : {ch : Channel} → Trace ch → IsBalanced ch
Trace-IsBalanced (created chain completion c ch payouts e) =
    created-IsBalanced chain completion c ch payouts e
Trace-IsBalanced (called chain completion c ch ch' payouts t once e) =
    called-IsBalanced chain completion c ch ch' payouts (Trace-IsBalanced t) once e
