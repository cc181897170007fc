-- ===== src/Contract/Rules/Refinement.antt =====
-- The approval program keeps to the rules.
use algorand_state_channels.Base.{
  ◌≡◌, inl, inr, refl, Bytes, codes, bytes_has_eq, nat_has_eq, none, some, List, [], ◌==◌, arith,
  Bool-cases, Option-cases, get_elem?,
}
use algorand_state_channels.Contract.State.{Channel, Chain, Call, Payout, Run}
use algorand_state_channels.Contract.Program.{
  on_funding, on_initiate_channel_closing, on_raise_dispute, on_call, dispatch, no_payouts,
  Completion, no_op, opt_in, close_out, update_application, delete_application, program,
}
use algorand_state_channels.Contract.Rules.{Allowed}
use algorand_state_channels.Contract.Rules.Methods.{
  unchanged-Allowed, on_funding-Allowed, on_finalize-Allowed,
}
use algorand_state_channels.Contract.Rules.Closings.{on_initiate-Allowed, on_cooperative-Allowed}
use algorand_state_channels.Contract.Rules.Disputes.{on_raise_dispute-Allowed}

-- A method that pays nothing.
unpaid-Allowed :
    (chain : Chain) (c : Call) (ch ch' : Channel) (payouts : List Payout) (m : Run Channel)
    → ((after : Channel) → m ≡ some after → Allowed chain c ch after [])
    → no_payouts m ≡ some (ch', payouts)
    → Allowed chain c ch ch' payouts
unpaid-Allowed chain c ch ch' payouts none rule e = absurd (ground arith)
unpaid-Allowed chain c ch ch' payouts (some after) rule e =
    let same : after ≡ ch' = ground arith in
    let unpaid : [] ≡ payouts = ground arith in rw (← same, ← unpaid) (rule after refl)

dispatch-Allowed :
    (chain : Chain) (c : Call) (ch ch' : Channel) (method : Bytes) (payouts : List Payout)
    → dispatch chain c ch method ≡ some (ch', payouts)
    → Allowed chain c ch ch' payouts
unfolding dispatch
dispatch-Allowed chain c ch ch' method payouts e = elim (Bool-cases (method == codes "fund")) [
  | inl fund ↦
      unpaid-Allowed chain c ch ch' payouts (on_funding chain c ch) (on_funding-Allowed chain c ch)
        (ground arith)
  | inr not_fund ↦ elim (Bool-cases (method == codes "increaseBudget")) [
    | inl budget ↦ unchanged-Allowed chain c ch ch' payouts (ground arith) (ground arith)
    | inr not_budget ↦ elim (Bool-cases (method == codes "initiateChannelClosing")) [
      | inl initiate ↦
          unpaid-Allowed chain c ch ch' payouts (on_initiate_channel_closing chain c ch)
            (on_initiate-Allowed chain c ch) (ground arith)
      | inr not_initiate ↦ elim (Bool-cases (method == codes "raiseDispute")) [
        | inl dispute ↦
            unpaid-Allowed chain c ch ch' payouts (on_raise_dispute chain c ch)
              (on_raise_dispute-Allowed chain c ch) (ground arith)
        | inr not_dispute ↦ elim (Bool-cases (method == codes "finalizeChannelClosing")) [
          | inl finalize ↦ on_finalize-Allowed chain c ch ch' payouts (ground arith)
          | inr not_finalize ↦ on_cooperative-Allowed chain c ch ch' payouts (ground arith)
        ]
      ]
    ]
  ]
]

-- Every call of a created contract that the program approves, with any arguments and by anybody,
-- is one that the rules allow: it leaves the channel as it is and pays nothing, or it is a funding
-- by Alice, the start of a closing by a party with a state that both have signed, a dispute with a
-- later state that both have signed, a closing together with such a state, or a closing after the
-- timeout; and the channel and the payments afterwards are those of the rule.
pub program-Allowed :
    (chain : Chain) (completion : Completion) (c : Call) (ch ch' : Channel) (payouts : List Payout)
    → program chain completion c (some ch) ≡ some (ch', payouts)
    → Allowed chain c ch ch' payouts
unfolding program on_call
program-Allowed chain no_op c ch ch' payouts e = elim (Option-cases (get_elem? c.args 0)) [
  | inl missing ↦ absurd (ground arith)
  | inr (method, given) ↦ dispatch-Allowed chain c ch ch' method payouts (ground arith)
]
program-Allowed chain opt_in c ch ch' payouts e = absurd (ground arith)
program-Allowed chain close_out c ch ch' payouts e = absurd (ground arith)
program-Allowed chain update_application c ch ch' payouts e = absurd (ground arith)
program-Allowed chain delete_application c ch ch' payouts e = absurd (ground arith)
