-- ===== src/Contract/Rules/Deposits.antt =====
-- What the rules say of the parties and of what is paid out.
use algorand_state_channels.Base.{
  ℕ, ◌+◌, ◌≡◌, ◌⊎◌, inl, inr, refl, Bool, true, false, codes, bytes_has_eq, some, List, [], ◌==◌,
}
use algorand_state_channels.Contract.State.{Channel, Chain, Call, Payout}
use algorand_state_channels.Contract.Program.{Completion, program}
use algorand_state_channels.Contract.Agreement.{payouts_of}
use algorand_state_channels.Contract.Balance.{IsBalanced}
use algorand_state_channels.Contract.Trace.{Trace, Trace-IsBalanced}
use algorand_state_channels.Contract.Rules.{
  CoversFees, punished, Allowed, keeps, funds, starts, disputes, closes, finalizes,
}
use algorand_state_channels.Contract.Rules.Refinement.{program-Allowed}

-- The two payments of a closing, of balances that make up the deposit and cover the fees.
pub record IsSettlement (chain : Chain) (ch : Channel) (payouts : List Payout) : Type 0 where
  pub alice : ℕ
  pub bob : ℕ
  pub whole : alice + bob ≡ ch.total_deposit
  pub covers : CoversFees chain alice bob
  pub paid : payouts ≡ payouts_of chain alice bob ch

-- What both have agreed to when the channel was made.
pub record SameTerms (ch ch' : Channel) : Type 0 where
  pub same_alice : ch'.alice_address ≡ ch.alice_address
  pub same_bob : ch'.bob_address ≡ ch.bob_address
  pub same_reserve : ch'.penalty_reserve ≡ ch.penalty_reserve
  pub same_window : ch'.dispute_window ≡ ch.dispute_window

punished-SameTerms :
    (by_alice : Bool) (alice bob t : ℕ) (ch : Channel)
    → SameTerms ch (punished by_alice alice bob t ch)
punished-SameTerms true alice bob t ch = record {
  same_alice = refl;
  same_bob = refl;
  same_reserve = refl;
  same_window = refl;
}
punished-SameTerms false alice bob t ch = record {
  same_alice = refl;
  same_bob = refl;
  same_reserve = refl;
  same_window = refl;
}

Allowed-SameTerms :
    {chain : Chain} {c : Call} {ch ch' : Channel} {payouts : List Payout}
    → Allowed chain c ch ch' payouts
    → SameTerms ch ch'
Allowed-SameTerms keeps = record {
  same_alice = refl;
  same_bob = refl;
  same_reserve = refl;
  same_window = refl;
}
Allowed-SameTerms (funds _ _ _ _ _ _) = record {
  same_alice = refl;
  same_bob = refl;
  same_reserve = refl;
  same_window = refl;
}
Allowed-SameTerms (starts _ _ _ _ _) = record {
  same_alice = refl;
  same_bob = refl;
  same_reserve = refl;
  same_window = refl;
}
Allowed-SameTerms {ch = ch} (disputes alice bob t initiator _ _ _ _) =
    punished-SameTerms (initiator == codes "alice") alice bob t ch
Allowed-SameTerms (closes _ _ _ _ _ _ _) = record {
  same_alice = refl;
  same_bob = refl;
  same_reserve = refl;
  same_window = refl;
}
Allowed-SameTerms (finalizes _ _) = record {
  same_alice = refl;
  same_bob = refl;
  same_reserve = refl;
  same_window = refl;
}

Allowed-IsSettlement :
    {chain : Chain} {c : Call} {ch ch' : Channel} {payouts : List Payout}
    → IsBalanced ch
    → Allowed chain c ch ch' payouts
    → (payouts ≡ []) ⊎ IsSettlement chain ch payouts
Allowed-IsSettlement h keeps = inl refl
Allowed-IsSettlement h (funds _ _ _ _ _ _) = inl refl
Allowed-IsSettlement h (starts _ _ _ _ _) = inl refl
Allowed-IsSettlement h (disputes _ _ _ _ _ _ _ _) = inl refl
Allowed-IsSettlement h (closes alice bob t party early signed covers) =
    inr (record { alice = alice; bob = bob; whole = signed.whole; covers = covers; paid = refl })
Allowed-IsSettlement {ch = ch} h (finalizes late covers) = inr (record {
  alice = ch.latest_alice_balance;
  bob = ch.latest_bob_balance;
  whole = h.whole;
  covers = covers;
  paid = refl;
})

-- In every state that the contract reaches from its creation, if it is funded only while nothing is
-- deposited, a call that the program approves changes neither the parties nor the reserve nor the
-- dispute window; and it pays nothing, or it makes the two payments to Bob and Alice, of balances
-- that make up the deposit and are at least a fee each, less the fees.
pub approved_pays_deposit :
    {ch : Channel} (t : Trace ch) (chain : Chain) (completion : Completion) (c : Call)
    (ch' : Channel) (payouts : List Payout)
    → program chain completion c (some ch) ≡ some (ch', payouts)
    → SameTerms ch ch' × ((payouts ≡ []) ⊎ IsSettlement chain ch payouts)
approved_pays_deposit {ch} t chain completion c ch' payouts e =
    let rule = program-Allowed chain completion c ch ch' payouts e in
    (Allowed-SameTerms rule, Allowed-IsSettlement (Trace-IsBalanced t) rule)
