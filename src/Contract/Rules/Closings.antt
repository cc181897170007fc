-- ===== src/Contract/Rules/Closings.antt =====
-- The start of a closing and a closing together keep to the rules.
use mathlib.Core.Path.{subst}
use algorand_state_channels.Base.{
  ◌+◌, ◌≡◌, inl, inr, refl, ◌∙◌, true, false, codes, bytes_has_eq, nat_has_eq, nat_eq, nat_eq_iff,
  some, List, [], if◌then◌else◌, ◌==◌, arith, Bool-cases, Option-cases,
}
use algorand_state_channels.Contract.State.{Channel, Chain, Call, Payout, plus}
use algorand_state_channels.Contract.Program.{
  Signed, signed_args, state_hash, close_hash, is_agreed, put_state, is_party,
  on_initiate_channel_closing, start_closing, on_cooperative_close, close_together,
}
use algorand_state_channels.Contract.Agreement.{with_state}
use algorand_state_channels.Contract.Rules.{OfParty, Allowed, starts, closes}
use algorand_state_channels.Contract.Rules.Methods.{
  agreed-IsSigned, OfParty-is_party, unchanged-Allowed, close_account_to-inversion,
}

start_closing-Allowed :
    (chain : Chain) (c : Call) (a : Signed) (ch ch' : Channel)
    → OfParty c ch
    → signed_args c ≡ some a
    → is_agreed chain (state_hash chain a) a ch ≡ some true
    → start_closing chain c a ch ≡ some ch'
    → Allowed chain c ch ch' []
unfolding start_closing plus
start_closing-Allowed chain c a ch ch' party given agreed e =
    let initiator = if c.sender == ch.alice_address then codes "alice" else codes "bob" in
    let begun : Channel = record ch {
      closing_initiator = some initiator;
      timeout = chain.round + ch.dispute_window;
    } in
    let (alice, bob, t, signed, after, time_is) =
      agreed-IsSigned chain state_hash c ch begun ch' a given agreed (ground arith) in
    subst (λ x. Allowed chain c ch x []) after (starts alice bob t party signed)

pub on_initiate-Allowed :
    (chain : Chain) (c : Call) (ch ch' : Channel)
    → on_initiate_channel_closing chain c ch ≡ some ch'
    → Allowed chain c ch ch' []
unfolding on_initiate_channel_closing
on_initiate-Allowed chain c ch ch' e = elim (Bool-cases (is_party c ch)) [
  | inr stranger ↦ absurd (ground arith)
  | inl party ↦ elim (Option-cases (signed_args c)) [
    | inl short ↦ absurd (ground arith)
    | inr (a, args) ↦ elim (Option-cases (is_agreed chain (state_hash chain a) a ch)) [
      | inl bad ↦ absurd (ground arith)
      | inr (true, agreed) ↦
          start_closing-Allowed chain c a ch ch' (OfParty-is_party c ch party) args agreed
            (ground arith)
      | inr (false, disagreed) ↦ unchanged-Allowed chain c ch ch' [] (ground arith) refl
    ]
  ]
]

close_together-Allowed :
    (chain : Chain) (c : Call) (a : Signed) (ch ch' : Channel) (payouts : List Payout)
    → OfParty c ch
    → ch.timeout ≡ 0
    → signed_args c ≡ some a
    → is_agreed chain (close_hash chain a) a ch ≡ some true
    → close_together chain a ch ≡ some (ch', payouts)
    → Allowed chain c ch ch' payouts
unfolding close_together
close_together-Allowed chain c a ch ch' payouts party early given agreed e =
    elim (Option-cases (put_state a ch)) [
      | inl bad ↦ absurd (ground arith)
      | inr (closed, put) ↦
          let (alice, bob, t, signed, after, time_is) =
            agreed-IsSigned chain close_hash c ch ch closed a given agreed put in
          let (covers, paid) =
            close_account_to-inversion chain (with_state alice bob t ch) payouts
              (rw (after) (ground arith)) in
          let same : with_state alice bob t ch ≡ ch' = after ∙ ground arith in
          subst (λ x. Allowed chain c ch x payouts) same
            (subst (λ x. Allowed chain c ch (with_state alice bob t ch) x) paid
              (closes alice bob t party early signed covers))
    ]

pub on_cooperative-Allowed :
    (chain : Chain) (c : Call) (ch ch' : Channel) (payouts : List Payout)
    → on_cooperative_close chain c ch ≡ some (ch', payouts)
    → Allowed chain c ch ch' payouts
unfolding on_cooperative_close
on_cooperative-Allowed chain c ch ch' payouts e = elim (Bool-cases (is_party c ch)) [
  | inr stranger ↦ absurd (ground arith)
  | inl party ↦ elim (Bool-cases (nat_eq ch.timeout 0)) [
    | inr late ↦ absurd (ground arith)
    | inl early ↦ elim (Option-cases (signed_args c)) [
      | inl short ↦ absurd (ground arith)
      | inr (a, args) ↦ elim (Option-cases (is_agreed chain (close_hash chain a) a ch)) [
        | inl bad ↦ absurd (ground arith)
        | inr (true, agreed) ↦
            close_together-Allowed chain c a ch ch' payouts (OfParty-is_party c ch party)
              (ground (arith, nat_eq_iff ch.timeout 0)) args agreed (ground arith)
        | inr (false, disagreed) ↦
            unchanged-Allowed chain c ch ch' payouts (ground arith) (ground arith)
      ]
    ]
  ]
]
