-- ===== src/Contract/Rules/Methods.antt =====
-- What the calls say that the methods accept, and the methods that need no signed state.
use mathlib.Core.Path.{subst}
use algorand_state_channels.Base.{
  ℕ, ◌+◌, ◌≡◌, inl, inr, sym, ◌∙◌, true, Bytes, bytes_eq_iff, bytes_has_eq, nat_has_eq, nat_eq_iff,
  some, List, [], ◌==◌, arith, ltb, Bool-cases, Option-cases,
}
use algorand_state_channels.Contract.State.{Channel, Chain, Call, Payout, plus, minus, btoi}
use algorand_state_channels.Contract.Program.{
  Signed, signed_args, is_agreed, put_state, is_party, on_funding, close_account_to,
  on_finalize_channel_closing,
}
use algorand_state_channels.Contract.Agreement.{with_state, payouts_of}
use algorand_state_channels.Contract.Rules.{
  IsSigned, OfParty, CoversFees, Allowed, keeps, funds, finalizes,
}

-- What an agreement and the state that is then put say of the arguments.
pub agreed-IsSigned :
    (chain : Chain) (hash : Chain → Signed → Bytes) (c : Call) (ch into ch' : Channel) (a : Signed)
    → signed_args c ≡ some a
    → is_agreed chain (hash chain a) a ch ≡ some true
    → put_state a into ≡ some ch'
    → (alice bob t : ℕ) × IsSigned chain hash c ch alice bob t
      × (with_state alice bob t into ≡ ch')
      × (btoi a.timestamp ≡ some t)
unfolding is_agreed put_state plus
agreed-IsSigned chain hash c ch into ch' a given agreed put =
    elim (Option-cases (btoi a.alice_balance)) [
      | inl e ↦ absurd (ground arith)
      | inr (alice, alice_is) ↦ elim (Option-cases (btoi a.bob_balance)) [
        | inl e ↦ absurd (ground arith)
        | inr (bob, bob_is) ↦ elim (Option-cases (btoi a.timestamp)) [
          | inl e ↦ absurd (ground arith)
          | inr (t, time_is) ↦ (
            alice,
            bob,
            t,
            record {
              args = a;
              given = given;
              by_alice = ground arith;
              by_bob = ground arith;
              alice_is = alice_is;
              bob_is = bob_is;
              time_is = time_is;
              whole = ground (arith, nat_eq_iff (alice + bob) ch.total_deposit);
            },
            ground arith,
            time_is,
          )
        ]
      ]
    ]

pub OfParty-is_party : (c : Call) (ch : Channel) → is_party c ch ≡ true → OfParty c ch
OfParty-is_party c ch e =
    let alice = bytes_eq_iff c.sender ch.alice_address in
    let bob = bytes_eq_iff c.sender ch.bob_address in
    elim (Bool-cases (c.sender == ch.alice_address)) [
      | inl is_alice ↦ inl (alice.0 is_alice)
      | inr other ↦ inr (bob.0 (ground arith))
    ]

pub unchanged-Allowed :
    (chain : Chain) (c : Call) (ch ch' : Channel) (payouts : List Payout)
    → ch ≡ ch'
    → payouts ≡ []
    → Allowed chain c ch ch' payouts
unchanged-Allowed chain c ch ch' payouts same unpaid =
    subst (λ x. Allowed chain c ch x payouts) same
      (subst (λ x. Allowed chain c ch ch x) (sym unpaid) keeps)

-- The payments of a closing are those of the balances, which cover the fees.
pub close_account_to-inversion :
    (chain : Chain) (ch : Channel) (payouts : List Payout)
    → close_account_to chain ch.alice_address ch ≡ some payouts
    → CoversFees chain ch.latest_alice_balance ch.latest_bob_balance
      × (payouts_of chain ch.latest_alice_balance ch.latest_bob_balance ch ≡ payouts)
unfolding close_account_to minus
close_account_to-inversion chain ch payouts e = ((ground arith, ground arith), ground arith)

pub on_funding-Allowed :
    (chain : Chain) (c : Call) (ch ch' : Channel)
    → on_funding chain c ch ≡ some ch'
    → Allowed chain c ch ch' []
unfolding on_funding plus
on_funding-Allowed chain c ch ch' e = elim (Option-cases c.preceding) [
  | inl missing ↦ absurd (ground arith)
  | inr (funding, before) ↦
      let payer = bytes_eq_iff funding.payer ch.alice_address in
      let receiver = bytes_eq_iff funding.receiver chain.application_address in
      let after : record ch {
        latest_alice_balance = funding.amount;
        total_deposit = funding.amount;
      }
          ≡ ch' =
        ground arith in
      subst (λ x. Allowed chain c ch x []) after
        (funds funding before (ground (arith, payer)) (ground arith) (ground (arith, receiver))
          (ground arith))
]

pub on_finalize-Allowed :
    (chain : Chain) (c : Call) (ch ch' : Channel) (payouts : List Payout)
    → on_finalize_channel_closing chain ch ≡ some (ch', payouts)
    → Allowed chain c ch ch' payouts
unfolding on_finalize_channel_closing
on_finalize-Allowed chain c ch ch' payouts e = elim (Bool-cases (ltb ch.timeout chain.round)) [
  | inr early ↦ unchanged-Allowed chain c ch ch' payouts (ground arith) (ground arith)
  | inl late ↦ elim (Option-cases (close_account_to chain ch.alice_address ch)) [
    | inl poor ↦ absurd (ground arith)
    | inr (paid, pays) ↦
        let (covers, paid_is) = close_account_to-inversion chain ch paid pays in
        let same : ch ≡ ch' = ground arith in
        let all : paid ≡ payouts = ground arith in
        subst (λ x. Allowed chain c ch x payouts) same
          (subst (λ x. Allowed chain c ch ch x) (paid_is ∙ all) (finalizes (ground arith) covers))
  ]
]
