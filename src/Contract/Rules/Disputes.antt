-- ===== src/Contract/Rules/Disputes.antt =====
-- A dispute keeps to the rules.
use mathlib.Core.Path.{subst}
use algorand_state_channels.Base.{
  ℕ, ◌<◌, ◌≤◌, ◌≡◌, inl, inr, refl, ap, ◌∙◌, true, false, Bytes, codes, bytes_has_eq, nat_has_eq,
  some, [], if◌then◌else◌, ◌==◌, arith, ltb, Bool-cases, Option-cases,
}
use algorand_state_channels.Contract.State.{Channel, Chain, Call, plus, minus, btoi}
use algorand_state_channels.Contract.Program.{
  Signed, signed_args, close_hash, is_agreed, put_state, on_raise_dispute, settle_dispute,
  punish_alice, punish_bob,
}
use algorand_state_channels.Contract.Agreement.{with_state}
use algorand_state_channels.Contract.Rules.{punished, Allowed, disputes}
use algorand_state_channels.Contract.Rules.Methods.{agreed-IsSigned, unchanged-Allowed}

-- A penalty that can be paid.
punish-inversion :
    (initiator : Bytes) (alice bob t : ℕ) (ch ch' : Channel)
    → (if initiator == codes "alice"
        then punish_alice (with_state alice bob t ch)
        else punish_bob (with_state alice bob t ch))
      ≡ some ch'
    → (ch.penalty_reserve ≤ (if initiator == codes "alice" then alice else bob))
      × (punished (initiator == codes "alice") alice bob t ch ≡ ch')
unfolding punish_alice punish_bob plus minus
punish-inversion initiator alice bob t ch ch' e = elim (Bool-cases (initiator == codes "alice")) [
  | inl alice_began ↦ (ground arith, ground arith)
  | inr bob_began ↦ (ground arith, ground arith)
]

settle_dispute-Allowed :
    (chain : Chain) (c : Call) (a : Signed) (ch ch' : Channel) (t : ℕ)
    → signed_args c ≡ some a
    → is_agreed chain (close_hash chain a) a ch ≡ some true
    → btoi a.timestamp ≡ some t
    → ch.latest_timestamp < t
    → settle_dispute a ch ≡ some ch'
    → Allowed chain c ch ch' []
unfolding settle_dispute
settle_dispute-Allowed chain c a ch ch' t given agreed at newer e =
    elim (Option-cases (put_state a ch)) [
      | inl bad ↦ absurd (ground arith)
      | inr (updated, put) ↦ elim (Option-cases updated.closing_initiator) [
        | inl unset ↦ absurd (ground arith)
        | inr (initiator, began) ↦
            let (alice, bob, t', signed, after, time_is) =
              agreed-IsSigned chain close_hash c ch ch updated a given agreed put in
            let began_is : ch.closing_initiator ≡ some initiator =
              ap (λ x. x.closing_initiator) after ∙ began in
            let (reserve, end) =
              punish-inversion initiator alice bob t' ch ch' (rw (after) (ground arith)) in
            subst (λ x. Allowed chain c ch x []) end
              (disputes alice bob t' initiator signed (ground arith) began_is reserve)
      ]
    ]

pub on_raise_dispute-Allowed :
    (chain : Chain) (c : Call) (ch ch' : Channel)
    → on_raise_dispute chain c ch ≡ some ch'
    → Allowed chain c ch ch' []
unfolding on_raise_dispute
on_raise_dispute-Allowed chain c ch ch' e = elim (Option-cases (signed_args c)) [
  | inl short ↦ absurd (ground arith)
  | inr (a, args) ↦ elim (Option-cases (is_agreed chain (close_hash chain a) a ch)) [
    | inl bad ↦ absurd (ground arith)
    | inr (false, disagreed) ↦ elim (Option-cases (btoi a.timestamp)) [
      | inl long ↦ absurd (ground arith)
      | inr (t, at) ↦ unchanged-Allowed chain c ch ch' [] (ground arith) refl
    ]
    | inr (true, agreed) ↦ elim (Option-cases (btoi a.timestamp)) [
      | inl long ↦ absurd (ground arith)
      | inr (t, at) ↦ elim (Bool-cases (ltb ch.latest_timestamp t)) [
        | inl newer ↦
            settle_dispute-Allowed chain c a ch ch' t args agreed at (ground arith) (ground arith)
        | inr older ↦ unchanged-Allowed chain c ch ch' [] (ground arith) refl
      ]
    ]
  ]
]
