-- ===== src/Contract/Disputes.antt =====
-- Calls that the contract lets pass and ignores: disputes with signatures of states, and closings
-- whose signatures are exchanged.
use mathlib.Core.Path.{subst}
use algorand_state_channels.Base.{
  ℕ, ◌≡◌, ◌≢◌, ◌⊎◌, inl, inr, sym, ◌∙◌, true, Bytes, codes, bytes_eq, bytes_has_eq, nat_has_eq,
  none, some, List, [], arith, Bool-cases, Option-cases,
}
use algorand_state_channels.Payment.Sdk.{Sdk, Account, Address}
use algorand_state_channels.Payment.Message.{state_message-ne-close_message}
use algorand_state_channels.Payment.Signing.{verify_state}
use algorand_state_channels.Payment.Calls.{state_args, raise_dispute, initiate_close_channel}
use algorand_state_channels.Contract.State.{Channel, Chain, Call, Payout, Run, btoi}
use algorand_state_channels.Contract.Program.{
  Signed, signed_args, state_hash, close_hash, is_agreed, on_raise_dispute,
  on_initiate_channel_closing, dispatch, no_payouts, is_party,
}
use algorand_state_channels.Contract.Group.{run_submission}
use algorand_state_channels.Contract.Calls.{
  signed_of, signed_args-state_args, state_hash-signed_of, close_hash-signed_of,
  run_submission-increase_budget, run_txn-dispatch,
}
use algorand_state_channels.Contract.Agreement.{SameCrypto, HasParties}

-- What a signature and a hash are relied on for: a signature stands for one message and one key,
-- and no two texts have one hash.
pub record IsBinding (sdk : Sdk) : Type 0 where
  pub one_message :
      (key m m' s : Bytes) → sdk.verify key m s ≡ true → sdk.verify key m' s ≡ true → m ≡ m'
  pub one_key :
      (key key' m s : Bytes) → sdk.verify key m s ≡ true → sdk.verify key' m s ≡ true → key ≡ key'
  pub one_text : (a b : Bytes) → sdk.sum256 a ≡ sdk.sum256 b → a ≡ b

-- The transaction fails, or the contract approves it and nothing changes.
abbrev pub IsIgnored : Run (Channel × List Payout) → Channel → Type 0
IsIgnored r ch = (r ≡ none) ⊎ (r ≡ some (ch, []))

-- Without Alice's signature there is no agreement.
is_agreed-ne_true :
    (chain : Chain) (hash : Bytes) (a : Signed) (ch : Channel)
    → chain.ed25519verify_bare hash a.alice_signature ch.alice_address ≢ some true
    → is_agreed chain hash a ch ≢ some true
unfolding is_agreed
is_agreed-ne_true chain hash a ch unsigned e = ground arith

on_raise_dispute-IsIgnored :
    (chain : Chain) (c : Call) (a : Signed) (ch : Channel)
    → signed_args c ≡ some a
    → is_agreed chain (close_hash chain a) a ch ≢ some true
    → IsIgnored (no_payouts (on_raise_dispute chain c ch)) ch
unfolding on_raise_dispute
on_raise_dispute-IsIgnored chain c a ch args disagreed =
    elim (Option-cases (is_agreed chain (close_hash chain a) a ch)) [
      | inl e ↦ inl (ground arith)
      | inr (b, e) ↦ elim (Option-cases (btoi a.timestamp)) [
        | inl f ↦ inl (ground arith)
        | inr (t, f) ↦ inr (ground arith)
      ]
    ]

pub on_initiate_closing-IsIgnored :
    (chain : Chain) (c : Call) (a : Signed) (ch : Channel)
    → signed_args c ≡ some a
    → is_agreed chain (state_hash chain a) a ch ≢ some true
    → IsIgnored (no_payouts (on_initiate_channel_closing chain c ch)) ch
unfolding on_initiate_channel_closing
on_initiate_closing-IsIgnored chain c a ch args disagreed = elim (Bool-cases (is_party c ch)) [
  | inr stranger ↦ inl (ground arith)
  | inl party ↦ elim (Option-cases (is_agreed chain (state_hash chain a) a ch)) [
    | inl e ↦ inl (ground arith)
    | inr (b, e) ↦ inr (ground arith)
  ]
]

module _ (sdk : Sdk) (chain : Chain) (ch : Channel) (alice_party bob_party : Address)
    (same : SameCrypto sdk chain) (binding : IsBinding sdk)
    (parties : HasParties sdk ch alice_party bob_party) (account : Account)
    (alice bob timestamp : ℕ) (sa sb : Bytes) where
  -- Alice's signature of a state does not verify for a closing.
  state_signature-ne_close :
      verify_state sdk chain.application_id alice bob 4161 sa alice_party timestamp ≡ true
      → chain.ed25519verify_bare
          (close_hash chain (signed_of 4161 alice bob timestamp sa sb))
          sa
          ch.alice_address
        ≢ some true
  unfolding verify_state
  state_signature-ne_close va e =
      let hash_is = close_hash-signed_of chain 4161 alice bob timestamp sa sb ∙ same.same_hash _ in
      let vc = same.sound ch.alice_address _ sa e in
      state_message-ne-close_message 4161 4161 chain.application_id chain.application_id alice alice
        bob bob timestamp timestamp
        (binding.one_text _ _ (
          binding.one_message (sdk.decode_address alice_party) _ _ sa va
            (rw (← parties.alice_key, ← hash_is) vc)))

  -- The contract ignores every dispute that the watchtower raises with a state whose signature by
  -- Alice verifies.
  pub raise_dispute-IsIgnored :
      verify_state sdk chain.application_id alice bob 4161 sa alice_party timestamp ≡ true
      → IsIgnored
          (run_submission sdk chain
            (raise_dispute account 4161 chain.application_id alice bob timestamp sa sb)
            ch)
          ch
  unfolding raise_dispute dispatch bytes_eq state_args
  raise_dispute-IsIgnored va =
      let method = codes "raiseDispute" in
      let sender = sdk.decode_address account.address in
      let signed = signed_of 4161 alice bob timestamp sa sb in
      let runs =
        run_submission-increase_budget sdk chain chain.application_id account _ 3930 ch
        ∙ run_txn-dispatch sdk chain method _ [] account.address ch in
      subst (λ r. IsIgnored r ch) (sym runs)
        (on_raise_dispute-IsIgnored chain _ signed ch
          (signed_args-state_args sender method 4161 alice bob timestamp sa sb none)
          (is_agreed-ne_true chain (close_hash chain signed) signed ch
            (state_signature-ne_close va)))

  -- The contract ignores a closing with the signatures exchanged, if the two parties have
  -- different keys.
  pub exchanged_signatures-IsIgnored :
      verify_state sdk chain.application_id alice bob 4161 sa bob_party timestamp ≡ true
      → ch.alice_address ≢ ch.bob_address
      → IsIgnored
          (run_submission sdk chain
            (initiate_close_channel account 4161 chain.application_id alice bob timestamp sa sb)
            ch)
          ch
  unfolding initiate_close_channel dispatch bytes_eq state_args verify_state
  exchanged_signatures-IsIgnored vb distinct =
      let method = codes "initiateChannelClosing" in
      let sender = sdk.decode_address account.address in
      let signed = signed_of 4161 alice bob timestamp sa sb in
      let hash_is = state_hash-signed_of chain 4161 alice bob timestamp sa sb ∙ same.same_hash _ in
      let runs =
        run_submission-increase_budget sdk chain chain.application_id account _ 3930 ch
        ∙ run_txn-dispatch sdk chain method _ [] account.address ch in
      let unsigned : chain.ed25519verify_bare (state_hash chain signed) sa ch.alice_address
          ≢ some true =
        λ e. distinct (
          binding.one_key ch.alice_address ch.bob_address (state_hash chain signed) sa
            (same.sound ch.alice_address _ sa e) (rw (parties.bob_key, hash_is) vb)) in
      subst (λ r. IsIgnored r ch) (sym runs)
        (on_initiate_closing-IsIgnored chain _ signed ch
          (signed_args-state_args sender method 4161 alice bob timestamp sa sb none)
          (is_agreed-ne_true chain (state_hash chain signed) signed ch unsigned))
