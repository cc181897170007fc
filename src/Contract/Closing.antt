-- ===== src/Contract/Closing.antt =====
-- Closing calls of the node, as the contract runs them.
use algorand_state_channels.Base.{
  ℕ, ◌+◌, ◌≤◌, ◌≡◌, ◌⊎◌, ap, ◌∙◌, true, Bytes, codes, bytes_eq, bytes_eq_iff, bytes_has_eq,
  nat_has_eq, nat_eq_iff, none, some, [], ◌∷◌, arith,
}
use algorand_state_channels.Base.Word.{IsWord}
use algorand_state_channels.Payment.Sdk.{Sdk, Account, Address}
use algorand_state_channels.Payment.Message.{state_message, close_message}
use algorand_state_channels.Payment.Signing.{verify_state, verify_close}
use algorand_state_channels.Payment.Calls.{
  state_args, initiate_close_channel, cooperative_close_channel,
}
use algorand_state_channels.Contract.State.{Channel, Chain, Call, plus, minus}
use algorand_state_channels.Contract.Program.{
  state_hash, close_hash, is_agreed, put_state, is_party, start_closing,
  on_initiate_channel_closing, close_together, close_account_to, on_cooperative_close, dispatch,
  no_payouts,
}
use algorand_state_channels.Contract.Group.{run_submission}
use algorand_state_channels.Contract.Calls.{
  btoi-uint64_to_bytes, signed_of, signed_args-state_args, state_hash-signed_of,
  close_hash-signed_of, run_submission-increase_budget, run_txn-dispatch,
}
use algorand_state_channels.Contract.Agreement.{
  SameCrypto, HasParties, Divides, with_state, put_state-signed_of, closing_by, payouts_of,
}

module _ (sdk : Sdk) (chain : Chain) (ch : Channel) (alice_party bob_party : Address)
    (same : SameCrypto sdk chain) (parties : HasParties sdk ch alice_party bob_party)
    (alice bob timestamp : ℕ) (divides : Divides ch alice bob timestamp) (sa sb : Bytes) where
  agreed_of_hash :
      (hash : Bytes)
      → sdk.verify (sdk.decode_address alice_party) hash sa ≡ true
      → sdk.verify (sdk.decode_address bob_party) hash sb ≡ true
      → is_agreed chain hash (signed_of 4161 alice bob timestamp sa sb) ch ≡ some true
  unfolding is_agreed plus
  agreed_of_hash hash va vb = ground (
    arith,
    same.accepts (sdk.decode_address alice_party) hash sa va,
    same.accepts (sdk.decode_address bob_party) hash sb vb,
    parties.alice_key,
    parties.bob_key,
    btoi-uint64_to_bytes alice (omega (arith, divides.whole, divides.deposit_word)),
    btoi-uint64_to_bytes bob (omega (arith, divides.whole, divides.deposit_word)),
    divides.whole,
    divides.deposit_word,
    nat_eq_iff (alice + bob) ch.total_deposit,
  )

  put_divided :
      put_state (signed_of 4161 alice bob timestamp sa sb) ch
      ≡ some (with_state alice bob timestamp ch)
  put_divided =
      put_state-signed_of ch 4161 alice bob timestamp sa sb
        (omega (arith, divides.whole, divides.deposit_word))
        (omega (arith, divides.whole, divides.deposit_word)) divides.time_word

  module _ (account : Account)
      (party : (sdk.decode_address account.address ≡ ch.alice_address)
        ⊎ (sdk.decode_address account.address ≡ ch.bob_address)) where
    abbrev call_with : Bytes → Call
    call_with method = record {
      sender = sdk.decode_address account.address;
      args = state_args method 4161 alice bob timestamp sa sb;
      preceding = none;
    }

    is_party_lem : (method : Bytes) → is_party (call_with method) ch ≡ true
    is_party_lem method = ground (
      arith,
      party,
      bytes_eq_iff (sdk.decode_address account.address) ch.alice_address,
      bytes_eq_iff (sdk.decode_address account.address) ch.bob_address,
    )

    abbrev closing_started : Channel
    closing_started = closing_by sdk chain account (with_state alice bob timestamp ch)

    on_initiate_runs :
        (method : Bytes)
        → IsWord (chain.round + ch.dispute_window)
        → is_agreed chain
            (state_hash chain (signed_of 4161 alice bob timestamp sa sb))
            (signed_of 4161 alice bob timestamp sa sb)
            ch
          ≡ some true
        → on_initiate_channel_closing chain (call_with method) ch ≡ some closing_started
    unfolding on_initiate_channel_closing start_closing plus put_state
    on_initiate_runs method in_time agreed = ground (
      arith,
      is_party_lem method,
      signed_args-state_args (sdk.decode_address account.address) method 4161 alice bob timestamp sa
          sb none,
      agreed,
      put_divided,
    )

    -- A party starts a closing with a state that both have signed, whose balances make up the
    -- deposit: the contract takes the state over, and the time for disputes begins.
    pub initiate_close_channel_runs :
        IsWord (chain.round + ch.dispute_window)
        → verify_state sdk chain.application_id alice bob 4161 sa alice_party timestamp ≡ true
        → verify_state sdk chain.application_id alice bob 4161 sb bob_party timestamp ≡ true
        → run_submission sdk chain
            (initiate_close_channel account 4161 chain.application_id alice bob timestamp sa sb)
            ch
          ≡ some (closing_by sdk chain account (with_state alice bob timestamp ch), [])
    unfolding initiate_close_channel verify_state dispatch bytes_eq state_args
    initiate_close_channel_runs in_time va vb =
        let method = codes "initiateChannelClosing" in
        let signed = signed_of 4161 alice bob timestamp sa sb in
        let hash_is : state_hash chain signed
            ≡ sdk.sum256 (state_message 4161 chain.application_id alice bob timestamp) =
          state_hash-signed_of chain 4161 alice bob timestamp sa sb ∙ same.same_hash _ in
        let agreed : is_agreed chain (state_hash chain signed) signed ch ≡ some true =
          agreed_of_hash (state_hash chain signed) (rw hash_is va) (rw hash_is vb) in
        run_submission-increase_budget sdk chain chain.application_id account _ 3930 ch
        ∙ run_txn-dispatch sdk chain method _ [] account.address ch
        ∙ ap no_payouts (on_initiate_runs method in_time agreed)

    on_cooperative_runs :
        (method : Bytes)
        → ch.timeout ≡ 0
        → chain.min_txn_fee ≤ alice
        → chain.min_txn_fee ≤ bob
        → is_agreed chain
            (close_hash chain (signed_of 4161 alice bob timestamp sa sb))
            (signed_of 4161 alice bob timestamp sa sb)
            ch
          ≡ some true
        → on_cooperative_close chain (call_with method) ch
          ≡ some (with_state alice bob timestamp ch, payouts_of chain alice bob ch)
    unfolding on_cooperative_close close_together close_account_to minus put_state
    on_cooperative_runs method open_channel alice_pays_fee bob_pays_fee agreed = ground (
      arith,
      is_party_lem method,
      signed_args-state_args (sdk.decode_address account.address) method 4161 alice bob timestamp sa
          sb none,
      agreed,
      put_divided,
      nat_eq_iff ch.timeout 0,
    )

    -- A party closes a channel, of which no closing has been started, with a signature of both:
    -- the contract pays Bob and Alice their balances less a fee each, and Alice what remains.
    pub cooperative_close_channel_runs :
        (counterparty : Address)
        → ch.timeout ≡ 0
        → chain.min_txn_fee ≤ alice
        → chain.min_txn_fee ≤ bob
        → verify_close sdk chain.application_id alice bob 4161 sa alice_party timestamp ≡ true
        → verify_close sdk chain.application_id alice bob 4161 sb bob_party timestamp ≡ true
        → run_submission sdk chain
            (cooperative_close_channel account counterparty 4161 chain.application_id alice bob
              timestamp sa sb)
            ch
          ≡ some (with_state alice bob timestamp ch, payouts_of chain alice bob ch)
    unfolding cooperative_close_channel verify_close dispatch bytes_eq state_args
    cooperative_close_channel_runs counterparty open_channel alice_pays_fee bob_pays_fee va vb =
        let method = codes "cooperativeClose" in
        let signed = signed_of 4161 alice bob timestamp sa sb in
        let hash_is : close_hash chain signed
            ≡ sdk.sum256 (close_message 4161 chain.application_id alice bob timestamp) =
          close_hash-signed_of chain 4161 alice bob timestamp sa sb ∙ same.same_hash _ in
        let agreed : is_agreed chain (close_hash chain signed) signed ch ≡ some true =
          agreed_of_hash (close_hash chain signed) (rw hash_is va) (rw hash_is vb) in
        run_submission-increase_budget sdk chain chain.application_id account _ 3930 ch
        ∙ run_txn-dispatch sdk chain method _ (account.address ∷ counterparty ∷ []) account.address
            ch
        ∙ on_cooperative_runs method open_channel alice_pays_fee bob_pays_fee agreed
