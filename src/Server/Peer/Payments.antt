-- ===== src/Server/Peer/Payments.antt =====
-- What accepted pay requests leave behind.
use algorand_state_channels.Base.{
  ℕ, ◌-◌, ◌≡◌, refl, sym, true, false, Bytes, bytes_has_eq, some, List, [], ◌∷◌, arith, nat_has_eq,
  if◌then◌else◌,
}
use mathlib.Core.Path.{subst}
use algorand_state_channels.Base.Word.{slt, IsWord, sign_bit}
use algorand_state_channels.Base.Dict.{lookup, insert, lookup-insert_self}
use algorand_state_channels.Payment.Sdk.{Address}
use algorand_state_channels.Payment.Signing.{verify_state}
use algorand_state_channels.Server.State.{
  Server, PaymentChannelInfo, OffChainState, PaymentLog, World,
}
use algorand_state_channels.Server.Action.{Result, ok, stop, reject}
use algorand_state_channels.Server.Log.{get_latest_off_chain_state}
use algorand_state_channels.Server.GlobalState.{log_state}
use algorand_state_channels.Server.Invariant.{IsEntry, IsLog, IsWellFormed, log_state-IsWellFormed}
use algorand_state_channels.Server.Peer.{
  is_alice, is_beneficial, is_acceptable, agreed_state, process_payment,
}
use algorand_state_channels.Server.Peer.Acceptance.{
  Accepted, process_payment_inversion, process_payment_atomic, is_acceptable_conserves,
}
use algorand_state_channels.Server.Peer.Progress.{
  is_acceptable_later, get_latest_off_chain_state-IsEntry, next-IsEntry, next_latest,
}

-- The log of an open channel, as the invariant gives it.
channel-IsLog :
    (s : Server) (c : Address) (info : PaymentChannelInfo) (log : PaymentLog)
    → IsWellFormed s
    → lookup c s.onchain_states ≡ some info
    → lookup c s.offchain_states_log ≡ some log
    → IsLog info.total_deposit log
channel-IsLog s c info log h e f =
    let (log', f', good) = h.channels c info e in
    let same : log' ≡ log = ground arith in subst (IsLog info.total_deposit) same good

module _ (w : World) (c : Address) (alice bob t : ℕ) (signature : Bytes) (s : Server)
    (h : IsWellFormed s) (words : IsWord t × IsWord alice × IsWord bob) where
  Accepted-IsEntry :
      (info : PaymentChannelInfo) (log : PaymentLog) (latest : OffChainState) (my_signature : Bytes)
      → Accepted w c alice bob t signature s info log latest my_signature
      → IsEntry info.total_deposit t (
          agreed_state
            (is_alice info s.algo_account.address)
            info.app_id
            alice
            bob
            t
            my_signature
            signature)
  unfolding agreed_state
  Accepted-IsEntry info log latest my_signature a =
      let good = channel-IsLog s c info log h a.channel a.logged in
      let (entry, _) =
        get_latest_off_chain_state-IsEntry info.total_deposit log latest good a.last in
      next-IsEntry info.total_deposit log latest _ good a.last words (
        is_acceptable_conserves (is_alice info s.algo_account.address) info latest alice bob t
          (entry.alice_word, entry.bob_word, words.1, words.2) a.acceptable)

  ended-IsWellFormed :
      (r : Result (List Bytes) × Server)
      → process_payment w c alice bob t signature s ≡ r
      → IsWellFormed r.1
  unfolding agreed_state
  ended-IsWellFormed (stop x, s') e =
      subst IsWellFormed (sym (process_payment_atomic w c alice bob t signature s s' x e)) h
  ended-IsWellFormed (ok d, s') e =
      let (info, log, latest, my_signature, a, data_is, after) =
        process_payment_inversion w c alice bob t signature s s' d e in
      let st : OffChainState =
        agreed_state (is_alice info s.algo_account.address) info.app_id alice bob t my_signature
          signature in
      subst IsWellFormed (sym after) (
        log_state-IsWellFormed s c st h (λ info' open_c.
          let same : info ≡ info' = ground (arith, a.channel) in
          subst (λ i. IsEntry i.total_deposit t st) same
            (Accepted-IsEntry info log latest my_signature a)))

  -- A pay request keeps the invariant, however it ends.
  pub process_payment-IsWellFormed : IsWellFormed (process_payment w c alice bob t signature s).1
  process_payment-IsWellFormed = ended-IsWellFormed _ refl

  -- After a well-formed node has accepted a pay request of uint64 values, the latest state of the
  -- channel's log holds the balances and the timestamp of the request. Its signature for the node's
  -- side is the one that the node answers with, and the other one verifies as the counterparty's.
  pub process_payment_latest :
      (s' : Server) (d : List Bytes)
      → process_payment w c alice bob t signature s ≡ (ok d, s')
      → (info : PaymentChannelInfo) × (log : PaymentLog) × (st : OffChainState) × (lookup c
            s.onchain_states
          ≡ some info)
        × (lookup c s'.offchain_states_log ≡ some log)
        × (get_latest_off_chain_state log ≡ some st)
        × (st.alice_balance ≡ alice)
        × (st.bob_balance ≡ bob)
        × (st.timestamp ≡ t)
        × (d
            ≡ (if is_alice info s.algo_account.address
                then st.alice_signature
                else st.bob_signature)
              ∷ [])
        × (verify_state w.sdk info.app_id alice bob 4161
              (if is_alice info s.algo_account.address
                then st.bob_signature
                else st.alice_signature)
              c
              t
            ≡ true)
  unfolding agreed_state log_state
  process_payment_latest s' d e =
      let (info, log, latest, my_signature, a, data_is, after) =
        process_payment_inversion w c alice bob t signature s s' d e in
      let good = channel-IsLog s c info log h a.channel a.logged in
      let st : OffChainState =
        agreed_state (is_alice info s.algo_account.address) info.app_id alice bob t my_signature
          signature in
      (
        info,
        insert t st log,
        st,
        a.channel,
        ground (arith, lookup-insert_self c (insert t st log) s.offchain_states_log, a.logged),
        next_latest info.total_deposit log latest st good a.last words.0 (
            is_acceptable_later (is_alice info s.algo_account.address) info latest alice bob t
              a.acceptable),
        refl,
        refl,
        refl,
        ground arith,
        ground (arith, a.verified),
      )

-- No pay request in an open channel with a latest state is accepted if its timestamp is not after
-- that of the latest state, whatever its balances and signature; it is rejected and changes nothing.
pub process_payment_replay :
    (w : World) (c : Address) (alice bob t : ℕ) (signature : Bytes) (s : Server)
    (info : PaymentChannelInfo) (log : PaymentLog) (latest : OffChainState)
    → lookup c s.onchain_states ≡ some info
    → lookup c s.offchain_states_log ≡ some log
    → get_latest_off_chain_state log ≡ some latest
    → slt latest.timestamp t ≡ false
    → process_payment w c alice bob t signature s ≡ (stop reject, s)
unfolding process_payment is_acceptable is_beneficial
process_payment_replay w c alice bob t signature s info log latest e f g old = ground arith

-- Once the latest timestamp of an open channel is the greatest int64, every pay request of a uint64
-- timestamp is rejected and changes nothing, whatever its balances and signature.
pub process_payment_frozen :
    (w : World) (c : Address) (alice bob t : ℕ) (signature : Bytes) (s : Server)
    (info : PaymentChannelInfo) (log : PaymentLog) (latest : OffChainState)
    → lookup c s.onchain_states ≡ some info
    → lookup c s.offchain_states_log ≡ some log
    → get_latest_off_chain_state log ≡ some latest
    → latest.timestamp ≡ sign_bit - 1
    → IsWord t
    → process_payment w c alice bob t signature s ≡ (stop reject, s)
process_payment_frozen w c alice bob t signature s info log latest e f g frozen word =
    let old : slt latest.timestamp t ≡ false = unfold slt in ground (arith, frozen) in
    process_payment_replay w c alice bob t signature s info log latest e f g old
