-- ===== src/Server/Peer/Progress.antt =====
-- A channel's log across pay requests: the invariant, the latest state, and what a peer cannot do
-- a second time.
use algorand_state_channels.Base.{
  ℕ, ◌+◌, ◌%◌, ◌≡◌, refl, sym, ◌∙◌, Bool, true, bytes_has_eq, some, arith, nat_has_eq,
}
use mathlib.Core.Path.{subst}
use algorand_state_channels.Base.Word.{slt, slt_trans, slt-of_not, IsWord, word_mod}
use algorand_state_channels.Base.Dict.{insert}
use algorand_state_channels.Server.State.{PaymentChannelInfo, OffChainState, PaymentLog}
use algorand_state_channels.Server.Log.{get_latest_off_chain_state}
use algorand_state_channels.Server.Log.Latest.{
  IsLatest, get_latest_off_chain_state-IsLatest, get_latest-insert,
}
use algorand_state_channels.Server.Invariant.{IsEntry, IsLog, IsLog-HasWords}
use algorand_state_channels.Server.Peer.{is_beneficial, is_acceptable}

-- An accepted timestamp is after the latest one.
pub is_acceptable_later :
    (me_alice : Bool) (info : PaymentChannelInfo) (latest : OffChainState) (alice bob t : ℕ)
    → is_acceptable me_alice info latest alice bob t ≡ true
    → slt latest.timestamp t ≡ true
unfolding is_acceptable is_beneficial
is_acceptable_later me_alice info latest alice bob t e = ground arith

-- The entry of the latest state of a log.
pub get_latest_off_chain_state-IsEntry :
    (total : ℕ) (log : PaymentLog) (latest : OffChainState)
    → IsLog total log
    → get_latest_off_chain_state log ≡ some latest
    → IsEntry total latest.timestamp latest × IsLatest latest.timestamp latest log
get_latest_off_chain_state-IsEntry total log latest h e =
    let (u, a) = get_latest_off_chain_state-IsLatest log latest e in
    let entry = h.entries u latest a.found in
    subst (λ k. IsEntry total k latest × IsLatest k latest log) (sym entry.keyed) (entry, a)

-- A state that follows the latest one in time, with the same sum, is an entry of the channel.
pub next-IsEntry :
    (total : ℕ) (log : PaymentLog) (latest st : OffChainState)
    → IsLog total log
    → get_latest_off_chain_state log ≡ some latest
    → IsWord st.timestamp × IsWord st.alice_balance × IsWord st.bob_balance
    → (st.alice_balance + st.bob_balance) % word_mod
      ≡ (latest.alice_balance + latest.bob_balance) % word_mod
    → IsEntry total st.timestamp st
next-IsEntry total log latest st h e w same =
    let (entry, _) = get_latest_off_chain_state-IsEntry total log latest h e in
    record {
      key_word = w.0;
      keyed = refl;
      alice_word = w.1;
      bob_word = w.2;
      conserved = same ∙ entry.conserved;
    }

-- And it is the latest state of the log that it is put into.
pub next_latest :
    (total : ℕ) (log : PaymentLog) (latest st : OffChainState)
    → IsLog total log
    → get_latest_off_chain_state log ≡ some latest
    → IsWord st.timestamp
    → slt latest.timestamp st.timestamp ≡ true
    → get_latest_off_chain_state (insert st.timestamp st log) ≡ some st
next_latest total log latest st h e w later =
    let (_, a) = get_latest_off_chain_state-IsEntry total log latest h e in
    get_latest-insert log st.timestamp st (IsLog-HasWords total log h) w
      (slt_trans 0 latest.timestamp st.timestamp a.positive later)
      (λ k v f. slt-of_not latest.timestamp st.timestamp k later (a.greatest k v f))
