-- ===== src/Server/Start.antt =====
-- How a node starts, and starts again: FundAccount of payment/testing/setup.go, initializeServer of
-- server.go and Reset of rpcserver.go.
use algorand_state_channels.Base.{ℕ, [], ◌∷◌, get_elem?}
use algorand_state_channels.Payment.Sdk.{Address}
use algorand_state_channels.Payment.Calls.{Submission, payment}
use algorand_state_channels.Payment.Sandbox.{get_sandbox_accounts, get_algod_client, node_account}
use algorand_state_channels.Server.State.{World, Delivery, not_sent, unconfirmed, confirmed}
use algorand_state_channels.Server.Action.{
  fatal, panic, Action, halt, require, or_halt, modify, submit, ◌>>=◌, ◌>>◌,
}

-- The end of testing.FundAccount: an error of a step up to SendRawTransaction ends the process, and
-- so does one of WaitForConfirmation, after the transaction has been sent.
unfoldable pub deliver : Delivery → Submission → Action (Unit {0})
deliver not_sent t = halt fatal
deliver unconfirmed t = do submit t; halt fatal
deliver confirmed t = submit t

-- testing.FundAccount, which panics if the wallet has no key
unfoldable pub fund_account : World → Address → ℕ → Action (Unit {0})
unfolding deliver
fund_account w recipient amount = do
  accounts ← or_halt fatal (get_sandbox_accounts w.environment)
  funder ← or_halt panic (get_elem? accounts 0)
  deliver w.funding
      (record { signer = funder.private_key; txns = payment funder.address recipient amount ∷ [] })

-- initializeServer
unfoldable pub initialize_server : World → Action (Unit {0})
initialize_server w = do
  modify (λ s. record s { onchain_states = []; offchain_states_log = [] })
  require (get_algod_client w.environment) fatal
  account ← or_halt fatal (node_account w.environment)
  modify (λ s. record s { algo_account = account })
  fund_account w account.address 10_000_000_000

-- Reset
unfoldable pub reset : World → Action (Unit {0})
reset w = do
  modify (λ s. record s { onchain_states = []; offchain_states_log = [] })
  require (get_algod_client w.environment) fatal
  account ← or_halt fatal (node_account w.environment)
  modify (λ s. record s { algo_account = account })
  fund_account w account.address 10_000_000_000
