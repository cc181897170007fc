-- ===== src/Process/Starting.antt =====
-- When a node starts, and with what.
use algorand_state_channels.Base.{
  ℕ, ◌≡◌, ◌↔◌, ◌⊎◌, inl, inr, refl, Bool, true, nat_has_eq, bytes_has_eq, some, List, [], ◌∷◌,
  arith, Option-cases, List-cases,
}
use algorand_state_channels.Payment.Sdk.{Account}
use algorand_state_channels.Payment.Calls.{payment}
use algorand_state_channels.Payment.Sandbox.{get_algod_client, get_sandbox_accounts, node_account}
use algorand_state_channels.Server.State.{Server, World, Delivery, not_sent, unconfirmed, confirmed}
use algorand_state_channels.Server.Action.{ok}
use algorand_state_channels.Server.Start.{initialize_server, fund_account, deliver}
use algorand_state_channels.Process.{Listeners, load_main, start_listening, new_server}

-- What a node needs for its start, with its account and the account that funds it.
pub record CanStart (w : World) (can_listen : ℕ → Bool) (account funder : Account) : Type 0 where
  pub makes_client : get_algod_client w.environment ≡ true
  pub has_account : node_account w.environment ≡ some account
  pub others : List Account
  pub wallet : get_sandbox_accounts w.environment ≡ some (funder ∷ others)
  pub is_funded : w.funding ≡ confirmed
  pub peer_port_free : can_listen 28547 ≡ true
  pub grpc_port_free : can_listen 50051 ≡ true

-- The server of a node that has started.
abbrev pub started_server : Account → Account → Server
started_server account funder = record new_server {
  algo_account = account;
  submitted =
      record {
        signer = funder.private_key;
        txns = payment funder.address account.address 10_000_000_000 ∷ [];
      }
      ∷ [];
}

abbrev pub default_listeners : Listeners
default_listeners = record { peer_listener = 28547; grpc_listener = 50051 }

Delivery-cases : (d : Delivery) → (d ≡ not_sent) ⊎ ((d ≡ unconfirmed) ⊎ (d ≡ confirmed))
Delivery-cases not_sent = inl refl
Delivery-cases unconfirmed = inr (inl refl)
Delivery-cases confirmed = inr (inr refl)

module _ (w : World) (can_listen : ℕ → Bool) (l : Listeners) (s : Server) where
  starts :
      (account funder : Account)
      → CanStart w can_listen account funder
      → load_main w can_listen ≡ (ok default_listeners, started_server account funder)
  unfolding load_main initialize_server fund_account deliver start_listening
  starts account funder h = ground (
    arith, h.makes_client, h.has_account, h.wallet, h.is_funded, h.peer_port_free, h.grpc_port_free,
  )

  can_start :
      load_main w can_listen ≡ (ok l, s)
      → (account funder : Account) × CanStart w can_listen account funder
        × (l ≡ default_listeners)
        × (s ≡ started_server account funder)
  unfolding load_main initialize_server fund_account deliver start_listening
  can_start e = elim (Option-cases (node_account w.environment)) [
    | inl no_key ↦ absurd (ground arith)
    | inr (account, has_account) ↦ elim (Option-cases (get_sandbox_accounts w.environment)) [
      | inl no_wallet ↦ absurd (ground arith)
      | inr (accounts, wallet) ↦ elim (List-cases accounts) [
        | inl empty ↦ absurd (ground arith)
        | inr (funder, others, first) ↦ elim (Delivery-cases w.funding) [
          | inl unsent ↦ absurd (ground arith)
          | inr (inl late) ↦ absurd (ground arith)
          | inr (inr funded) ↦ (
            account,
            funder,
            record {
              makes_client = ground arith;
              has_account = has_account;
              others = others;
              wallet = ground arith;
              is_funded = funded;
              peer_port_free = ground arith;
              grpc_port_free = ground arith;
            },
            ground arith,
            ground arith,
          )
        ]
      ]
    ]
  ]

  -- A node starts exactly if an algod client can be made, it gets an account, the sandbox's wallet
  -- has one to fund it, the funding is confirmed and both ports are free. Then it listens on the
  -- ports that ascli and other nodes dial, has no channel and no log, no loop of the watchtower,
  -- and has sent one transaction, the funding.
  pub load_main_iff : (load_main w can_listen ≡ (ok l, s)) ↔ (
      (account : Account) × (funder : Account) × CanStart w can_listen account funder
      × (l ≡ default_listeners)
      × (s ≡ started_server account funder))
  load_main_iff =
      (can_start, λ (account, funder, h, ports, server). ground (arith, starts account funder h))
