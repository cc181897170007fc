-- ===== src/Contract/Calls.antt =====
-- What the program reads of the calls that payment/operation.go makes.
use algorand_state_channels.Base.{
  ℕ, zero, suc, ◌+◌, ◌≡◌, inl, inr, refl, Bytes, codes, bytes_eq, bytes_has_eq, nat_has_eq,
  nat_eq_iff, Option, none, some, List, [], ◌∷◌, arith, Option-cases,
}
use mathlib.Core.List.{append-nil}
use algorand_state_channels.Base.Word.{IsWord}
use algorand_state_channels.Base.BigEndian.{length-put_uint64, from_bytes-put_uint64}
use algorand_state_channels.Base.Decimal.{format_uint}
use algorand_state_channels.Payment.Sdk.{Sdk, Account, Address}
use algorand_state_channels.Payment.Message.{
  uint64_to_bytes, signed_fields, state_message, close_message,
}
use algorand_state_channels.Payment.Calls.{
  Txn, app_no_op, budget_loop, increase_budget, budget_transactions, state_args,
}
use algorand_state_channels.Contract.State.{Channel, Preceding, Chain, btoi}
use algorand_state_channels.Contract.Program.{
  Signed, signed_args, hashed_data, state_hash, close_hash, on_call, dispatch, program,
}
use algorand_state_channels.Contract.Group.{
  call_of, as_preceding, run_txn, run_txns, run_submission,
}

-- `Btoi` reads what uint64ToBytes wrote.
pub btoi-uint64_to_bytes : (v : ℕ) → IsWord v → btoi (uint64_to_bytes v) ≡ some v
unfolding btoi uint64_to_bytes
btoi-uint64_to_bytes v h = ground (arith, length-put_uint64 v, from_bytes-put_uint64 v h)

-- The signed arguments of a call of the node.
abbrev pub signed_of : ℕ → ℕ → ℕ → ℕ → Bytes → Bytes → Signed
signed_of port alice bob timestamp alice_signature bob_signature = record {
  algorand_port = uint64_to_bytes port;
  alice_balance = uint64_to_bytes alice;
  bob_balance = uint64_to_bytes bob;
  timestamp = uint64_to_bytes timestamp;
  alice_signature = alice_signature;
  bob_signature = bob_signature;
}

pub signed_args-state_args :
    (sender method : Bytes) (port alice bob timestamp : ℕ) (sa sb : Bytes) (p : Option Preceding)
    → signed_args (record {
      sender = sender;
      args = state_args method port alice bob timestamp sa sb;
      preceding = p;
    })
      ≡ some (signed_of port alice bob timestamp sa sb)
unfolding signed_args state_args
signed_args-state_args sender method port alice bob timestamp sa sb p = refl

-- What the program hashes is what SignState and SignClose hash.
pub state_hash-signed_of :
    (chain : Chain) (port alice bob timestamp : ℕ) (sa sb : Bytes)
    → state_hash chain (signed_of port alice bob timestamp sa sb)
      ≡ chain.sha3_256 (state_message port chain.application_id alice bob timestamp)
unfolding state_hash hashed_data state_message signed_fields uint64_to_bytes
state_hash-signed_of chain port alice bob timestamp sa sb = refl

pub close_hash-signed_of :
    (chain : Chain) (port alice bob timestamp : ℕ) (sa sb : Bytes)
    → close_hash chain (signed_of port alice bob timestamp sa sb)
      ≡ chain.sha3_256 (close_message port chain.application_id alice bob timestamp)
unfolding close_hash hashed_data close_message signed_fields uint64_to_bytes
close_hash-signed_of chain port alice bob timestamp sa sb = refl

module _ (sdk : Sdk) (chain : Chain) where
  -- The budget transactions change nothing.
  run_txns-budget_loop :
      (p : Option Preceding) (app_id : ℕ) (sender : Address) (i n : ℕ) (ch : Channel)
      → run_txns sdk chain p (budget_loop app_id sender i n) ch ≡ some (ch, [])
  unfolding run_txns run_txn budget_loop program on_call dispatch bytes_eq call_of
  run_txns-budget_loop p app_id sender i zero ch = refl
  run_txns-budget_loop p app_id sender i (suc n) ch = ground (
    arith,
    run_txns-budget_loop
        (some (
          as_preceding sdk chain
            (app_no_op app_id (codes "increaseBudget" ∷ format_uint i ∷ []) [] sender)))
        app_id sender (i + 1) n ch,
  )

  -- A call with budget transactions does what the call does.
  pub run_submission-increase_budget :
      (app_id : ℕ) (sender : Account) (main : Txn) (target : ℕ) (ch : Channel)
      → run_submission sdk chain (increase_budget app_id sender main target) ch
        ≡ run_txn sdk chain none main ch
  unfolding run_submission run_txns increase_budget
  run_submission-increase_budget app_id sender main target ch =
      elim (Option-cases (run_txn sdk chain none main ch)) [
        | inl e ↦ ground arith
        | inr (r, e) ↦ ground (
          arith,
          run_txns-budget_loop (some (as_preceding sdk chain main)) app_id sender.address 0
              (budget_transactions target) r.0,
          append-nil r.1,
        )
      ]

  -- A call of the channel's application, by its method.
  pub run_txn-dispatch :
      (method : Bytes) (rest : List Bytes) (accounts : List Address) (sender : Address)
      (ch : Channel)
      → run_txn sdk chain none (app_no_op chain.application_id (method ∷ rest) accounts sender) ch
        ≡ dispatch chain
            (record { sender = sdk.decode_address sender; args = method ∷ rest; preceding = none })
            ch
            method
  unfolding run_txn program on_call call_of
  run_txn-dispatch method rest accounts sender ch =
      ground (arith, nat_eq_iff chain.application_id chain.application_id)
