-- ===== src/Payment/Signing.antt =====
-- Signatures over channel states: SignState, SignClose, VerifyState and VerifyClose of
-- payment/operation.go.
use algorand_state_channels.Base.{ℕ, ◌≡◌, Bool, true, Option, some, none, ◌≢◌, Bytes}
use algorand_state_channels.Payment.Sdk.{Sdk, Account, Address, IsKeyPair}
use algorand_state_channels.Payment.Message.{state_message, close_message}

module _ (sdk : Sdk) where
  -- SignState; `none` is its error
  unfoldable pub sign_state : ℕ → Account → ℕ → ℕ → ℕ → ℕ → Option Bytes
  sign_state app_id account alice_balance bob_balance algorand_port timestamp =
      sdk.sign account.private_key
        (sdk.sum256 (state_message algorand_port app_id alice_balance bob_balance timestamp))

  -- SignClose
  unfoldable pub sign_close : ℕ → Account → ℕ → ℕ → ℕ → ℕ → Option Bytes
  sign_close app_id account alice_balance bob_balance algorand_port timestamp =
      sdk.sign account.private_key
        (sdk.sum256 (close_message algorand_port app_id alice_balance bob_balance timestamp))

  -- VerifyClose
  unfoldable pub verify_close : ℕ → ℕ → ℕ → ℕ → Bytes → Address → ℕ → Bool
  verify_close app_id alice_balance bob_balance algorand_port signature algo_address timestamp =
      sdk.verify (sdk.decode_address algo_address)
        (sdk.sum256 (close_message algorand_port app_id alice_balance bob_balance timestamp))
        signature

  -- VerifyState
  unfoldable pub verify_state : ℕ → ℕ → ℕ → ℕ → Bytes → Address → ℕ → Bool
  verify_state app_id alice_balance bob_balance algorand_port signature algo_address timestamp =
      sdk.verify (sdk.decode_address algo_address)
        (sdk.sum256 (state_message algorand_port app_id alice_balance bob_balance timestamp))
        signature

  module _ (account : Account) (pair : IsKeyPair sdk account) where
    -- What SignState signs for an account, VerifyState accepts from the account's address.
    pub verify_state-sign_state :
        (app_id alice bob port timestamp : ℕ) (s : Bytes)
        → sign_state app_id account alice bob port timestamp ≡ some s
        → verify_state app_id alice bob port s account.address timestamp ≡ true
    unfolding sign_state verify_state
    verify_state-sign_state app_id alice bob port timestamp s h = pair.verifies _ s h

    -- The same of SignClose and VerifyClose.
    pub verify_close-sign_close :
        (app_id alice bob port timestamp : ℕ) (s : Bytes)
        → sign_close app_id account alice bob port timestamp ≡ some s
        → verify_close app_id alice bob port s account.address timestamp ≡ true
    unfolding sign_close verify_close
    verify_close-sign_close app_id alice bob port timestamp s h = pair.verifies _ s h

    -- An account's key always signs.
    pub sign_state-ne-none :
        (app_id alice bob port timestamp : ℕ)
        → sign_state app_id account alice bob port timestamp ≢ none
    unfolding sign_state
    sign_state-ne-none app_id alice bob port timestamp = pair.signs _

    pub sign_close-ne-none :
        (app_id alice bob port timestamp : ℕ)
        → sign_close app_id account alice bob port timestamp ≢ none
    unfolding sign_close
    sign_close-ne-none app_id alice bob port timestamp = pair.signs _
