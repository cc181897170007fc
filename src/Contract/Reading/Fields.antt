-- ===== src/Contract/Reading/Fields.antt =====
-- What an entry of a report sets in the channel that a node reads.
use mathlib.Core.Path.{subst}
use algorand_state_channels.Base.{
  ℕ, ◌≡◌, ◌⊎◌, inl, inr, ap, sym, ◌∙◌, Bytes, bytes_eq, bytes_eq_iff, bytes_has_eq, nat_has_eq,
  codes, none, some, ◌==◌, arith, false, Bool-cases,
}
use algorand_state_channels.Payment.Sdk.{Address}
use algorand_state_channels.Server.State.{PaymentChannelInfo, World}
use algorand_state_channels.Server.GlobalState.{assign_address, assign_uint}
use algorand_state_channels.Contract.State.{Channel}
use algorand_state_channels.Contract.Reading.{stored_bytes, stored_uint}

-- The fields that savePaymentChannelOnChainState sets.
pub data Field : Type 0 where
  alice_field bob_field window_field deposit_field reserve_field alice_balance_field
        bob_balance_field :
      Field

abbrev pub key_of : Field → Bytes
key_of alice_field = codes "alice_address"
key_of bob_field = codes "bob_address"
key_of window_field = codes "dispute_window"
key_of deposit_field = codes "total_deposit"
key_of reserve_field = codes "penalty_reserve"
key_of alice_balance_field = codes "latest_alice_balance"
key_of bob_balance_field = codes "latest_bob_balance"

module _ (w : World) (ch : Channel) (alice bob : Address)
    (alice_encodes : w.sdk.encode_address ch.alice_address ≡ some alice)
    (bob_encodes : w.sdk.encode_address ch.bob_address ≡ some bob)
    (unopened : ch.closing_initiator ≡ none) where
  abbrev pub Right : Field → PaymentChannelInfo → Type 0
  Right alice_field info = info.alice_address ≡ alice
  Right bob_field info = info.bob_address ≡ bob
  Right window_field info = info.dispute_window ≡ ch.dispute_window
  Right deposit_field info = info.total_deposit ≡ ch.total_deposit
  Right reserve_field info = info.penalty_reserve ≡ ch.penalty_reserve
  Right alice_balance_field info = info.alice_onchain_balance ≡ ch.latest_alice_balance
  Right bob_balance_field info = info.bob_onchain_balance ≡ ch.latest_bob_balance

  -- An entry sets the field of its key, and keeps the others.
  assign_uint_sets :
      (f : Field) (v : ℕ) (info : PaymentChannelInfo)
      → stored_uint ch (key_of f) ≡ some v
      → Right f (assign_uint (key_of f) v info)
  unfolding assign_uint stored_uint bytes_eq
  assign_uint_sets alice_field v info e = ground arith
  assign_uint_sets bob_field v info e = ground arith
  assign_uint_sets window_field v info e = ground arith
  assign_uint_sets deposit_field v info e = ground arith
  assign_uint_sets reserve_field v info e = ground arith
  assign_uint_sets alice_balance_field v info e = ground arith
  assign_uint_sets bob_balance_field v info e = ground arith

  assign_uint_keeps :
      (f : Field) (key : Bytes) (v : ℕ) (info : PaymentChannelInfo)
      → (key == key_of f) ≡ false
      → Right f info
      → Right f (assign_uint key v info)
  unfolding assign_uint
  assign_uint_keeps alice_field key v info other r = ground arith
  assign_uint_keeps bob_field key v info other r = ground arith
  assign_uint_keeps window_field key v info other r = ground arith
  assign_uint_keeps deposit_field key v info other r = ground arith
  assign_uint_keeps reserve_field key v info other r = ground arith
  assign_uint_keeps alice_balance_field key v info other r = ground arith
  assign_uint_keeps bob_balance_field key v info other r = ground arith

  assign_address_sets :
      (f : Field) (v : Bytes) (address : Address) (info : PaymentChannelInfo)
      → stored_bytes ch (key_of f) ≡ some v
      → w.sdk.encode_address v ≡ some address
      → Right f (assign_address (key_of f) address info)
  unfolding assign_address stored_bytes bytes_eq
  assign_address_sets alice_field v address info e g = ground (arith, alice_encodes, bob_encodes)
  assign_address_sets bob_field v address info e g = ground (arith, alice_encodes, bob_encodes)
  assign_address_sets window_field v address info e g = ground (arith, alice_encodes, bob_encodes)
  assign_address_sets deposit_field v address info e g = ground (arith, alice_encodes, bob_encodes)
  assign_address_sets reserve_field v address info e g = ground (arith, alice_encodes, bob_encodes)
  assign_address_sets alice_balance_field v address info e g =
      ground (arith, alice_encodes, bob_encodes)
  assign_address_sets bob_balance_field v address info e g =
      ground (arith, alice_encodes, bob_encodes)

  assign_address_keeps :
      (f : Field) (key : Bytes) (address : Address) (info : PaymentChannelInfo)
      → (key == key_of f) ≡ false
      → Right f info
      → Right f (assign_address key address info)
  unfolding assign_address
  assign_address_keeps alice_field key address info other r = ground arith
  assign_address_keeps bob_field key address info other r = ground arith
  assign_address_keeps window_field key address info other r = ground arith
  assign_address_keeps deposit_field key address info other r = ground arith
  assign_address_keeps reserve_field key address info other r = ground arith
  assign_address_keeps alice_balance_field key address info other r = ground arith
  assign_address_keeps bob_balance_field key address info other r = ground arith

  -- So a field is right after the entry if it was before, or the key is its own.
  set_or_kept :
      (f : Field) (key : Bytes) (before after : PaymentChannelInfo)
      → (key ≡ key_of f → Right f after)
      → ((key == key_of f) ≡ false → Right f before → Right f after)
      → Right f before ⊎ (key ≡ key_of f)
      → Right f after
  set_or_kept f key before after sets keeps h =
      let same = bytes_eq_iff key (key_of f) in
      elim (Bool-cases (key == key_of f)) [
        | inl this ↦ sets (same.0 this)
        | inr other ↦ elim h [ inl r ↦ keeps other r | inr this ↦ sets this ]
      ]

  pub assign_uint-Right :
      (f : Field) (key : Bytes) (v : ℕ) (info : PaymentChannelInfo)
      → stored_uint ch key ≡ some v
      → Right f info ⊎ (key ≡ key_of f)
      → Right f (assign_uint key v info)
  assign_uint-Right f key v info e =
      set_or_kept f key info (assign_uint key v info)
        (λ k.
          subst (λ x. Right f (assign_uint x v info)) (sym k)
            (assign_uint_sets f v info (ap (stored_uint ch) (sym k) ∙ e)))
        (assign_uint_keeps f key v info)

  pub assign_address-Right :
      (f : Field) (key v : Bytes) (address : Address) (info : PaymentChannelInfo)
      → stored_bytes ch key ≡ some v
      → w.sdk.encode_address v ≡ some address
      → Right f info ⊎ (key ≡ key_of f)
      → Right f (assign_address key address info)
  assign_address-Right f key v address info e g =
      set_or_kept f key info (assign_address key address info)
        (λ k.
          subst (λ x. Right f (assign_address x address info)) (sym k)
            (assign_address_sets f v address info (ap (stored_bytes ch) (sym k) ∙ e) g))
        (assign_address_keeps f key address info)
