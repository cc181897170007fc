-- ===== src/Contract/Reading/Channels.antt =====
-- The channel that a node reads from a report of the contract's state.
use mathlib.Core.Option.{some_inj}
use algorand_state_channels.Base.{
  ℕ, ◌≡◌, ◌⊎◌, inl, inr, refl, ap, sym, ◌∙◌, Bytes, bytes_eq, bytes_has_eq, nat_has_eq, nat_eq_iff,
  codes, none, some, List, [], ◌∷◌, All, ◌==◌, arith, Bool-cases,
}
use algorand_state_channels.Payment.Sdk.{Address}
use algorand_state_channels.Server.State.{PaymentChannelInfo, TealKeyValue, World}
use algorand_state_channels.Server.GlobalState.{
  assign_address, assign_uint, assign_entry, read_channel_info, new_channel_info,
}
use algorand_state_channels.Contract.State.{Channel}
use algorand_state_channels.Contract.Reading.{stored_bytes, stored_uint, IsStored, HasKey, Reports}
use algorand_state_channels.Contract.Reading.Fields.{
  Field, alice_field, bob_field, window_field, deposit_field, reserve_field, alice_balance_field,
  bob_balance_field, key_of, assign_uint-Right, assign_address-Right,
}
use algorand_state_channels.Contract.Reading.Fields as Fields

module _ (w : World) (ch : Channel) (alice bob : Address)
    (alice_encodes : w.sdk.encode_address ch.alice_address ≡ some alice)
    (bob_encodes : w.sdk.encode_address ch.bob_address ≡ some bob)
    (unopened : ch.closing_initiator ≡ none) where
  abbrev Right : Field → PaymentChannelInfo → Type 0
  Right = Fields.Right w ch alice bob alice_encodes bob_encodes unopened

  -- What reading the entry of a key, or several, keeps and sets.
  record Reads (set : Field → Type 0) (before after : PaymentChannelInfo) : Type 0 where
    same_app : after.app_id ≡ before.app_id
    same_ip : after.partner_ip ≡ before.partner_ip
    right : (f : Field) → Right f before ⊎ set f → Right f after

  stored_bytes_encodes :
      (key v : Bytes)
      → stored_bytes ch key ≡ some v
      → (address : Address) × (w.sdk.encode_address v ≡ some address)
  unfolding stored_bytes
  stored_bytes_encodes key v e = elim (Bool-cases (key == codes "alice_address")) [
    | inl is_alice ↦ (alice, ground arith)
    | inr not_alice ↦ elim (Bool-cases (key == codes "bob_address")) [
      | inl is_bob ↦ (bob, ground arith)
      | inr not_bob ↦ absurd (ground arith)
    ]
  ]

  assign_address-Reads :
      (key v : Bytes) (address : Address) (info : PaymentChannelInfo)
      → stored_bytes ch key ≡ some v
      → w.sdk.encode_address v ≡ some address
      → Reads (λ f. key ≡ key_of f) info (assign_address key address info)
  unfolding assign_address
  assign_address-Reads key v address info e g = record {
    same_app = ground arith;
    same_ip = ground arith;
    right = λ f h.
        assign_address-Right w ch alice bob alice_encodes bob_encodes unopened f key v address info
          e g h;
  }

  assign_uint-Reads :
      (key : Bytes) (v : ℕ) (info : PaymentChannelInfo)
      → stored_uint ch key ≡ some v
      → Reads (λ f. key ≡ key_of f) info (assign_uint key v info)
  unfolding assign_uint
  assign_uint-Reads key v info e = record {
    same_app = ground arith;
    same_ip = ground arith;
    right =
        λ f h. assign_uint-Right w ch alice bob alice_encodes bob_encodes unopened f key v info e h;
  }

  assign_entry-Reads :
      (kv : TealKeyValue) (info : PaymentChannelInfo) (stored : IsStored ch kv)
      → (after : PaymentChannelInfo) × (assign_entry w stored.key kv info ≡ some after)
        × Reads (λ f. stored.key ≡ key_of f) info after
  unfolding assign_entry
  assign_entry-Reads kv info stored = elim stored.value [
    | inl (is_bytes, (v, decoded, e)) ↦
        let (address, encoded) = stored_bytes_encodes stored.key v e in
        (
          assign_address stored.key address info,
          ground (arith, is_bytes, decoded, encoded),
          assign_address-Reads stored.key v address info e encoded,
        )
    | inr (is_uint, e) ↦ (
      assign_uint stored.key kv.value_uint info,
      ground (arith, is_uint),
      assign_uint-Reads stored.key kv.value_uint info e,
    )
  ]

  read_channel_info-Reads :
      (gs : List TealKeyValue) (info : PaymentChannelInfo)
      → All (IsStored ch) gs
      → (after : PaymentChannelInfo) × (read_channel_info w gs info ≡ some after)
        × Reads (λ f. HasKey (key_of f) gs) info after
  unfolding read_channel_info
  read_channel_info-Reads [] info all_ = (
    info,
    refl,
    record {
      same_app = refl;
      same_ip = refl;
      right = λ f h. elim h [ inl r ↦ r | inr none_left ↦ absurd none_left ];
    },
  )
  read_channel_info-Reads (kv ∷ rest) info (stored, all_) =
      let (middle, assigned, first) = assign_entry-Reads kv info stored in
      let (after, read, later) = read_channel_info-Reads rest middle all_ in
      (
        after,
        ground (arith, stored.decodes, assigned, read),
        record {
          same_app = later.same_app ∙ first.same_app;
          same_ip = later.same_ip ∙ first.same_ip;
          right = λ f h. elim h [
            | inl r ↦ later.right f (inl (first.right f (inl r)))
            | inr (inl this) ↦
                later.right f (inl (first.right f (inr (some_inj.0 (sym stored.decodes ∙ this)))))
            | inr (inr there) ↦ later.right f (inr there)
          ];
        },
      )

  -- The channel as the node reads it.
  abbrev pub read_info : Bytes → ℕ → PaymentChannelInfo
  read_info ip app_id = record {
    app_id = app_id;
    partner_ip = ip;
    alice_address = alice;
    bob_address = bob;
    alice_onchain_balance = ch.latest_alice_balance;
    bob_onchain_balance = ch.latest_bob_balance;
    total_deposit = ch.total_deposit;
    penalty_reserve = ch.penalty_reserve;
    dispute_window = ch.dispute_window;
  }

  -- A number of the report, or 0.
  reported :
      (gs : List TealKeyValue) (key : Bytes) (v : ℕ)
      → Reports ch gs
      → stored_uint ch key ≡ some v
      → (0 ≡ v) ⊎ HasKey key gs
  reported gs key v report e = elim (Bool-cases (v == 0)) [
    | inl is_zero ↦ inl (ground (arith, nat_eq_iff v 0))
    | inr other ↦ inr (report.has_uint key v e (λ z. ground (arith, nat_eq_iff v 0)))
  ]

  -- Whatever the order of the report, the node reads the channel of the state.
  pub read_channel_info-Reports :
      (gs : List TealKeyValue) (ip : Bytes) (app_id : ℕ)
      → Reports ch gs
      → read_channel_info w gs (new_channel_info ip app_id) ≡ some (read_info ip app_id)
  unfolding stored_bytes stored_uint bytes_eq
  read_channel_info-Reports gs ip app_id report =
      let (after, read, reads) =
        read_channel_info-Reads gs (new_channel_info ip app_id) report.entries in
      let same : after ≡ read_info ip app_id = λ i. record {
        app_id = reads.same_app i;
        partner_ip = reads.same_ip i;
        alice_address = reads.right alice_field (inr (report.has_bytes _ ch.alice_address refl)) i;
        bob_address = reads.right bob_field (inr (report.has_bytes _ ch.bob_address refl)) i;
        alice_onchain_balance =
            reads.right alice_balance_field (reported gs _ ch.latest_alice_balance report refl) i;
        bob_onchain_balance =
            reads.right bob_balance_field (reported gs _ ch.latest_bob_balance report refl) i;
        total_deposit = reads.right deposit_field (reported gs _ ch.total_deposit report refl) i;
        penalty_reserve =
            reads.right reserve_field (reported gs _ ch.penalty_reserve report refl) i;
        dispute_window = reads.right window_field (reported gs _ ch.dispute_window report refl) i;
      } in
      read ∙ ap some same
