-- ===== src/Tests/Reports.antt =====
-- A report of a funded contract, and the partner's node that reads it.
use algorand_state_channels.Base.{
  ℕ, ◌≡◌, ◌≢◌, inl, inr, refl, sym, ap, ◌∙◌, Bytes, bytes_eq, bytes_eq_iff, bytes_has_eq, codes,
  some, List, [], ◌∷◌, arith, Bool-cases, ◌==◌,
}
use algorand_state_channels.Base.Base64.{base64_decode}
use algorand_state_channels.Base.Decimal.{format_uint}
use algorand_state_channels.Base.Dict.{lookup}
use algorand_state_channels.Payment.Calls.{compile_payment_programs, compile_teal}
use algorand_state_channels.Server.State.{
  Server, PaymentChannelInfo, TealKeyValue, Application, World,
}
use algorand_state_channels.Server.Action.{ok}
use algorand_state_channels.Server.Peer.{open_channel_request}
use algorand_state_channels.Contract.Opening.{Describes}
use algorand_state_channels.Contract.Reading.{stored_bytes, stored_uint, IsStored, HasKey, Reports}
use algorand_state_channels.Contract.Reading.Joining.{IsOffered, open_channel_request-Describes}
use algorand_state_channels.Tests.Nodes.{sample_sdk, alice, bob, bob_node, alone, world}
use algorand_state_channels.Tests.Channels.{uint_entry}
use algorand_state_channels.Tests.Chains.{funded}

abbrev alice_entry : TealKeyValue
alice_entry = record {
  key = codes "YWxpY2VfYWRkcmVzcw==";
  value_type = 1;
  value_bytes = codes "QUxJQ0U=";
  value_uint = 0;
}

alice_key : base64_decode alice_entry.key ≡ some (codes "alice_address")
unfolding base64_decode
alice_key = refl

alice_stored : IsStored funded alice_entry
unfolding base64_decode stored_bytes bytes_eq
alice_stored = record {
  key = codes "alice_address";
  decodes = refl;
  value = inl (refl, (alice.address, refl, refl));
}

abbrev bob_entry : TealKeyValue
bob_entry = record {
  key = codes "Ym9iX2FkZHJlc3M=";
  value_type = 1;
  value_bytes = codes "Qk9C";
  value_uint = 0;
}

bob_key : base64_decode bob_entry.key ≡ some (codes "bob_address")
unfolding base64_decode
bob_key = refl

bob_stored : IsStored funded bob_entry
unfolding base64_decode stored_bytes bytes_eq
bob_stored = record {
  key = codes "bob_address";
  decodes = refl;
  value = inl (refl, (bob.address, refl, refl));
}

abbrev window_entry : TealKeyValue
window_entry = uint_entry (codes "ZGlzcHV0ZV93aW5kb3c=") 1000

window_key : base64_decode window_entry.key ≡ some (codes "dispute_window")
unfolding base64_decode
window_key = refl

window_stored : IsStored funded window_entry
unfolding base64_decode stored_uint bytes_eq
window_stored = record { key = codes "dispute_window"; decodes = refl; value = inr (refl, refl) }

abbrev reserve_entry : TealKeyValue
reserve_entry = uint_entry (codes "cGVuYWx0eV9yZXNlcnZl") 100000

reserve_key : base64_decode reserve_entry.key ≡ some (codes "penalty_reserve")
unfolding base64_decode
reserve_key = refl

reserve_stored : IsStored funded reserve_entry
unfolding base64_decode stored_uint bytes_eq
reserve_stored = record { key = codes "penalty_reserve"; decodes = refl; value = inr (refl, refl) }

abbrev balance_entry : TealKeyValue
balance_entry = uint_entry (codes "bGF0ZXN0X2FsaWNlX2JhbGFuY2U=") 1000000

balance_key : base64_decode balance_entry.key ≡ some (codes "latest_alice_balance")
unfolding base64_decode
balance_key = refl

balance_stored : IsStored funded balance_entry
unfolding base64_decode stored_uint bytes_eq
balance_stored = record {
  key = codes "latest_alice_balance";
  decodes = refl;
  value = inr (refl, refl);
}

abbrev deposit_entry : TealKeyValue
deposit_entry = uint_entry (codes "dG90YWxfZGVwb3NpdA==") 1000000

deposit_key : base64_decode deposit_entry.key ≡ some (codes "total_deposit")
unfolding base64_decode
deposit_key = refl

deposit_stored : IsStored funded deposit_entry
unfolding base64_decode stored_uint bytes_eq
deposit_stored = record { key = codes "total_deposit"; decodes = refl; value = inr (refl, refl) }

abbrev entries : List TealKeyValue
entries =
    balance_entry ∷ bob_entry ∷ window_entry ∷ alice_entry ∷ deposit_entry ∷ reserve_entry ∷ []

-- A key that is one of those of the report.
at :
    {key k : Bytes} (kv : TealKeyValue)
    → base64_decode kv.key ≡ some k
    → key ≡ k
    → base64_decode kv.key ≡ some key
at kv e same = e ∙ ap some (sym same)

entries_has_bytes : (key v : Bytes) → stored_bytes funded key ≡ some v → HasKey key entries
unfolding stored_bytes
entries_has_bytes key v e = elim (Bool-cases (key == codes "alice_address")) [
  | inl a ↦
      inr (
        inr (inr (inl (at alice_entry alice_key ((bytes_eq_iff key (codes "alice_address")).0 a)))))
  | inr not_alice ↦ elim (Bool-cases (key == codes "bob_address")) [
    | inl b ↦ inr (inl (at bob_entry bob_key ((bytes_eq_iff key (codes "bob_address")).0 b)))
    | inr not_bob ↦ absurd (ground arith)
  ]
]

entries_has_uint :
    (key : Bytes) (v : ℕ) → stored_uint funded key ≡ some v → v ≢ 0 → HasKey key entries
unfolding stored_uint
entries_has_uint key v e positive = elim (Bool-cases (key == codes "penalty_reserve")) [
  | inl a ↦ inr (
      inr (
        inr (
          inr (
            inr (
              inl (
                at reserve_entry reserve_key
                  ((bytes_eq_iff key (codes "penalty_reserve")).0 a)))))))
  | inr not_reserve ↦ elim (Bool-cases (key == codes "dispute_window")) [
    | inl b ↦
        inr
          (inr (inl (at window_entry window_key ((bytes_eq_iff key (codes "dispute_window")).0 b))))
    | inr not_window ↦ elim (Bool-cases (key == codes "latest_alice_balance")) [
      | inl c ↦
          inl (at balance_entry balance_key ((bytes_eq_iff key (codes "latest_alice_balance")).0 c))
      | inr not_balance ↦ elim (Bool-cases (key == codes "total_deposit")) [
        | inl d ↦ inr (
            inr (
              inr (
                inr (
                  inl (
                    at deposit_entry deposit_key
                      ((bytes_eq_iff key (codes "total_deposit")).0 d))))))
        | inr not_deposit ↦ absurd (ground arith)
      ]
    ]
  ]
]

funded-Reports : Reports funded entries
funded-Reports = record {
  entries = (
    balance_stored,
    (bob_stored, (window_stored, (alice_stored, (deposit_stored, (reserve_stored, tt))))),
  );
  has_bytes = entries_has_bytes;
  has_uint = entries_has_uint;
}

abbrev offered_app : Application
offered_app = record { approval_program = []; clear_state_program = []; global_state = entries }

abbrev offered_world : World
offered_world = world alone.peer (some offered_app)

abbrev offered_info : PaymentChannelInfo
offered_info = record {
  app_id = 7;
  partner_ip = codes "10.0.0.2";
  alice_address = alice.address;
  bob_address = bob.address;
  alice_onchain_balance = 1_000_000;
  bob_onchain_balance = 0;
  total_deposit = 1_000_000;
  penalty_reserve = 100_000;
  dispute_window = 1000;
}

funded-Describes : Describes sample_sdk offered_info funded
funded-Describes = record {
  parties = record { alice_key = refl; bob_key = refl };
  alice_balance = refl;
  bob_balance = refl;
  deposit = refl;
  reserve = refl;
  window = refl;
}

funded-IsOffered : IsOffered offered_world offered_info funded offered_app
unfolding compile_payment_programs compile_teal
funded-IsOffered = record {
  known = refl;
  approval = refl;
  clear = refl;
  reports = funded-Reports;
  unopened = refl;
  app_id_word = omega arith;
  window_from = omega arith;
  window_to = omega arith;
  reserve_from = omega arith;
  reserve_to = omega arith;
  alice_encodes = refl;
  bob_encodes = refl;
}

open_channel_request-Describes_example :
    (s' : Server) × (open_channel_request offered_world
        (codes "10.0.0.1")
        (format_uint 7 ∷ [])
        bob_node
      ≡ (ok [], s'))
    × (lookup alice.address s'.onchain_states
        ≡ some (record offered_info { partner_ip = codes "10.0.0.1" }))
open_channel_request-Describes_example =
    open_channel_request-Describes offered_world offered_info funded offered_app funded-Describes
      funded-IsOffered (codes "10.0.0.1") bob_node refl
