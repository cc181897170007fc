-- ===== src/Contract/Reading/Values.antt =====
-- The values that GetValueOfGlobalState finds in a report of the contract's state.
use mathlib.Core.Path.{subst}
use algorand_state_channels.Base.{
  ℕ, ◌≡◌, inl, inr, Bytes, bytes_eq_iff, bytes_has_eq, nat_has_eq, none, some, List, [], ◌∷◌, All,
  ◌==◌, arith, Bool-cases,
}
use algorand_state_channels.Base.Decimal.{format_uint}
use algorand_state_channels.Server.State.{TealKeyValue}
use algorand_state_channels.Server.Action.{ok}
use algorand_state_channels.Server.GlobalState.{get_value_of_global_state, value_bytes_of}
use algorand_state_channels.Contract.State.{Channel}
use algorand_state_channels.Contract.Reading.{stored_bytes, stored_uint, IsStored, HasKey}

module _ (ch : Channel) (key : Bytes) where
  pub value_uint-IsStored :
      (v : ℕ) (gs : List TealKeyValue)
      → stored_uint ch key ≡ some v
      → stored_bytes ch key ≡ none
      → All (IsStored ch) gs
      → HasKey key gs
      → get_value_of_global_state gs key ≡ ok (some (format_uint v))
  unfolding get_value_of_global_state value_bytes_of
  value_uint-IsStored v [] e no_bytes all_ has = absurd has
  value_uint-IsStored v (kv ∷ rest) e no_bytes (stored, all_) has =
      let same = bytes_eq_iff stored.key key in
      elim (Bool-cases (stored.key == key)) [
        | inl this ↦
            let keyed : stored.key ≡ key = same.0 this in
            elim stored.value [
              | inl (is_bytes, (b, decoded, f)) ↦
                  let at_key : stored_bytes ch key ≡ some b =
                    subst (λ k. stored_bytes ch k ≡ some b) keyed f in
                  ground (arith, stored.decodes, is_bytes, decoded, at_key)
              | inr (is_uint, f) ↦
                  let at_key : stored_uint ch key ≡ some kv.value_uint =
                    subst (λ k. stored_uint ch k ≡ some kv.value_uint) keyed f in
                  ground (arith, stored.decodes, is_uint, at_key)
            ]
        | inr other ↦ elim has [
          | inl this ↦ absurd (ground (arith, stored.decodes, this, same))
          | inr there ↦
              let ih = value_uint-IsStored v rest e no_bytes all_ there in
              ground (arith, stored.decodes, ih)
        ]
      ]

  pub value_bytes-IsStored :
      (v : Bytes) (gs : List TealKeyValue)
      → stored_bytes ch key ≡ some v
      → stored_uint ch key ≡ none
      → All (IsStored ch) gs
      → HasKey key gs
      → get_value_of_global_state gs key ≡ ok (some v)
  unfolding get_value_of_global_state value_bytes_of
  value_bytes-IsStored v [] e no_uint all_ has = absurd has
  value_bytes-IsStored v (kv ∷ rest) e no_uint (stored, all_) has =
      let same = bytes_eq_iff stored.key key in
      elim (Bool-cases (stored.key == key)) [
        | inl this ↦
            let keyed : stored.key ≡ key = same.0 this in
            elim stored.value [
              | inl (is_bytes, (b, decoded, f)) ↦
                  let at_key : stored_bytes ch key ≡ some b =
                    subst (λ k. stored_bytes ch k ≡ some b) keyed f in
                  ground (arith, stored.decodes, is_bytes, decoded, at_key)
              | inr (is_uint, f) ↦
                  let at_key : stored_uint ch key ≡ some kv.value_uint =
                    subst (λ k. stored_uint ch k ≡ some kv.value_uint) keyed f in
                  ground (arith, stored.decodes, is_uint, at_key)
            ]
        | inr other ↦ elim has [
          | inl this ↦ absurd (ground (arith, stored.decodes, this, same))
          | inr there ↦
              let ih = value_bytes-IsStored v rest e no_uint all_ there in
              ground (arith, stored.decodes, ih)
        ]
      ]
