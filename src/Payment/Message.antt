-- ===== src/Payment/Message.antt =====
-- The byte strings that `SignState`, `SignClose`, `VerifyState` and `VerifyClose` of
-- payment/operation.go hash: a tag, five uint64 fields that commas separate, and an end tag.
use algorand_state_channels.Base.{
  ℕ, ◌≡◌, ◌≢◌, refl, sym, ◌∙◌, Bytes, codes, ◌++◌, append_inj, arith,
}
use mathlib.Core.List.{tail-eq_of_cons-eq, head-eq_of_cons-eq}
use algorand_state_channels.Base.Word.{IsWord}
use algorand_state_channels.Base.BigEndian.{put_uint64, length-put_uint64, put_uint64-injective}

-- uint64ToBytes
unfoldable pub uint64_to_bytes : ℕ → Bytes
uint64_to_bytes val = put_uint64 val

-- What the two kinds of message share.
unfoldable pub signed_fields : ℕ → ℕ → ℕ → ℕ → ℕ → Bytes → Bytes
signed_fields algorand_port app_id alice_balance bob_balance timestamp end =
    uint64_to_bytes algorand_port
    ++ (codes ","
        ++ (uint64_to_bytes app_id
            ++ (codes ","
                ++ (uint64_to_bytes alice_balance
                    ++ (codes ","
                        ++ (uint64_to_bytes bob_balance
                            ++ (codes "," ++ (uint64_to_bytes timestamp ++ end))))))))

-- `data_raw` of SignState and VerifyState
unfoldable pub state_message : ℕ → ℕ → ℕ → ℕ → ℕ → Bytes
state_message algorand_port app_id alice_balance bob_balance timestamp =
    codes "STATE_UPDATE"
    ++ signed_fields algorand_port app_id alice_balance bob_balance timestamp
        (codes "END_STATE_UPDATE")

-- `data_raw` of SignClose and VerifyClose
unfoldable pub close_message : ℕ → ℕ → ℕ → ℕ → ℕ → Bytes
close_message algorand_port app_id alice_balance bob_balance timestamp =
    codes "CLOSE_CHANNEL"
    ++ signed_fields algorand_port app_id alice_balance bob_balance timestamp
        (codes "END_CLOSE_CHANNEL")

-- Equal texts that begin with a uint64 begin with the same one.
field-injective :
    (v w : ℕ) (s t : Bytes)
    → IsWord v
    → IsWord w
    → uint64_to_bytes v ++ s ≡ uint64_to_bytes w ++ t
    → (v ≡ w) × (s ≡ t)
unfolding uint64_to_bytes
field-injective v w s t hv hw e =
    let (same, rest) =
      append_inj (put_uint64 v) (put_uint64 w) s t (length-put_uint64 v ∙ sym (length-put_uint64 w))
        e in
    (put_uint64-injective v w hv hw same, rest)

signed_fields-injective :
    (p p' i i' a a' b b' t t' : ℕ) (end : Bytes)
    → IsWord p × IsWord i × IsWord a × IsWord b × IsWord t
    → IsWord p' × IsWord i' × IsWord a' × IsWord b' × IsWord t'
    → signed_fields p i a b t end ≡ signed_fields p' i' a' b' t' end
    → (p ≡ p') × (i ≡ i') × (a ≡ a') × (b ≡ b') × (t ≡ t')
unfolding signed_fields
signed_fields-injective p p' i i' a a' b b' t t' end h h' e =
    let (ep, e1) = field-injective p p' _ _ h.0 h'.0 e in
    let (ei, e2) = field-injective i i' _ _ h.1 h'.1 (tail-eq_of_cons-eq e1) in
    let (ea, e3) = field-injective a a' _ _ h.2 h'.2 (tail-eq_of_cons-eq e2) in
    let (eb, e4) = field-injective b b' _ _ h.3 h'.3 (tail-eq_of_cons-eq e3) in
    let (et, _) = field-injective t t' _ _ h.4 h'.4 (tail-eq_of_cons-eq e4) in (ep, ei, ea, eb, et)

-- Two state messages of uint64 fields are equal only if they agree in the port, the application,
-- both balances and the timestamp.
pub state_message-injective :
    (p p' i i' a a' b b' t t' : ℕ)
    → IsWord p × IsWord i × IsWord a × IsWord b × IsWord t
    → IsWord p' × IsWord i' × IsWord a' × IsWord b' × IsWord t'
    → state_message p i a b t ≡ state_message p' i' a' b' t'
    → (p ≡ p') × (i ≡ i') × (a ≡ a') × (b ≡ b') × (t ≡ t')
unfolding state_message
state_message-injective p p' i i' a a' b b' t t' h h' e =
    signed_fields-injective p p' i i' a a' b b' t t' (codes "END_STATE_UPDATE") h h'
      (append_inj (codes "STATE_UPDATE") (codes "STATE_UPDATE") _ _ refl e).1

-- Two close messages of uint64 fields are equal only if they agree in the port, the application,
-- both balances and the timestamp.
pub close_message-injective :
    (p p' i i' a a' b b' t t' : ℕ)
    → IsWord p × IsWord i × IsWord a × IsWord b × IsWord t
    → IsWord p' × IsWord i' × IsWord a' × IsWord b' × IsWord t'
    → close_message p i a b t ≡ close_message p' i' a' b' t'
    → (p ≡ p') × (i ≡ i') × (a ≡ a') × (b ≡ b') × (t ≡ t')
unfolding close_message
close_message-injective p p' i i' a a' b b' t t' h h' e =
    signed_fields-injective p p' i i' a a' b b' t t' (codes "END_CLOSE_CHANNEL") h h'
      (append_inj (codes "CLOSE_CHANNEL") (codes "CLOSE_CHANNEL") _ _ refl e).1

-- No state message is a close message, whatever the fields of the two.
pub state_message-ne-close_message :
    (p p' i i' a a' b b' t t' : ℕ) → state_message p i a b t ≢ close_message p' i' a' b' t'
unfolding state_message close_message
state_message-ne-close_message p p' i i' a a' b b' t t' e = ground (arith, head-eq_of_cons-eq e)
