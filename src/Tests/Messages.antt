-- ===== src/Tests/Messages.antt =====
-- The theorems on messages and on the calls of the contract, at concrete fields.
use algorand_state_channels.Base.{ℕ, ◌≡◌, refl, arith}
use algorand_state_channels.Payment.Message.{state_message-injective}

-- The fields of the messages: port, application, balances and timestamp.
abbrev port : ℕ
port = 4161

abbrev app : ℕ
app = 7

abbrev balance_a : ℕ
balance_a = 600_000

abbrev balance_b : ℕ
balance_b = 400_000

abbrev time : ℕ
time = 1000

state_message-injective_example :
    (port ≡ port) × (app ≡ app) × (balance_a ≡ balance_a) × (balance_b ≡ balance_b) × (time ≡ time)
state_message-injective_example =
    state_message-injective port port app app balance_a balance_a balance_b balance_b time time
      (omega arith, omega arith, omega arith, omega arith, omega arith)
      (omega arith, omega arith, omega arith, omega arith, omega arith) refl
