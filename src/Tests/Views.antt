-- ===== src/Tests/Views.antt =====
-- The payments of two concrete nodes, on their views.
use algorand_state_channels.Base.{◌≡◌, true, bytes_eq, some, arith}
use algorand_state_channels.Base.Word.{slt}
use algorand_state_channels.Base.Dict.{lookup}
use algorand_state_channels.Server.Log.{get_latest_off_chain_state}
use algorand_state_channels.Server.Peer.{process_payment, pay_request}
use algorand_state_channels.Server.Rpc.{pay, pay_request_of}
use algorand_state_channels.Server.Rpc.Transfer.{pay_request-pay_request_of}
use algorand_state_channels.Server.Views.{View, view, Evolves, incoming, outgoing}
use algorand_state_channels.Server.Views.Payments.{process_payment-Evolves}
use algorand_state_channels.Server.Views.Sending.{pay-Evolves}
use algorand_state_channels.Tests.Nodes.{alice, bob_node, alone}
use algorand_state_channels.Tests.Payments.{bob_world}
use algorand_state_channels.Tests.Requests.{alice_signs, bob_node-IsWellFormed}

pay_request-pay_request_of_example :
    pay_request alone (pay_request_of alice.address 595_000 405_000 2000 alice_signs).args bob_node
    ≡ process_payment alone alice.address 595_000 405_000 2000 alice_signs bob_node
pay_request-pay_request_of_example =
    pay_request-pay_request_of alone alice.address 595_000 405_000 2000 alice_signs bob_node
      (omega arith, omega arith, omega arith)

process_payment-Evolves_example : Evolves (incoming 2000) (view alice.address bob_node) (
    view alice.address
      (process_payment alone alice.address 595_000 405_000 2000 alice_signs bob_node).1)
process_payment-Evolves_example =
    process_payment-Evolves alone alice.address 595_000 405_000 2000 alice_signs bob_node
      bob_node-IsWellFormed (omega arith, omega arith, omega arith) alice.address

bob_view_time : (v : View) → view alice.address bob_node ≡ some v → slt v.time bob_world.now ≡ true
unfolding view lookup bytes_eq get_latest_off_chain_state slt
bob_view_time v e = ground arith

pay-Evolves_example :
    Evolves
      (outgoing 5000 2000)
      (view alice.address bob_node)
      (view alice.address (pay bob_world alice.address 5000 bob_node).1)
pay-Evolves_example =
    pay-Evolves bob_world alice.address 5000 bob_node bob_node-IsWellFormed (omega arith)
      bob_view_time alice.address
