-- ===== src/Tests/Commands.antt =====
-- Commands of the client, at concrete command lines, and the node that serves them.
use algorand_state_channels.Base.{
  ◌≡◌, refl, bytes_eq, bytes_has_eq, nat_has_eq, codes, none, some, get_elem?, arith, if◌then◌else◌,
  ◌==◌,
}
use algorand_state_channels.Server.Rpc.Failures.{pay_unreachable}
use algorand_state_channels.Cli.{Context}
use algorand_state_channels.Cli.Commands.{commands, pay_command, pay_action, with_client}
use algorand_state_channels.Cli.Serving.{serve, run}
use algorand_state_channels.Cli.Serving.Effects.{run_atomic}
use algorand_state_channels.Tests.Nodes.{alice, bob_node, alone, channel_info, paid_once, bob-Knows}

-- A payment of 5000 to Alice, and the same with a flag that pay does not have.
abbrev pay_line : Context
pay_line = record {
  narg = 0;
  string_flag = λ name. if name == codes "partner_address" then alice.address else codes "5000";
  int64_flag = λ name. 5000;
  uint64_flag = λ name. 5000;
  dial_error = none;
}

named_pay : get_elem? commands 3 ≡ some pay_command
named_pay = refl

-- Nobody answers Bob's node.
failed_run : (run alone pay_command pay_line bob_node).0 ≡ 1
unfolding run serve pay_action with_client bytes_eq
failed_run = ground (
  arith,
  pay_unreachable alone bob_node alice.address (channel_info (codes "10.0.0.1")) paid_once 5000
      bob-Knows (λ r. refl),
)

run_atomic_example : (run alone pay_command pay_line bob_node).1 ≡ bob_node
run_atomic_example =
    run_atomic alone 3 pay_command pay_line bob_node named_pay (λ e. ground arith)
      (λ e. ground arith) failed_run
