-- ===== src/Relay/Broadcaster/Examples.antt =====
-- Runs of the relay's policy: on the mainnet, on the testnet, and the retry.
use nullark.Prelude.{◌≡◌, ◌↔◌, refl, true, false, none, some, [], ◌∷◌}
use nullark.Prelude.Int.{pos}
use nullark.Prelude.Number.{int}
use nullark.Prelude.Text.{text}
use nullark.Relay.Broadcaster.{
  RelayBroadcastRequest, RelayBroadcastPolicy, validate_relay_broadcast_request,
  decide_nonce_too_low_retry, chain_not_allowed, chain_blocked, deadline_too_far, may_have_executed,
  megaeth_mainnet_approved_withdrawal_relayer_pool,
}
use nullark.Relay.Broadcaster.Conditions.{IsRelayable}
use nullark.Relay.Broadcaster.Policy.{validate_relay_broadcast_request-allowed_iff}

abbrev request : RelayBroadcastRequest
request = record {
  chain_id = 4326;
  to = megaeth_mainnet_approved_withdrawal_relayer_pool;
  calldata = text "0x678D850600";
  value_wei = pos 0;
  gas_limit = pos 900000;
  deadline_epoch_seconds = int (pos 1120);
}

abbrev policy : RelayBroadcastPolicy
policy = record {
  allowed_chain_ids = 4326 ∷ [];
  blocked_chain_ids = none;
  allow_megaeth_mainnet = some true;
  allowed_contracts = megaeth_mainnet_approved_withdrawal_relayer_pool ∷ [];
  allowed_function_selectors = text "0x678d8506" ∷ [];
  max_value_wei = pos 0;
  max_gas_limit = pos 1000000;
  max_deadline_seconds_from_now = pos 300;
}

allowed_on_mainnet :
    validate_relay_broadcast_request request policy (int (pos 1000))
    ≡ record { allowed = true; errors = [] }
unfolding validate_relay_broadcast_request
allowed_on_mainnet = refl

too_far_and_not_listed :
    validate_relay_broadcast_request (record request { chain_id = 6343 }) policy (int (pos 800))
    ≡ record { allowed = false; errors = chain_not_allowed 6343 ∷ deadline_too_far ∷ [] }
unfolding validate_relay_broadcast_request
too_far_and_not_listed = refl

blocked_by_default :
    (validate_relay_broadcast_request request
      (record policy { allow_megaeth_mainnet = none })
      (int (pos 1000))).errors
    ≡ chain_blocked 4326 ∷ []
unfolding validate_relay_broadcast_request
blocked_by_default = refl

no_retry_unknown :
    decide_nonce_too_low_retry
      (record { original_execution_checked = true; original_transaction_executed = none })
    ≡ record { can_retry = false; reason = may_have_executed }
unfolding decide_nonce_too_low_retry
no_retry_unknown = refl

mainnet_request_allowed_iff :
    ((validate_relay_broadcast_request request policy (int (pos 1000))).allowed ≡ true)
    ↔ IsRelayable request policy (int (pos 1000))
mainnet_request_allowed_iff =
    validate_relay_broadcast_request-allowed_iff request policy (int (pos 1000))
