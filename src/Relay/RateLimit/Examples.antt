-- ===== src/Relay/RateLimit/Examples.antt =====
-- Runs of the rate limit, on a store in memory.
use nullark.Prelude.{◌≡◌, refl, true, ok, [], IsSorted}
use nullark.Prelude.Int.{pos}
use nullark.Prelude.Number.{int}
use nullark.Prelude.Text.{Text, text}
use nullark.Relay.Store.{KvStore, memory_store}
use nullark.Relay.RateLimit.{
  RelayRateLimitConfig, RelayRateLimitInput, RelayRateLimitDecision, Limits, checks_of,
  validate_relay_rate_limit_config, check_and_record_relay_rate_limit,
  can_use_hosted_identity_service, handle_publication,
}
use nullark.Relay.RateLimit.Keys.{Differ, checks_of-Differ}
use nullark.Relay.RateLimit.Counters.{Effect}
use nullark.Relay.RateLimit.Requests.{check_and_record-Effect}

abbrev memory : KvStore Text
memory = memory_store Text

abbrev config : RelayRateLimitConfig
config = record {
  window_seconds = int (pos 60);
  per_ip = int (pos 2);
  per_destination = int (pos 3);
  per_nullifier = int (pos 1);
  global = int (pos 9);
}

abbrev limits : Limits
limits = record {
  window = 60;
  ip_limit = 2;
  destination_limit = 3;
  nullifier_limit = 1;
  global_limit = 9;
}

abbrev request : RelayRateLimitInput
request = record {
  chain_id = 1;
  pool = text "0xAB";
  ip = text "10.0.0.1";
  destination = text "0xcd";
  nullifier = text "0xEF";
  now_epoch_seconds = 125;
  config = config;
}

config_valid : validate_relay_rate_limit_config config ≡ ok limits
unfolding validate_relay_rate_limit_config
config_valid = refl

limit_is_inclusive : can_use_hosted_identity_service handle_publication 20 ≡ true
unfolding can_use_hosted_identity_service
limit_is_inclusive = refl

first_request :
    (answer : RelayRateLimitDecision × memory.State) × (check_and_record_relay_rate_limit memory
        request []
      ≡ ok answer)
    × Effect memory (checks_of request limits) [] answer
first_request = check_and_record-Effect request limits config_valid memory []

keys-Differ : IsSorted Differ (checks_of request limits)
keys-Differ = checks_of-Differ request limits
