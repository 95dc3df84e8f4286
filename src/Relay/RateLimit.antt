-- ===== src/Relay/RateLimit.antt =====
-- services/relay/src/rateLimit.ts: the limits of the hosted services, and the counters of the relay.
-- One call reads its four counters and then writes them; calls do not overlap.
pub mod Keys
pub mod Counters
pub mod Requests
mod Examples
use nullark.Prelude.{
  ℕ, zero, suc, ◌+◌, ◌*◌, ◌/◌, Bool, true, false, not, ◌||◌, ◌&&◌, Option, none, some, List, [],
  ◌∷◌, ◌++◌, map, ltb, leb, ◌==◌, if◌then◌else◌, Result, ok, err, ◌>>=◌, ◌>>◌, throw_if,
}
use nullark.Prelude.Int.{ℤ, pos}
use nullark.Prelude.Number.{Number, int, nonneg_safe_integer, max_safe_integer}
use nullark.Prelude.Text.{
  Text, text, text_eq, to_lower_case, trim, to_string, parse_int, digit_value,
}
use nullark.Relay.Store.{KvStore}

pub data HostedService : Type 0 where
  local_identity_create handle_publication directory_lookup sync backup_storage relay :
      HostedService

pub data LimitCategory : Type 0 where
  identity directory sync_category backup relay_category : LimitCategory

pub record HostedServiceLimit : Type 0 where
  pub category : LimitCategory
  pub max_requests_per_window : ℕ
  pub local_only : Option Bool

-- HOSTED_SERVICE_LIMITS
unfoldable pub get_hosted_service_limit : HostedService → HostedServiceLimit
get_hosted_service_limit local_identity_create = record {
  category = identity;
  max_requests_per_window = 0;
  local_only = some true;
}
get_hosted_service_limit handle_publication = record {
  category = identity;
  max_requests_per_window = 20;
  local_only = none;
}
get_hosted_service_limit directory_lookup = record {
  category = directory;
  max_requests_per_window = 120;
  local_only = none;
}
get_hosted_service_limit sync = record {
  category = sync_category;
  max_requests_per_window = 60;
  local_only = none;
}
get_hosted_service_limit backup_storage = record {
  category = backup;
  max_requests_per_window = 10;
  local_only = none;
}
get_hosted_service_limit relay = record {
  category = relay_category;
  max_requests_per_window = 30;
  local_only = none;
}

abbrev pub is_true : Option Bool → Bool
is_true (some true) = true
is_true _ = false

unfoldable pub can_use_hosted_identity_service : HostedService → ℕ → Bool
unfolding get_hosted_service_limit
can_use_hosted_identity_service service requests_in_window =
    let limit = get_hosted_service_limit service in
    if is_true limit.local_only then true else leb requests_in_window limit.max_requests_per_window

pub record RelayRateLimitConfig : Type 0 where
  pub window_seconds : Number
  pub per_ip : Number
  pub per_destination : Number
  pub per_nullifier : Number
  pub global : Number

-- The fields of the input but the store; the times are whole and not negative.
pub record RelayRateLimitInput : Type 0 where
  pub chain_id : ℕ
  pub pool : Text
  pub ip : Text
  pub destination : Text
  pub nullifier : Text
  pub now_epoch_seconds : ℕ
  pub config : RelayRateLimitConfig

pub data LimitLabel : Type 0 where
  per_ip per_destination per_nullifier global : LimitLabel

pub record RelayRateLimitDecision : Type 0 where
  pub allowed : Bool
  pub exceeded : List LimitLabel

-- `relay rate limit ${key} must be positive`
pub data RateLimitError : Type 0 where
  window_seconds_must_be_positive : RateLimitError
  limit_must_be_positive : LimitLabel → RateLimitError

-- A configuration whose numbers passed the validation, by their values.
pub record Limits : Type 0 where
  pub window : ℕ
  pub ip_limit : ℕ
  pub destination_limit : ℕ
  pub nullifier_limit : ℕ
  pub global_limit : ℕ

-- `!Number.isSafeInteger(value) || value <= 0`
unfoldable pub require_positive : Number → RateLimitError → Result RateLimitError ℕ
unfolding nonneg_safe_integer
require_positive value e = elim (nonneg_safe_integer value) [
  | none ↦ err e
  | some zero ↦ err e
  | some (suc n) ↦ ok (suc n)
]

unfoldable pub validate_relay_rate_limit_config :
    RelayRateLimitConfig → Result RateLimitError Limits
unfolding require_positive
validate_relay_rate_limit_config config = do
  window ← require_positive config.window_seconds window_seconds_must_be_positive
  ip_limit ← require_positive config.per_ip (limit_must_be_positive per_ip)
  destination_limit ←
      require_positive config.per_destination (limit_must_be_positive per_destination)
  nullifier_limit ← require_positive config.per_nullifier (limit_must_be_positive per_nullifier)
  global_limit ← require_positive config.global (limit_must_be_positive global)
  ok (record {
    window = window;
    ip_limit = ip_limit;
    destination_limit = destination_limit;
    nullifier_limit = nullifier_limit;
    global_limit = global_limit;
  })

-- `[^a-z0-9:._-]` becomes "_".
abbrev pub key_unit : ℕ → ℕ
key_unit c =
    if (leb b'a' c && leb c b'z')
      || ((leb b'0' c && leb c b'9') || (c == b':' || (c == b'.' || (c == b'_' || c == b'-'))))
    then c
    else b'_'

unfoldable pub slice_to : ℕ → Text → Text
slice_to zero s = []
slice_to (suc n) [] = []
slice_to (suc n) (c ∷ s) = c ∷ slice_to n s

-- `s || fallback`
abbrev pub or_text : Text → Text → Text
or_text [] fallback = fallback
or_text (c ∷ s) fallback = c ∷ s

unfoldable pub normalize_key_part : Text → Text
unfolding slice_to to_lower_case trim
normalize_key_part value =
    or_text (slice_to 128 (map key_unit (to_lower_case (trim value)))) (text "unknown")

unfoldable pub key_prefix : RelayRateLimitInput → Limits → Text
unfolding to_lower_case to_string
key_prefix input limits =
    text "relay-rate:"
    ++ (to_string 10 input.chain_id
        ++ (text ":"
            ++ (to_lower_case input.pool
                ++ (text ":" ++ to_string 10 (input.now_epoch_seconds / limits.window)))))

pub record Check : Type 0 where
  pub label : LimitLabel
  pub key : Text
  pub limit : ℕ

unfoldable pub checks_of : RelayRateLimitInput → Limits → List Check
unfolding key_prefix normalize_key_part
checks_of input limits =
    let prefix = key_prefix input limits in
    record {
      label = per_ip;
      key = prefix ++ (text ":ip:" ++ normalize_key_part input.ip);
      limit = limits.ip_limit;
    }
    ∷ record {
      label = per_destination;
      key = prefix ++ (text ":destination:" ++ to_lower_case input.destination);
      limit = limits.destination_limit;
    }
    ∷ record {
      label = per_nullifier;
      key = prefix ++ (text ":nullifier:" ++ to_lower_case input.nullifier);
      limit = limits.nullifier_limit;
    }
    ∷ record { label = global; key = prefix ++ text ":global"; limit = limits.global_limit }
    ∷ []

-- A count that is not a positive safe integer reads as none.
abbrev pub positive_safe : Option ℕ → ℕ
positive_safe none = 0
positive_safe (some n) = if leb n max_safe_integer then n else 0

abbrev pub count_of : Option Text → ℕ
count_of none = 0
count_of (some []) = 0
count_of (some (c ∷ raw)) = positive_safe (parse_int 10 (c ∷ raw))

module _ (store : KvStore Text) where
  open store use {State, get, put}

  unfoldable pub read_count : State → Text → ℕ
  unfolding parse_int
  read_count s key = count_of (get s key)

  -- The labels of the checks whose counter has no room.
  unfoldable pub exceeded_labels : State → List Check → List LimitLabel
  unfolding read_count
  exceeded_labels s [] = []
  exceeded_labels s (check ∷ checks) =
      let rest = exceeded_labels s checks in
      if ltb check.limit (read_count s check.key + 1) then check.label ∷ rest else rest

  -- The counts are those that were read before the first write.
  unfoldable pub put_counts : ℕ → State → List Check → State → State
  unfolding read_count to_string
  put_counts ttl before [] s = s
  put_counts ttl before (check ∷ checks) s =
      put_counts ttl before checks
        (put check.key (to_string 10 (read_count before check.key + 1)) ttl s)

  unfoldable pub decide_and_record :
      Limits → List Check → List LimitLabel → State → RelayRateLimitDecision × State
  unfolding put_counts
  decide_and_record limits checks [] s =
      (record { allowed = true; exceeded = [] }, put_counts (limits.window * 2) s checks s)
  decide_and_record limits checks (label ∷ labels) s =
      (record { allowed = false; exceeded = label ∷ labels }, s)

  unfoldable pub check_and_record_relay_rate_limit :
      RelayRateLimitInput → State → Result RateLimitError (RelayRateLimitDecision × State)
  unfolding validate_relay_rate_limit_config checks_of exceeded_labels decide_and_record
  check_and_record_relay_rate_limit input s = do
    limits ← validate_relay_rate_limit_config input.config
    let checks = checks_of input limits
    ok (decide_and_record limits checks (exceeded_labels s checks) s)
