-- ===== src/Relay/Broadcaster.antt =====
-- services/relay/src/broadcaster.ts: the policy that decides which transaction the relay broadcasts. A
-- chain is known by a natural number; values and gas are integers, and the two times are any numbers.
-- The longest deadline of a policy is an integer.
pub mod Reports
pub mod Conditions
pub mod Policy
mod Examples
use nullark.Prelude.{
  ℕ, Bool, true, false, not, ◌||◌, ◌&&◌, Option, none, some, List, [], ◌∷◌, ◌++◌, map, length, ltb,
  ◌==◌, any_of, is_empty, if◌then◌else◌,
}
use nullark.Prelude.Int.{ℤ, pos, ◌+ℤ◌, ltb_ℤ, leb_ℤ}
use nullark.Prelude.Number.{Number, int, not_integer, is_safe_integer, is_negative, int_le_number}
use nullark.Prelude.Text.{Text, text, text_eq, to_lower_case, starts_with}
use nullark.Relay.RateLimit.{slice_to, is_true}

abbrev pub megaeth_mainnet_chain_id : ℕ
megaeth_mainnet_chain_id = 4326

abbrev pub stage_c_withdraw_bounded_selector : Text
stage_c_withdraw_bounded_selector = text "0x678d8506"

abbrev pub megaeth_mainnet_approved_withdrawal_relayer_pool : Text
megaeth_mainnet_approved_withdrawal_relayer_pool = text "0x08bA57aA9Bc13Ccaf0dda0Fb7Cd7A2570b0FE4d8"

abbrev pub mainnet_withdrawal_relayer_selectors : List Text
mainnet_withdrawal_relayer_selectors = stage_c_withdraw_bounded_selector ∷ []

pub record RelayBroadcastRequest : Type 0 where
  pub chain_id : ℕ
  pub to : Text
  pub calldata : Text
  pub value_wei : ℤ
  pub gas_limit : ℤ
  pub deadline_epoch_seconds : Number

pub record RelayBroadcastPolicy : Type 0 where
  pub allowed_chain_ids : List ℕ
  pub blocked_chain_ids : Option (List ℕ)
  pub allow_megaeth_mainnet : Option Bool
  pub allowed_contracts : List Text
  pub allowed_function_selectors : List Text
  pub max_value_wei : ℤ
  pub max_gas_limit : ℤ
  pub max_deadline_seconds_from_now : ℤ

pub data BroadcastError : Type 0 where
  window_exceeds_cap value_negative gas_not_positive deadline_not_safe time_not_safe :
      BroadcastError
  chain_blocked chain_not_allowed : ℕ → BroadcastError
  contract_not_allowed selector_not_allowed : BroadcastError
  non_production_contract non_production_selector : Text → BroadcastError
  contract_not_approved selector_not_approved : BroadcastError
  value_exceeds_maximum gas_exceeds_maximum deadline_expired deadline_too_far : BroadcastError

-- The warnings are one fixed text, and left out.
pub record RelayPolicyDecision : Type 0 where
  pub allowed : Bool
  pub errors : List BroadcastError

pub record NonceTooLowRetryInput : Type 0 where
  pub original_execution_checked : Bool
  pub original_transaction_executed : Option Bool

pub data RetryReason : Type 0 where
  execution_unchecked may_have_executed did_not_execute : RetryReason

pub record NonceTooLowRetryDecision : Type 0 where
  pub can_retry : Bool
  pub reason : RetryReason

abbrev pub max_relay_deadline_seconds_from_now : ℤ
max_relay_deadline_seconds_from_now = pos 300

-- `if (test) errors.push(error)`, one after the other.
abbrev pub reports {ℓ} : {E : Type ℓ} → List (Bool × E) → List E
reports [] = []
reports ((test, e) ∷ checks) = if test then e ∷ reports checks else reports checks

-- `set.has(s)` and `list.includes(n)`
unfoldable pub has_text : List Text → Text → Bool
unfolding any_of text_eq
has_text set s = any_of (λ t. text_eq t s) set

unfoldable pub has_chain : List ℕ → ℕ → Bool
unfolding any_of
has_chain ids id = any_of (λ n. n == id) ids

-- `new Set(list)`, which lists each text at its first place; `seen` are those before it.
unfoldable pub distinct_from : List Text → List Text → List Text
unfolding has_text
distinct_from seen [] = []
distinct_from seen (s ∷ rest) =
    let others = distinct_from (s ∷ seen) rest in if has_text seen s then others else s ∷ others

unfoldable pub set_of : List Text → List Text
unfolding distinct_from
set_of list = distinct_from [] list

unfoldable pub normalize_hex : Text → Text
unfolding to_lower_case
normalize_hex value = to_lower_case value

unfoldable pub get_function_selector : Text → Option Text
unfolding starts_with slice_to normalize_hex
get_function_selector calldata =
    if not (starts_with (text "0x") calldata) || ltb (length calldata) 10
    then none
    else some (normalize_hex (slice_to 10 calldata))

-- `selector === null || !set.has(selector)`
unfoldable pub lacks : List Text → Option Text → Bool
unfolding has_text
lacks set none = true
lacks set (some selector) = not (has_text set selector)

-- The loops over the configured contracts and selectors.
abbrev pub foreign_contract : Text → Text → Bool × BroadcastError
foreign_contract approved contract =
    (not (text_eq contract approved), non_production_contract contract)

abbrev pub foreign_selector : List Text → Text → Bool × BroadcastError
foreign_selector approved selector =
    (not (has_text approved selector), non_production_selector selector)

unfoldable pub mainnet_checks :
    RelayBroadcastRequest → RelayBroadcastPolicy → Option Text → List (Bool × BroadcastError)
unfolding set_of normalize_hex has_text lacks text_eq
mainnet_checks request policy selector =
    let approved_selectors = set_of (map normalize_hex mainnet_withdrawal_relayer_selectors) in
    let configured_selectors = set_of (map normalize_hex policy.allowed_function_selectors) in
    let approved_pool = normalize_hex megaeth_mainnet_approved_withdrawal_relayer_pool in
    let configured_contracts = set_of (map normalize_hex policy.allowed_contracts) in
    map (foreign_contract approved_pool) configured_contracts
    ++ ((not (text_eq (normalize_hex request.to) approved_pool), contract_not_approved)
        ∷ (map (foreign_selector approved_selectors) configured_selectors
            ++ (lacks approved_selectors selector, selector_not_approved) ∷ []))

unfoldable pub validate_mainnet_production_selector_policy :
    RelayBroadcastRequest → RelayBroadcastPolicy → Option Text → List BroadcastError
unfolding mainnet_checks
validate_mainnet_production_selector_policy request policy selector =
    if not (request.chain_id == megaeth_mainnet_chain_id)
      || not (is_true policy.allow_megaeth_mainnet)
    then []
    else reports (mainnet_checks request policy selector)

abbrev pub listed_chains : Option (List ℕ) → List ℕ
listed_chains none = []
listed_chains (some ids) = ids

unfoldable pub blocked_chains : RelayBroadcastPolicy → List ℕ
blocked_chains policy =
    (if is_true policy.allow_megaeth_mainnet then [] else megaeth_mainnet_chain_id ∷ [])
    ++ listed_chains policy.blocked_chain_ids

-- The deadline against the clock: `deadline <= now` for a safe deadline, and
-- `deadline > now + longest` for safe times, whose sum is exact.
unfoldable pub is_expired : Number → Number → Bool
unfolding is_safe_integer int_le_number
is_expired (int deadline) now = is_safe_integer (int deadline) && int_le_number deadline now
is_expired (not_integer _) now = false

unfoldable pub is_too_far : Number → Number → ℤ → Bool
unfolding is_safe_integer ◌+ℤ◌
is_too_far (int deadline) (int now) longest =
    is_safe_integer (int deadline) && (is_safe_integer (int now) && ltb_ℤ (now +ℤ longest) deadline)
is_too_far _ _ longest = false

unfoldable pub checks_before :
    RelayBroadcastRequest → RelayBroadcastPolicy → Number → List (Bool × BroadcastError)
unfolding blocked_chains has_chain has_text set_of normalize_hex lacks get_function_selector
    is_safe_integer is_negative
checks_before request policy now =
    (
      ltb_ℤ max_relay_deadline_seconds_from_now policy.max_deadline_seconds_from_now,
      window_exceeds_cap,
    )
    ∷ (has_chain (blocked_chains policy) request.chain_id, chain_blocked request.chain_id)
    ∷ (ltb_ℤ request.value_wei (pos 0), value_negative)
    ∷ (leb_ℤ request.gas_limit (pos 0), gas_not_positive)
    ∷ (not (is_safe_integer request.deadline_epoch_seconds), deadline_not_safe)
    ∷ (not (is_safe_integer now) || is_negative now, time_not_safe)
    ∷ (
      not (has_chain policy.allowed_chain_ids request.chain_id),
      chain_not_allowed request.chain_id,
    )
    ∷ (
      not (
          has_text (set_of (map normalize_hex policy.allowed_contracts))
            (normalize_hex request.to)),
      contract_not_allowed,
    )
    ∷ (
      lacks (set_of (map normalize_hex policy.allowed_function_selectors))
          (get_function_selector request.calldata),
      selector_not_allowed,
    )
    ∷ []

unfoldable pub checks_after :
    RelayBroadcastRequest → RelayBroadcastPolicy → Number → List (Bool × BroadcastError)
unfolding is_expired is_too_far
checks_after request policy now =
    (ltb_ℤ policy.max_value_wei request.value_wei, value_exceeds_maximum)
    ∷ (ltb_ℤ policy.max_gas_limit request.gas_limit, gas_exceeds_maximum)
    ∷ (is_expired request.deadline_epoch_seconds now, deadline_expired)
    ∷ (
      is_too_far request.deadline_epoch_seconds now policy.max_deadline_seconds_from_now,
      deadline_too_far,
    )
    ∷ []

unfoldable pub validate_relay_broadcast_request :
    RelayBroadcastRequest → RelayBroadcastPolicy → Number → RelayPolicyDecision
unfolding checks_before checks_after validate_mainnet_production_selector_policy
    get_function_selector
validate_relay_broadcast_request request policy now =
    let errors =
      reports (checks_before request policy now)
      ++ (validate_mainnet_production_selector_policy request policy
            (get_function_selector request.calldata)
          ++ reports (checks_after request policy now)) in
    record { allowed = is_empty errors; errors = errors }

unfoldable pub decide_nonce_too_low_retry : NonceTooLowRetryInput → NonceTooLowRetryDecision
decide_nonce_too_low_retry input =
    if not input.original_execution_checked
    then record { can_retry = false; reason = execution_unchecked }
    else (elim input.original_transaction_executed [
      | some false ↦ record { can_retry = true; reason = did_not_execute }
      | some true ↦ record { can_retry = false; reason = may_have_executed }
      | none ↦ record { can_retry = false; reason = may_have_executed }
    ])
