-- ===== src/Relay/Broadcaster/Policy.antt =====
-- services/relay/src/broadcaster.ts: what a policy lets through, in terms of the request.
use nullark.Prelude.{is_empty, true, false, List, [], ◌∷◌, ◌≡◌, refl, ◌↔◌, All, arith}
use nullark.Prelude.Int.{ℤ, pos, ◌≤ℤ◌, ◌<ℤ◌, ltb_ℤ, leb_ℤ}
use nullark.Prelude.Number.{Number}
use nullark.Prelude.Text.{to_lower_case}
use nullark.Relay.Broadcaster.{
  RelayBroadcastRequest, RelayBroadcastPolicy, normalize_hex, get_function_selector, checks_before,
  checks_after, validate_mainnet_production_selector_policy, validate_relay_broadcast_request,
  reports,
}
use nullark.Relay.Broadcaster.Conditions.{
  IsRelayable, denied_iff, has_set_iff, lacks_iff, times_iff, blocked_iff, mainnet_iff,
}
use nullark.Relay.Broadcaster.Reports.{reports-nil, append-nil_iff, has_chain_iff}

at_most_iff : (a b : ℤ) → (ltb_ℤ b a ≡ false) ↔ (a ≤ℤ b)
at_most_iff a b = (λ h. ground arith, λ h. ground arith)

above_iff : (a b : ℤ) → (leb_ℤ a b ≡ false) ↔ (b <ℤ a)
above_iff a b = (λ h. ground arith, λ h. ground arith)

empty_iff {ℓ} : {A : Type ℓ} (xs : List A) → (is_empty xs ≡ true) ↔ (xs ≡ [])
empty_iff [] = (λ h. refl, λ h. refl)
empty_iff (x ∷ xs) = (λ h. cc, λ h. cc)

-- No error is reported.
passes_iff :
    (request : RelayBroadcastRequest) (policy : RelayBroadcastPolicy) (now : Number)
    → ((validate_relay_broadcast_request request policy now).allowed ≡ true) ↔ (
        All (λ c. c.0 ≡ false) (checks_before request policy now)
        × (validate_mainnet_production_selector_policy request policy
              (get_function_selector request.calldata)
            ≡ [])
        × All (λ c. c.0 ≡ false) (checks_after request policy now))
unfolding validate_relay_broadcast_request
passes_iff request policy now =
    let before = reports-nil (checks_before request policy now) in
    let after = reports-nil (checks_after request policy now) in
    let parts = append-nil_iff (reports (checks_before request policy now)) _ in
    let tail =
      append-nil_iff
        (validate_mainnet_production_selector_policy request policy
          (get_function_selector request.calldata))
        (reports (checks_after request policy now)) in
    (
      λ h.
          let (first, rest) = parts.0 ((empty_iff _).0 h) in
          let (middle, last) = tail.0 rest in (before.0 first, middle, after.0 last),
      λ (first, middle, last).
          (empty_iff _).1 (parts.1 (before.1 first, tail.1 (middle, after.1 last))),
    )

-- A request is allowed exactly if all of this holds: the policy's window is at most 300 seconds; the
-- chain is listed and not blocked, and on the mainnet the policy enables it, lists only the approved
-- pool and the approved selector, and the request is a call of that pool by that selector; the value
-- lies between 0 and the maximum, the gas above 0 and up to the maximum; the target and the selector of
-- the call data are listed, but for case; and the times are whole and safe, with the deadline after the
-- clock and within the window.
pub validate_relay_broadcast_request-allowed_iff :
    (request : RelayBroadcastRequest) (policy : RelayBroadcastPolicy) (now : Number)
    → ((validate_relay_broadcast_request request policy now).allowed ≡ true)
      ↔ IsRelayable request policy now
unfolding validate_relay_broadcast_request checks_before checks_after normalize_hex
validate_relay_broadcast_request-allowed_iff request policy now =
    let blocked = blocked_iff policy request.chain_id in
    let listed = has_chain_iff policy.allowed_chain_ids request.chain_id in
    let target = has_set_iff policy.allowed_contracts (to_lower_case request.to) in
    let chosen =
      lacks_iff policy.allowed_function_selectors (get_function_selector request.calldata) in
    let timely =
      times_iff request.deadline_epoch_seconds now policy.max_deadline_seconds_from_now in
    let mainnet = mainnet_iff request policy in
    let short = at_most_iff policy.max_deadline_seconds_from_now (pos 300) in
    let no_less = at_most_iff (pos 0) request.value_wei in
    let no_more = at_most_iff request.value_wei policy.max_value_wei in
    let some_gas = above_iff request.gas_limit (pos 0) in
    let max_gas = at_most_iff request.gas_limit policy.max_gas_limit in
    let passes = passes_iff request policy now in
    (
      λ h.
          let (first, middle, last) = passes.0 h in
          let (window, (b, (v, (g, (d, (n, (c, (t, (s, _))))))))) = first in
          let (most_value, (most_gas, (expired, (far, _)))) = last in
          let (selector, selector_is, selector_listed) = chosen.0 s in
          record {
            short_window = short.0 window;
            chain_allowed = listed.0 ((denied_iff _).0 c);
            chain_not_blocked = (blocked.0 b).0;
            mainnet_enabled = (blocked.0 b).1;
            mainnet_approved = (mainnet (blocked.0 b).1).0 middle;
            value_nonnegative = no_less.0 v;
            value_bounded = no_more.0 most_value;
            gas_positive = some_gas.0 g;
            gas_bounded = max_gas.0 most_gas;
            contract_listed = target.0 ((denied_iff _).0 t);
            selector = selector;
            selector_is = selector_is;
            selector_listed = selector_listed;
            timely = timely.0 (d, n, expired, far);
          },
      λ h.
          let (d, n, expired, far) = timely.1 h.timely in
          let window = short.1 h.short_window in
          let b = blocked.1 (h.chain_not_blocked, h.mainnet_enabled) in
          let v = no_less.1 h.value_nonnegative in
          let g = some_gas.1 h.gas_positive in
          let c = (denied_iff _).1 (listed.1 h.chain_allowed) in
          let t = (denied_iff _).1 (target.1 h.contract_listed) in
          let s = chosen.1 (h.selector, h.selector_is, h.selector_listed) in
          let most_value = no_more.1 h.value_bounded in
          let most_gas = max_gas.1 h.gas_bounded in
          passes.1 (
            (window, (b, (v, (g, (d, (n, (c, (t, (s, tt))))))))),
            (mainnet h.mainnet_enabled).1 h.mainnet_approved,
            (most_value, (most_gas, (expired, (far, tt)))),
          ),
    )
