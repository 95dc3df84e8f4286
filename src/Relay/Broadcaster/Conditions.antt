-- ===== src/Relay/Broadcaster/Conditions.antt =====
-- services/relay/src/broadcaster.ts: the conditions of a policy, and each check of the code as one
-- of them.
use nullark.Prelude.{
  ℕ, Bool, true, false, not, ◌||◌, Option, none, some, List, [], ◌∷◌, ◌++◌, map, ◌≡◌, refl, sym,
  ◌∙◌, ap, ◌↔◌, inl, inr, Any, All, arith, Bool-cases, some-injective, any_of, if◌then◌else◌,
  ==_iff, ◌==◌, ◌≤◌,
}
use mathlib.Core.Path.{subst}
use nullark.Prelude.Int.{ℤ, pos, negsuc, ◌+ℤ◌, ◌≤ℤ◌, ◌<ℤ◌}
use nullark.Prelude.Number.{
  Number, int, not_integer, max_safe_integer, is_safe_integer, is_negative, int_le_number,
}
use nullark.Prelude.Text.{Text, text_eq, to_lower_case}
use nullark.Relay.RateLimit.{is_true}
use nullark.Relay.Broadcaster.{
  RelayBroadcastRequest, RelayBroadcastPolicy, BroadcastError, has_text, has_chain, set_of,
  normalize_hex, get_function_selector, lacks, listed_chains, blocked_chains, is_expired,
  is_too_far, mainnet_checks, validate_mainnet_production_selector_policy, megaeth_mainnet_chain_id,
  foreign_contract, foreign_selector, reports, megaeth_mainnet_approved_withdrawal_relayer_pool,
  selector_not_approved, stage_c_withdraw_bounded_selector, mainnet_withdrawal_relayer_selectors,
}
use nullark.Relay.Broadcaster.Reports.{
  reports-nil, has_text_iff, has_chain_iff, set_of-has, Any-map, text_eq_iff, set_checks_iff,
  All-append_iff,
}

-- Whole times, safe, with the deadline after the clock and at most `longest` seconds later.
abbrev pub IsTimely : Number → Number → ℤ → Type 0
IsTimely (int end) (int (pos clock)) longest =
    (is_safe_integer (int end) ≡ true)
    × (clock ≤ max_safe_integer)
    × (pos clock <ℤ end)
    × (end ≤ℤ pos clock +ℤ longest)
IsTimely (int end) (int (negsuc clock)) longest = ⊥
IsTimely (int end) (not_integer _) longest = ⊥
IsTimely (not_integer _) now longest = ⊥

-- A text of the list and the given one are the same but for case.
abbrev pub Listed : List Text → Text → Type 0
Listed list s = Any (λ t. to_lower_case t ≡ s) list

abbrev pub IsApproved : RelayBroadcastRequest → RelayBroadcastPolicy → Type 0
IsApproved request policy =
    All
      (λ contract.
        to_lower_case contract ≡ to_lower_case megaeth_mainnet_approved_withdrawal_relayer_pool)
      policy.allowed_contracts
    × (to_lower_case request.to ≡ to_lower_case megaeth_mainnet_approved_withdrawal_relayer_pool)
    × All (λ selector. to_lower_case selector ≡ stage_c_withdraw_bounded_selector)
        policy.allowed_function_selectors
    × (get_function_selector request.calldata ≡ some stage_c_withdraw_bounded_selector)

pub record IsRelayable (request : RelayBroadcastRequest) (policy : RelayBroadcastPolicy)
    (now : Number) : Type 0 where
  pub short_window : policy.max_deadline_seconds_from_now ≤ℤ pos 300
  pub chain_allowed : Any (λ id. id ≡ request.chain_id) policy.allowed_chain_ids
  pub chain_not_blocked :
      ¬ Any (λ id. id ≡ request.chain_id) (listed_chains policy.blocked_chain_ids)
  pub mainnet_enabled :
      request.chain_id ≡ megaeth_mainnet_chain_id → policy.allow_megaeth_mainnet ≡ some true
  pub mainnet_approved : request.chain_id ≡ megaeth_mainnet_chain_id → IsApproved request policy
  pub value_nonnegative : pos 0 ≤ℤ request.value_wei
  pub value_bounded : request.value_wei ≤ℤ policy.max_value_wei
  pub gas_positive : pos 0 <ℤ request.gas_limit
  pub gas_bounded : request.gas_limit ≤ℤ policy.max_gas_limit
  pub contract_listed : Listed policy.allowed_contracts (to_lower_case request.to)
  pub selector : Text
  pub selector_is : get_function_selector request.calldata ≡ some selector
  pub selector_listed : Listed policy.allowed_function_selectors selector
  pub timely : IsTimely request.deadline_epoch_seconds now policy.max_deadline_seconds_from_now

pub denied_iff : (b : Bool) → (not b ≡ false) ↔ (b ≡ true)
denied_iff true = (λ h. refl, λ h. refl)
denied_iff false = (λ h. cc, λ h. cc)

-- Membership in a set of texts in small letters.
pub has_set_iff :
    (list : List Text) (s : Text)
    → (has_text (set_of (map normalize_hex list)) s ≡ true) ↔ Listed list s
unfolding normalize_hex
has_set_iff list s =
    let m = has_text_iff (map normalize_hex list) s in
    let n = Any-map (λ t. t ≡ s) normalize_hex list in
    let same = set_of-has (map normalize_hex list) s in
    (λ h. n.0 (m.0 (sym same ∙ h)), λ h. same ∙ m.1 (n.1 h))

pub lacks_iff :
    (list : List Text) (selector : Option Text)
    → (lacks (set_of (map normalize_hex list)) selector ≡ false)
      ↔ ((s : Text) × (selector ≡ some s) × Listed list s)
unfolding lacks
lacks_iff list none = (λ h. cc, λ h. cc (h.1))
lacks_iff list (some s) = (
  λ h. (s, refl, (has_set_iff list s).0 ((denied_iff _).0 h)),
  λ (t, e, m).
      (denied_iff _).1 ((has_set_iff list s).1 (subst (Listed list) (sym (some-injective e)) m)),
)

pub times_iff :
    (deadline now : Number) (longest : ℤ)
    → ((not (is_safe_integer deadline) ≡ false)
        × ((not (is_safe_integer now) || is_negative now) ≡ false)
        × (is_expired deadline now ≡ false)
        × (is_too_far deadline now longest ≡ false))
      ↔ IsTimely deadline now longest
unfolding is_expired is_too_far is_negative int_le_number
times_iff (int d) (int (pos n)) longest =
    (λ h. ground (arith, h, is_safe_integer), λ h. ground (arith, h, is_safe_integer))
times_iff (int d) (int (negsuc n)) longest = (λ h. ground (arith, h), λ h. absurd h)
times_iff (int d) (not_integer n) longest = (λ h. cc (h.1), λ h. absurd h)
times_iff (not_integer d) now longest = (λ h. cc (h.0), λ h. absurd h)

blocked_list_iff :
    (allow : Option Bool) (ids : List ℕ) (id : ℕ)
    → (has_chain ((if is_true allow then [] else megaeth_mainnet_chain_id ∷ []) ++ ids) id ≡ false)
      ↔ ((has_chain ids id ≡ false) × (id ≡ megaeth_mainnet_chain_id → allow ≡ some true))
unfolding has_chain any_of
blocked_list_iff none ids id = (λ h. (ground arith, λ e. ground arith), λ h. ground (arith, h.1))
blocked_list_iff (some false) ids id =
    (λ h. (ground arith, λ e. ground arith), λ h. ground (arith, h.1))
blocked_list_iff (some true) ids id = (λ h. (h, λ e. refl), λ h. h.0)

not_true : (b : Bool) {P : Type 0} → (b ≡ true) ↔ P → (b ≡ false) ↔ (¬ P)
not_true true i = (λ h. cc, λ h. absurd (h (i.0 refl)))
not_true false i = (λ h p. cc (i.1 p), λ h. refl)

-- The chain is blocked by the list, or as the mainnet where that is not enabled.
pub blocked_iff :
    (policy : RelayBroadcastPolicy) (id : ℕ)
    → (has_chain (blocked_chains policy) id ≡ false) ↔ (
        (¬ Any (λ n. n ≡ id) (listed_chains policy.blocked_chain_ids))
        × (id ≡ megaeth_mainnet_chain_id → policy.allow_megaeth_mainnet ≡ some true))
unfolding blocked_chains
blocked_iff policy id =
    let i =
      blocked_list_iff policy.allow_megaeth_mainnet (listed_chains policy.blocked_chain_ids) id in
    let j = not_true _ (has_chain_iff (listed_chains policy.blocked_chain_ids) id) in
    (λ h. (j.0 (i.0 h).0, (i.0 h).1), λ h. i.1 (j.1 h.0, h.1))

lone_selector :
    (s : Text)
    → (not (has_text (set_of (map normalize_hex mainnet_withdrawal_relayer_selectors)) s) ≡ false)
      ↔ (s ≡ stage_c_withdraw_bounded_selector)
unfolding set_of normalize_hex has_text
lone_selector s =
    let i = text_eq_iff stage_c_withdraw_bounded_selector s in
    (λ h. sym (i.0 (ground (arith, h))), λ h. ground (arith, i.1 (sym h)))

lone_selector_option :
    (s : Option Text)
    → (lacks (set_of (map normalize_hex mainnet_withdrawal_relayer_selectors)) s ≡ false)
      ↔ (s ≡ some stage_c_withdraw_bounded_selector)
unfolding lacks
lone_selector_option none = (λ h. cc, λ h. cc)
lone_selector_option (some s) =
    (λ h. ap some ((lone_selector s).0 h), λ h. (lone_selector s).1 (some-injective h))

not_eq : (s t : Text) → (not (text_eq s t) ≡ false) ↔ (s ≡ t)
not_eq s t =
    (λ h. (text_eq_iff s t).0 ((denied_iff _).0 h), λ h. (denied_iff _).1 ((text_eq_iff s t).1 h))

mainnet_checks_iff :
    (request : RelayBroadcastRequest) (policy : RelayBroadcastPolicy)
    → (reports (mainnet_checks request policy (get_function_selector request.calldata)) ≡ [])
      ↔ IsApproved request policy
unfolding mainnet_checks
mainnet_checks_iff request policy =
    let approved_pool = normalize_hex megaeth_mainnet_approved_withdrawal_relayer_pool in
    let approved_selectors = set_of (map normalize_hex mainnet_withdrawal_relayer_selectors) in
    let contracts =
      set_checks_iff (foreign_contract approved_pool) (λ s. s ≡ approved_pool)
        (λ s. not_eq s approved_pool) normalize_hex policy.allowed_contracts in
    let selectors =
      set_checks_iff (foreign_selector approved_selectors)
        (λ s. s ≡ stage_c_withdraw_bounded_selector) lone_selector normalize_hex
        policy.allowed_function_selectors in
    let last : Bool × BroadcastError =
      (lacks approved_selectors (get_function_selector request.calldata), selector_not_approved) in
    let back =
      All-append_iff (λ c. c.0 ≡ false)
        (map (foreign_selector approved_selectors)
          (set_of (map normalize_hex policy.allowed_function_selectors)))
        (last ∷ []) in
    let target = not_eq (normalize_hex request.to) approved_pool in
    let own = lone_selector_option (get_function_selector request.calldata) in
    let front =
      All-append_iff (λ c. c.0 ≡ false)
        (map (foreign_contract approved_pool) (set_of (map normalize_hex policy.allowed_contracts)))
        _ in
    let all =
      reports-nil (mainnet_checks request policy (get_function_selector request.calldata)) in
    (
      λ h.
          let (c, rest) = front.0 (all.0 h) in
          let (s, l) = back.0 rest.1 in (contracts.0 c, target.0 rest.0, selectors.0 s, own.0 l.0),
      λ (c, t, s, l).
          all.1 (front.1 (contracts.1 c, (target.1 t, back.1 (selectors.1 s, (own.1 l, tt))))),
    )

pub mainnet_iff :
    (request : RelayBroadcastRequest) (policy : RelayBroadcastPolicy)
    → (request.chain_id ≡ megaeth_mainnet_chain_id → policy.allow_megaeth_mainnet ≡ some true)
    → (validate_mainnet_production_selector_policy request policy
          (get_function_selector request.calldata)
        ≡ [])
      ↔ (request.chain_id ≡ megaeth_mainnet_chain_id → IsApproved request policy)
unfolding validate_mainnet_production_selector_policy
mainnet_iff request policy enabled =
    elim (Bool-cases (request.chain_id == megaeth_mainnet_chain_id)) [
      | inl there ↦
          let on = enabled ((==_iff _ _).0 there) in
          rw (there, on)
            (
              λ h _. (mainnet_checks_iff request policy).0 h,
              λ h. (mainnet_checks_iff request policy).1 (h ((==_iff _ _).0 there)),
            )
      | inr elsewhere ↦ rw elsewhere (λ h e. cc (elsewhere, (==_iff _ _).1 e), λ h. refl)
    ]
