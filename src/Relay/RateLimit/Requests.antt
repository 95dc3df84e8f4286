-- ===== src/Relay/RateLimit/Requests.antt =====
-- What `checkAndRecordRelayRateLimit` answers, and what it does to its counters.
use mathlib.Core.Path.{subst}
use nullark.Prelude.{
  ℕ, zero, suc, ◌+◌, ◌*◌, ◌≤◌, ◌≡◌, refl, sym, inl, inr, List, [], ◌∷◌, arith, ok, bind-ok,
  ok-injective, All,
}
use nullark.Prelude.Number.{Number, int, not_integer, max_safe_integer}
use nullark.Prelude.Int.{pos, negsuc}
use nullark.Prelude.Text.{Text}
use nullark.Relay.Store.{KvStore}
use nullark.Relay.RateLimit.{
  Check, Limits, LimitLabel, RelayRateLimitInput, RelayRateLimitDecision, RateLimitError,
  require_positive, limit_must_be_positive, per_ip, per_destination, per_nullifier, global,
  read_count, exceeded_labels, decide_and_record, checks_of, validate_relay_rate_limit_config,
  check_and_record_relay_rate_limit,
}
use nullark.Relay.RateLimit.Keys.{checks_of-Differ}
use nullark.Relay.RateLimit.Counters.{
  Effect, CountsOne, put_counts-other, put_counts-own, fits_of_no_label, full_of_label,
}

require_positive-bounded :
    (value : Number) (e : RateLimitError) (n : ℕ)
    → require_positive value e ≡ ok n
    → n ≤ max_safe_integer
unfolding require_positive
require_positive-bounded (int (pos zero)) e n h = ground arith
require_positive-bounded (int (pos (suc m))) e n h = ground arith
require_positive-bounded (int (negsuc m)) e n h = ground arith
require_positive-bounded (not_integer _) e n h = ground arith

-- A counter that fits its limit has room, since the limit is a safe integer.
All-zip :
    (P : Check → ℕ) (checks : List Check)
    → All (λ check. check.limit ≤ max_safe_integer) checks
    → All (λ check. P check ≤ check.limit) checks
    → All (λ check. P check ≤ max_safe_integer) checks
All-zip P [] h k = tt
All-zip P (c ∷ cs) h k = (omega (arith, h.0, k.0), All-zip P cs h.1 k.1)

abbrev Bounded : Limits → Type 0
Bounded l =
    (l.ip_limit ≤ max_safe_integer)
    × ((l.destination_limit ≤ max_safe_integer)
        × ((l.nullifier_limit ≤ max_safe_integer) × ((l.global_limit ≤ max_safe_integer) × Unit)))

module _ (input : RelayRateLimitInput) (limits : Limits)
    (valid : validate_relay_rate_limit_config input.config ≡ ok limits) where
  limits-bounded : All (λ check. check.limit ≤ max_safe_integer) (checks_of input limits)
  unfolding checks_of validate_relay_rate_limit_config
  limits-bounded =
      let c = input.config in
      let (w, is_w, e₁) = bind-ok (require_positive c.window_seconds _) _ valid in
      let (ip, is_ip, e₂) =
        bind-ok (require_positive c.per_ip (limit_must_be_positive per_ip)) _ e₁ in
      let (to, is_to, e₃) =
        bind-ok (require_positive c.per_destination (limit_must_be_positive per_destination)) _
          e₂ in
      let (nf, is_nf, e₄) =
        bind-ok (require_positive c.per_nullifier (limit_must_be_positive per_nullifier)) _ e₃ in
      let (all, is_all, e₅) =
        bind-ok (require_positive c.global (limit_must_be_positive global)) _ e₄ in
      subst (λ (l : Limits). Bounded l) (ok-injective e₅)
        (
          require_positive-bounded c.per_ip _ ip is_ip,
          (
            require_positive-bounded c.per_destination _ to is_to,
            (
              require_positive-bounded c.per_nullifier _ nf is_nf,
              (require_positive-bounded c.global _ all is_all, tt),
            ),
          ),
        )

  module _ (store : KvStore Text) where
    open store use {State}

    both :
        (before after : State) (checks : List Check)
        → All
            (λ check. read_count store after check.key ≡ read_count store before check.key + 1)
            checks
        → All (λ check. read_count store before check.key + 1 ≤ check.limit) checks
        → All (CountsOne store before after) checks
    both before after [] h k = tt
    both before after (c ∷ cs) h k =
        ((h.0, subst (λ n. n ≤ c.limit) (sym h.0) k.0), both before after cs h.1 k.1)

    allowed-Effect :
        (s : State)
        → exceeded_labels store s (checks_of input limits) ≡ []
        → Effect store
            (checks_of input limits)
            s
            (decide_and_record store limits (checks_of input limits) [] s)
    unfolding decide_and_record
    allowed-Effect s e =
        let checks = checks_of input limits in
        let fits = fits_of_no_label store s checks e in
        let room = All-zip (λ check. read_count store s check.key + 1) checks limits-bounded fits in
        inl (
          refl,
          both s _ checks
              (put_counts-own store (limits.window * 2) s checks s room
                (checks_of-Differ input limits))
              fits,
          λ key other. put_counts-other store (limits.window * 2) s checks s key room other,
        )

    answer_lem :
        (s : State)
        → check_and_record_relay_rate_limit store input s
          ≡ ok (
              decide_and_record store limits
                (checks_of input limits)
                (exceeded_labels store s (checks_of input limits))
                s)
    unfolding check_and_record_relay_rate_limit
    answer_lem s = rw valid

    decided-Effect :
        (s : State) (labels : List LimitLabel)
        → exceeded_labels store s (checks_of input limits) ≡ labels
        → Effect store
            (checks_of input limits)
            s
            (decide_and_record store limits (checks_of input limits) labels s)
    unfolding decide_and_record
    decided-Effect s [] e = allowed-Effect s e
    decided-Effect s (label ∷ labels) e =
        inr (refl, refl, λ h. cc, full_of_label store s (checks_of input limits) label labels e)

    -- Under a valid configuration a request is answered. If it is allowed, each of its four counters has
    -- grown by one, is within its limit, and no other counter has changed. If it is refused, nothing has
    -- changed, the answer names a limit, and one of the four counters has reached its limit.
    pub check_and_record-Effect :
        (s : State)
        → (answer : RelayRateLimitDecision × State) × (check_and_record_relay_rate_limit store input
              s
            ≡ ok answer)
          × Effect store (checks_of input limits) s answer
    check_and_record-Effect s =
        let labels = exceeded_labels store s (checks_of input limits) in
        (
          decide_and_record store limits (checks_of input limits) labels s,
          answer_lem s,
          decided-Effect s labels refl,
        )
