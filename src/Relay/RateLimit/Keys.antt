-- ===== src/Relay/RateLimit/Keys.antt =====
-- The four keys of a request differ.
use nullark.Prelude.{◌≡◌, false, IsSorted}
use nullark.Prelude.Text.{text_eq, text_eq-prefix}
use nullark.Relay.RateLimit.{RelayRateLimitInput, Limits, Check, checks_of, key_prefix}

abbrev pub Differ : Check → Check → Type 0
Differ a b = text_eq a.key b.key ≡ false

-- No two checks of a request have the same key.
pub checks_of-Differ :
    (input : RelayRateLimitInput) (limits : Limits) → IsSorted Differ (checks_of input limits)
unfolding checks_of text_eq
checks_of-Differ input limits =
    let p = key_prefix input limits in
    (
      (text_eq-prefix p _ _, (text_eq-prefix p _ _, (text_eq-prefix p _ _, tt))),
      ((text_eq-prefix p _ _, (text_eq-prefix p _ _, tt)), ((text_eq-prefix p _ _, tt), (tt, tt))),
    )
