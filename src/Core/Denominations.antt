-- ===== src/Core/Denominations.antt =====
-- packages/core/src/denominations.ts: amounts of ETH as notes of fixed denominations. `bigint` is ℤ;
-- a note count is a native number. A thrown `Error` is a constructor of `DenominationError`.
pub mod Normalize
pub mod Greedy
pub mod Split
pub mod Outcome
pub mod Units
pub mod Exits
pub mod Accepts
mod Examples
use nullark.Prelude.{
  ℕ, zero, suc, ◌-◌, ◌*◌, ◌^◌, Bool, true, false, not, ◌&&◌, Option, none, some, List, [], ◌∷◌,
  ◌++◌, ltb, if◌then◌else◌, Result, ok, err, ◌>>=◌, ◌>>◌, throw_if, length, any_of, map,
}
use nullark.Prelude.Int.{ℤ, pos, negsuc, pos_part, ◌-ℤ◌, ltb_ℤ, leb_ℤ, eqb_ℤ}
use nullark.Prelude.Sort.{sort_by}

pub record FixedDenominationSplitPolicy : Type 0 where
  pub denominations_wei : List ℤ
  pub max_note_count : Option ℕ

pub record FixedDenominationSplit : Type 0 where
  pub requested_amount_wei : ℤ
  pub notes_wei : List ℤ
  pub note_count : ℕ
  pub unique_denominations_wei : List ℤ

pub record FixedDenominationPublicExit : Type 0 where
  pub note_amount_wei : ℤ
  pub gross_amount_wei : ℤ

pub record SpendablePublicExitPolicy : Type 0 where
  pub split_policy : FixedDenominationSplitPolicy
  pub open split_policy use *
  pub allow_full_exit : Option Bool

-- The messages of the thrown errors, in the order of the file; `out_of_fuel` is the model's.
pub data DenominationError : Type 0 where
  amount_must_be_positive : DenominationError
  exceeds_max_note_count : DenominationError
  unsupported_dust_remainder : ℤ → DenominationError
  note_amount_not_supported : DenominationError
  exit_amount_not_supported : DenominationError
  exit_exceeds_note : DenominationError
  change_not_supported : DenominationError
  no_denomination : DenominationError
  denomination_must_be_positive : DenominationError
  out_of_fuel : DenominationError

abbrev milli_ether : ℕ → ℤ
milli_ether n = pos (n * 10 ^ 15)

unfoldable pub mainnet_candidate_fixed_denominations_wei : List ℤ
mainnet_candidate_fixed_denominations_wei =
    map milli_ether (5 ∷ 10 ∷ 20 ∷ 30 ∷ 50 ∷ 100 ∷ 200 ∷ 300 ∷ 500 ∷ 1000 ∷ [])

unfoldable pub mainnet_candidate_fixed_denomination_policy : FixedDenominationSplitPolicy
unfolding mainnet_candidate_fixed_denominations_wei
mainnet_candidate_fixed_denomination_policy = record {
  denominations_wei = mainnet_candidate_fixed_denominations_wei;
  max_note_count = some 32;
}

-- `array.includes(x)` and `set.has(x)`
unfoldable pub includes : ℤ → List ℤ → Bool
unfolding any_of
includes x xs = any_of (eqb_ℤ x) xs

-- `set.add(x)`: a set keeps the order of insertion.
unfoldable pub add_new : List ℤ → ℤ → List ℤ
unfolding includes
add_new xs x = if includes x xs then xs else xs ++ x ∷ []

-- The loop of `normalizeDenominations`; `seen` and `normalized` hold the same elements.
unfoldable pub normalize_from : List ℤ → List ℤ → Result DenominationError (List ℤ)
unfolding add_new
normalize_from normalized [] = ok normalized
normalize_from normalized (denomination ∷ rest) =
    let later = normalize_from (add_new normalized denomination) rest in
    if leb_ℤ denomination (pos 0) then err denomination_must_be_positive else later

-- The comparator `a > b ? -1 : a < b ? 1 : 0`: descending.
abbrev pub larger_first : ℤ → ℤ → Bool
larger_first a b = ltb_ℤ b a

unfoldable pub normalize_denominations : List ℤ → Result DenominationError (List ℤ)
unfolding normalize_from sort_by
normalize_denominations [] = err no_denomination
normalize_denominations (first ∷ rest) = do
  normalized ← normalize_from [] (first ∷ rest)
  ok (sort_by larger_first normalized)

unfoldable pub exceeds : ℕ → Option ℕ → Bool
exceeds count none = false
exceeds count (some max_note_count) = ltb max_note_count count

-- `while (remaining >= denomination)`
unfoldable pub draw_notes : Option ℕ → ℕ → ℤ → List ℤ → ℤ → Result DenominationError (List ℤ × ℤ)
unfolding exceeds
draw_notes max zero denomination notes remaining = err out_of_fuel
draw_notes max (suc fuel) denomination notes remaining =
    let pushed = notes ++ denomination ∷ [] in
    let next = draw_notes max fuel denomination pushed (remaining -ℤ denomination) in
    if leb_ℤ denomination remaining
    then if exceeds (length pushed) max then err exceeds_max_note_count else next
    else ok (notes, remaining)

-- The loop over the denominations. A denomination is at least 1, so the inner loop makes at most
-- `remaining` rounds and one more test.
unfoldable pub split_from : Option ℕ → List ℤ → List ℤ → ℤ → Result DenominationError (List ℤ × ℤ)
unfolding draw_notes
split_from max [] notes remaining = ok (notes, remaining)
split_from max (denomination ∷ rest) notes remaining = do
  (drawn, left) ← draw_notes max (suc (pos_part remaining)) denomination notes remaining
  split_from max rest drawn left

-- `[...new Set(notesWei)]`
unfoldable pub unique_from : List ℤ → List ℤ → List ℤ
unfolding add_new
unique_from set [] = set
unique_from set (x ∷ xs) = unique_from (add_new set x) xs

-- `splitIntoFixedDenominations` behind its loops.
unfoldable pub conclude_split : ℤ → List ℤ → ℤ → Result DenominationError FixedDenominationSplit
unfolding unique_from
conclude_split amount_wei notes remaining = do
  throw_if (not (eqb_ℤ remaining (pos 0))) (unsupported_dust_remainder remaining)
  ok (record {
    requested_amount_wei = amount_wei;
    notes_wei = notes;
    note_count = length notes;
    unique_denominations_wei = unique_from [] notes;
  })

unfoldable pub split_into_fixed_denominations :
    ℤ → FixedDenominationSplitPolicy → Result DenominationError FixedDenominationSplit
unfolding normalize_denominations split_from conclude_split
split_into_fixed_denominations amount_wei policy = do
  throw_if (leb_ℤ amount_wei (pos 0)) amount_must_be_positive
  denominations ← normalize_denominations policy.denominations_wei
  (notes, remaining) ← split_from policy.max_note_count denominations [] amount_wei
  conclude_split amount_wei notes remaining

unfoldable pub is_supported_fixed_denomination :
    ℤ → FixedDenominationSplitPolicy → Result DenominationError Bool
unfolding normalize_denominations includes
is_supported_fixed_denomination amount_wei policy = do
  denominations ← normalize_denominations policy.denominations_wei
  ok (includes amount_wei denominations)

-- The loop of `spendablePublicExitAmountsForNote` over the possible change amounts.
unfoldable pub exits_from :
    FixedDenominationSplitPolicy → ℤ → List ℤ → List ℤ → Result DenominationError (List ℤ)
unfolding is_supported_fixed_denomination add_new
exits_from policy note_amount_wei exits [] = ok exits
exits_from policy note_amount_wei exits (change_amount ∷ rest) =
    let exit_amount = note_amount_wei -ℤ change_amount in
    do
      leaves_supported ←
          if ltb_ℤ change_amount note_amount_wei
          then is_supported_fixed_denomination exit_amount policy
          else ok false
      exits_from policy note_amount_wei
          (if leaves_supported then add_new exits exit_amount else exits) rest

-- `allowFullExit !== false`
abbrev pub allows_full_exit : Option Bool → Bool
allows_full_exit (some false) = false
allows_full_exit _ = true

-- `spendablePublicExitAmountsForNote` behind its first test.
unfoldable pub exits_of_supported :
    ℤ → SpendablePublicExitPolicy → Result DenominationError (List ℤ)
unfolding normalize_denominations exits_from sort_by
exits_of_supported note_amount_wei policy = do
  denominations ← normalize_denominations policy.denominations_wei
  exits ←
      exits_from policy.split_policy note_amount_wei
        (if allows_full_exit policy.allow_full_exit then note_amount_wei ∷ [] else []) denominations
  ok (sort_by larger_first exits)

unfoldable pub spendable_public_exit_amounts_for_note :
    ℤ → SpendablePublicExitPolicy → Result DenominationError (List ℤ)
unfolding is_supported_fixed_denomination exits_of_supported
spendable_public_exit_amounts_for_note note_amount_wei policy = do
  supported ← is_supported_fixed_denomination note_amount_wei policy.split_policy
  if supported then exits_of_supported note_amount_wei policy else ok []

unfoldable pub assert_fixed_denomination_public_exit :
    FixedDenominationPublicExit
    → FixedDenominationSplitPolicy
    → Result DenominationError FixedDenominationPublicExit
unfolding is_supported_fixed_denomination
assert_fixed_denomination_public_exit exit policy =
    let change_amount_wei = exit.note_amount_wei -ℤ exit.gross_amount_wei in
    do
      note_supported ← is_supported_fixed_denomination exit.note_amount_wei policy
      throw_if (not note_supported) note_amount_not_supported
      exit_supported ← is_supported_fixed_denomination exit.gross_amount_wei policy
      throw_if (not exit_supported) exit_amount_not_supported
      throw_if (ltb_ℤ exit.note_amount_wei exit.gross_amount_wei) exit_exceeds_note
      change_supported ←
          if eqb_ℤ change_amount_wei (pos 0)
          then ok true
          else is_supported_fixed_denomination change_amount_wei policy
      throw_if (not change_supported) change_not_supported
      ok exit
