-- ===== src/Sdk/RootLogs/Finality.antt =====
-- The boundary of finality of `resolveRecoveryToBlock`, against the policy of the caller.
use nullark.Prelude.{
  ℕ, zero, suc, ◌+◌, ◌-◌, ◌≤◌, ◌<◌, ◌≡◌, refl, sym, ap, Bool, true, false, not, Option, none, some,
  ltb, Result, ok, err, arith, ltb→le, ok-injective, bind-ok, throw_if-ok,
}
use nullark.Prelude.Int.{ℤ, pos, negsuc}
use nullark.Prelude.Number.{Number, int, not_integer}
use nullark.Prelude.Text.{Text, read_digits-to_string}
use nullark.Sdk.Merkle.Chain.{big_int}
use nullark.Sdk.RootLogs.{
  RootLogsError, is_block_quantity, to_block_quantity, not_a_big_int, confirmations_exceed_latest,
  recovery_to_block_not_a_quantity,
}
use nullark.Sdk.RootLogs.Fetch.{is_big_int, answered}
use nullark.Sdk.RootLogs.Hints.{boundary, given_not_a_quantity, resolve_recovery_to_block}

-- The block is final under the policy of the caller: a number of confirmations, which the block has
-- below the block number that the node answers; a last block, which it is not beyond; or, off the
-- mainnet alone, no policy, and then any block.
pub data IsFinal (block_number : Result Text Text) (block : Text)
    : Option Text → Option Number → Bool → Type 0 where
  by_confirmations :
      {is_mainnet : Bool} (confirmations : ℕ) (latest : Text)
      → 0 < confirmations
      → block_number ≡ ok latest
      → big_int block + confirmations ≤ big_int latest
      → IsFinal block_number block none (some (int (pos confirmations))) is_mainnet
  by_last_block :
      {is_mainnet : Bool} (last : Text)
      → is_block_quantity last ≡ true
      → big_int block ≤ big_int last
      → IsFinal block_number block (some last) none is_mainnet
  without_policy : IsFinal block_number block none none false

pub big_int-to_block_quantity : (n : ℕ) → big_int (to_block_quantity n) ≡ n
unfolding big_int to_block_quantity
big_int-to_block_quantity n = read_digits-to_string 16 n (omega arith) (omega arith)

answered-ok : {A : Type 0} (answer : Result Text A) (a : A) → answered answer ≡ ok a → answer ≡ ok a
answered-ok (ok b) a h = ap ok (ok-injective {E = RootLogsError} h)
answered-ok (err message) a h = cc

module _ (block_number : Result Text Text) (block : Text) where
  -- The block is not beyond the boundary, where there is one.
  abbrev pub Reaches : Option Text → Type 0
  Reaches finalized = (f : Text) → finalized ≡ some f → big_int block ≤ big_int f

  boundary-IsFinal :
      (n : ℤ) (to_block finalized : Option Text) (is_mainnet : Bool)
      → boundary n to_block block_number ≡ ok finalized
      → Reaches finalized
      → IsFinal block_number block to_block (some (int n)) is_mainnet
  boundary-IsFinal (negsuc n) to_block finalized is_mainnet h r = cc
  boundary-IsFinal (pos zero) to_block finalized is_mainnet h r = cc
  boundary-IsFinal (pos (suc n)) (some s) finalized is_mainnet h r = cc
  boundary-IsFinal (pos (suc n)) none finalized is_mainnet h r =
      let (latest, a, h1) = bind-ok (answered block_number) _ h in
      let (_, h2) = throw_if-ok (not (is_big_int latest)) not_a_big_int _ h1 in
      let (enough, h3) =
        throw_if-ok (ltb (big_int latest) (suc n)) confirmations_exceed_latest _ h2 in
      let bound = r (to_block_quantity (big_int latest - suc n)) (sym (ok-injective h3)) in
      let value = big_int-to_block_quantity (big_int latest - suc n) in
      by_confirmations (suc n) latest (omega arith) (answered-ok block_number latest a)
        (omega (arith, bound, value, ltb→le (big_int latest) (suc n) enough))

  quantity : (b : Bool) → not b ≡ false → b ≡ true
  quantity true h = refl
  quantity false h = cc

  -- A resolved boundary that the block is not beyond makes it final.
  pub resolve_recovery_to_block-IsFinal :
      (to_block finalized : Option Text) (min_confirmations : Option Number) (is_mainnet : Bool)
      → resolve_recovery_to_block block_number to_block min_confirmations is_mainnet ≡ ok finalized
      → Reaches finalized
      → IsFinal block_number block to_block min_confirmations is_mainnet
  unfolding resolve_recovery_to_block
  resolve_recovery_to_block-IsFinal none finalized none true h r = cc
  resolve_recovery_to_block-IsFinal none finalized none false h r = without_policy
  resolve_recovery_to_block-IsFinal (some s) finalized none is_mainnet h r =
      let (given, h1) =
        throw_if-ok (not (is_block_quantity s)) recovery_to_block_not_a_quantity _ h in
      by_last_block s (quantity _ given) (r s (sym (ok-injective h1)))
  resolve_recovery_to_block-IsFinal to_block finalized (some (int n)) is_mainnet h r =
      let (_, h1) =
        throw_if-ok (given_not_a_quantity to_block) recovery_to_block_not_a_quantity _ h in
      boundary-IsFinal n to_block finalized is_mainnet h1 r
  resolve_recovery_to_block-IsFinal to_block finalized (some (not_integer n)) is_mainnet h r =
      let (_, h1) =
        throw_if-ok (given_not_a_quantity to_block) recovery_to_block_not_a_quantity _ h in
      cc
