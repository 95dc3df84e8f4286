-- ===== src/Indexer/RecoveryApi/Admitted.antt =====
-- services/indexer/src/recoveryApi.ts: what the guards of the handler let through, field by field.
use mathlib.Core.Path.{subst}
use nullark.Prelude.{
  Bool, true, false, not, ◌||◌, ◌&&◌, Option, none, some, List, [], ◌∷◌, ◌≡◌, refl, ap, sym, ◌∙◌,
  inl, inr, ==_iff, Bool-cases, Option-cases, Any, ok, bind-ok, throw_if-ok, ok-injective,
  some-injective,
}
use nullark.Prelude.Text.{Text, text, text_eq, text_eq→eq, to_lower_case, to_string}
use nullark.Prelude.Map.{get, text_key}
use nullark.Indexer.LogIngest.{RootRecord}
use nullark.Indexer.RecoveryApi.{
  Query, RecoveryApiInput, Refusal, V12RuntimeBinding, V12RecoveryIndexerReadinessEvidence,
  has_wallet_linked_discovery_field, get_v12_runtime_binding, has_matching_v12_readiness_evidence,
  missing_range_status, is_partial, no_roots, is_commitment, includes_text, binds, find_binding,
  v12_runtime_bindings,
}
use nullark.Indexer.RecoveryApi.Handler.{required, is_text, lacks_evidence, is_bound, check_query}
use nullark.Indexer.RecoveryApi.Conditions.{
  IsReady, IsFor, IsBytes32, IsAdmitted, both, neither, not-false, required-some, is_text-some,
  commitment-IsBytes32, evidence-Approves,
}
use nullark.Indexer.RecoveryApi.Complete.{missing_range_status-AllChecked}

find_binding-some :
    (p : V12RuntimeBinding → Bool) (bindings : List V12RuntimeBinding) (b : V12RuntimeBinding)
    → find_binding p bindings ≡ some b
    → Any (λ c. c ≡ b) bindings × (p b ≡ true)
unfolding find_binding
find_binding-some p [] b h = cc
find_binding-some p (c ∷ rest) b h = elim (Bool-cases (p c)) [
  | inl e ↦ let same : c ≡ b = some-injective (rw e at h) in (inl same, ap p (sym same) ∙ e)
  | inr e ↦ let (there, holds) = find_binding-some p rest b (rw e at h) in (inr there, holds)
]

binds-IsFor :
    (input : RecoveryApiInput) (id : Text) (b : V12RuntimeBinding)
    → Any (λ c. c ≡ b) v12_runtime_bindings
    → binds id input.chain_id input.pool b ≡ true
    → IsFor id input.chain_id input.pool b
unfolding binds
binds-IsFor input id b known h =
    let (runtime, h1) = both _ _ h in
    let (chain, pool) = both _ _ h1 in
    record {
      known = known;
      same_runtime = text_eq→eq _ _ runtime;
      same_chain = (==_iff b.chain_id input.chain_id).0 chain;
      same_pool = text_eq→eq _ _ pool;
    }

v11-other :
    (id : Text)
    → text_eq id (text "nullark-v1.1-mainnet") ≡ true
    → includes_text (text "v1.2") id ≡ false
unfolding includes_text
v11-other id h = rw (text_eq→eq id _ h) refl

-- A runtime that names v1.2 and is not blocked has a binding.
v12-IsFor :
    (input : RecoveryApiInput) (id : Text)
    → input.runtime_id ≡ some id
    → includes_text (text "v1.2") id ≡ true
    → (get_v12_runtime_binding input).blocked ≡ false
    → (b : V12RuntimeBinding) × ((get_v12_runtime_binding input).binding ≡ some b)
      × IsFor id input.chain_id input.pool b
unfolding get_v12_runtime_binding
v12-IsFor input id e v12 = elim (Bool-cases (text_eq id (text "nullark-v1.1-mainnet"))) [
  | inl old ↦ let other = v11-other id old in cc
  | inr new ↦
      elim (Option-cases (find_binding (binds id input.chain_id input.pool) v12_runtime_bindings)) [
        | inl missing ↦ rw (e, new, missing) (λ h. cc)
        | inr (b, found) ↦
            let (known, holds) =
              find_binding-some (binds id input.chain_id input.pool) v12_runtime_bindings b found in
            rw (e, new, found) (λ h. (b, refl, binds-IsFor input id b known holds))
      ]
]

roots-IsReady :
    (input : RecoveryApiInput) (binding : V12RuntimeBinding)
    (evidence : Option V12RecoveryIndexerReadinessEvidence)
    (roots : Option (List (Text × RootRecord)))
    → input.v12_readiness_evidence ≡ evidence
    → input.accepted_roots ≡ roots
    → has_matching_v12_readiness_evidence evidence binding ≡ true
    → is_partial (missing_range_status input) ≡ false
    → no_roots roots ≡ false
    → IsReady input binding
unfolding has_matching_v12_readiness_evidence
roots-IsReady input binding none roots e r h p n = cc
roots-IsReady input binding (some evidence) none e r h p n = cc
roots-IsReady input binding (some evidence) (some []) e r h p n = cc
roots-IsReady input binding (some evidence) (some (root ∷ others)) e r h p n =
    let (tracker, is, all) = missing_range_status-AllChecked input p in
    record {
      evidence = evidence;
      evidence_is = e;
      approves = evidence-Approves evidence binding h;
      tracker = tracker;
      tracker_is = is;
      all_checked = all;
      root = root;
      other_roots = others;
      roots_are = r;
    }

bound-IsReady :
    (input : RecoveryApiInput) (bound : Option V12RuntimeBinding) (binding : V12RuntimeBinding)
    → lacks_evidence bound input.v12_readiness_evidence ≡ false
    → (is_bound bound && is_partial (missing_range_status input)) ≡ false
    → (is_bound bound && no_roots input.accepted_roots) ≡ false
    → bound ≡ some binding
    → IsReady input binding
bound-IsReady input none binding e p r h = cc h
bound-IsReady input (some b) binding e p r h = subst (IsReady input) (some-injective h) (
    roots-IsReady input b input.v12_readiness_evidence input.accepted_roots refl refl
      (not-false _ e) p r)

pub check_query-IsAdmitted :
    (input : RecoveryApiInput) (query : Query) (commitment : Text)
    → check_query input query ≡ ok commitment
    → IsAdmitted input query commitment
unfolding check_query
check_query-IsAdmitted input query commitment h =
    let runtime = get_v12_runtime_binding input in
    let (wallet, h1) = throw_if-ok (has_wallet_linked_discovery_field query) _ _ h in
    let (chain, h2) =
      throw_if-ok (not (is_text (get query (text "chainId")) (to_string 10 input.chain_id))) _ _
        h1 in
    let (pool, named, h3) = bind-ok (required (get query (text "pool"))) _ h2 in
    let (asked, found, h4) = bind-ok (required (get query (text "commitment"))) _ h3 in
    let (pools, h5) =
      throw_if-ok (not (text_eq (to_lower_case pool) (to_lower_case input.pool))) _ _ h4 in
    let (open_, h6) =
      throw_if-ok (runtime.blocked || lacks_evidence runtime.binding input.v12_readiness_evidence) _
        _ h5 in
    let (formed, h7) = throw_if-ok (not (is_commitment asked)) _ _ h6 in
    let (whole, h8) =
      throw_if-ok (is_bound runtime.binding && is_partial (missing_range_status input)) _ _ h7 in
    let (rooted, h9) =
      throw_if-ok (is_bound runtime.binding && no_roots input.accepted_roots) _ _ h8 in
    let same = ok-injective {E = Refusal} h9 in
    let (unblocked, evidence) = neither runtime.blocked _ open_ in
    record {
      no_wallet_field = wallet;
      right_chain = is_text-some _ _ (not-false _ chain);
      right_pool = (pool, required-some _ pool named, text_eq→eq _ _ (not-false _ pools));
      asked = required-some _ asked found ∙ ap some same;
      well_formed = subst IsBytes32 same (commitment-IsBytes32 asked (not-false _ formed));
      ready = λ id e v12.
          let (binding, b, for_) = v12-IsFor input id e v12 unblocked in
          (binding, for_, bound-IsReady input runtime.binding binding evidence whole rooted b);
    }
