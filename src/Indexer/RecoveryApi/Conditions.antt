-- ===== src/Indexer/RecoveryApi/Conditions.antt =====
-- services/indexer/src/recoveryApi.ts: the conditions on a query that is admitted, and what the tests of
-- the code say of them.
use nullark.Prelude.{
  ℕ, Bool, true, false, not, ◌||◌, ◌&&◌, Option, none, some, List, [], ◌∷◌, ◌++◌, ◌≡◌, refl, ap,
  ◌⊎◌, inl, inr, ==_iff, Bool-cases, Any, any_of, length, ok, ok-injective,
}
use nullark.Prelude.Text.{Text, text, text_eq, text_eq→eq, to_lower_case, to_string, all_hex}
use nullark.Prelude.Map.{get, text_key}
use nullark.Indexer.Ranges.{RangeTracker, IsMerged}
use nullark.Indexer.LogIngest.{RootRecord}
use nullark.Indexer.RecoveryApi.{
  Query, RecoveryApiInput, Refusal, V12RuntimeBinding, V12RecoveryIndexerReadinessEvidence,
  has_wallet_linked_discovery_field, has_matching_v12_readiness_evidence, is_commitment,
  known_source, is_final, includes_text, v12_runtime_bindings,
}
use nullark.Indexer.RecoveryApi.Handler.{required, is_text}
use nullark.Indexer.RecoveryApi.Complete.{AllChecked}

-- The evidence is final, for the runtime of the binding, and by an approved hash.
pub record Approves (evidence : V12RecoveryIndexerReadinessEvidence) (binding : V12RuntimeBinding)
    : Type 0 where
  pub same_runtime : evidence.runtime_id ≡ binding.runtime_id
  pub is_ready : evidence.status ≡ text "ready"
  pub not_blocked : evidence.mainnet4326_blocked ≡ false
  pub is_last : evidence.final_readiness ≡ some true
  pub same_chain : evidence.chain_id ≡ binding.chain_id
  pub same_pool : to_lower_case evidence.pool ≡ to_lower_case binding.pool
  pub approved :
      Any
        (λ hash. to_lower_case hash ≡ to_lower_case evidence.evidence_sha256)
        binding.approved_evidence_hashes
  pub source :
      (evidence.canonical_runtime_source ≡ none)
      ⊎ ((evidence.canonical_runtime_source ≡ some (text "public-artifacts/current.json"))
          ⊎ (evidence.canonical_runtime_source
              ≡ some (text "apps/web/public/proving/trusted-setup-record.json")))

-- Under a binding of v1.2: the evidence approves it, a tracker has checked all blocks of the scan if it
-- is in form, and some root is accepted.
pub record IsReady (input : RecoveryApiInput) (binding : V12RuntimeBinding) : Type 0 where
  pub evidence : V12RecoveryIndexerReadinessEvidence
  pub evidence_is : input.v12_readiness_evidence ≡ some evidence
  pub approves : Approves evidence binding
  pub tracker : RangeTracker
  pub tracker_is : input.checked_ranges ≡ some tracker
  pub all_checked : IsMerged tracker.checked_ranges → AllChecked input tracker
  pub root : Text × RootRecord
  pub other_roots : List (Text × RootRecord)
  pub roots_are : input.accepted_roots ≡ some (root ∷ other_roots)

-- A known binding is for this runtime, chain and pool.
pub record IsFor (id : Text) (chain_id : ℕ) (pool : Text) (binding : V12RuntimeBinding)
    : Type 0 where
  pub known : Any (λ b. b ≡ binding) v12_runtime_bindings
  pub same_runtime : binding.runtime_id ≡ id
  pub same_chain : binding.chain_id ≡ chain_id
  pub same_pool : to_lower_case binding.pool ≡ to_lower_case pool

-- A commitment of 32 bytes in hexadecimal.
pub record IsBytes32 (s : Text) : Type 0 where
  pub digits : Text
  pub splits : s ≡ text "0x" ++ digits
  pub counted : length digits ≡ 64
  pub hexadecimal : all_hex digits ≡ true

-- A query without fields that name a wallet, for the chain and the pool of the indexer and for a
-- commitment; a runtime that names v1.2 is a known one, and ready.
pub record IsAdmitted (input : RecoveryApiInput) (query : Query) (commitment : Text) : Type 0 where
  pub no_wallet_field : has_wallet_linked_discovery_field query ≡ false
  pub right_chain : get query (text "chainId") ≡ some (to_string 10 input.chain_id)
  pub right_pool :
      (pool : Text) × (get query (text "pool") ≡ some pool)
      × (to_lower_case pool ≡ to_lower_case input.pool)
  pub asked : get query (text "commitment") ≡ some commitment
  pub well_formed : IsBytes32 commitment
  pub ready :
      (id : Text)
      → input.runtime_id ≡ some id
      → includes_text (text "v1.2") id ≡ true
      → (binding : V12RuntimeBinding) × IsFor id input.chain_id input.pool binding
        × IsReady input binding

pub both : (a b : Bool) → (a && b) ≡ true → (a ≡ true) × (b ≡ true)
both true b h = (refl, h)
both false b h = cc

pub neither : (a b : Bool) → (a || b) ≡ false → (a ≡ false) × (b ≡ false)
neither true b h = cc
neither false b h = (refl, h)

pub not-false : (b : Bool) → not b ≡ false → b ≡ true
not-false true h = refl
not-false false h = cc

not-true : (b : Bool) → not b ≡ true → b ≡ false
not-true true h = cc
not-true false h = refl

any_of-Any :
    {A : Type 0} (p : A → Bool) (P : A → Type 0)
    → ((x : A) → p x ≡ true → P x)
    → (xs : List A) → any_of p xs ≡ true
    → Any P xs
unfolding any_of
any_of-Any p P f [] h = cc
any_of-Any p P f (x ∷ xs) h = elim (Bool-cases (p x)) [
  | inl e ↦ inl (f x e)
  | inr e ↦ inr (any_of-Any p P f xs (rw e at h))
]

pub required-some : (o : Option Text) (s : Text) → required o ≡ ok s → o ≡ some s
required-some none s h = cc
required-some (some t) s h = ap some (ok-injective {E = Refusal} h)

pub is_text-some : (o : Option Text) (s : Text) → is_text o s ≡ true → o ≡ some s
is_text-some none s h = cc
is_text-some (some t) s h = ap some (text_eq→eq t s h)

pub commitment-IsBytes32 : (s : Text) → is_commitment s ≡ true → IsBytes32 s
unfolding is_commitment
commitment-IsBytes32 [] h = cc
commitment-IsBytes32 (c ∷ []) h = cc
commitment-IsBytes32 (z ∷ x ∷ digits) h =
    let (zero_, h1) = both _ _ h in
    let (ex, h2) = both _ _ h1 in
    let (hex, counted) = both _ _ h2 in
    let z_is : z ≡ b'0' = (==_iff z b'0').0 zero_ in
    let x_is : x ≡ b'x' = (==_iff x b'x').0 ex in
    record {
      digits = digits;
      splits = rw (z_is, x_is) refl;
      counted = (==_iff (length digits) 64).0 counted;
      hexadecimal = hex;
    }

is_final-some : (o : Option Bool) → is_final o ≡ true → o ≡ some true
is_final-some none h = cc
is_final-some (some true) h = refl
is_final-some (some false) h = cc

known_source-cases :
    (o : Option Text)
    → known_source o ≡ true
    → (o ≡ none)
      ⊎ ((o ≡ some (text "public-artifacts/current.json"))
          ⊎ (o ≡ some (text "apps/web/public/proving/trusted-setup-record.json")))
known_source-cases none h = inl refl
known_source-cases (some s) h =
    elim (Bool-cases (text_eq s (text "public-artifacts/current.json"))) [
      | inl e ↦ inr (inl (ap some (text_eq→eq s _ e)))
      | inr e ↦ inr (inr (ap some (text_eq→eq s _ (rw e at h))))
    ]

pub evidence-Approves :
    (evidence : V12RecoveryIndexerReadinessEvidence) (binding : V12RuntimeBinding)
    → has_matching_v12_readiness_evidence (some evidence) binding ≡ true
    → Approves evidence binding
unfolding has_matching_v12_readiness_evidence
evidence-Approves evidence binding h =
    let (runtime, h1) = both _ _ h in
    let (status, h2) = both _ _ h1 in
    let (unblocked, h3) = both _ _ h2 in
    let (last, h4) = both _ _ h3 in
    let (chain, h5) = both _ _ h4 in
    let (pool, h6) = both _ _ h5 in
    let (hash, source) = both _ _ h6 in
    record {
      same_runtime = text_eq→eq _ _ runtime;
      is_ready = text_eq→eq _ _ status;
      not_blocked = not-true evidence.mainnet4326_blocked unblocked;
      is_last = is_final-some evidence.final_readiness last;
      same_chain = (==_iff evidence.chain_id binding.chain_id).0 chain;
      same_pool = text_eq→eq _ _ pool;
      approved =
          any_of-Any _ (λ hash. to_lower_case hash ≡ to_lower_case evidence.evidence_sha256)
            (λ hash e. text_eq→eq _ _ e) binding.approved_evidence_hashes hash;
      source = known_source-cases evidence.canonical_runtime_source source;
    }
