-- ===== src/Indexer/RecoveryApi/Served.antt =====
-- services/indexer/src/recoveryApi.ts: what holds of a path that is served.
use mathlib.Core.Path.{subst}
use nullark.Prelude.{
  ◌<◌, ◌^◌, false, Option, none, some, ◌≡◌, ap, ◌∙◌, inl, inr, Bool-cases, Option-cases,
  Result-cases, ok, ok-injective, some-injective,
}
use nullark.Prelude.Text.{Text, to_lower_case}
use nullark.Prelude.Map.{get, text_key}
use nullark.Indexer.MerklePaths.{
  MerklePathIndex, MerklePathResult, PathError, get_merkle_path_for_commitment,
}
use nullark.Indexer.MerklePaths.Climb.{IsProof}
use nullark.Indexer.MerklePaths.Paths.{IsValid, IsKept, answer-hit, answer-miss}
use nullark.Indexer.RecoveryApi.{Query, RecoveryApiInput, PathBody, served}
use nullark.Indexer.RecoveryApi.Handler.{check_query, root_unconfirmed, answer_path, merkle_path}
use nullark.Indexer.RecoveryApi.Conditions.{IsAdmitted}
use nullark.Indexer.RecoveryApi.Admitted.{check_query-IsAdmitted}
use nullark.Indexer.LogIngest.{RootRecord}
use nullark.Prelude.{sym, List}

-- A path that the index gives is kept for its commitment, and the index stays valid.
get_merkle_path-IsKept :
    (index after : MerklePathIndex) (commitment : Text) (r : MerklePathResult)
    → IsValid index
    → get_merkle_path_for_commitment index commitment ≡ ok (after, r)
    → IsValid after × IsKept index (to_lower_case commitment) r
unfolding get_merkle_path_for_commitment
get_merkle_path-IsKept index after commitment r v =
    elim (Option-cases (get index.index_by_commitment (to_lower_case commitment))) [
      | inl e ↦ rw (e, get_merkle_path_for_commitment) (λ h. cc)
      | inr (i, e) ↦ elim (Option-cases (get index.path_cache (to_lower_case commitment))) [
        | inl fresh ↦
            rw (e, fresh, get_merkle_path_for_commitment)
              (λ h.
                subst (λ o. IsValid o.0 × IsKept index (to_lower_case commitment) o.1)
                  (ok-injective {E = PathError} h) (answer-miss index commitment i v e))
        | inr (kept, there) ↦
            rw (e, there, get_merkle_path_for_commitment)
              (λ h.
                subst (λ o. IsValid o.0 × IsKept index (to_lower_case commitment) o.1)
                  (ok-injective {E = PathError} h)
                  (
                    answer-hit index commitment (to_lower_case commitment) i kept v there,
                    v.kept (to_lower_case commitment) kept there,
                  ))
      ]
    ]

served-injective : {a b : PathBody} → served a ≡ served b → a ≡ b
served-injective h = cc

-- What holds of a path that is served.
pub record IsServed (input : RecoveryApiInput) (query : Query) (index : MerklePathIndex)
    (body : PathBody) : Type 0 where
  pub commitment : Text
  pub admitted : IsAdmitted input query commitment
  pub named : to_lower_case body.path.commitment ≡ to_lower_case commitment
  pub indexed : get index.index_by_commitment (to_lower_case commitment) ≡ some body.path.leaf_index
  pub leads : body.path.leaf_index < 2 ^ 31 → IsProof index body.path
  pub accepted :
      (roots : List (Text × RootRecord))
      → input.accepted_roots ≡ some roots
      → (r : RootRecord) × (get roots (to_lower_case body.path.root) ≡ some r)

confirmed-accepted :
    (known : Option (List (Text × RootRecord))) (root : Text)
    → root_unconfirmed known root ≡ false
    → (roots : List (Text × RootRecord)) → known ≡ some roots
    → (r : RootRecord) × (get roots (to_lower_case root) ≡ some r)
unfolding root_unconfirmed
confirmed-accepted none root h roots e = cc
confirmed-accepted (some all) root h roots e = elim (Option-cases (get all (to_lower_case root))) [
  | inl missing ↦ let impossible = rw missing at h in cc
  | inr (r, there) ↦ (r, ap (λ m. get m (to_lower_case root)) (sym (some-injective e)) ∙ there)
]

answer_path-IsServed :
    (input : RecoveryApiInput) (query : Query) (index after : MerklePathIndex) (commitment : Text)
    (body : PathBody)
    → IsValid index
    → IsAdmitted input query commitment
    → answer_path input index (get_merkle_path_for_commitment index commitment)
      ≡ (after, served body)
    → IsServed input query index body
answer_path-IsServed input query index after commitment body v a =
    elim (Result-cases (get_merkle_path_for_commitment index commitment)) [
      | inr (e, none_) ↦ rw none_ (λ h. cc (ap (λ o. o.1) h))
      | inl ((last, r), found) ↦ elim (Bool-cases (root_unconfirmed input.accepted_roots r.root)) [
        | inl unknown ↦ rw (found, unknown) (λ h. cc (ap (λ o. o.1) h))
        | inr known ↦
            let (_, k) = get_merkle_path-IsKept index last commitment r v found in
            rw (found, known)
              (λ h.
                subst (IsServed input query index) (served-injective (ap (λ o. o.1) h)) (record {
                  commitment = commitment;
                  admitted = a;
                  named = k.named;
                  indexed = k.indexed;
                  leads = k.leads;
                  accepted = confirmed-accepted input.accepted_roots r.root known;
                }))
      ]
    ]

-- The handler serves a path only for a query with no field that names a wallet, that names the chain
-- and, but for case, the pool of the indexer, and a commitment of 32 bytes in hexadecimal, and only the
-- path of that commitment: it stands at the leaf that the index has for it, and leads to the root of
-- the tree where that leaf index fits in 31 bits. Wherever the accepted roots are known, the root is one
-- of them. For a runtime that names v1.2, a known binding has its name, chain and pool; the evidence is
-- ready, final, not blocked, by an approved hash and for the same runtime, chain and pool; every block
-- of the scan is checked if the tracker is in form; and some root is accepted.
pub merkle_path-IsServed :
    (input : RecoveryApiInput) (query : Query) (index after : MerklePathIndex) (body : PathBody)
    → IsValid index
    → merkle_path input query index ≡ (after, served body)
    → IsServed input query index body
unfolding merkle_path
merkle_path-IsServed input query index after body v =
    elim (Result-cases (check_query input query)) [
      | inl (commitment, asked) ↦ rw asked (
          answer_path-IsServed input query index after commitment body v
            (check_query-IsAdmitted input query commitment asked))
      | inr (refusal, stopped) ↦ rw stopped (λ h. cc (ap (λ o. o.1) h))
    ]
