-- ===== src/Core/Denominations/Greedy.antt =====
-- The order in which `splitIntoFixedDenominations` takes its notes: always the largest denomination
-- that still fits.
use mathlib.Core.Path.{subst}
use nullark.Prelude.{ℕ, suc, ◌≡◌, ◌∙◌, ap, sym, Option, some, List, [], ◌∷◌, ◌++◌, length}
use nullark.Prelude.Int.{ℤ, sum_ℤ, ◌+ℤ◌, ◌-ℤ◌, ◌≤ℤ◌, int_laws}
use nullark.Core.Denominations.Normalize.{In}

-- `d` is the largest of the denominations that fit into what remains.
abbrev pub IsLargest : List ℤ → ℤ → ℤ → Type 0
IsLargest source remaining d = (x : ℤ) → In x source → x ≤ℤ remaining → x ≤ℤ d

-- Each note is the largest denomination that fits into what the notes before it leave of the amount.
abbrev pub IsGreedy : List ℤ → ℤ → List ℤ → Type 0
IsGreedy source amount [] = Unit
IsGreedy source amount (x ∷ xs) =
    In x source × (x ≤ℤ amount) × IsLargest source amount x × IsGreedy source (amount -ℤ x) xs

pub push-IsGreedy :
    (source : List ℤ) (amount : ℤ) (notes : List ℤ) (d remaining : ℤ)
    → IsGreedy source amount notes
    → sum_ℤ notes +ℤ remaining ≡ amount
    → In d source
    → d ≤ℤ remaining
    → IsLargest source remaining d
    → IsGreedy source amount (notes ++ d ∷ [])
unfolding sum_ℤ
push-IsGreedy source amount [] d remaining g e m f l =
    let same : remaining ≡ amount = sym (omega int_laws) ∙ e in
    subst (λ a. IsGreedy source a (d ∷ [])) same (m, f, l, tt)
push-IsGreedy source amount (x ∷ xs) d remaining (k, fits, largest, rest) e m f l =
    let left : sum_ℤ xs +ℤ remaining ≡ x +ℤ sum_ℤ xs +ℤ remaining -ℤ x = omega int_laws in
    let left' : sum_ℤ xs +ℤ remaining ≡ amount -ℤ x = left ∙ ap (λ a. a -ℤ x) e in
    (k, fits, largest, push-IsGreedy source (amount -ℤ x) xs d remaining rest left' m f l)

-- The largest notes are more than the limit, by one when the split stops.
pub record IsOver (source : List ℤ) (amount : ℤ) (max : Option ℕ) : Type 0 where
  pub limit : ℕ
  pub limit_is : max ≡ some limit
  pub notes : List ℤ
  pub greedy : IsGreedy source amount notes
  pub one_more : length notes ≡ suc limit
