-- ===== src/Common/Dict.antt =====
-- Maps with string keys, as association lists in the order of first insertion: a missing key has
-- no entry, a write replaces the entry or adds one at the end.
use Prim.Native.Nat.{ℕ, suc, ◌+◌}
use Prim.Native.String.{String}
use mathlib.Core.Path.{◌≡◌, refl}
use mathlib.Core.List.{List, [], ◌∷◌}
use mathlib.Core.Option.{Option, none, some}
use native.Mathlib.Omega.{arith}
use text.Mathlib.Text.{◌==◌ as str_eq}
use text.Mathlib.TextEquality.{eq_iff}
use sprawler.Common.Tests.{if◌then◌else◌}
use sprawler.Common.Lists.{length}

abbrev pub Dict {ℓ} : Type ℓ → Type ℓ
Dict V = List (String × V)

module _ {ℓ} {V : Type ℓ} where
  unfoldable pub lookup : String → Dict V → Option V
  lookup k [] = none
  lookup k ((j, v) ∷ d) = if str_eq j k then some v else lookup k d

  unfoldable pub insert : String → V → Dict V → Dict V
  insert k v [] = (k, v) ∷ []
  insert k v ((j, w) ∷ d) = if str_eq j k then (k, v) ∷ d else (j, w) ∷ insert k v d

  unfoldable pub delete : String → Dict V → Dict V
  delete k [] = []
  delete k ((j, v) ∷ d) = if str_eq j k then delete k d else (j, v) ∷ delete k d

  pub lookup-insert :
      (k j : String) (v : V) (d : Dict V)
      → lookup j (insert k v d) ≡ (if str_eq k j then some v else lookup j d)
  unfolding lookup insert
  lookup-insert k j v [] = refl
  lookup-insert k j v ((i, w) ∷ d) =
      ground (arith, eq_iff k j, eq_iff i k, eq_iff i j, lookup-insert k j v d)

  pub lookup-delete :
      (k j : String) (d : Dict V)
      → lookup j (delete k d) ≡ (if str_eq k j then none else lookup j d)
  unfolding lookup delete
  lookup-delete k j [] = ground arith
  lookup-delete k j ((i, w) ∷ d) =
      ground (arith, eq_iff k j, eq_iff i k, eq_iff i j, lookup-delete k j d)

-- No key twice.
abbrev pub Distinct {ℓ} : {V : Type ℓ} → Dict V → Type ℓ
Distinct [] = Unit
Distinct ((j, v) ∷ d) = (lookup j d ≡ none) × Distinct d

module _ {ℓ} {V : Type ℓ} where
  pub insert-Distinct : (k : String) (v : V) (d : Dict V) → Distinct d → Distinct (insert k v d)
  unfolding lookup insert
  insert-Distinct k v [] h = ground arith
  insert-Distinct k v ((j, w) ∷ d) (a, b) =
      ground (arith, eq_iff j k, eq_iff k j, lookup-insert k j v d, insert-Distinct k v d b)

  pub delete-Distinct : (k : String) (d : Dict V) → Distinct d → Distinct (delete k d)
  unfolding delete
  delete-Distinct k [] h = ground arith
  delete-Distinct k ((j, w) ∷ d) (a, b) = ground (arith, lookup-delete k j d, delete-Distinct k d b)

  pub length-insert :
      (k : String) (v : V) (d : Dict V) → lookup k d ≡ none → length (insert k v d) ≡ suc (length d)
  unfolding lookup insert
  length-insert k v [] h = omega arith
  length-insert k v ((j, w) ∷ d) h = ground (arith, length-insert k v d)

  delete-lookup : (k : String) (d : Dict V) → lookup k d ≡ none → delete k d ≡ d
  unfolding lookup delete
  delete-lookup k [] h = refl
  delete-lookup k ((j, w) ∷ d) h = ground (arith, delete-lookup k d)

  pub length-delete :
      (k : String) (v : V) (d : Dict V)
      → Distinct d
      → lookup k d ≡ some v
      → suc (length (delete k d)) ≡ length d
  unfolding lookup delete
  length-delete k v [] h e = ground arith
  length-delete k v ((j, w) ∷ d) (a, b) e =
      ground (arith, eq_iff j k, delete-lookup k d, length-delete k v d b)

-- The value under a key, with Go's zero value for a missing one.
abbrev pub get_or_zero : Option ℕ → ℕ
get_or_zero none = 0
get_or_zero (some n) = n

-- `m[k] += n`.
unfoldable pub add_at : String → ℕ → Dict ℕ → Dict ℕ
add_at k n [] = (k, n) ∷ []
add_at k n ((j, m) ∷ d) = if str_eq j k then (j, m + n) ∷ d else (j, m) ∷ add_at k n d

abbrev pub sum_values : Dict ℕ → ℕ
sum_values [] = 0
sum_values ((j, m) ∷ d) = m + sum_values d

pub sum_values-add_at :
    (k : String) (n : ℕ) (d : Dict ℕ) → sum_values (add_at k n d) ≡ sum_values d + n
unfolding add_at
sum_values-add_at k n [] = omega arith
sum_values-add_at k n ((j, m) ∷ d) = ground (arith, sum_values-add_at k n d)

pub lookup-add_at :
    (k j : String) (n : ℕ) (d : Dict ℕ)
    → get_or_zero (lookup j (add_at k n d))
      ≡ get_or_zero (lookup j d) + (if str_eq k j then n else 0)
unfolding lookup add_at
lookup-add_at k j n [] = ground arith
lookup-add_at k j n ((i, w) ∷ d) =
    ground (arith, eq_iff k j, eq_iff i k, eq_iff i j, lookup-add_at k j n d)
