-- ===== src/Prelude/Dict.antt =====
-- A map as an association list over any key with an equality test: the model of `HashMap` and
-- `BTreeMap`. The list's order stands for the map's iteration order.
use Prim.Native.Nat.{ℕ, ◌+◌, ◌≤◌}
use mathlib.Core.Path.{◌≡◌, refl, subst}
use mathlib.Core.Logic.{◌≢◌, inl, inr}
use mathlib.Core.Bool.{Bool}
use mathlib.Core.Option.{Option, none, some}
use mathlib.Core.List.{List, [], ◌∷◌}
use native.Mathlib.Omega.{arith}
use execution_provider.Prelude.Tests.{if◌then◌else◌, is_some, Bool-cases}
use execution_provider.Prelude.Lists.{length, sum_by, filterb}
use execution_provider.Prelude.Keys.{Eq}

abbrev pub Dict {ℓ κ} : Type ℓ → Type κ → Type (ℓ ⊔ κ)
Dict K V = List (K × V)

module _ {ℓ κ} {K : Type ℓ} {V : Type κ} ⦃e : Eq K⦄ where
  abbrev pub get : K → Dict K V → Option V
  get k [] = none
  get k ((j, v) ∷ d) = if e.beq j k then some v else get k d

  abbrev pub contains_key : K → Dict K V → Bool
  contains_key k d = is_some (get k d)

  -- A write replaces the value of a key that is there, and adds a new key at the end.
  abbrev pub insert : K → V → Dict K V → Dict K V
  insert k v [] = (k, v) ∷ []
  insert k v ((j, w) ∷ d) = if e.beq j k then (k, v) ∷ d else (j, w) ∷ insert k v d

  abbrev pub remove : K → Dict K V → Dict K V
  remove k [] = []
  remove k ((j, w) ∷ d) = if e.beq j k then d else (j, w) ∷ remove k d

  -- No key is listed twice.
  abbrev pub Distinct : Dict K V → Type κ
  Distinct [] = Unit
  Distinct ((j, w) ∷ d) = (get j d ≡ none) × Distinct d

  pub get-insert :
      (k j : K) (v : V) (d : Dict K V)
      → get j (insert k v d) ≡ (if e.beq k j then some v else get j d)
  get-insert k j v [] = refl
  get-insert k j v ((i, w) ∷ d) =
      ground (arith, e.beq_iff k j, e.beq_iff i k, e.beq_iff i j, get-insert k j v d)

  pub get-insert_self : (k : K) (v : V) (d : Dict K V) → get k (insert k v d) ≡ some v
  get-insert_self k v d = ground (arith, e.beq_iff k k, get-insert k k v d)

  pub get-insert_ne : (k j : K) (v : V) (d : Dict K V) → k ≢ j → get j (insert k v d) ≡ get j d
  get-insert_ne k j v d h = ground (arith, e.beq_iff k j, get-insert k j v d)

  pub get-remove_ne : (k j : K) (d : Dict K V) → k ≢ j → get j (remove k d) ≡ get j d
  get-remove_ne k j [] h = refl
  get-remove_ne k j ((i, w) ∷ d) h =
      ground (arith, e.beq_iff i k, e.beq_iff i j, get-remove_ne k j d h)

  pub get-remove_self : (k : K) (d : Dict K V) → Distinct d → get k (remove k d) ≡ none
  get-remove_self k [] h = refl
  get-remove_self k ((i, w) ∷ d) h = ground (arith, e.beq_iff i k, get-remove_self k d h.1)

  pub insert-Distinct : (k : K) (v : V) (d : Dict K V) → Distinct d → Distinct (insert k v d)
  insert-Distinct k v [] h = (refl, tt)
  insert-Distinct k v ((i, w) ∷ d) h =
      ground (arith, e.beq_iff i k, e.beq_iff k i, get-insert k i v d, insert-Distinct k v d h.1)

  pub remove-Distinct : (k : K) (d : Dict K V) → Distinct d → Distinct (remove k d)
  remove-Distinct k [] h = tt
  remove-Distinct k ((i, w) ∷ d) h =
      ground (arith, e.beq_iff i k, e.beq_iff k i, get-remove_ne k i d, remove-Distinct k d h.1)

  pub length-insert_new :
      (k : K) (v : V) (d : Dict K V) → get k d ≡ none → length (insert k v d) ≡ length d + 1
  length-insert_new k v [] h = omega arith
  length-insert_new k v ((i, w) ∷ d) h = ground (arith, length-insert_new k v d)

  pub length-insert_old :
      (k : K) (v w : V) (d : Dict K V) → get k d ≡ some w → length (insert k v d) ≡ length d
  length-insert_old k v w [] h = cc
  length-insert_old k v w ((i, u) ∷ d) h = ground (arith, length-insert_old k v w d)

  pub length-remove :
      (k : K) (v : V) (d : Dict K V) → get k d ≡ some v → length (remove k d) + 1 ≡ length d
  length-remove k v [] h = cc
  length-remove k v ((i, u) ∷ d) h = ground (arith, length-remove k v d)

  pub length-remove-le : (k : K) (d : Dict K V) → length (remove k d) ≤ length d
  length-remove-le k [] = omega arith
  length-remove-le k ((i, u) ∷ d) = ground (arith, length-remove-le k d)

  -- How a sum over the values changes with each operation.
  pub sum_by-insert_new :
      (f : V → ℕ) (k : K) (v : V) (d : Dict K V)
      → get k d ≡ none
      → sum_by (λ p. f p.1) (insert k v d) ≡ sum_by (λ p. f p.1) d + f v
  sum_by-insert_new f k v [] h = omega arith
  sum_by-insert_new f k v ((i, w) ∷ d) h = ground (arith, sum_by-insert_new f k v d)

  pub sum_by-insert_old :
      (f : V → ℕ) (k : K) (v w : V) (d : Dict K V)
      → get k d ≡ some w
      → sum_by (λ p. f p.1) (insert k v d) + f w ≡ sum_by (λ p. f p.1) d + f v
  sum_by-insert_old f k v w [] h = cc
  sum_by-insert_old f k v w ((i, u) ∷ d) h = ground (arith, sum_by-insert_old f k v w d)

  pub sum_by-remove :
      (f : V → ℕ) (k : K) (w : V) (d : Dict K V)
      → get k d ≡ some w
      → sum_by (λ p. f p.1) (remove k d) + f w ≡ sum_by (λ p. f p.1) d
  sum_by-remove f k w [] h = cc
  sum_by-remove f k w ((i, u) ∷ d) h = ground (arith, sum_by-remove f k w d)

module _ {ℓ κ μ} {K : Type ℓ} {V : Type κ} ⦃e : Eq K⦄ where
  -- Every entry satisfies the predicate.
  abbrev pub All : (K → V → Type μ) → Dict K V → Type μ
  All P [] = Unit
  All P ((k, v) ∷ d) = P k v × All P d

  pub All-get :
      (P : K → V → Type μ) (k : K) (v : V) (d : Dict K V) → All P d → get k d ≡ some v → P k v
  All-get P k v [] h found = absurd (ground (arith, found))
  All-get P k v ((j, w) ∷ d) h found = elim (Bool-cases (e.beq j k)) [
    | inl here ↦
        subst (λ x. P x v) ((e.beq_iff j k).0 here) (subst (P j) (ground (arith, found, here)) h.0)
    | inr there ↦ All-get P k v d h.1 (ground (arith, found, there))
  ]

  -- Where the key is not listed, a property may be exchanged for one that follows at all other keys.
  pub All-away :
      (P Q : K → V → Type μ) (k : K) (d : Dict K V)
      → ((j : K) (v : V) → j ≢ k → P j v → Q j v)
      → get k d ≡ none
      → All P d
      → All Q d
  All-away P Q k [] step none_here h = tt
  All-away P Q k ((j, v) ∷ d) step none_here h = elim (Bool-cases (e.beq j k)) [
    | inl here ↦ absurd (ground (arith, here, none_here))
    | inr there ↦ (
      step j v (λ same. ground (arith, there, (e.beq_iff j k).1 same)) h.0,
      All-away P Q k d step (ground (arith, there, none_here)) h.1,
    )
  ]

  pub All-remove :
      (P Q : K → V → Type μ) (k : K) (d : Dict K V)
      → ((j : K) (v : V) → j ≢ k → P j v → Q j v)
      → Distinct d
      → All P d
      → All Q (remove k d)
  All-remove P Q k [] step distinct h = tt
  All-remove P Q k ((j, v) ∷ d) step distinct h = elim (Bool-cases (e.beq j k)) [
    | inl here ↦ rw here (
        All-away P Q k d step (subst (λ x. get x d ≡ none) ((e.beq_iff j k).0 here) distinct.0) h.1)
    | inr there ↦ rw there (
      step j v (λ same. ground (arith, there, (e.beq_iff j k).1 same)) h.0,
      All-remove P Q k d step distinct.1 h.1,
    )
  ]

  pub All-map :
      (P Q : K → V → Type μ) (d : Dict K V) → ((j : K) (v : V) → P j v → Q j v) → All P d → All Q d
  All-map P Q [] step h = tt
  All-map P Q ((j, v) ∷ d) step h = (step j v h.0, All-map P Q d step h.1)

  pub All-insert :
      (P : K → V → Type μ) (k : K) (v : V) (d : Dict K V) → P k v → All P d → All P (insert k v d)
  All-insert P k v [] here h = (here, tt)
  All-insert P k v ((j, w) ∷ d) here h = elim (Bool-cases (e.beq j k)) [
    | inl same ↦ rw same (here, h.1)
    | inr other ↦ rw other (h.0, All-insert P k v d here h.1)
  ]

  pub All-filterb :
      (P : K → V → Type μ) (p : K × V → Bool) (d : Dict K V) → All P d → All P (filterb p d)
  All-filterb P p [] h = tt
  All-filterb P p (x ∷ d) h = elim (Bool-cases (p x)) [
    | inl kept ↦ rw kept (h.0, All-filterb P p d h.1)
    | inr gone ↦ rw gone (All-filterb P p d h.1)
  ]

module _ {ℓ κ} {K : Type ℓ} {V : Type κ} ⦃e : Eq K⦄ where
  pub All-self : (d : Dict K V) → Distinct d → All (λ k v. get k d ≡ some v) d
  All-self [] h = tt
  All-self ((k, v) ∷ d) h = (
    ground (arith, e.beq_iff k k),
    All-away (λ j w. get j d ≡ some w) (λ j w. get j ((k, v) ∷ d) ≡ some w) k d
        (λ j w other found. ground (arith, e.beq_iff k j)) h.0 (All-self d h.1),
  )

  get-filterb-none :
      (p : K × V → Bool) (k : K) (d : Dict K V) → get k d ≡ none → get k (filterb p d) ≡ none
  get-filterb-none p k [] h = refl
  get-filterb-none p k ((j, v) ∷ d) h = ground (arith, get-filterb-none p k d)

  pub filterb-Distinct : (p : K × V → Bool) (d : Dict K V) → Distinct d → Distinct (filterb p d)
  filterb-Distinct p [] h = tt
  filterb-Distinct p ((j, v) ∷ d) h =
      ground (arith, get-filterb-none p j d, filterb-Distinct p d h.1)
