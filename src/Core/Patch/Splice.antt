-- ===== src/Core/Patch/Splice.antt =====
-- packages/process-execution-core/src/filesystem/patch.rs: the way `apply_codex` and
-- `apply_replacements` put replacements in place: sorted by their start, from the last to the first,
-- so that an earlier position still means the same. The sequence is one of lines or of characters.
use execution_provider.Prelude.{
  ℕ, zero, suc, ◌+◌, ◌-◌, ◌≤◌, ◌≡◌, refl, ap, sym, ◌∙◌, inl, inr, List, [], ◌∷◌, ◌++◌, append_assoc,
  arith, length, take, drop, slice, ltb, if◌then◌else◌, Bool-cases, take_add, take-append-drop,
}

-- A range that begins at `start` and has `count` elements, with what stands there instead.
pub record Replacement {ℓ} (A : Type ℓ) : Type ℓ where
  pub start : ℕ
  pub count : ℕ
  pub new : List A

module _ {ℓ} {A : Type ℓ} (key : A → ℕ) where
  -- Behind all that have a smaller key.
  abbrev pub insert_by : A → List A → List A
  insert_by r [] = r ∷ []
  insert_by r (s ∷ rs) =
      let rest = insert_by r rs in if ltb (key s) (key r) then s ∷ rest else r ∷ s ∷ rs

  -- `sort_by_key`, which keeps the order of those that have the same key.
  abbrev pub sort_by : List A → List A
  sort_by [] = []
  sort_by (r ∷ rs) = insert_by r (sort_by rs)

module _ {ℓ} {A : Type ℓ} where
  -- `Vec::splice` and `String::replace_range`
  abbrev pub splice : Replacement A → List A → List A
  splice r xs = take r.start xs ++ r.new ++ drop (r.start + r.count) xs

  -- `for .. in replacements.into_iter().rev()`
  abbrev pub splice_all : List (Replacement A) → List A → List A
  splice_all [] xs = xs
  splice_all (r ∷ rs) xs = splice r (splice_all rs xs)

  abbrev pub insert_by_start : Replacement A → List (Replacement A) → List (Replacement A)
  insert_by_start r rs = insert_by (λ s. s.start) r rs

  -- `sort_by_key(|(start, ..)| *start)`
  abbrev pub sort_by_start : List (Replacement A) → List (Replacement A)
  sort_by_start rs = sort_by (λ s. s.start) rs

  -- The ranges begin at `lo` or later, one behind the other, and end at `hi` or earlier.
  abbrev pub Ordered : ℕ → ℕ → List (Replacement A) → Type 0
  Ordered lo hi [] = lo ≤ hi
  Ordered lo hi (r ∷ rs) = (lo ≤ r.start) × Ordered (r.start + r.count) hi rs

  -- What a reader from the left expects: the elements between the ranges, in their places.
  abbrev pub rebuilt : ℕ → List A → List (Replacement A) → List A
  rebuilt at xs [] = drop at xs
  rebuilt at xs (r ∷ rs) = slice at r.start xs ++ r.new ++ rebuilt (r.start + r.count) xs rs

  take_front :
      (a b : ℕ) (xs ys : List A) → a ≤ b → b ≤ length xs → take a (take b xs ++ ys) ≡ take a xs
  take_front zero b xs ys le fits = refl
  take_front (suc a) zero xs ys le fits = absurd (omega arith)
  take_front (suc a) (suc b) [] ys le fits = absurd (omega arith)
  take_front (suc a) (suc b) (x ∷ xs) ys le fits =
      ap (◌∷◌ x) (take_front a b xs ys (omega arith) (omega arith))

  drop_front : (b : ℕ) (xs ys : List A) → b ≤ length xs → drop b (take b xs ++ ys) ≡ ys
  drop_front zero xs ys fits = refl
  drop_front (suc b) [] ys fits = absurd (omega arith)
  drop_front (suc b) (x ∷ xs) ys fits = drop_front b xs ys (omega arith)

  take-slice : (a b : ℕ) (xs : List A) → a ≤ b → take a xs ++ slice a b xs ≡ take b xs
  take-slice a b xs le =
      let at : a + (b - a) ≡ b = omega arith in sym (take_add a (b - a) xs) ∙ ap (λ n. take n xs) at

  Ordered-le : (lo hi : ℕ) (rs : List (Replacement A)) → Ordered lo hi rs → lo ≤ hi
  Ordered-le lo hi [] o = o
  Ordered-le lo hi (r ∷ rs) o = omega (arith, Ordered-le (r.start + r.count) hi rs o.1, o.0)

  splice_all-rebuilt :
      (lo : ℕ) (xs : List A) (rs : List (Replacement A))
      → Ordered lo (length xs) rs
      → splice_all rs xs ≡ take lo xs ++ rebuilt lo xs rs
  splice_all-rebuilt lo xs [] o = sym (take-append-drop lo xs)
  splice_all-rebuilt lo xs (r ∷ rs) (le, o) =
      let end = r.start + r.count in
      let fits = Ordered-le end (length xs) rs o in
      let later : splice_all rs xs ≡ take end xs ++ rebuilt end xs rs =
        splice_all-rebuilt end xs rs o in
      rw
        (
          later,
          take_front r.start end xs (rebuilt end xs rs) (omega arith) fits,
          drop_front end xs (rebuilt end xs rs) fits,
          sym (take-slice lo r.start xs le),
        )
        (simp append_assoc)

  -- Putting ordered ranges in place from the last to the first gives what a reader from the left
  -- expects.
  pub splice_all-Rebuilds :
      (xs : List A) (rs : List (Replacement A))
      → Ordered 0 (length xs) rs
      → splice_all rs xs ≡ rebuilt 0 xs rs
  splice_all-Rebuilds xs rs o = splice_all-rebuilt 0 xs rs o

  pub insert_by_start-first :
      (r : Replacement A) (hi : ℕ) (rs : List (Replacement A))
      → Ordered (r.start + r.count) hi rs
      → insert_by_start r rs ≡ r ∷ rs
  insert_by_start-first r hi [] o = refl
  insert_by_start-first r hi (s ∷ rs) o = ground (arith, o.0)

  -- An insertion at the very end stays behind all ranges that are not there.
  pub insert_by_start-Ordered :
      (lo hi : ℕ) (r : Replacement A) (rs : List (Replacement A))
      → r.start ≡ hi
      → r.count ≡ 0
      → Ordered lo hi rs
      → Ordered lo hi (insert_by_start r rs)
  insert_by_start-Ordered lo hi r [] at none o = (omega arith, omega arith)
  insert_by_start-Ordered lo hi r (s ∷ rs) at none (le, o) =
      let rest = insert_by_start-Ordered (s.start + s.count) hi r rs at none o in
      let fits = Ordered-le (s.start + s.count) hi rs o in
      elim (Bool-cases (ltb s.start r.start)) [
        | inl before ↦ rw before (le, rest)
        | inr after ↦ rw after (omega arith, (ground arith, o))
      ]
