-- ===== src/Core/Runtime/Paging/Traversal.antt =====
-- Pages in a row list every matching execution once, in order.
use execution_provider.Prelude.{
  ℕ, ◌-◌, ◌≤◌, ◌<◌, ◌≡◌, refl, ◌⊎◌, inl, inr, append-nil, Bool, true, false, ◌&&◌, Option, none,
  some, List, [], ◌∷◌, ◌++◌, arith, length, string_eq, nat_eq, Bool-cases, eqb, if◌then◌else◌, max,
}
use execution_provider.Prelude.Dict.{Dict}
use execution_provider.Core.Types.{Uuid, Execution, ExecutionPage, ListRequest, PageCursor}
use execution_provider.Core.Runtime.{Entry, Registry}
use execution_provider.Core.Runtime.Paging.{
  Sorted, listed, scan, range, in_range, matches, page, next_cursor,
}

-- Behind the sequences that are skipped anyway, the start of the range makes no difference.
listed_from :
    (request : ListRequest) (a b through low : ℕ) (d : Dict ℕ Entry)
    → Sorted low d
    → a ≤ low
    → b ≤ low
    → listed request a through d ≡ listed request b through d
listed_from request a b through low [] h ha hb = refl
listed_from request a b through low ((sequence, entry) ∷ rest) h ha hb = ground (
  arith,
  listed_from request a b through sequence rest h.1 (omega (arith, h.0)) (omega (arith, h.0)),
)

-- What the loop returns, against all that is listed.
record Scans (request : ListRequest) (room last after through : ℕ) (d : Dict ℕ Entry)
    (r : List Execution × ℕ × Bool) : Type 0 where
  further : last ≤ r.1
  split : listed request after through d ≡ r.0 ++ (if r.2 then listed request r.1 through d else [])
  fits : length r.0 ≤ room
  filled : (r.2 ≡ false) ⊎ (length r.0 ≡ room)

module _ (request : ListRequest) (after through sequence : ℕ) (entry : Entry)
    (rest : Dict ℕ Entry) where
  -- An entry that is not listed changes nothing.
  pass-Scans :
      (room last : ℕ) (taken : List Execution) (last' : ℕ) (more : Bool)
      → after ≤ last
      → (in_range after through sequence && matches request entry.session.execution) ≡ false
      → Scans request room last after through rest (taken, last', more)
      → Scans request room last after through ((sequence, entry) ∷ rest) (taken, last', more)
  pass-Scans room last taken last' more lo gone s = record {
    further = s.further;
    split = ground (arith, s.split, s.further);
    fits = s.fits;
    filled = s.filled;
  }

  take-Scans :
      (room last : ℕ) (taken : List Execution) (last' : ℕ) (more : Bool)
      → (in_range after through sequence && matches request entry.session.execution) ≡ true
      → eqb room 0 ≡ false
      → last ≤ sequence
      → Scans request (room - 1) sequence after through rest (taken, last', more)
      → Scans request room last after through
          ((sequence, entry) ∷ rest)
          (entry.session.execution ∷ taken, last', more)
  take-Scans room last taken last' more wanted free le s = record {
    further = omega (arith, s.further);
    split = ground (arith, s.split, s.further);
    fits = ground (arith, s.fits);
    filled = ground (arith, s.filled);
  }

  full-Scans :
      (room last : ℕ)
      → (in_range after through sequence && matches request entry.session.execution) ≡ true
      → eqb room 0 ≡ true
      → after ≤ last
      → last < sequence
      → Sorted sequence rest
      → Scans request room last after through ((sequence, entry) ∷ rest) ([], last, true)
  full-Scans room last wanted full lo lt h = record {
    further = omega arith;
    split =
        ground (
          arith,
          listed_from request after last through sequence rest h (omega arith) (omega arith),
        );
    fits = omega arith;
    filled = ground arith;
  }

scan-Scans :
    (request : ListRequest) (room last after through low : ℕ) (d : Dict ℕ Entry)
    → Sorted low d
    → after ≤ last
    → last ≤ max after low
    → Scans request room last after through d (scan request room last (range after through d))
unfolding scan
scan-Scans request room last after through low [] h lo hi = record {
  further = omega arith;
  split = refl;
  fits = omega arith;
  filled = inl refl;
}
scan-Scans request room last after through low ((sequence, entry) ∷ rest) h lo hi =
    let skipped =
      scan-Scans request room last after through sequence rest h.1 lo (omega (arith, h.0)) in
    elim (Bool-cases (in_range after through sequence)) [
      | inr out ↦ rw out (
          pass-Scans request after through sequence entry rest room last _ _ _ lo
            (ground (arith, out)) skipped)
      | inl inside ↦ elim (Bool-cases (matches request entry.session.execution)) [
        | inr other ↦
            rw (inside, other)
              (pass-Scans request after through sequence entry rest room last _ _ _ lo
                (ground (arith, other)) skipped)
        | inl wanted ↦ elim (Bool-cases (eqb room 0)) [
          | inl full ↦
              rw (inside, wanted, full)
                (full-Scans request after through sequence entry rest room last
                  (ground (arith, inside, wanted)) full lo (ground (arith, inside, h.0)) h.1)
          | inr free ↦
              rw (inside, wanted, free)
                (take-Scans request after through sequence entry rest room last _ _ _
                  (ground (arith, inside, wanted)) free (ground (arith, inside, h.0))
                  (scan-Scans request (room - 1) sequence after through sequence rest h.1
                    (ground (arith, inside)) (omega arith)))
        ]
      ]
    ]

-- What a page and its cursor are to all that is listed.
abbrev pub Continues : ListRequest → ℕ → ℕ → Registry → ExecutionPage → Option PageCursor → Type 0
Continues request after through r p none = p.executions ≡ listed request after through r.entries
Continues request after through r p (some cursor) =
    (listed request after through r.entries
      ≡ p.executions ++ listed request cursor.after cursor.through r.entries)
    × (length p.executions ≡ request.limit)
    × (cursor.through ≡ through)
    × (after ≤ cursor.after)

Scans-Continues :
    (generation : Uuid) (request : ListRequest) (after through : ℕ) (r : Registry)
    (taken : List Execution) (last : ℕ) (more : Bool)
    → Scans request request.limit after after through r.entries (taken, last, more)
    → Continues request after through r
        (record {
          executions = taken;
          next_page_cursor = next_cursor generation request last through more;
        })
        (next_cursor generation request last through more)
Scans-Continues generation request after through r taken last true s =
    (s.split, ground (arith, s.filled), refl, s.further)
Scans-Continues generation request after through r taken last false s =
    ground (arith, s.split, append-nil taken)

-- A page of a registry in the order of its sequences lists the first matching executions of its range,
-- no more than the limit; its cursor, when there is one, begins exactly where the page ends, and
-- without a cursor nothing is left.
pub page-Continues :
    (generation : Uuid) (request : ListRequest) (after through : ℕ) (r : Registry)
    → Sorted 0 r.entries
    → let p = page generation request after through r in
      (length p.executions ≤ request.limit) × Continues request after through r p p.next_page_cursor
unfolding page scan
page-Continues generation request after through r h =
    let s =
      scan-Scans request request.limit after after through 0 r.entries h (omega arith)
        (omega arith) in
    (s.fits, Scans-Continues generation request after through r _ _ _ s)
