-- ===== src/Core/Runtime/Paging.antt =====
-- packages/process-execution-core/src/runtime.rs, `list_executions`: the pages of the list of
-- executions. The entries of the registry are in the order of their sequences.
pub mod Traversal
use execution_provider.Prelude.{
  ℕ, ◌+◌, ◌-◌, ◌≤◌, ◌<◌, ◌≡◌, refl, sym, ap, ◌∙◌, ◌⊎◌, inl, inr, String, Bool, true, false, ◌&&◌,
  ◌||◌, not, Option, none, some, List, [], ◌∷◌, ◌++◌, arith, length, string_eq, nat_eq, Bool-cases,
  eqb, ltb, leb, if◌then◌else◌, map, all, filterb, ◌==◌, Eq,
}
use execution_provider.Prelude.Dict.{Dict, get}
use execution_provider.Core.Errors.{Error, Result, ok, err, invalid, ◌>>=◌, ◌>>◌, fail_if}
use execution_provider.Core.Config.{Limits}
use execution_provider.Core.Types.{
  Uuid, Time, Execution, ExecutionPage, ListRequest, PageCursor, StateFilter, is_finished,
}
use execution_provider.Core.Session.{Session}
use execution_provider.Core.Runtime.{Entry, Registry, check_generation, cleanup}

-- `execution.labels.get(key) == Some(value)`
abbrev is_value : Option String → String → Bool
is_value none value = false
is_value (some text) value = text == value

abbrev has_labels : Dict String String → Dict String String → Bool
has_labels wanted labels = all (λ p. is_value (get p.0 labels) p.1) wanted

abbrev passes : StateFilter → Bool → Bool
passes StateFilter.active finished = not finished
passes StateFilter.finished finished = finished
passes StateFilter.all finished = true

abbrev pub matches : ListRequest → Execution → Bool
matches request execution =
    passes request.state (is_finished execution.state) && has_labels request.labels execution.labels

abbrev in_range : ℕ → ℕ → ℕ → Bool
in_range after through sequence = ltb after sequence && leb sequence through

-- The loop of `list_executions` over a range: the executions that still fit, the sequence of the
-- last one, and whether there are more.
scan : ListRequest → ℕ → ℕ → Dict ℕ Entry → List Execution × ℕ × Bool
scan request room last [] = ([], last, false)
scan request room last ((sequence, entry) ∷ rest) =
    let execution = entry.session.execution in
    let skipped = scan request room last rest in
    let (taken, last', more) = scan request (room - 1) sequence rest in
    if matches request execution
    then (if eqb room 0 then ([], last, true) else (execution ∷ taken, last', more))
    else skipped

abbrev range : ℕ → ℕ → Dict ℕ Entry → Dict ℕ Entry
range after through entries = filterb (λ p. in_range after through p.0) entries

abbrev same_filters :
    ⦃e : Eq StateFilter⦄ ⦃d : Eq (Dict String String)⦄ → PageCursor → ListRequest → Bool
same_filters cursor request = cursor.state == request.state && cursor.labels == request.labels

abbrev bounds :
    ⦃e : Eq StateFilter⦄ ⦃d : Eq (Dict String String)⦄
    → Uuid
    → ListRequest
    → Option PageCursor
    → Registry
    → Result (ℕ × ℕ)
bounds generation request none r = ok (0, r.next_sequence - 1)
bounds generation request (some cursor) r = do
  check_generation generation cursor.generation_id
  fail_if (not (same_filters cursor request)) (invalid "list filters changed between pages")
  ok (cursor.after, cursor.through)

abbrev next_cursor : Uuid → ListRequest → ℕ → ℕ → Bool → Option PageCursor
next_cursor generation request after through more =
    if more
    then some (record {
      generation_id = generation;
      after = after;
      through = through;
      state = request.state;
      labels = request.labels;
    })
    else none

unfoldable pub page : Uuid → ListRequest → ℕ → ℕ → Registry → ExecutionPage
unfolding scan
page generation request after through r =
    let (executions, last, more) =
      scan request request.limit after (range after through r.entries) in
    record {
      executions = executions;
      next_page_cursor = next_cursor generation request last through more;
    }

-- `list_executions` on a cleaned registry.
unfoldable pub list_page :
    ⦃e : Eq StateFilter⦄ ⦃d : Eq (Dict String String)⦄
    → Uuid
    → ListRequest
    → Registry
    → Result ExecutionPage
unfolding page
list_page generation request r = do
  fail_if (eqb request.limit 0) (invalid "list limit must be positive")
  (after, through) ← bounds generation request request.page_cursor r
  fail_if (ltb through after || leb r.next_sequence through)
      (invalid "page cursor is ahead of this runtime's execution list")
  ok (page generation request after through r)

-- The entries stand in the order of their sequences, all behind `low`.
abbrev pub Sorted : ℕ → Dict ℕ Entry → Type 0
Sorted low [] = Unit
Sorted low ((sequence, entry) ∷ rest) = (low < sequence) × Sorted sequence rest

-- All executions of the range that match, in order.
abbrev pub listed : ListRequest → ℕ → ℕ → Dict ℕ Entry → List Execution
listed request after through [] = []
listed request after through ((sequence, entry) ∷ rest) =
    if in_range after through sequence && matches request entry.session.execution
    then entry.session.execution ∷ listed request after through rest
    else listed request after through rest
