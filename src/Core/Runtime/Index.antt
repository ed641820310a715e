-- ===== src/Core/Runtime/Index.antt =====
-- The registry's indices: every handle, start and run names an entry that is there, so no operation
-- of the runtime fails on a missing entry.
use execution_provider.Prelude.{
  ℕ, ◌<◌, ◌≡◌, ◌≢◌, refl, sym, ◌∙◌, String, Option, none, some, [], ◌∷◌, map, filterb, arith,
  string_eq, nat_eq,
}
use execution_provider.Prelude.Dict.{
  Dict, get, remove, Distinct, All, All-away, All-remove, All-map, All-filterb, All-self,
  filterb-Distinct, remove-Distinct, get-remove_ne,
}
use execution_provider.Core.Config.{Limits}
use execution_provider.Core.Types.{Uuid, Time, StartRequest, RunRequest}
use execution_provider.Core.Runtime.{
  Entry, Registry, discard, discard_all, cleanup, retain_pending, remove_start, remove_run,
  is_expired,
}

abbrev pub IsHandle : Dict ℕ Entry → Uuid → ℕ → Type 0
IsHandle entries id sequence =
    (entry : Entry) × (get sequence entries ≡ some entry) × (entry.session.execution.handle.id ≡ id)

abbrev pub IsStart : Dict ℕ Entry → String → ℕ → Type 0
IsStart entries start_id sequence =
    (entry : Entry) × (get sequence entries ≡ some entry)
    × (request : StartRequest) × (entry.start_request ≡ some request)
    × (request.start_id ≡ start_id)

abbrev pub IsRun : Dict ℕ Entry → String → ℕ → Type 0
IsRun entries run_id sequence =
    (entry : Entry) × (get sequence entries ≡ some entry)
    × (request : RunRequest) × (entry.run_request ≡ some request)
    × (request.run_id ≡ run_id)

pub record IsIndexed (r : Registry) : Type 0 where
  pub entries : Distinct r.entries
  pub handles : Distinct r.handles × All (IsHandle r.entries) r.handles
  pub starts : Distinct r.starts × All (IsStart r.entries) r.starts
  pub runs : Distinct r.runs × All (IsRun r.entries) r.runs
  pub earlier : All (λ sequence entry. sequence < r.next_sequence) r.entries

module _ (sequence : ℕ) (entry : Entry) (entries : Dict ℕ Entry)
    (here : get sequence entries ≡ some entry) where
  -- What another entry is, it remains when this one is removed.
  still :
      (other : ℕ) (e : Entry)
      → other ≢ sequence
      → get other entries ≡ some e
      → get other (remove sequence entries) ≡ some e
  still other e differs found =
      get-remove_ne sequence other entries (λ same. differs (sym same)) ∙ found

  keeps_IsHandle :
      (id : Uuid) (other : ℕ)
      → id ≢ entry.session.execution.handle.id
      → IsHandle entries id other
      → IsHandle (remove sequence entries) id other
  keeps_IsHandle id other differs (e, found, named) =
      (e, still other e (λ same. ground (arith, here, found, same, differs, named)) found, named)

  keeps_starts :
      (starts : Dict String ℕ)
      → Distinct starts
      → All (IsStart entries) starts
      → (request : Option StartRequest) → entry.start_request ≡ request
      → Distinct (remove_start request starts)
        × All (IsStart (remove sequence entries)) (remove_start request starts)
  keeps_starts starts distinct h none e = (
    distinct,
    All-map (IsStart entries) (IsStart (remove sequence entries)) starts
        (λ id other (x, found, request, started, named). (
          x,
          still other x (λ same. ground (arith, here, found, same, e, started)) found,
          request,
          started,
          named,
        ))
        h,
  )
  keeps_starts starts distinct h (some request) e = (
    remove-Distinct request.start_id starts distinct,
    All-remove (IsStart entries) (IsStart (remove sequence entries)) request.start_id starts
        (λ id other differs (x, found, request', started, named). (
          x,
          still other x (λ same. ground (arith, here, found, same, e, started, named, differs))
              found,
          request',
          started,
          named,
        ))
        distinct h,
  )

  keeps_runs :
      (runs : Dict String ℕ)
      → Distinct runs
      → All (IsRun entries) runs
      → (request : Option RunRequest) → entry.run_request ≡ request
      → Distinct (remove_run request runs)
        × All (IsRun (remove sequence entries)) (remove_run request runs)
  keeps_runs runs distinct h none e = (
    distinct,
    All-map (IsRun entries) (IsRun (remove sequence entries)) runs
        (λ id other (x, found, request, ran, named). (
          x,
          still other x (λ same. ground (arith, here, found, same, e, ran)) found,
          request,
          ran,
          named,
        ))
        h,
  )
  keeps_runs runs distinct h (some request) e = (
    remove-Distinct request.run_id runs distinct,
    All-remove (IsRun entries) (IsRun (remove sequence entries)) request.run_id runs
        (λ id other differs (x, found, request', ran, named). (
          x,
          still other x (λ same. ground (arith, here, found, same, e, ran, named, differs)) found,
          request',
          ran,
          named,
        ))
        distinct h,
  )

discard-IsIndexed :
    (sequence : ℕ) (entry : Entry) (r : Registry)
    → get sequence r.entries ≡ some entry
    → IsIndexed r
    → IsIndexed (discard sequence entry r)
unfolding discard
discard-IsIndexed sequence entry r here h = record {
  entries = remove-Distinct sequence r.entries h.entries;
  handles = (
    remove-Distinct entry.session.execution.handle.id r.handles h.handles.0,
    All-remove (IsHandle r.entries) (IsHandle (remove sequence r.entries))
        entry.session.execution.handle.id r.handles (keeps_IsHandle sequence entry r.entries here)
        h.handles.0 h.handles.1,
  );
  starts =
      keeps_starts sequence entry r.entries here r.starts h.starts.0 h.starts.1 entry.start_request
        refl;
  runs = keeps_runs sequence entry r.entries here r.runs h.runs.0 h.runs.1 entry.run_request refl;
  earlier =
      All-remove (λ s e. s < r.next_sequence) (λ s e. s < r.next_sequence) sequence r.entries
        (λ s e differs lt. lt) h.entries h.earlier;
}

discard_all-IsIndexed :
    (due : Dict ℕ Entry) (r : Registry)
    → Distinct due
    → All (λ s e. get s r.entries ≡ some e) due
    → IsIndexed r
    → (t : Registry) × (discard_all (map (λ p. p.0) due) r ≡ some t) × IsIndexed t
unfolding discard_all discard
discard_all-IsIndexed [] r distinct listed h = (r, refl, h)
discard_all-IsIndexed ((sequence, entry) ∷ due) r distinct listed h =
    rw (listed.0, discard_all)
      (discard_all-IsIndexed due (discard sequence entry r) distinct.1
        (All-away (λ s e. get s r.entries ≡ some e)
          (λ s e. get s (remove sequence r.entries) ≡ some e) sequence due
          (λ s e differs found. still sequence entry r.entries listed.0 s e differs found)
          distinct.0 listed.1)
        (discard-IsIndexed sequence entry r listed.0 h))

-- A cleanup of an indexed registry never panics, and leaves it indexed.
pub cleanup-IsIndexed :
    (now : Time) (limits : Limits) (r : Registry)
    → IsIndexed r
    → (t : Registry) × (cleanup now limits r ≡ some t) × IsIndexed t
unfolding cleanup
cleanup-IsIndexed now limits r h =
    discard_all-IsIndexed (filterb (λ p. is_expired now limits p.1) r.entries)
      (retain_pending now limits r)
      (filterb-Distinct (λ p. is_expired now limits p.1) r.entries h.entries)
      (All-filterb (λ s e. get s r.entries ≡ some e) (λ p. is_expired now limits p.1) r.entries
        (All-self r.entries h.entries))
      (record {
        entries = h.entries;
        handles = h.handles;
        starts = h.starts;
        runs = h.runs;
        earlier = h.earlier;
      })
