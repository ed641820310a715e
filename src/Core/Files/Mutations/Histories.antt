-- ===== src/Core/Files/Mutations/Histories.antt =====
-- Histories of mutations, and what a repeated request is answered in them.
use execution_provider.Prelude.{
  ℕ, ◌*◌, ◌≤◌, ◌<◌, ◌≡◌, refl, sym, ap, subst, ◌∙◌, inl, inr, true, Option, some, [], arith,
  Bool-cases, Option-cases, is_some, length, ltb, leb,
}
use execution_provider.Prelude.Text.{Text, text_eq}
use execution_provider.Prelude.Dict.{get}
use execution_provider.Core.Errors.{Result, ok, err, ◌>>=◌}
use execution_provider.Core.Types.{Bytes}
use execution_provider.Core.Files.{FilePath, WriteFileRequest, RemoveFileRequest, Os}
use execution_provider.Core.Patch.{ApplyPatchRequest, max_patch_bytes}
use execution_provider.Core.Patch.Receipts.{PatchReceipt}
use execution_provider.Core.Files.Mutations.{
  MutationFingerprint, MutationOutcome, Registry, FileHost, Mutation, mutate, submit,
  write_mutation, check_write, write_file, remove_mutation, check_remove, remove_file,
  patch_mutation, check_patch, admit_patch, apply_patch, ensure_receipt_capacity,
}
use execution_provider.Core.Files.Mutations.Replay.{
  IsReplayable, IsLimited, mutate_keeps, mutate_bounded, mutate_replays,
}

-- Every value of a result that is there.
abbrev Holds : {A : Type 0} → (A → Type 0) → Result A → Type 0
Holds P (ok a) = P a
Holds P (err e) = Unit

bind-Holds :
    {A B : Type 0} (P : B → Type 0) (r : Result A) (f : A → B)
    → ((a : A) → P (f a))
    → Holds P (r >>= λ a. ok (f a))
bind-Holds P (ok a) f h = h a
bind-Holds P (err e) f h = tt

capacity_limited :
    (maximum : ℕ) (registry : Registry) (u : Unit {0})
    → ensure_receipt_capacity registry maximum ≡ ok u
    → length registry < maximum
unfolding ensure_receipt_capacity
capacity_limited maximum registry u h = elim (Bool-cases (leb maximum (length registry))) [
  | inl full ↦ absurd (ground arith)
  | inr room ↦ ground arith
]

module _ {Disk : Type 0} (os : Os Disk) (host : FileHost) where
  -- What every prepared mutation is.
  abbrev IsSound : {A : Type 0} → Text → Mutation Disk A → Type 0
  IsSound id m = (m.id ≡ id) × IsReplayable m × IsLimited host.limits.max_file_mutation_receipts m

  write-IsSound :
      (request : WriteFileRequest) (path : FilePath)
      → IsSound request.mutation_id (write_mutation os host request path)
  write-IsSound request path =
      (refl, λ d. refl, capacity_limited host.limits.max_file_mutation_receipts)

  remove-IsSound :
      (request : RemoveFileRequest) (path : FilePath)
      → IsSound request.mutation_id (remove_mutation os host request path)
  remove-IsSound request path =
      (refl, λ d. refl, capacity_limited host.limits.max_file_mutation_receipts)

  patch_admitted :
      (request : ApplyPatchRequest) (encoded : Bytes) (registry : Registry) (u : Unit {0})
      → admit_patch os host encoded registry ≡ ok u
      → length registry < host.limits.max_file_mutation_receipts
  patch_admitted request encoded registry u h =
      elim (Bool-cases (ltb (max_patch_bytes * 2) (length encoded))) [
        | inl long ↦ absurd (ground arith)
        | inr fits ↦
            capacity_limited host.limits.max_file_mutation_receipts registry u (rw fits at h)
      ]

  patch-IsSound :
      (receipt_size : PatchReceipt → Option ℕ) (request : ApplyPatchRequest)
      (named : FilePath × Bytes)
      → IsSound request.mutation_id (patch_mutation os host receipt_size request named.1 named.0)
  patch-IsSound receipt_size request named =
      (refl, λ d. refl, λ registry u h. patch_admitted request named.1 registry u h)

  -- What a submitted mutation keeps.
  submit_keeps :
      {A : Type 0} (name : Text) (r : Result (Mutation Disk A)) (registry : Registry) (disk : Disk)
      (id : Text) (entry : MutationFingerprint × MutationOutcome)
      → get id registry ≡ some entry
      → get id (submit r registry disk).1 ≡ some entry
  unfolding submit
  submit_keeps name (err e) registry disk id entry h = h
  submit_keeps name (ok m) registry disk id entry h = mutate_keeps m registry disk id entry h

  submit_bounded :
      {A : Type 0} (name : Text) (r : Result (Mutation Disk A)) (registry : Registry) (disk : Disk)
      → Holds (IsSound name) r
      → length registry ≤ host.limits.max_file_mutation_receipts
      → length (submit r registry disk).1 ≤ host.limits.max_file_mutation_receipts
  unfolding submit
  submit_bounded name (err e) registry disk sound h = h
  submit_bounded name (ok m) registry disk (named, replays, limited) h =
      mutate_bounded host.limits.max_file_mutation_receipts m registry disk limited h

  submit_replays :
      {A : Type 0} (name : Text) (r : Result (Mutation Disk A)) (registry later : Registry)
      (disk now : Disk)
      → Holds (IsSound name) r
      → is_some (get name (submit r registry disk).1) ≡ true
      → get name later ≡ get name (submit r registry disk).1
      → submit r later now ≡ ((submit r registry disk).0, later, now)
  unfolding submit
  submit_replays name (err e) registry later disk now sound recorded kept = refl
  submit_replays name (ok m) registry later disk now (named, replays, limited) recorded kept =
      mutate_replays m registry later disk now replays
        (subst (λ n. is_some (get n (mutate m registry disk).1) ≡ true) (sym named) recorded)
        (subst (λ n. get n later ≡ get n (mutate m registry disk).1) (sym named) kept)

module _ {Disk : Type 0} (os : Os Disk) (host : FileHost)
    (encode : ApplyPatchRequest → Option Bytes) (receipt_size : PatchReceipt → Option ℕ) where
  -- One operation on the registry. The files may be any: others change them as well.
  pub data Step : Registry → Registry → Type 0 where
    write :
        (request : WriteFileRequest) (registry : Registry) (disk : Disk)
        → Step registry (write_file os host request registry disk).1
    remove :
        (request : RemoveFileRequest) (registry : Registry) (disk : Disk)
        → Step registry (remove_file os host request registry disk).1
    patch :
        (request : ApplyPatchRequest) (registry : Registry) (disk : Disk)
        → Step registry (apply_patch os host encode receipt_size request registry disk).1

  pub data Steps : Registry → Registry → Type 0 where
    stop : (registry : Registry) → Steps registry registry
    more : (a b c : Registry) → Steps a b → Step b c → Steps a c

  Step-keeps :
      (a b : Registry) (id : Text) (entry : MutationFingerprint × MutationOutcome)
      → Step a b
      → get id a ≡ some entry
      → get id b ≡ some entry
  unfolding write_file remove_file apply_patch
  Step-keeps _ _ id entry (Step.write request a disk) h =
      submit_keeps os host request.mutation_id
        (check_write os host request >>= λ path. ok (write_mutation os host request path)) a disk id
        entry h
  Step-keeps _ _ id entry (Step.remove request a disk) h =
      submit_keeps os host request.mutation_id
        (check_remove os host request >>= λ path. ok (remove_mutation os host request path)) a disk
        id entry h
  Step-keeps _ _ id entry (Step.patch request a disk) h =
      submit_keeps os host request.mutation_id
        (check_patch os host encode request >>= λ (cwd, encoded).
          ok (patch_mutation os host receipt_size request encoded cwd))
        a disk id entry h

  Steps-keeps :
      (a b : Registry) (id : Text) (entry : MutationFingerprint × MutationOutcome)
      → Steps a b
      → get id a ≡ some entry
      → get id b ≡ some entry
  Steps-keeps _ _ id entry (Steps.stop a) h = h
  Steps-keeps _ _ id entry (Steps.more a c b steps step) h =
      Step-keeps c b id entry step (Steps-keeps a c id entry steps h)

  Step-bounded :
      (a b : Registry)
      → Step a b
      → length a ≤ host.limits.max_file_mutation_receipts
      → length b ≤ host.limits.max_file_mutation_receipts
  unfolding write_file remove_file apply_patch
  Step-bounded _ _ (Step.write request a disk) h =
      submit_bounded os host request.mutation_id
        (check_write os host request >>= λ path. ok (write_mutation os host request path)) a disk
        (bind-Holds (IsSound os host request.mutation_id) (check_write os host request)
          (write_mutation os host request) (write-IsSound os host request))
        h
  Step-bounded _ _ (Step.remove request a disk) h =
      submit_bounded os host request.mutation_id
        (check_remove os host request >>= λ path. ok (remove_mutation os host request path)) a disk
        (bind-Holds (IsSound os host request.mutation_id) (check_remove os host request)
          (remove_mutation os host request) (remove-IsSound os host request))
        h
  Step-bounded _ _ (Step.patch request a disk) h =
      submit_bounded os host request.mutation_id
        (check_patch os host encode request >>= λ (cwd, encoded).
          ok (patch_mutation os host receipt_size request encoded cwd))
        a disk
        (bind-Holds (IsSound os host request.mutation_id) (check_patch os host encode request)
          (λ (cwd, encoded). patch_mutation os host receipt_size request encoded cwd)
          (patch-IsSound os host receipt_size request))
        h

  -- Whatever writes, removals and patches are requested, in whatever order and with whatever else
  -- happening to the files, the registry that began empty holds no more receipts than configured.
  pub Steps-IsBounded :
      (registry : Registry)
      → Steps [] registry
      → length registry ≤ host.limits.max_file_mutation_receipts
  Steps-IsBounded registry steps = go [] registry steps (omega arith)
    where
      go :
          (a b : Registry)
          → Steps a b
          → length a ≤ host.limits.max_file_mutation_receipts
          → length b ≤ host.limits.max_file_mutation_receipts
      go _ _ (Steps.stop a) h = h
      go _ _ (Steps.more a c b steps step) h = Step-bounded c b step (go a c steps h)

  kept_entry :
      (a b : Registry) (id : Text) → Steps a b → is_some (get id a) ≡ true → get id b ≡ get id a
  kept_entry a b id steps recorded = elim (Option-cases (get id a)) [
    | inl none_there ↦ absurd (cc (recorded, ap is_some none_there))
    | inr (entry, there) ↦ Steps-keeps a b id entry steps there ∙ sym there
  ]

  -- A write that was recorded is carried out once: repeated at any later time, after any other
  -- mutations, it is answered as it was, and it touches neither the registry nor the files.
  pub write_file_once :
      (request : WriteFileRequest) (registry later : Registry) (disk now : Disk)
      → is_some (get request.mutation_id (write_file os host request registry disk).1) ≡ true
      → Steps (write_file os host request registry disk).1 later
      → write_file os host request later now
        ≡ ((write_file os host request registry disk).0, later, now)
  unfolding write_file
  write_file_once request registry later disk now recorded steps =
      submit_replays os host request.mutation_id
        (check_write os host request >>= λ path. ok (write_mutation os host request path)) registry
        later disk now
        (bind-Holds (IsSound os host request.mutation_id) (check_write os host request)
          (write_mutation os host request) (write-IsSound os host request))
        recorded
        (kept_entry (write_file os host request registry disk).1 later request.mutation_id steps
          recorded)

  -- A patch that was recorded is carried out once: repeated at any later time, after any other
  -- mutations, it is answered with its receipt, and it touches neither the registry nor the files.
  pub apply_patch_once :
      (request : ApplyPatchRequest) (registry later : Registry) (disk now : Disk)
      → is_some (
          get request.mutation_id (apply_patch os host encode receipt_size request registry disk).1)
        ≡ true
      → Steps (apply_patch os host encode receipt_size request registry disk).1 later
      → apply_patch os host encode receipt_size request later now
        ≡ ((apply_patch os host encode receipt_size request registry disk).0, later, now)
  unfolding apply_patch
  apply_patch_once request registry later disk now recorded steps =
      submit_replays os host request.mutation_id
        (check_patch os host encode request >>= λ (cwd, encoded).
          ok (patch_mutation os host receipt_size request encoded cwd))
        registry later disk now
        (bind-Holds (IsSound os host request.mutation_id) (check_patch os host encode request)
          (λ (cwd, encoded). patch_mutation os host receipt_size request encoded cwd)
          (patch-IsSound os host receipt_size request))
        recorded
        (kept_entry (apply_patch os host encode receipt_size request registry disk).1 later
          request.mutation_id steps recorded)
