-- ===== src/Core/Files/Tests.antt =====
-- The file operations on a file system in memory.
use execution_provider.Prelude.{
  ℕ, ◌≡◌, ◌≤◌, refl, true, false, Option, none, some, [], ◌∷◌, length, is_some,
}
use execution_provider.Prelude.Text.{Text, codes, text_eq}
use execution_provider.Prelude.Dict.{get}
use execution_provider.Core.Config.{default_limits}
use execution_provider.Core.Errors.{err, ErrorCode}
use execution_provider.Core.Files.{WriteFileRequest, WriteFileMode, FilePrecondition, map_io}
use execution_provider.Core.Files.Access.{
  check_precondition, validate_precondition, validate_mutation_id, resolve_file_path, existing_hash,
}
use execution_provider.Core.Files.Writing.{write_file_at}
use execution_provider.Core.Files.Memory.{Memory, memory}
use execution_provider.Core.Files.Mutations.{
  Registry, FileHost, write_file, apply_patch, ensure_receipt_capacity,
}
use execution_provider.Core.Files.Mutations.Histories.{
  Step, Steps, Steps-IsBounded, write_file_once, apply_patch_once,
}
use execution_provider.Core.Patch.{ApplyPatchRequest, PatchInput}
use execution_provider.Core.Patch.Receipts.{PatchReceipt}

abbrev disk : Memory
disk = record { visible = (codes "a", codes "old") ∷ []; hidden = [] }

abbrev host : FileHost
host = record { cwd = codes "/"; limits = default_limits; is_shutdown = false }

abbrev create_b : WriteFileRequest
create_b = record {
  mutation_id = codes "m1";
  cwd = none;
  path = codes "b";
  bytes = codes "new";
  create_parent_directories = true;
  mode = WriteFileMode.conditional FilePrecondition.missing;
}

written_b :
    (write_file memory host create_b [] disk).2
    ≡ record { visible = (codes "a", codes "old") ∷ (codes "b", codes "new") ∷ []; hidden = [] }
unfolding write_file resolve_file_path validate_mutation_id validate_precondition write_file_at
    existing_hash check_precondition ensure_receipt_capacity map_io
written_b = refl

-- A write that expects a missing file does not touch one that is there.
refused_a :
    write_file_at memory
      (codes "m2")
      (codes "a")
      (codes "new")
      true
      (WriteFileMode.conditional FilePrecondition.missing)
      100
      disk
    ≡ (
      err (record {
        code = ErrorCode.precondition_failed;
        message = "file changed after it was read";
      }),
      disk,
    )
unfolding write_file_at existing_hash check_precondition
refused_a = refl

abbrev encode : ApplyPatchRequest → Option Text
encode request = some request.mutation_id

abbrev receipt_size : PatchReceipt → Option ℕ
receipt_size r = some 100

abbrev registry_b : Registry
registry_b = (write_file memory host create_b [] disk).1

b_is_recorded : is_some (get (codes "m1") registry_b) ≡ true
unfolding write_file resolve_file_path validate_mutation_id validate_precondition write_file_at
    existing_hash check_precondition ensure_receipt_capacity
b_is_recorded = refl

abbrev one_write : Steps memory host encode receipt_size [] registry_b
one_write = Steps.more [] [] registry_b (Steps.stop []) (Step.write create_b [] disk)

Steps-IsBounded_example : length registry_b ≤ 4096
Steps-IsBounded_example = Steps-IsBounded memory host encode receipt_size registry_b one_write

write_file_once_example :
    write_file memory host create_b registry_b disk
    ≡ ((write_file memory host create_b [] disk).0, registry_b, disk)
write_file_once_example =
    write_file_once memory host encode receipt_size create_b [] registry_b disk disk b_is_recorded
      (Steps.stop registry_b)

abbrev delete_a : ApplyPatchRequest
delete_a = record {
  mutation_id = codes "p1";
  cwd = none;
  patch = PatchInput.codex (codes "*** Begin Patch\n*** Delete File: a\n*** End Patch");
}

abbrev registry_p : Registry
registry_p = (apply_patch memory host encode receipt_size delete_a [] disk).1

p_is_recorded : is_some (get (codes "p1") registry_p) ≡ true
unfolding apply_patch resolve_file_path validate_mutation_id ensure_receipt_capacity
p_is_recorded = refl

apply_patch_once_example :
    apply_patch memory host encode receipt_size delete_a registry_p disk
    ≡ ((apply_patch memory host encode receipt_size delete_a [] disk).0, registry_p, disk)
apply_patch_once_example =
    apply_patch_once memory host encode receipt_size delete_a [] registry_p disk disk p_is_recorded
      (Steps.stop registry_p)
