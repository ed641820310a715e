-- ===== src/Core/Requests.antt =====
-- packages/process-execution-core/src/types.rs: the equality that `StartRequest` and `RunRequest`
-- derive, by which a repeated request is told from a conflicting one.
use execution_provider.Prelude.{
  ℕ, String, Bool, true, false, ◌&&◌, Option, none, some, List, [], ◌∷◌, eqb, ◌==◌, string_eq,
}
use execution_provider.Core.Types.{
  Command, IoMode, Shell, ShellKind, ShellSnapshotRequest, StartRequest, RunRequest,
}

abbrev same_bool : Bool → Bool → Bool
same_bool true b = b
same_bool false true = false
same_bool false false = true

abbrev same_option {ℓ} : {A : Type ℓ} → (A → A → Bool) → Option A → Option A → Bool
same_option same none none = true
same_option same (some a) (some b) = same a b
same_option same _ _ = false

abbrev same_list {ℓ} : {A : Type ℓ} → (A → A → Bool) → List A → List A → Bool
same_list same [] [] = true
same_list same (x ∷ xs) (y ∷ ys) = same x y && same_list same xs ys
same_list same _ _ = false

abbrev same_string : String → String → Bool
same_string a b = a == b

abbrev same_pair : String × String → String × String → Bool
same_pair a b = a.0 == b.0 && a.1 == b.1

abbrev kind_number : ShellKind → ℕ
kind_number ShellKind.sh = 0
kind_number ShellKind.bash = 1
kind_number ShellKind.zsh = 2
kind_number ShellKind.power_shell = 3
kind_number ShellKind.cmd = 4

abbrev same_shell : Shell → Shell → Bool
same_shell a b = a.executable == b.executable && eqb (kind_number a.kind) (kind_number b.kind)

abbrev same_command : Command → Command → Bool
same_command (Command.program a xs) (Command.program b ys) = a == b && same_list same_string xs ys
same_command (Command.shell a s m) (Command.shell b t n) =
    a == b && (same_option same_shell s t && same_bool m n)
same_command _ _ = false

abbrev same_io : IoMode → IoMode → Bool
same_io (IoMode.pipes a) (IoMode.pipes b) = same_bool a b
same_io (IoMode.pty r c) (IoMode.pty s d) = eqb r s && eqb c d
same_io _ _ = false

abbrev same_snapshot : ShellSnapshotRequest → ShellSnapshotRequest → Bool
same_snapshot a b = a.scope_id == b.scope_id

unfoldable pub same_start_request : StartRequest → StartRequest → Bool
same_start_request a b =
    a.start_id == b.start_id
    && (same_command a.command b.command
        && (same_option same_string a.cwd b.cwd
            && (same_list same_pair a.env b.env
                && (same_option same_snapshot a.shell_snapshot b.shell_snapshot
                    && (same_io a.io b.io
                        && (eqb a.wait_ms b.wait_ms
                            && (same_option eqb a.max_output_bytes b.max_output_bytes
                                && same_list same_pair a.labels b.labels)))))))

unfoldable pub same_run_request : RunRequest → RunRequest → Bool
same_run_request a b =
    a.run_id == b.run_id
    && (same_command a.command b.command
        && (same_option same_string a.cwd b.cwd
            && (same_list same_pair a.env b.env
                && (same_option same_snapshot a.shell_snapshot b.shell_snapshot
                    && (same_option eqb a.timeout_ms b.timeout_ms
                        && (same_option eqb a.max_output_bytes b.max_output_bytes
                            && same_list same_pair a.labels b.labels))))))
