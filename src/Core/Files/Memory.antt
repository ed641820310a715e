-- ===== src/Core/Files/Memory.antt =====
-- A file system in memory, on which the operations of packages/process-execution-core/src/filesystem.rs
-- run in the tests: one directory, whose names that begin with a dot are hidden, and digests that are
-- the bytes themselves.
use execution_provider.Prelude.{
  ℕ, ◌≡◌, refl, Bool, true, false, Option, none, some, [], ◌∷◌, eqb, length, take, is_some,
  if◌then◌else◌,
}
use execution_provider.Prelude.Text.{codes, text_eq}
use execution_provider.Prelude.Dict.{Dict, get, get-insert_self, insert, remove, contains_key}
use execution_provider.Core.Types.{Bytes}
use execution_provider.Core.Files.{FilePath, Component, IoError, Io, good, bad, RawMetadata, Os}
use execution_provider.Core.Files.Writing.{temporary_path}
use execution_provider.Core.Files.Writing.Atomic.{KeepsFiles}
use execution_provider.Core.Files.Writing.Contents.{KeepsContents}

pub record Memory : Type 0 where
  pub visible : Dict FilePath Bytes
  pub hidden : Dict FilePath Bytes

abbrev pub is_hidden : FilePath → Bool
is_hidden [] = false
is_hidden (c ∷ path) = eqb c 46

abbrev pub not_there : IoError
not_there = record { is_not_found = true; message = "not found" }

abbrev pub contents : Memory → FilePath → Option Bytes
contents m path = if is_hidden path then get path m.hidden else get path m.visible

abbrev pub file_metadata : Bytes → RawMetadata
file_metadata bytes = record {
  is_file = true;
  is_directory = false;
  is_symlink = false;
  size = length bytes;
  modified = none;
}

abbrev pub stat : Memory → FilePath → Io RawMetadata
stat m path = elim (contents m path) as (λ o. Io RawMetadata) [
  | none ↦ bad not_there
  | some bytes ↦ good (file_metadata bytes)
]

abbrev pub store : FilePath → Bytes → Memory → Io (Unit {0}) × Memory
store path bytes m = (
  good tt,
  if is_hidden path
      then record m { hidden = insert path bytes m.hidden }
      else record m { visible = insert path bytes m.visible },
)

abbrev pub read_first : Memory → FilePath → ℕ → Io Bytes
read_first m path n = elim (contents m path) as (λ o. Io Bytes) [
  | none ↦ bad not_there
  | some bytes ↦ good (take n bytes)
]

abbrev pub unlink : FilePath → Memory → Io (Unit {0}) × Memory
unlink path m =
    if is_hidden path
    then (good tt, record m { hidden = remove path m.hidden })
    else if contains_key path m.visible
    then (good tt, record m { visible = remove path m.visible })
    else (bad not_there, m)

abbrev pub moved : FilePath → FilePath → Memory → Option Bytes → Io (Unit {0}) × Memory
moved source destination m none = (bad not_there, m)
moved source destination m (some bytes) = (
  good tt,
  record { visible = insert destination bytes m.visible; hidden = remove source m.hidden },
)

abbrev pub move : FilePath → FilePath → Memory → Io (Unit {0}) × Memory
move source destination m = moved source destination m (get source m.hidden)

abbrev pub memory : Os Memory
memory = record {
  symlink_metadata = stat;
  metadata = stat;
  read_up_to = read_first;
  read_link = λ m path. bad not_there;
  create_dir_all = λ path m. (good tt, m);
  create_new = λ path m. store path [] m;
  write_all = store;
  sync_all = λ path m. (good tt, m);
  set_permissions = λ path found m. (good tt, m);
  rename = move;
  remove_file = unlink;
  new_uuid = λ m. codes "0";
  current_dir = λ m. good (codes "/");
  canonicalize = λ m path. good path;
  exists = λ m path. is_some (contents m path);
  components = λ path. Component.other path ∷ [];
  pop = λ path. [];
  is_absolute = λ path. true;
  join = λ parent name. name;
  parent = λ path. some (codes "/");
  file_name = λ path. some path;
  sha256 = λ bytes. bytes;
  from_utf8 = λ bytes. some bytes;
  into_bytes = λ text. text;
}

not_moved :
    (source destination : FilePath) (m : Memory) (o : Option Bytes) (e : IoError)
    → (moved source destination m o).0 ≡ bad e
    → (moved source destination m o).1.visible ≡ m.visible
not_moved source destination m none e h = refl
not_moved source destination m (some bytes) e h = absurd (cc h)

-- What prepares a write does not show among the visible files.
pub memory-KeepsFiles : KeepsFiles memory (λ m. m.visible)
memory-KeepsFiles = record {
  made_dirs = λ p m. refl;
  made = λ parent target uuid m. refl;
  filled = λ parent target uuid bytes m. refl;
  synced = λ parent target uuid m. refl;
  permitted = λ parent target uuid found m. refl;
  dropped = λ parent target uuid m. refl;
  not_renamed = λ parent target uuid m e h.
      not_moved (temporary_path memory parent target uuid) target m
        (get (temporary_path memory parent target uuid) m.hidden) e h;
}

moved_contents :
    (source destination : FilePath) (m : Memory) (found : Option Bytes)
    → (moved source destination m found).0 ≡ good tt
    → get destination (moved source destination m found).1.visible ≡ found
moved_contents source destination m none h = absurd (cc h)
moved_contents source destination m (some bytes) h = get-insert_self destination bytes m.visible

-- Temporary files are hidden ones.
pub memory-KeepsContents : KeepsContents memory (λ m p. get p m.hidden) (λ m p. get p m.visible)
memory-KeepsContents = record {
  filled = λ parent target uuid bytes m done.
      get-insert_self (temporary_path memory parent target uuid) bytes m.hidden;
  synced = λ parent target uuid m. refl;
  permitted = λ parent target uuid found m. refl;
  renamed = λ parent target uuid m done.
      moved_contents (temporary_path memory parent target uuid) target m
        (get (temporary_path memory parent target uuid) m.hidden) done;
}
