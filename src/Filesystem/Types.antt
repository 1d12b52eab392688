-- ===== src/Filesystem/Types.antt =====
-- kernel/filesystem.h: the records and the constants of the in-memory filesystem.
use quillos.Prelude.{ℕ, Bool, true, false, List, [], replicate}

-- `FileType`
pub data FileType : Type 0 where
  file_unused file_regular file_directory : FileType

abbrev pub is_unused : FileType → Bool
is_unused file_unused = true
is_unused _ = false

abbrev pub is_regular : FileType → Bool
is_regular file_regular = true
is_regular _ = false

abbrev pub is_directory : FileType → Bool
is_directory file_directory = true
is_directory _ = false

abbrev pub max_files : ℕ
max_files = 64

abbrev pub max_name_len : ℕ
max_name_len = 32

abbrev pub max_path_len : ℕ
max_path_len = 128

abbrev pub max_file_data : ℕ
max_file_data = 1024

-- `kind` is the source's `type`, and `content` its `data`.
pub record FileEntry : Type 0 where
  pub name : List ℕ
  pub parent : List ℕ
  pub kind : FileType
  pub content : List ℕ
  pub size : ℕ

-- A zeroed entry.
abbrev pub no_entry : FileEntry
no_entry = record {
  name = [];
  parent = [];
  kind = file_unused;
  content = replicate max_file_data 0;
  size = 0;
}

pub record Filesystem : Type 0 where
  pub entries : List FileEntry
