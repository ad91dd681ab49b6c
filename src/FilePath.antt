-- ===== src/FilePath.antt =====
-- internal/utils/path.go, on the builds where `filepath.Separator` is '/', with `ParentDir`'s
-- `strings.LastIndexByte`. The children prove what the three helpers do.
pub mod Prefix
pub mod Parent
pub mod Ancestors
mod Tests
use go_gaze.Common.{
  ℕ, zero, suc, ◌+◌, Bool, true, false, ◌&&◌, ◌||◌, Option, none, some, List, [], ◌∷◌, ◌++◌, Bytes,
  ltb, ◌==◌, nat_eq, bytes_eq, length, get_elem?, take, drop, if◌then◌else◌,
}

abbrev pub separator : ℕ
separator = b'/'

abbrev pub dot : ℕ
dot = b'.'

-- s[i] == c, where the caller has checked that i < len(s).
abbrev pub byte_is : Bytes → ℕ → ℕ → Bool
byte_is s i c = elim (get_elem? s i) [ none ↦ false | some b ↦ b == c ]

-- strings.LastIndexByte, with `none` for -1.
unfoldable pub last_index_byte : Bytes → ℕ → Option ℕ
last_index_byte [] c = none
last_index_byte (x ∷ s) c = elim (last_index_byte s c) [
  | some i ↦ some (suc i)
  | none ↦ if x == c then some 0 else none
]

-- HasPathPrefix
unfoldable pub has_path_prefix : Bytes → Bytes → Bool
has_path_prefix path prefix =
    path == prefix
    || (ltb (length prefix) (length path)
        && (take (length prefix) path == prefix && byte_is path (length prefix) separator))

-- JoinMovedPath
unfoldable pub join_moved_path : Bytes → Bytes → Bytes → Bytes
join_moved_path path old_prefix new_prefix =
    if path == old_prefix then new_prefix else new_prefix ++ drop (length old_prefix) path

-- path[:idx] for a separator found at idx, by the three cases of ParentDir.
unfoldable pub parent_at : Bytes → Option ℕ → Bytes
parent_at path none = dot ∷ []
parent_at path (some zero) = separator ∷ []
parent_at path (some (suc i)) = take (suc i) path

-- ParentDir
unfoldable pub parent_dir : Bytes → Bytes
unfolding parent_at last_index_byte
parent_dir path = parent_at path (last_index_byte path separator)
