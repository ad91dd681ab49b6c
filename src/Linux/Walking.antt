-- ===== src/Linux/Walking.antt =====
-- internal/backend/helpers.go: walkPath. The file system is a parameter: `lstat` says whether the
-- path is a directory, and `tree` what filepath.WalkDir finds below it, in its order.
use go_gaze.Common.{Bool, true, false, not, Option, none, some, Bytes, if◌then◌else◌}
use go_gaze.Errors.{Error, Result, ok, err}

mutual
  pub data FileTree : Type 0 where
    file : Bytes → FileTree
    directory : Bytes → Forest → FileTree
    -- A directory that cannot be read.
    unreadable : Bytes → Error → FileTree

  pub data Forest : Type 0 where
    leaf : Forest
    more : FileTree → Forest → Forest

pub record Files : Type 0 where
  pub lstat : Bytes → Result Bool
  pub tree : Bytes → Result FileTree

-- `shouldExclude != nil && shouldExclude(path, isDir)`
abbrev pub is_excluded : Option (Bytes → Bool → Bool) → Bytes → Bool → Bool
is_excluded none path is_dir = false
is_excluded (some should_exclude) path is_dir = should_exclude path is_dir

-- A callback changes a state, and returns nil or an error.
abbrev pub Callback : Type 0 → Type 0
Callback S = Bytes → Bool → S → S × Option Error

module _ {S : Type 0} where
  abbrev pub and_then : S × Option Error → (S → S × Option Error) → S × Option Error
  and_then (s, none) f = f s
  and_then (s, some e) f = (s, some e)

  unfoldable mutual
    -- filepath.WalkDir with the callback of walkPath: an excluded directory is skipped, an error of
    -- the callback or of the file system ends the walk.
    pub walk_tree : Option (Bytes → Bool → Bool) → Callback S → FileTree → S → S × Option Error
    walk_tree exclude fn (file path) s =
        if is_excluded exclude path false then (s, none) else fn path false s
    walk_tree exclude fn (directory path entries) s =
        if is_excluded exclude path true
        then (s, none)
        else and_then (fn path true s) (λ s'. walk_forest exclude fn entries s')
    walk_tree exclude fn (unreadable path e) s =
        if is_excluded exclude path true
        then (s, none)
        else and_then (fn path true s) (λ s'. (s', some e))

    pub walk_forest : Option (Bytes → Bool → Bool) → Callback S → Forest → S → S × Option Error
    walk_forest exclude fn leaf s = (s, none)
    walk_forest exclude fn (more t rest) s =
        and_then (walk_tree exclude fn t s) (λ s'. walk_forest exclude fn rest s')

  abbrev pub walk_found :
      Option (Bytes → Bool → Bool) → Callback S → Result FileTree → S → S × Option Error
  walk_found exclude fn (err e) s = (s, some e)
  walk_found exclude fn (ok t) s = walk_tree exclude fn t s

  abbrev pub walk_one : Callback S → Bytes → Result Bool → S → S × Option Error
  walk_one fn path (err e) s = (s, some e)
  walk_one fn path (ok is_dir) s = fn path is_dir s

  -- walkPath
  unfoldable pub walk_path :
      Files → Bytes → Bool → Option (Bytes → Bool → Bool) → Callback S → S → S × Option Error
  walk_path files root recursive exclude fn s =
      if not recursive
      then walk_one fn root (files.lstat root) s
      else walk_found exclude fn (files.tree root) s
