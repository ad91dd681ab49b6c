-- ===== src/Linux/Walked.antt =====
-- internal/backend/helpers.go: walkPath keeps what its callback keeps.
use go_gaze.Common.{Bool, true, false, not, Option, none, some, Bytes, if_keeps}
use go_gaze.Errors.{Error, Result, ok, err}
use go_gaze.Linux.Walking.{
  FileTree, file, directory, unreadable, Forest, leaf, more, Files, Callback, and_then, is_excluded,
  walk_tree, walk_forest, walk_one, walk_found, walk_path,
}

module _ {S : Type 0} (P : S → Type 0) (exclude : Option (Bytes → Bool → Bool)) (fn : Callback S)
    (keep : (path : Bytes) (is_dir : Bool) (s : S) → P s → P (fn path is_dir s).0) where
  abbrev Kept : S × Option Error → Type 0
  Kept r = P r.0

  and_then-Kept :
      (r : S × Option Error) (f : S → S × Option Error)
      → P r.0
      → ((s : S) → P s → P (f s).0)
      → P (and_then r f).0
  and_then-Kept (s, none) f p k = k s p
  and_then-Kept (s, some e) f p k = p

  mutual
    unfolding walk_tree walk_forest

    walk_tree-Kept : (t : FileTree) (s : S) → P s → P (walk_tree exclude fn t s).0
    walk_tree-Kept (file path) s p =
        if_keeps Kept (is_excluded exclude path false) p (keep path false s p)
    walk_tree-Kept (directory path entries) s p = if_keeps Kept (is_excluded exclude path true) p (
        and_then-Kept (fn path true s) _ (keep path true s p)
          (λ s' p'. walk_forest-Kept entries s' p'))
    walk_tree-Kept (unreadable path e) s p =
        if_keeps Kept (is_excluded exclude path true) p
          (and_then-Kept (fn path true s) _ (keep path true s p) (λ s' p'. p'))

    walk_forest-Kept : (t : Forest) (s : S) → P s → P (walk_forest exclude fn t s).0
    walk_forest-Kept leaf s p = p
    walk_forest-Kept (more t rest) s p =
        and_then-Kept (walk_tree exclude fn t s) _ (walk_tree-Kept t s p)
          (λ s' p'. walk_forest-Kept rest s' p')

  walk_one-Kept : (path : Bytes) (r : Result Bool) (s : S) → P s → P (walk_one fn path r s).0
  walk_one-Kept path (err e) s p = p
  walk_one-Kept path (ok is_dir) s p = keep path is_dir s p

  walk_found-Kept : (r : Result FileTree) (s : S) → P s → P (walk_found exclude fn r s).0
  walk_found-Kept (err e) s p = p
  walk_found-Kept (ok t) s p = walk_tree-Kept t s p

  pub walk_path-Kept :
      (files : Files) (root : Bytes) (recursive : Bool) (s : S)
      → P s
      → P (walk_path files root recursive exclude fn s).0
  unfolding walk_path
  walk_path-Kept files root recursive s p =
      if_keeps Kept (not recursive) (walk_one-Kept root _ s p) (walk_found-Kept _ s p)
