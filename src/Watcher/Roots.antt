-- ===== src/Watcher/Roots.antt =====
-- watcher.go: what Add, Remove and their target do to the roots of a watcher.
use mathlib.Core.Option.{map}
use go_gaze.Common.{
  ◌≡◌, refl, inl, inr, true, false, ◌&&◌, Option, none, some, arith, Bytes, ◌==◌, bytes_eq,
  bytes_beq_iff, Option-cases, if◌then◌else◌,
}
use go_gaze.Common.Assoc.{lookup, lookup-insert, lookup-delete}
use go_gaze.Errors.{Error, watcher_closed, os_not_exist, ok, bind_result}
use go_gaze.GoPath.{dir}
use go_gaze.Tree
use go_gaze.Tree.{Index, Root}
use go_gaze.Tree.Built.{roots-rebuild}
use go_gaze.Filter.{should_exclude}
use go_gaze.Config.{recursive_enabled}
use go_gaze.Env.{FileInfo, Env, Target, Driver}
use go_gaze.Watcher.{
  Watcher, normalize_path, resolve_link, make_target, prepare_target, public_error, root_of, added,
  add_target, remove_path, remove_root, removed, add, remove,
}

-- The index after Add and Remove.
lookup-add :
    (root : Root) (i : Index) (q : Bytes)
    → lookup q (Tree.add root i).roots ≡ (if root.path == q then some root else lookup q i.roots)
unfolding Tree.add
lookup-add root i q = rw roots-rebuild (lookup-insert root.path q root i.roots)

lookup-remove :
    (path : Bytes) (i : Index) (q : Bytes)
    → lookup q (Tree.remove path i).0.roots ≡ (if path == q then none else lookup q i.roots)
unfolding Tree.remove
lookup-remove path i q = elim (Option-cases (lookup path i.roots)) [
  | inl e ↦ rw (e, Tree.remove) (ground (arith, bytes_beq_iff path q, e))
  | inr (r, e) ↦ rw (e, Tree.remove) (rw roots-rebuild (lookup-delete path q i.roots))
]

remove_result : (path : Bytes) (i : Index) → (Tree.remove path i).1 ≡ lookup path i.roots
unfolding Tree.remove
remove_result path i = elim (Option-cases (lookup path i.roots)) [
  | inl e ↦ rw (e, Tree.remove) refl
  | inr (r, e) ↦ rw (e, Tree.remove) refl
]

module _ {D : Type 0} (env : Env) (drv : Driver D) where
  pub add-closed :
      (path : Bytes) (w : Watcher D)
      → w.closed ≡ true
      → add env drv path w ≡ (w, some watcher_closed)
  unfolding add
  add-closed path w c = ground arith

  pub remove-closed :
      (path : Bytes) (w : Watcher D)
      → w.closed ≡ true
      → remove env drv path w ≡ (w, some watcher_closed)
  unfolding remove
  remove-closed path w c = ground arith

  -- What a prepared target is: a path that the filter lets through, watched through itself if it is
  -- a directory and through its parent if not, and recursive if it is a directory and the
  -- configuration says so.
  pub record IsPrepared (w : Watcher D) (t : Target) : Type 0 where
    pub kept : should_exclude env.glob_match w.matcher t.path t.is_dir ≡ false
    pub watched : t.watch_path ≡ (if t.is_dir then t.path else dir t.path)
    pub depth : t.recursive ≡ (t.is_dir && recursive_enabled w.cfg true)

  make_target-IsPrepared :
      (w : Watcher D) (path : Bytes) (info : FileInfo) {t : Target}
      → make_target env drv w.cfg w.matcher (path, info) ≡ ok t
      → IsPrepared w t
  unfolding make_target
  make_target-IsPrepared w path info h = record {
    kept = ground arith;
    watched = ground arith;
    depth = ground arith;
  }

  -- A target that prepareTarget returns is not excluded, is watched through itself if it is a
  -- directory and through its parent directory if not, and is recursive exactly when it is a
  -- directory and the configuration enables recursion.
  pub prepare_target-IsPrepared :
      (w : Watcher D) (path : Bytes) {t : Target}
      → prepare_target env drv w path ≡ ok t
      → IsPrepared w t
  unfolding prepare_target
  prepare_target-IsPrepared w path {t} h =
      let (normalized, e, h1) = bind_result (normalize_path env drv path) _ h in
      let (info, e', h2) = bind_result (env.lstat normalized) _ h1 in
      let (found, e'', h3) = bind_result (resolve_link env drv w.cfg normalized info) _ h2 in
      make_target-IsPrepared w found.0 found.1 h3

  -- The two outcomes of adding a prepared target, by the answer of the driver.
  abbrev pub Added : Watcher D → Target → D × Option Error → Watcher D × Option Error → Type 0
  Added w t (d, none) (w', e) =
      (e ≡ none)
      × (w'.driver ≡ d)
      × ((q : Bytes)
          → lookup q w'.index.roots
            ≡ (if t.path == q then some (root_of env drv t) else lookup q w.index.roots))
  Added w t (d, some f) (w', e) =
      (e ≡ some (public_error env drv f))
      × (w'.driver ≡ d)
      × ((q : Bytes)
          → lookup q w'.index.roots ≡ (if t.path == q then none else lookup q w.index.roots))

  pub add-open :
      (path : Bytes) (w : Watcher D)
      → w.closed ≡ false
      → add env drv path w ≡ add_target env drv w (prepare_target env drv w path)
  unfolding add prepare_target
  add-open path w o = rw (o, add) refl

  pub added-Added :
      (w : Watcher D) (t : Target) (answer : D × Option Error)
      → Added w t answer (added env drv w t (Tree.add (root_of env drv t) w.index) answer)
  added-Added w t (d, none) = (refl, refl, λ q. lookup-add (root_of env drv t) w.index q)
  added-Added w t (d, some f) = (refl, refl, λ q. rw (lookup-remove, lookup-add) ground arith)

  -- Add on an open watcher, when prepareTarget returns a target, calls the driver with it. If the
  -- driver accepts, the target stands in the index under its path and every other path has the root
  -- that it had; if not, no root stands under its path, every other path has the root that it had,
  -- and the driver's error is returned as its public form.
  pub add-outcome :
      (path : Bytes) (w : Watcher D) (t : Target)
      → w.closed ≡ false
      → prepare_target env drv w path ≡ ok t
      → Added w t (drv.add t w.driver) (add env drv path w)
  add-outcome path w t o h = rw (add-open path w o, h) (added-Added w t _)

  -- The two outcomes of removing a path, by the root that the index has for it: without one the
  -- driver is not called.
  abbrev pub Removed : Watcher D → Bytes → Option Root → Watcher D × Option Error → Type 0
  Removed w path none (w', e) = (e ≡ some os_not_exist) × (w' ≡ w)
  Removed w path (some root) (w', e) =
      (e ≡ map (public_error env drv) (drv.remove root.path w.driver).1)
      × (w'.driver ≡ (drv.remove root.path w.driver).0)
      × ((q : Bytes)
          → lookup q w'.index.roots ≡ (if path == q then none else lookup q w.index.roots))

  pub remove-open :
      (path : Bytes) (w : Watcher D)
      → w.closed ≡ false
      → remove env drv path w ≡ remove_path env drv w (normalize_path env drv path)
  unfolding remove normalize_path
  remove-open path w o = rw (o, remove) refl

  answered-Removed :
      (w : Watcher D) (path : Bytes) (root : Root) (i : Index) (answer : D × Option Error)
      → ((q : Bytes) → lookup q i.roots ≡ (if path == q then none else lookup q w.index.roots))
      → let r = removed env drv w i answer in
        (r.1 ≡ map (public_error env drv) answer.1)
        × (r.0.driver ≡ answer.0)
        × ((q : Bytes)
            → lookup q r.0.index.roots ≡ (if path == q then none else lookup q w.index.roots))
  answered-Removed w path root i (d, none) h = (refl, refl, h)
  answered-Removed w path root i (d, some e) h = (refl, refl, h)

  remove_root-Removed :
      (w : Watcher D) (path : Bytes)
      → Removed w path
          (lookup path w.index.roots)
          (remove_root env drv w (Tree.remove path w.index))
  unfolding Tree.remove
  remove_root-Removed w path = elim (Option-cases (lookup path w.index.roots)) [
    | inl e ↦ rw (e, Tree.remove) (refl, refl)
    | inr (root, e) ↦
        rw (e, Tree.remove)
          (answered-Removed w path root _ (drv.remove root.path w.driver)
            (λ q. rw roots-rebuild (lookup-delete path q w.index.roots)))
  ]

  -- Remove on an open watcher, when the path can be normalized: without a root under the normalized
  -- path it returns os.ErrNotExist and changes nothing; with one it calls the driver, that root is
  -- gone whatever the driver answers, every other root stays, and the driver's error is returned as
  -- its public form.
  pub remove-outcome :
      (path key : Bytes) (w : Watcher D)
      → w.closed ≡ false
      → normalize_path env drv path ≡ ok key
      → Removed w key (lookup key w.index.roots) (remove env drv path w)
  remove-outcome path key w o h = rw (remove-open path w o, h) (remove_root-Removed w key)
