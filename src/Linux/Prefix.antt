-- ===== src/Linux/Prefix.antt =====
-- internal/backend/backend_linux.go: what removeWatchedPrefix leaves.
use go_gaze.Common.{
  ◌≡◌, refl, ◌∙◌, false, ◌&&◌, not, none, [], ◌∷◌, arith, Bytes, ◌==◌, bytes_eq, bytes_beq_iff,
  Bool-cases, inl, inr, if◌then◌else◌,
}
use go_gaze.Common.Assoc.{Map, lookup, has, lookup-delete}
use go_gaze.FilePath.{has_path_prefix}
use go_gaze.Linux.{Inotify, Node, LinuxWatcher, remove_watched, remove_loop, remove_watched_prefix}

module _ {K : Type 0} (inotify : Inotify K) where
  abbrev loop_step : Bytes → Bytes → Node → LinuxWatcher K → LinuxWatcher K
  loop_step prefix path node w =
      if not (has_path_prefix path prefix) then w else remove_watched inotify path node w

  lookup-loop_step :
      (prefix path q : Bytes) (node : Node) (w : LinuxWatcher K)
      → lookup q (loop_step prefix path node w).watched
        ≡ (if has_path_prefix path prefix && path == q then none else lookup q w.watched)
  unfolding remove_watched
  lookup-loop_step prefix path q node w = elim (Bool-cases (has_path_prefix path prefix)) [
    | inl e ↦ rw e (lookup-delete path q w.watched)
    | inr e ↦ rw e refl
  ]

  lookup-remove_loop :
      (prefix q : Bytes) (rest : Map Bytes Node) (w : LinuxWatcher K)
      → lookup q (remove_loop inotify prefix rest w).watched
        ≡ (if has q rest && has_path_prefix q prefix then none else lookup q w.watched)
  unfolding remove_loop has
  lookup-remove_loop prefix q [] w = refl
  lookup-remove_loop prefix q ((path, node) ∷ rest) w =
      lookup-remove_loop prefix q rest (loop_step prefix path node w)
      ∙ ground (arith, lookup-loop_step prefix path q node w, bytes_beq_iff path q)

  has-none : (q : Bytes) (m : Map Bytes Node) → has q m ≡ false → lookup q m ≡ none
  unfolding has lookup
  has-none q [] h = refl
  has-none q ((k, n) ∷ m) h = ground (arith, has-none q m)

  -- After removeWatchedPrefix no directory at or below the prefix is watched, and every other one
  -- has the node that it had.
  pub lookup-remove_watched_prefix :
      (prefix q : Bytes) (w : LinuxWatcher K)
      → lookup q (remove_watched_prefix inotify prefix w).watched
        ≡ (if has_path_prefix q prefix then none else lookup q w.watched)
  unfolding remove_watched_prefix
  lookup-remove_watched_prefix prefix q w =
      ground (arith, lookup-remove_loop prefix q w.watched w, has-none q w.watched)
