-- ===== src/Linux/Flushing.antt =====
-- internal/backend/backend_linux.go: flushPending, by which an old name without a new one becomes a
-- removal.
use go_gaze.Common.{
  ℕ, ◌≡◌, refl, ◌∙◌, ap, subst, true, false, ◌&&◌, not, Option, none, some, List, [], ◌∷◌, arith,
  Bytes, ◌==◌, nat_eq, nat_beq_iff, ltb, leb, if_keeps, Bool-cases, inl, inr, if◌then◌else◌,
}
use go_gaze.Common.Assoc.{Map, lookup, delete, has, Distinct, lookup-delete}
use go_gaze.FilePath.{has_path_prefix}
use go_gaze.Ops.{Event, op_remove}
use go_gaze.Linux.{
  Inotify, Node, PendingRename, LinuxWatcher, remove_watched, remove_loop, remove_watched_prefix,
}
use go_gaze.Linux.Handling.{expire, flush_loop, flush_pending}

-- The removals of the entries that are not after the cutoff.
pub removals : ℕ → Map ℕ PendingRename → List Event
removals cutoff [] = []
removals cutoff ((cookie, rename) ∷ rest) =
    let more = removals cutoff rest in
    if leb rename.at cutoff
    then record { path = rename.path; old_path = []; op = op_remove; is_dir = rename.is_dir } ∷ more
    else more

-- An entry that stays.
abbrev pub unexpired : ℕ → Option PendingRename → Option PendingRename
unexpired cutoff none = none
unexpired cutoff (some rename) = if leb rename.at cutoff then none else some rename

module _ {K : Type 0} (inotify : Inotify K) where
  remove_loop-pending :
      (prefix : Bytes) (rest : Map Bytes Node) (w : LinuxWatcher K)
      → (remove_loop inotify prefix rest w).pending ≡ w.pending
  unfolding remove_loop remove_watched
  remove_loop-pending prefix [] w = refl
  remove_loop-pending prefix ((path, node) ∷ rest) w =
      remove_loop-pending prefix rest _
      ∙ if_keeps (λ (w' : LinuxWatcher K). w'.pending ≡ w.pending)
          (not (has_path_prefix path prefix)) refl refl

  expire-pending :
      (cookie : ℕ) (rename : PendingRename) (w : LinuxWatcher K)
      → (expire inotify cookie rename w).pending ≡ delete cookie w.pending
  unfolding remove_watched_prefix
  expire-pending cookie rename w =
      if_keeps (λ (w' : LinuxWatcher K). w'.pending ≡ delete cookie w.pending) rename.is_dir
        (remove_loop-pending rename.path w.watched _) refl

  sent-flush_loop :
      (cutoff : ℕ) (rest : Map ℕ PendingRename) (w : LinuxWatcher K)
      → (flush_loop inotify cutoff rest w).1 ≡ removals cutoff rest
  unfolding flush_loop removals
  sent-flush_loop cutoff [] w = refl
  sent-flush_loop cutoff ((cookie, rename) ∷ rest) w = ground (
    arith,
    sent-flush_loop cutoff rest
        (if ltb cutoff rename.at then w else expire inotify cookie rename w),
  )

  -- The entry that a flush of `rest` leaves of one that is pending.
  abbrev flushed : ℕ → ℕ → Map ℕ PendingRename → Option PendingRename → Option PendingRename
  flushed cutoff c rest before = if has c rest then unexpired cutoff (lookup c rest) else before

  abbrev after_entry : ℕ → ℕ → PendingRename → LinuxWatcher K → LinuxWatcher K
  after_entry cutoff cookie rename w =
      if ltb cutoff rename.at then w else expire inotify cookie rename w

  lookup-after_entry :
      (cutoff cookie c : ℕ) (rename : PendingRename) (w : LinuxWatcher K)
      → lookup c (after_entry cutoff cookie rename w).pending
        ≡ (if leb rename.at cutoff && cookie == c then none else lookup c w.pending)
  lookup-after_entry cutoff cookie c rename w = elim (Bool-cases (ltb cutoff rename.at)) [
    | inl e ↦ rw e (ground arith)
    | inr e ↦ rw e (
        ap (lookup c) (expire-pending cookie rename w)
        ∙ (lookup-delete cookie c w.pending ∙ ground arith))
  ]

  lookup-flush_loop :
      (cutoff c : ℕ) (rest : Map ℕ PendingRename) (w : LinuxWatcher K)
      → Distinct rest
      → (has c rest ≡ true → lookup c rest ≡ lookup c w.pending)
      → lookup c (flush_loop inotify cutoff rest w).0.pending
        ≡ flushed cutoff c rest (lookup c w.pending)
  unfolding flush_loop has lookup
  lookup-flush_loop cutoff c [] w d a = refl
  lookup-flush_loop cutoff c ((cookie, rename) ∷ rest) w d a =
      let l = lookup-after_entry cutoff cookie c rename w in
      elim (Bool-cases (cookie == c)) [
        | inl same ↦
            let absent : has c rest ≡ false =
              subst (λ k. has k rest ≡ false) ((nat_beq_iff cookie c).0 same) d.0 in
            lookup-flush_loop cutoff c rest (after_entry cutoff cookie rename w) d.1
              (λ m. ground (arith, absent))
            ∙ ground arith
        | inr other ↦
            lookup-flush_loop cutoff c rest (after_entry cutoff cookie rename w) d.1
              (λ m. ground arith)
            ∙ ground arith
      ]

  absent-unexpired :
      (cutoff c : ℕ) (m : Map ℕ PendingRename)
      → flushed cutoff c m (lookup c m) ≡ unexpired cutoff (lookup c m)
  unfolding has lookup
  absent-unexpired cutoff c [] = refl
  absent-unexpired cutoff c ((k, r) ∷ m) = ground (arith, absent-unexpired cutoff c m)

  -- flushPending, on pending renames whose cookies differ, sends one removal for each whose time is
  -- not after the cutoff, in the order of the map's loop, and nothing else; exactly these are no
  -- longer pending, and the others are what they were.
  pub flush_pending_lem :
      (cutoff : ℕ) (w : LinuxWatcher K)
      → Distinct w.pending
      → ((flush_pending inotify cutoff w).1 ≡ removals cutoff w.pending)
        × ((cookie : ℕ)
            → lookup cookie (flush_pending inotify cutoff w).0.pending
              ≡ unexpired cutoff (lookup cookie w.pending))
  unfolding flush_pending
  flush_pending_lem cutoff w d = (
    sent-flush_loop cutoff w.pending w,
    λ cookie.
        lookup-flush_loop cutoff cookie w.pending w d (λ m. refl)
        ∙ absent-unexpired cutoff cookie w.pending,
  )
