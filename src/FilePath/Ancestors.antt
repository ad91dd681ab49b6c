-- ===== src/FilePath/Ancestors.antt =====
-- internal/utils/path.go: the directories that repeated ParentDir visits, in one test.
use go_gaze.Common.{
  ℕ, ◌+◌, ◌<◌, ◌≤◌, ◌≡◌, refl, ap, ◌≢◌, inl, inr, Bool, ◌&&◌, ◌||◌, [], ◌∷◌, ◌++◌, arith, Bytes,
  ◌==◌, nat_eq, bytes_eq, bytes_beq, bytes_beq_iff, bytes_beq_refl, Bool-cases, not, length,
  length-append, if◌then◌else◌,
}
use go_gaze.FilePath.{separator, has_path_prefix, parent_dir}
use go_gaze.FilePath.Prefix.{below, below_refl, has_path_prefix-eq-below}
use go_gaze.FilePath.Parent.{
  Avoids, split_last, current_dir, root_dir, parent_dir-Avoids, parent_dir-top, parent_dir-append,
}

-- Where the walk ends: the root directory for a path from the root, else the current directory.
unfoldable pub walk_end : Bytes → Bytes
walk_end [] = current_dir
walk_end (c ∷ s) = if c == separator then root_dir else current_dir

-- `dir` is the path, a directory above it, or the end of the walk.
unfoldable pub reaches : Bytes → Bytes → Bool
reaches path dir =
    path == dir || ((not (dir == []) && has_path_prefix path dir) || walk_end path == dir)

below-Avoids : (p q : Bytes) → Avoids separator p → below p q ≡ (p == q)
unfolding below bytes_beq
below-Avoids [] [] h = refl
below-Avoids (c ∷ p) [] h = ground arith
below-Avoids [] (x ∷ q) h = refl
below-Avoids (c ∷ p) (x ∷ q) h = ground (arith, below-Avoids p q h.1)

below-split :
    (a b q : Bytes)
    → Avoids separator b
    → below (a ++ separator ∷ b) q ≡ ((a ++ separator ∷ b) == q || below a q)
unfolding below bytes_beq
below-split [] b [] h = refl
below-split [] b (x ∷ q) h = ground (arith, below-Avoids b q h)
below-split (c ∷ a) b [] h = ground arith
below-split (c ∷ a) b (x ∷ q) h = ground (arith, below-split a b q h)

below-nil : (q : Bytes) → below [] q ≡ ([] == q)
below-nil q = below-Avoids [] q tt

walk_end-Avoids : (s : Bytes) → Avoids separator s → walk_end s ≡ current_dir
unfolding walk_end
walk_end-Avoids [] h = refl
walk_end-Avoids (c ∷ s) h = ground arith

reaches-eq-below :
    (p d : Bytes) → reaches p d ≡ (p == d || ((not (d == []) && below p d) || walk_end p == d))
unfolding reaches
reaches-eq-below p d = rw has_path_prefix-eq-below

reaches-Avoids : (p d : Bytes) → Avoids separator p → reaches p d ≡ (p == d || current_dir == d)
reaches-Avoids p d h = rw (reaches-eq-below, below-Avoids p d h, walk_end-Avoids p h) (ground arith)

reaches-top :
    (b d : Bytes)
    → Avoids separator b
    → reaches (separator ∷ b) d ≡ (separator ∷ b == d || root_dir == d)
unfolding walk_end
reaches-top b d h =
    rw (reaches-eq-below, below-split [] b d h, below-nil)
      (ground (arith, bytes_beq_iff [] d, bytes_beq_iff d []))

walk_end-append : (c : ℕ) (a b : Bytes) → walk_end ((c ∷ a) ++ separator ∷ b) ≡ walk_end (c ∷ a)
unfolding walk_end
walk_end-append c a b = refl

reaches-append :
    (c : ℕ) (a b d : Bytes)
    → Avoids separator b
    → reaches ((c ∷ a) ++ separator ∷ b) d ≡ ((c ∷ a) ++ separator ∷ b == d || reaches (c ∷ a) d)
reaches-append c a b d h =
    rw (reaches-eq-below, reaches-eq-below, below-split (c ∷ a) b d h, walk_end-append c a b)
      (ground (arith, bytes_beq_iff (c ∷ a) d, bytes_beq_iff d [], below_refl (c ∷ a)))

current_dir-Avoids : Avoids separator current_dir
current_dir-Avoids = (omega arith, tt)

-- One step of the walk: what the path reaches is itself and what its parent reaches.
pub reaches-step :
    (path dir : Bytes) → reaches path dir ≡ (path == dir || reaches (parent_dir path) dir)
reaches-step p d = elim (split_last separator p) [
  | inl h ↦
      rw
        (
          reaches-Avoids p d h,
          parent_dir-Avoids p h,
          reaches-Avoids current_dir d current_dir-Avoids,
        )
        (ground arith)
  | inr ([], b, e, h) ↦
      rw (e, reaches-top b d h, parent_dir-top b h, reaches-top [] d tt) (ground arith)
  | inr (c ∷ a, b, e, h) ↦
      rw (e, reaches-append c a b d h, parent_dir-append c a b h) (ground arith)
]

-- What falls at each step of the walk.
pub walk_rank : Bytes → ℕ
walk_rank path = if path == current_dir then 0 else length path + 1

pub walk_rank-le : (path : Bytes) → walk_rank path ≤ length path + 1
unfolding walk_rank
walk_rank-le path = ground arith

walk_rank-longer : (path : Bytes) → 1 < length path → walk_rank path ≡ length path + 1
unfolding walk_rank
walk_rank-longer path h = elim (Bool-cases (path == current_dir)) [
  | inl e ↦ absurd (omega (arith, ap length ((bytes_beq_iff path current_dir).0 e)))
  | inr e ↦ rw e refl
]

split_longer : (c : ℕ) (a b : Bytes) → length (c ∷ a) < length ((c ∷ a) ++ separator ∷ b)
split_longer c a b = omega (arith, length-append {0} a (separator ∷ b))

-- ParentDir returns its argument, or a path of lower rank.
pub walk_rank-parent_dir :
    (path : Bytes) → parent_dir path ≢ path → walk_rank (parent_dir path) < walk_rank path
walk_rank-parent_dir p ne = elim (split_last separator p) [
  | inl h ↦
      unfold walk_rank in
      ground (arith, parent_dir-Avoids p h, bytes_beq_iff p current_dir, bytes_beq_refl current_dir)
  | inr ([], [], e, h) ↦ absurd (ne (rw e (parent_dir-top [] h)))
  | inr ([], x ∷ b, e, h) ↦
      rw (e, parent_dir-top (x ∷ b) h) (unfold walk_rank bytes_beq in ground arith)
  | inr (c ∷ a, b, e, h) ↦
      rw (e, parent_dir-append c a b h)
        (omega (
          arith,
          split_longer c a b,
          walk_rank-le (c ∷ a),
          walk_rank-longer ((c ∷ a) ++ separator ∷ b),
        ))
]

parent_at_split :
    (p : Bytes) (c : ℕ) (a b : Bytes)
    → p ≡ (c ∷ a) ++ separator ∷ b
    → Avoids separator b
    → parent_dir p ≡ c ∷ a
parent_at_split p c a b e h = rw e (parent_dir-append c a b h)

-- Where the walk stops it has reached that path only.
pub reaches-stop : (path dir : Bytes) → parent_dir path ≡ path → reaches path dir ≡ (path == dir)
reaches-stop p d same = elim (split_last separator p) [
  | inl h ↦ ground (arith, reaches-Avoids p d h, parent_dir-Avoids p h)
  | inr ([], b, e, h) ↦ ground (arith, e, reaches-top b d h, parent_dir-top b h)
  | inr (c ∷ a, b, e, h) ↦ absurd (
      omega (
        arith,
        split_longer c a b,
        ap length e,
        ap length same,
        ap length (parent_at_split p c a b e h),
      ))
]
