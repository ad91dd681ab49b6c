-- ===== src/Tree/Walk.antt =====
-- internal/tree/index.go: the loop of Matches ends, and answers for all directories above a path.
use go_gaze.Common.{
  ℕ, zero, suc, ◌<◌, ◌≡◌, refl, inl, inr, Bool, ◌||◌, some, [], ◌∷◌, arith, Bytes, ◌==◌, bytes_eq,
  bytes_beq_iff, Bool-cases, any,
}
use go_gaze.Common.Assoc.{has}
use go_gaze.FilePath.{parent_dir}
use go_gaze.FilePath.Ancestors.{
  reaches, reaches-step, reaches-stop, walk_rank, walk_rank-le, walk_rank-parent_dir,
}
use go_gaze.Tree.{PathSet, walk, walk_fuel}

-- Some directory of the set is the path, above it, or the end of its walk.
unfoldable pub reaches_any : PathSet → Bytes → Bool
reaches_any dirs path = any (λ e. reaches path e.0) dirs

reaches_any-step :
    (dirs : PathSet) (path : Bytes)
    → reaches_any dirs path ≡ (has path dirs || reaches_any dirs (parent_dir path))
unfolding reaches_any has any
reaches_any-step [] path = refl
reaches_any-step ((d, u) ∷ dirs) path = ground (
  arith,
  reaches-step path d,
  reaches_any-step dirs path,
  bytes_beq_iff path d,
  bytes_beq_iff d path,
)

reaches_any-stop :
    (dirs : PathSet) (path : Bytes) → parent_dir path ≡ path → reaches_any dirs path ≡ has path dirs
unfolding reaches_any has any
reaches_any-stop [] path e = refl
reaches_any-stop ((d, u) ∷ dirs) path e = ground (
  arith,
  reaches-stop path d e,
  reaches_any-stop dirs path e,
  bytes_beq_iff path d,
  bytes_beq_iff d path,
)

-- With fuel above the rank of the path the loop ends with the answer.
walk-eq :
    (fuel : ℕ) (dirs : PathSet) (path : Bytes)
    → walk_rank path < fuel
    → walk fuel dirs path ≡ some (reaches_any dirs path)
unfolding walk
walk-eq zero dirs path h = absurd (omega arith)
walk-eq (suc fuel) dirs path h = elim (Bool-cases (parent_dir path == path)) [
  | inl e ↦ ground (arith, reaches_any-stop dirs path ((bytes_beq_iff _ path).0 e))
  | inr e ↦ ground (
    arith,
    reaches_any-step dirs path,
    walk-eq fuel dirs (parent_dir path),
    walk_rank-parent_dir path,
    bytes_beq_iff (parent_dir path) path,
  )
]

-- The loop of Matches ends for every path and every set of directories, and finds the path exactly
-- when the set holds the path, a directory above it, or the root or current directory it ends in.
pub walk-total :
    (dirs : PathSet) (path : Bytes) → walk (walk_fuel path) dirs path ≡ some (reaches_any dirs path)
walk-total dirs path = walk-eq (walk_fuel path) dirs path (omega (arith, walk_rank-le path))
