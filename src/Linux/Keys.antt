-- ===== src/Linux/Keys.antt =====
-- internal/backend/backend_linux.go: membership in the sets of rootDirs under each way of writing them.
use go_gaze.Common.{
  ◌≡◌, refl, ◌∙◌, Bool, true, false, ◌&&◌, ◌||◌, not, none, [], ◌∷◌, arith, Bytes, ◌==◌, bytes_eq,
  bytes_beq_iff, Option-cases, inl, inr, if◌then◌else◌,
}
use go_gaze.Common.Assoc.{
  Map, lookup, delete, insert, has, lookup-insert, has-insert, has-delete, lookup-has,
}
use go_gaze.Tree.{PathSet}
use go_gaze.Linux.{forget, forget_all, replace_dir, replace_all, set_of}

-- The directory is enrolled for the root.
abbrev pub enrolled_for : Bytes → Bytes → Map Bytes PathSet → Bool
enrolled_for root dir root_dirs = has dir (set_of (lookup root root_dirs))

pub has-lookup : {V : Type 0} (k : Bytes) (m : Map Bytes V) → has k m ≡ false → lookup k m ≡ none
unfolding has lookup
has-lookup k [] h = refl
has-lookup k ((j, v) ∷ m) h = ground (arith, has-lookup k m)

pub lookup-none : {V : Type 0} (k : Bytes) (m : Map Bytes V) → lookup k m ≡ none → has k m ≡ false
unfolding has lookup
lookup-none k [] h = refl
lookup-none k ((j, v) ∷ m) h = ground (arith, lookup-none k m)

-- Only a root that is there has enrolled anything.
pub enrolled-has :
    (root dir : Bytes) (root_dirs : Map Bytes PathSet)
    → enrolled_for root dir root_dirs ≡ true
    → has root root_dirs ≡ true
unfolding has
enrolled-has root dir root_dirs h = elim (Option-cases (lookup root root_dirs)) [
  | inl e ↦ ground (arith, e)
  | inr (dirs, e) ↦ lookup-has root root_dirs dirs e
]

pub enrolled-forget :
    (root path r q : Bytes) (root_dirs : Map Bytes PathSet)
    → enrolled_for r q (forget root path root_dirs)
      ≡ (if root == r && path == q then false else enrolled_for r q root_dirs)
unfolding forget has
enrolled-forget root path r q root_dirs = elim (Option-cases (lookup root root_dirs)) [
  | inl e ↦ rw (e, forget) (ground (arith, e, bytes_beq_iff root r))
  | inr (dirs, e) ↦
      rw (e, forget)
        (rw (lookup-insert root r (delete path dirs) root_dirs)
          (ground (arith, e, bytes_beq_iff root r, has-delete path q dirs)))
]

pub has-forget :
    (root path r : Bytes) (root_dirs : Map Bytes PathSet)
    → has r (forget root path root_dirs) ≡ has r root_dirs
unfolding forget
has-forget root path r root_dirs = elim (Option-cases (lookup root root_dirs)) [
  | inl e ↦ rw (e, forget) refl
  | inr (dirs, e) ↦
      rw (e, forget)
        (ground (
          arith,
          has-insert root r (delete path dirs) root_dirs,
          lookup-has root root_dirs dirs e,
          bytes_beq_iff root r,
        ))
]

pub enrolled-forget_all :
    (roots : PathSet) (path r q : Bytes) (root_dirs : Map Bytes PathSet)
    → enrolled_for r q (forget_all roots path root_dirs)
      ≡ (if has r roots && path == q then false else enrolled_for r q root_dirs)
unfolding forget_all has
enrolled-forget_all [] path r q root_dirs = refl
enrolled-forget_all ((root, _) ∷ roots) path r q root_dirs =
    enrolled-forget_all roots path r q (forget root path root_dirs)
    ∙ ground (arith, enrolled-forget root path r q root_dirs)

pub has-forget_all :
    (roots : PathSet) (path r : Bytes) (root_dirs : Map Bytes PathSet)
    → has r (forget_all roots path root_dirs) ≡ has r root_dirs
unfolding forget_all
has-forget_all [] path r root_dirs = refl
has-forget_all ((root, _) ∷ roots) path r root_dirs =
    has-forget_all roots path r (forget root path root_dirs) ∙ has-forget root path r root_dirs

-- Membership after a path gave way to a new one.
abbrev pub replaced : Bytes → Bytes → Bytes → Bool → Bool
replaced path new_path q before = new_path == q || (not (path == q) && before)

pub has-replace_dir :
    (root path new_path r : Bytes) (root_dirs : Map Bytes PathSet)
    → has r (replace_dir root path new_path root_dirs) ≡ has r root_dirs
unfolding replace_dir
has-replace_dir root path new_path r root_dirs = elim (Option-cases (lookup root root_dirs)) [
  | inl e ↦ rw (e, replace_dir) refl
  | inr (dirs, e) ↦
      rw (e, replace_dir)
        (ground (
          arith,
          has-insert root r (insert new_path tt (delete path dirs)) root_dirs,
          lookup-has root root_dirs dirs e,
          bytes_beq_iff root r,
        ))
]

pub enrolled-replace_dir :
    (root path new_path r q : Bytes) (root_dirs : Map Bytes PathSet)
    → enrolled_for r q (replace_dir root path new_path root_dirs) ≡ (
        if root == r && has r root_dirs
        then replaced path new_path q (enrolled_for r q root_dirs)
        else enrolled_for r q root_dirs)
unfolding replace_dir
enrolled-replace_dir root path new_path r q root_dirs =
    elim (Option-cases (lookup root root_dirs)) [
      | inl e ↦
          rw (e, replace_dir) (ground (arith, e, lookup-none root root_dirs, bytes_beq_iff root r))
      | inr (dirs, e) ↦
          rw (e, replace_dir)
            (rw (lookup-insert root r (insert new_path tt (delete path dirs)) root_dirs) (
              ground (
                arith,
                e,
                bytes_beq_iff root r,
                lookup-has root root_dirs dirs e,
                has-insert new_path q tt (delete path dirs),
                has-delete path q dirs,
              )))
    ]

pub has-replace_all :
    (roots : PathSet) (path new_path r : Bytes) (root_dirs : Map Bytes PathSet)
    → has r (replace_all roots path new_path root_dirs) ≡ has r root_dirs
unfolding replace_all
has-replace_all [] path new_path r root_dirs = refl
has-replace_all ((root, _) ∷ roots) path new_path r root_dirs =
    has-replace_all roots path new_path r (replace_dir root path new_path root_dirs)
    ∙ has-replace_dir root path new_path r root_dirs

pub enrolled-replace_all :
    (roots : PathSet) (path new_path r q : Bytes) (root_dirs : Map Bytes PathSet)
    → enrolled_for r q (replace_all roots path new_path root_dirs) ≡ (
        if has r roots && has r root_dirs
        then replaced path new_path q (enrolled_for r q root_dirs)
        else enrolled_for r q root_dirs)
unfolding replace_all has
enrolled-replace_all [] path new_path r q root_dirs = refl
enrolled-replace_all ((root, _) ∷ roots) path new_path r q root_dirs =
    enrolled-replace_all roots path new_path r q (replace_dir root path new_path root_dirs)
    ∙ ground (
      arith,
      enrolled-replace_dir root path new_path r q root_dirs,
      has-replace_dir root path new_path r root_dirs,
    )
