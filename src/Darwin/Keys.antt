-- ===== src/Darwin/Keys.antt =====
-- internal/backend/backend_darwin.go: membership in the sets of rootNodes under each way of writing
-- them.
use go_gaze.Common.{
  ◌≡◌, refl, ◌∙◌, ap, Bool, true, false, ◌&&◌, not, some, List, [], ◌∷◌, arith, Bytes, ◌==◌,
  bytes_eq, bytes_beq_iff, any, Option-cases, inl, inr, if◌then◌else◌,
}
use go_gaze.Common.Assoc.{Map, lookup, delete, insert, has}
use go_gaze.Tree.{PathSet}
use go_gaze.Linux.{forget, replace_dir}
use go_gaze.Linux.Keys.{
  enrolled_for, enrolled-forget, has-forget, replaced, has-replace_dir, enrolled-replace_dir,
  lookup-none,
}
use go_gaze.Darwin.{forget_all, without, move_in_roots}

abbrev pub has_root : Bytes → List Bytes → Bool
has_root root roots = any (λ r. r == root) roots

pub has_root-without :
    (root r : Bytes) (roots : List Bytes)
    → has_root r (without root roots) ≡ (not (root == r) && has_root r roots)
unfolding any without
has_root-without root r [] = ground arith
has_root-without root r (k ∷ roots) = ground (
  arith,
  has_root-without root r roots,
  bytes_beq_iff k root,
  bytes_beq_iff k r,
  bytes_beq_iff root r,
)

pub enrolled-forget_all :
    (roots : List Bytes) (path r q : Bytes) (root_nodes : Map Bytes PathSet)
    → enrolled_for r q (forget_all roots path root_nodes)
      ≡ (if has_root r roots && path == q then false else enrolled_for r q root_nodes)
unfolding forget_all any
enrolled-forget_all [] path r q root_nodes = refl
enrolled-forget_all (root ∷ roots) path r q root_nodes =
    enrolled-forget_all roots path r q (forget root path root_nodes)
    ∙ ground (arith, enrolled-forget root path r q root_nodes)

pub has-forget_all :
    (roots : List Bytes) (path r : Bytes) (root_nodes : Map Bytes PathSet)
    → has r (forget_all roots path root_nodes) ≡ has r root_nodes
unfolding forget_all
has-forget_all [] path r root_nodes = refl
has-forget_all (root ∷ roots) path r root_nodes =
    has-forget_all roots path r (forget root path root_nodes) ∙ has-forget root path r root_nodes

-- The sets after the loop of a rename that does not panic.
pub replace_roots : List Bytes → Bytes → Bytes → Map Bytes PathSet → Map Bytes PathSet
replace_roots [] path new_path root_nodes = root_nodes
replace_roots (root ∷ roots) path new_path root_nodes =
    replace_roots roots path new_path (replace_dir root path new_path root_nodes)

abbrev pub AllThere : List Bytes → Map Bytes PathSet → Type 0
AllThere [] root_nodes = Unit
AllThere (root ∷ roots) root_nodes = (has root root_nodes ≡ true) × AllThere roots root_nodes

AllThere-replace_dir :
    (root path new_path : Bytes) (roots : List Bytes) (root_nodes : Map Bytes PathSet)
    → AllThere roots root_nodes
    → AllThere roots (replace_dir root path new_path root_nodes)
AllThere-replace_dir root path new_path [] root_nodes h = tt
AllThere-replace_dir root path new_path (r ∷ roots) root_nodes h = (
  has-replace_dir root path new_path r root_nodes ∙ h.0,
  AllThere-replace_dir root path new_path roots root_nodes h.1,
)

replaced_there :
    (root path new_path : Bytes) (nodes : PathSet) (root_nodes : Map Bytes PathSet)
    → lookup root root_nodes ≡ some nodes
    → insert root (insert new_path tt (delete path nodes)) root_nodes
      ≡ replace_dir root path new_path root_nodes
unfolding replace_dir
replaced_there root path new_path nodes root_nodes e = rw (e, replace_dir) refl

-- The loop does not panic when all the roots are there.
pub move_in_roots_there :
    (roots : List Bytes) (path new_path : Bytes) (root_nodes : Map Bytes PathSet)
    → AllThere roots root_nodes
    → move_in_roots roots path new_path root_nodes
      ≡ some (replace_roots roots path new_path root_nodes)
unfolding move_in_roots replace_roots
move_in_roots_there [] path new_path root_nodes h = refl
move_in_roots_there (root ∷ roots) path new_path root_nodes h =
    elim (Option-cases (lookup root root_nodes)) [
      | inl e ↦ absurd (ground (arith, h, lookup-none root root_nodes e))
      | inr (nodes, e) ↦
          rw (e, move_in_roots)
            (ap (move_in_roots roots path new_path)
                (replaced_there root path new_path nodes root_nodes e)
              ∙ move_in_roots_there roots path new_path (replace_dir root path new_path root_nodes)
                  (AllThere-replace_dir root path new_path roots root_nodes h.1))
    ]

pub has-replace_roots :
    (roots : List Bytes) (path new_path r : Bytes) (root_nodes : Map Bytes PathSet)
    → has r (replace_roots roots path new_path root_nodes) ≡ has r root_nodes
unfolding replace_roots
has-replace_roots [] path new_path r root_nodes = refl
has-replace_roots (root ∷ roots) path new_path r root_nodes =
    has-replace_roots roots path new_path r (replace_dir root path new_path root_nodes)
    ∙ has-replace_dir root path new_path r root_nodes

pub enrolled-replace_roots :
    (roots : List Bytes) (path new_path r q : Bytes) (root_nodes : Map Bytes PathSet)
    → enrolled_for r q (replace_roots roots path new_path root_nodes) ≡ (
        if has_root r roots && has r root_nodes
        then replaced path new_path q (enrolled_for r q root_nodes)
        else enrolled_for r q root_nodes)
unfolding replace_roots any
enrolled-replace_roots [] path new_path r q root_nodes = refl
enrolled-replace_roots (root ∷ roots) path new_path r q root_nodes =
    enrolled-replace_roots roots path new_path r q (replace_dir root path new_path root_nodes)
    ∙ ground (
      arith,
      enrolled-replace_dir root path new_path r q root_nodes,
      has-replace_dir root path new_path r root_nodes,
    )
