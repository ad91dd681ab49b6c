-- ===== src/Windows/Pairing.antt =====
-- internal/backend/backend_windows.go: the two halves of a rename, which the kernel reports one after
-- the other.
use go_gaze.Common.{
  ℕ, ◌≡◌, ◌≢◌, refl, sym, ◌∙◌, ap, false, List, [], ◌∷◌, ◌++◌, arith, Bytes, ◌==◌, nat_eq, bytes_eq,
  if◌then◌else◌,
}
use mathlib.Core.List.{append_assoc}
use go_gaze.Ops.{Event, op_create, op_write, op_remove, op_rename}
use go_gaze.Windows.{WindowsRoot}
use go_gaze.Windows.Reading.{Info}
use go_gaze.Windows.Changes.{
  Paths, action_added, action_removed, action_modified, action_renamed_old_name,
  action_renamed_new_name, probe_dir, full_path, change, then_change, change_all,
}

-- An entry that is no half of a rename.
abbrev pub IsPlain : Info → Type 0
IsPlain info = (info.action ≢ action_renamed_old_name) × (info.action ≢ action_renamed_new_name)

abbrev pub AllPlain : List Info → Type 0
AllPlain [] = Unit
AllPlain (info ∷ more) = IsPlain info × AllPlain more

-- Events that were sent before those of a run of entries.
abbrev pub sent_first : List Event → Bytes × List Event → Bytes × List Event
sent_first sent (pending, more) = (pending, sent ++ more)

abbrev pub old_info : List ℕ → Info
old_info name = record { action = action_renamed_old_name; name = name }

abbrev pub new_info : List ℕ → Info
new_info name = record { action = action_renamed_new_name; name = name }

module _ (paths : Paths) (root : WindowsRoot) where
  -- The events for a change that is no half of a rename.
  pub reported : ℕ → Bytes → List Event
  reported action path =
      if action == action_added
      then record { path = path; old_path = []; op = op_create; is_dir = probe_dir paths path } ∷ []
      else if action == action_removed
      then record { path = path; old_path = []; op = op_remove; is_dir = false } ∷ []
      else if action == action_modified
      then record { path = path; old_path = []; op = op_write; is_dir = probe_dir paths path } ∷ []
      else []

  pub reports : List Info → List Event
  reports [] = []
  reports (info ∷ more) = reported info.action (full_path paths root info.name) ++ reports more

  change-plain :
      (info : Info) (path pending : Bytes)
      → IsPlain info
      → change paths info.action path pending ≡ (pending, reported info.action path)
  unfolding change reported
  change-plain info path pending h = ground (arith, h)

  change_all-plain :
      (plain rest : List Info) (pending : Bytes)
      → AllPlain plain
      → change_all paths root (plain ++ rest) pending
        ≡ sent_first (reports plain) (change_all paths root rest pending)
  unfolding change_all reports
  change_all-plain [] rest pending h = refl
  change_all-plain (info ∷ more) rest pending h =
      let path = full_path paths root info.name in
      ap (λ r. then_change paths r (change_all paths root (more ++ rest)))
        (change-plain info path pending h.0)
      ∙ ap (sent_first (reported info.action path)) (change_all-plain more rest pending h.1)
      ∙ ap (λ sent. ((change_all paths root rest pending).0, sent))
          (sym (
            append_assoc (reported info.action path) (reports more)
              (change_all paths root rest pending).1))

  abbrev pub renamed : List ℕ → List ℕ → Event
  renamed old_name new_name = record {
    path = full_path paths root new_name;
    old_path = full_path paths root old_name;
    op = op_rename;
    is_dir = probe_dir paths (full_path paths root new_name);
  }

  module _ (old_name new_name : List ℕ) (plain rest : List Info) (pending : Bytes)
      (plain_all : AllPlain plain) (named : (full_path paths root old_name == []) ≡ false) where
    change_all-new :
        change_all paths root (new_info new_name ∷ rest) (full_path paths root old_name)
        ≡ sent_first (renamed old_name new_name ∷ []) (change_all paths root rest [])
    unfolding change_all change
    change_all-new = rw (named, change) refl

    -- The two halves of a rename give one event with both names, also if other changes stand between
    -- them, whose events come first; what follows is handled as if no old name were pending.
    pub renamed_across :
        change_all paths root (old_info old_name ∷ plain ++ new_info new_name ∷ rest) pending
        ≡ sent_first
            (reports plain ++ renamed old_name new_name ∷ [])
            (change_all paths root rest [])
    unfolding change_all change
    renamed_across =
        change_all-plain plain (new_info new_name ∷ rest) (full_path paths root old_name) plain_all
        ∙ ap (sent_first (reports plain)) change_all-new
        ∙ ap (λ sent. ((change_all paths root rest []).0, sent))
            (sym (
              append_assoc (reports plain) (renamed old_name new_name ∷ [])
                (change_all paths root rest []).1))
