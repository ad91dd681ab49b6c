-- ===== src/Darwin/Moves.antt =====
-- internal/backend/backend_darwin.go: what it is that emitRenamesFromDiff splits the two diffs.
use go_gaze.Common.{
  ◌+◌, ◌≡◌, true, false, some, List, [], ◌∷◌, ◌++◌, arith, Bytes, bytes_eq, bytes_beq_iff, length,
}
use go_gaze.Common.Assoc.{lookup, delete, has, lookup-delete, lookup-has}
use go_gaze.Ops.{Event, op_rename}
use go_gaze.Darwin.{EntryMeta, Snapshot}
use go_gaze.Darwin.Scanning.{Renamed, is_moved}

-- A rename event of an entry that went and one that came, which are the same file.
pub record IsMove (prefix : Bytes) (removed added : Snapshot) (event : Event) : Type 0 where
  pub old_name : Bytes
  pub new_name : Bytes
  pub old : EntryMeta
  pub new : EntryMeta
  pub went : lookup old_name removed ≡ some old
  pub came : lookup new_name added ≡ some new
  pub moved : is_moved old new ≡ true
  pub reported : event ≡ record {
    path = prefix ++ new_name;
    old_path = prefix ++ old_name;
    op = op_rename;
    is_dir = old.is_dir;
  }

abbrev pub AllMoves : Bytes → Snapshot → Snapshot → List Event → Type 0
AllMoves prefix removed added [] = Unit
AllMoves prefix removed added (event ∷ events) =
    IsMove prefix removed added event × AllMoves prefix removed added events

-- Each diff is split into the entries of the events and those that are left, of which no two are the
-- same file.
pub record IsMatched {K : Type 0} (prefix : Bytes) (removed added : Snapshot) (r : Renamed K)
    : Type 0 where
  pub moves : AllMoves prefix removed added r.sent
  pub old_left :
      (name : Bytes) (old : EntryMeta)
      → lookup name r.removed ≡ some old
      → lookup name removed ≡ some old
  pub new_left :
      (name : Bytes) (new : EntryMeta)
      → lookup name r.added ≡ some new
      → lookup name added ≡ some new
  pub old_count : length removed ≡ length r.sent + length r.removed
  pub new_count : length added ≡ length r.sent + length r.added
  pub unmoved :
      (name new_name : Bytes) (old new : EntryMeta)
      → lookup name r.removed ≡ some old
      → lookup new_name r.added ≡ some new
      → is_moved old new ≡ false

pub below_head :
    (name : Bytes) (meta : EntryMeta) (rest : Snapshot) (n : Bytes) (old : EntryMeta)
    → has name rest ≡ false
    → lookup n rest ≡ some old
    → lookup n ((name, meta) ∷ rest) ≡ some old
unfolding lookup
below_head name meta rest n old absent at =
    ground (arith, at, absent, lookup-has n rest old at, bytes_beq_iff name n)

pub below_delete :
    (name n : Bytes) (m : Snapshot) (new : EntryMeta)
    → lookup n (delete name m) ≡ some new
    → lookup n m ≡ some new
below_delete name n m new at = ground (arith, at, lookup-delete name n m)

-- The events of smaller diffs are events of the larger ones.
pub weaken_moves :
    (prefix : Bytes) (removed removed' added added' : Snapshot) (events : List Event)
    → ((n : Bytes) (old : EntryMeta) → lookup n removed ≡ some old → lookup n removed' ≡ some old)
    → ((n : Bytes) (new : EntryMeta) → lookup n added ≡ some new → lookup n added' ≡ some new)
    → AllMoves prefix removed added events
    → AllMoves prefix removed' added' events
weaken_moves prefix removed removed' added added' [] f g h = tt
weaken_moves prefix removed removed' added added' (event ∷ events) f g h =
    let first = h.0 in
    (
      record {
        old_name = first.old_name;
        new_name = first.new_name;
        old = first.old;
        new = first.new;
        went = f first.old_name first.old first.went;
        came = g first.new_name first.new first.came;
        moved = first.moved;
        reported = first.reported;
      },
      weaken_moves prefix removed removed' added added' events f g h.1,
    )
