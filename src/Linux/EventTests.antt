-- ===== src/Linux/EventTests.antt =====
-- Instances of the theorems on the events of internal/backend/backend_linux.go: two recursive roots,
-- each with one directory below it.
use go_gaze.Common.{
  ℕ, suc, ◌+◌, ◌≤◌, ◌&&◌, not, length, ◌≡◌, refl, Bool, true, false, Option, none, some, List, [],
  ◌∷◌, ◌++◌, inl, arith, Bytes, codes, bytes_eq, nat_eq,
}
use go_gaze.Common.Assoc.{lookup, has}
use go_gaze.Errors.{ok, os_error}
use go_gaze.Ops.{op_rename}
use go_gaze.Env.{Target, BackendConfig}
use go_gaze.Linux.{Inotify, Node, LinuxWatcher, rename_watched_prefix, remove}
use go_gaze.Linux.Keys.{enrolled_for}
use go_gaze.Linux.Walking.{Files, leaf, more, directory}
use go_gaze.Linux.Masks.{RawEvent, has_bit, in_moved_from, in_moved_to, in_isdir, in_create}
use go_gaze.Linux.Adding.{new, add}
use go_gaze.Linux.Handling.{handle, flush_pending, full_path}
use go_gaze.Linux.Pairing.{paired_rename}
use go_gaze.Linux.Flushing.{removals, unexpired, flush_pending_lem}
use go_gaze.Linux.Owned.{IsOwned}
use go_gaze.Linux.Added.{new-IsOwned, add-IsOwned}
use go_gaze.Linux.Calls.{Call, adds, removes, handles, flushes, rounds, run, watched_for_root}
use go_gaze.Linux.Moving.{moved_directory_unwatched}
use go_gaze.Linux.Polling.{
  InotifyError, poll_inotify, failed, Moment, Round, errors_capacity, round,
}
use go_gaze.Linux.Rounds.{is_failure, round_outcome}
use go_gaze.Linux.Reading.{parse_buffer}
use go_gaze.Linux.Parsed.{encode_all, events_of, parse_buffer-encode_all}

abbrev inotify : Inotify ℕ
inotify = record { add_watch = λ path n. (suc n, ok n); remove_watch = λ wd n. n }

-- Below each directory there is one, `d`.
abbrev files : Files
files = record {
  lstat = λ path. ok true;
  tree = λ path. ok (directory path (more (directory (path ++ codes "/d") leaf) leaf));
}

abbrev cfg : BackendConfig
cfg = record { buffer_size = 16; follow_symlinks = false; should_exclude = λ path is_dir. false }

abbrev target : Bytes → Target
target path = record { path = path; watch_path = path; is_dir = true; recursive = true }

abbrev one_root : LinuxWatcher ℕ
one_root = (add inotify files cfg (target (codes "/a")) (new 1)).0

abbrev two_roots : LinuxWatcher ℕ
two_roots = (add inotify files cfg (target (codes "/r")) one_root).0

two_roots-IsOwned : IsOwned two_roots
two_roots-IsOwned =
    add-IsOwned inotify files cfg (target (codes "/r")) one_root
      (add-IsOwned inotify files cfg (target (codes "/a")) (new 1) (new-IsOwned 1))

abbrev moved_from : RawEvent
moved_from = record { wd = 2; mask = in_moved_from; cookie = 7; name = codes "x" }

abbrev moved_to : RawEvent
moved_to = record { wd = 4; mask = in_moved_to; cookie = 7; name = codes "y" }

old_dir : lookup 2 two_roots.wd_to_path ≡ some (codes "/a/d")
unfolding lookup add new has go_gaze.Linux.Walking.walk_path go_gaze.Linux.Walking.walk_tree
    go_gaze.Linux.add_dir go_gaze.Common.Assoc.insert go_gaze.Common.bytes_beq
old_dir = refl

new_dir : lookup 4 two_roots.wd_to_path ≡ some (codes "/r/d")
unfolding lookup add new has go_gaze.Linux.Walking.walk_path go_gaze.Linux.Walking.walk_tree
    go_gaze.Linux.add_dir go_gaze.Common.Assoc.insert go_gaze.Common.bytes_beq
new_dir = refl

paired_rename_example :
    (w1 w2 : LinuxWatcher ℕ) × (handle inotify files cfg 10 moved_from two_roots ≡ some (w1, []))
    × (handle inotify files cfg 11 moved_to w1
        ≡ some (
          w2,
          record {
            path = full_path (codes "/r/d") (codes "y");
            old_path = full_path (codes "/a/d") (codes "x");
            op = op_rename;
            is_dir = has_bit in_moved_to in_isdir;
          }
              ∷ [],
        ))
    × (lookup 7 w2.pending ≡ none)
unfolding go_gaze.Common.bytes_beq has_bit
paired_rename_example =
    paired_rename inotify files cfg 10 11 moved_from moved_to (codes "/a/d") (codes "/r/d")
      two_roots old_dir new_dir refl refl refl refl refl refl refl refl two_roots-IsOwned

abbrev halfway : LinuxWatcher ℕ
halfway = record two_roots {
  pending =
      (7, record { path = codes "/a/d/x"; is_dir = false; at = 10 })
      ∷ (9, record { path = codes "/a/d/z"; is_dir = true; at = 30 })
      ∷ [];
}

flush_example :
    ((flush_pending inotify 20 halfway).1 ≡ removals 20 halfway.pending)
    × ((cookie : ℕ)
        → lookup cookie (flush_pending inotify 20 halfway).0.pending
          ≡ unexpired 20 (lookup cookie halfway.pending))
unfolding has
flush_example = flush_pending_lem inotify 20 halfway (refl, (refl, tt))

abbrev moment : Moment
moment = record { cutoff = 20; clock = λ n. n + 21; answer = failed (poll_inotify (os_error 9)) }

round_example :
    (r : Round ℕ) × (round inotify files cfg moment [] two_roots ≡ some r)
    × IsOwned r.state
    × (length {A = InotifyError} [] ≤ errors_capacity → length r.errors ≤ errors_capacity)
    × (r.running ≡ not (two_roots.closed && is_failure moment.answer))
round_example = round_outcome inotify files cfg moment [] two_roots two_roots-IsOwned

abbrev calls : List Call
calls =
    adds files (target (codes "/a"))
    ∷ adds files (target (codes "/r"))
    ∷ handles files 10 moved_from
    ∷ handles files 11 moved_to
    ∷ removes (codes "/a")
    ∷ flushes 20
    ∷ rounds files moment []
    ∷ []

watched_for_root_example :
    (w : LinuxWatcher ℕ) × (run inotify cfg calls (new 1) ≡ some w)
    × ((path : Bytes) (node : Node)
        → lookup path w.watched ≡ some node
        → (root : Bytes) × (has root node.roots ≡ true)
          × (has root w.roots ≡ true)
          × (enrolled_for root path w.root_dirs ≡ true))
watched_for_root_example = watched_for_root inotify cfg 1 calls

abbrev moved_node : Node
moved_node = record { wd = 2; path = codes "/a/d"; roots = (codes "/a", tt) ∷ [] }

unwatched_example :
    (w' : LinuxWatcher ℕ) × (rename_watched_prefix (codes "/a/d") (codes "/r/d") two_roots
      ≡ some w')
    × (lookup (codes "/r/d") (remove inotify (codes "/a") w').0.watched ≡ none)
    × (enrolled_for (codes "/r") (codes "/r/d") (remove inotify (codes "/a") w').0.root_dirs ≡ true)
unfolding go_gaze.Linux.moved_paths add new has go_gaze.Linux.Walking.walk_path
    go_gaze.Linux.Walking.walk_tree go_gaze.Linux.add_dir lookup go_gaze.Common.Assoc.insert
    go_gaze.Common.bytes_beq go_gaze.FilePath.has_path_prefix
unwatched_example =
    moved_directory_unwatched inotify (codes "/a/d") (codes "/r/d") (codes "/a") (codes "/r")
      moved_node (target (codes "/a")) two_roots two_roots-IsOwned refl refl refl refl refl refl

-- The first name is padded as the kernel does, and a part of an event follows.
abbrev written : List (RawEvent × ℕ)
written =
    (record { wd = 2; mask = in_create; cookie = 0; name = codes "new" }, 13)
    ∷ (record { wd = 300; mask = in_moved_from; cookie = 70000; name = [] }, 0)
    ∷ []

parsed_example : parse_buffer (encode_all written (1 ∷ 2 ∷ 3 ∷ [])) ≡ events_of written
parsed_example =
    parse_buffer-encode_all written (1 ∷ 2 ∷ 3 ∷ [])
      (
        record {
          wd = omega arith;
          mask = omega arith;
          cookie = omega arith;
          size = omega arith;
          name = (ground arith, (ground arith, (ground arith, tt)));
        },
        (
          record {
            wd = omega arith;
            mask = omega arith;
            cookie = omega arith;
            size = omega arith;
            name = tt;
          },
          tt,
        ),
      )
      (inl (omega arith))
