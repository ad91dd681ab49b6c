-- ===== src/Linux/Reading.antt =====
-- internal/backend/backend_linux.go: the parsing of the buffer in run, and trimNull. `rest` is what
-- stands between `offset` and `read`. The four words of unix.InotifyEvent are little-endian, as on
-- every system for which gaze is built but big-endian Linux.
use go_gaze.Common.{
  ℕ, zero, suc, Option, none, some, List, [], ◌∷◌, ◌++◌, Bytes, ◌==◌, nat_eq, ltb, length, take,
  drop, if◌then◌else◌,
}
use go_gaze.Ops.{Event}
use go_gaze.Env.{BackendConfig}
use go_gaze.Linux.{Inotify, LinuxWatcher}
use go_gaze.Linux.Walking.{Files}
use go_gaze.Common.Words.{read_word}
use go_gaze.Linux.Masks.{RawEvent}
use go_gaze.Linux.Handling.{Sent, handle}

-- unix.SizeofInotifyEvent
abbrev pub event_size : ℕ
event_size = 16

-- trimNull
unfoldable pub trim_null : Bytes → Bytes
trim_null [] = []
trim_null (b ∷ bytes) = let more = trim_null bytes in if b == 0 then [] else b ∷ more

-- The loop over the buffer, with the events for which it calls handle.
unfoldable pub parse : ℕ → Bytes → List RawEvent
unfolding read_word trim_null
parse zero rest = []
parse (suc fuel) rest =
    let size = read_word (drop 12 rest) in
    let body = drop event_size rest in
    let raw : RawEvent = record {
      wd = read_word rest;
      mask = read_word (drop 4 rest);
      cookie = read_word (drop 8 rest);
      name = trim_null (take size body);
    } in
    let more = parse fuel (drop size body) in
    if ltb (length rest) event_size then [] else if ltb (length body) size then [] else raw ∷ more

-- Each round of the loop takes at least the fixed part of an event.
unfoldable pub parse_buffer : Bytes → List RawEvent
unfolding parse
parse_buffer buffer = parse (length buffer) buffer

module _ {K : Type 0} where
  abbrev pub sent_after : List Event → Option (Sent K) → Option (Sent K)
  sent_after sent none = none
  sent_after sent (some (w, more)) = some (w, sent ++ more)

  abbrev pub then_handle : Option (Sent K) → (LinuxWatcher K → Option (Sent K)) → Option (Sent K)
  then_handle none f = none
  then_handle (some (w, sent)) f = sent_after sent (f w)

module _ {K : Type 0} (inotify : Inotify K) (files : Files) (cfg : BackendConfig)
    (clock : ℕ → ℕ) where
  unfoldable pub handle_all : ℕ → List RawEvent → LinuxWatcher K → Option (Sent K)
  unfolding handle
  handle_all n [] w = some (w, [])
  handle_all n (raw ∷ more) w =
      then_handle (handle inotify files cfg (clock n) raw w) (λ w'. handle_all (suc n) more w')

  -- What run does with one buffer that it read.
  unfoldable pub read_buffer : Bytes → LinuxWatcher K → Option (Sent K)
  unfolding parse_buffer handle_all
  read_buffer buffer w = handle_all 0 (parse_buffer buffer) w
