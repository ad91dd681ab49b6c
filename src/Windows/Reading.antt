-- ===== src/Windows/Reading.antt =====
-- internal/backend/backend_windows.go: the parsing of the buffer in runRoot. `rest` is what stands
-- between `offset` and the number of bytes that the kernel wrote, 65536 at most. So no sum of
-- offsets reaches 2^64.
use go_gaze.Common.{
  ℕ, zero, suc, ◌+◌, ◌*◌, List, [], ◌∷◌, Bytes, ◌==◌, nat_eq, ltb, length, take, drop,
  if◌then◌else◌,
}
use go_gaze.Common.Words.{read_word}

-- What runRoot reads of windows.FileNotifyInformation; the name is in UTF-16.
pub record Info : Type 0 where
  pub action : ℕ
  pub name : List ℕ

-- windowsFileNotifyHeaderSize
abbrev pub header_size : ℕ
header_size = 12

-- The code units of a name; half a unit at the end does not count.
unfoldable pub read_units : Bytes → List ℕ
read_units (a ∷ b ∷ rest) = (a + 256 * b) ∷ read_units rest
read_units _ = []

-- The loop over the buffer, with the entries that it handles.
unfoldable pub parse : ℕ → Bytes → List Info
unfolding read_word read_units
parse zero rest = []
parse (suc fuel) rest =
    let next = read_word rest in
    let size = read_word (drop 8 rest) in
    let body = drop header_size rest in
    let info : Info = record {
      action = read_word (drop 4 rest);
      name = read_units (take size body);
    } in
    let more = parse fuel (drop next rest) in
    if ltb (length rest) header_size
    then []
    else if ltb (length body) size
    then []
    else info ∷ (if next == 0 then [] else more)

-- Each round of the loop that goes on takes at least one byte.
unfoldable pub parse_buffer : Bytes → List Info
unfolding parse
parse_buffer buffer = parse (length buffer) buffer
