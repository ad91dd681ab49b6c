-- ===== src/Ops.antt =====
-- types.go: `Op`, `Event`, `PathInfo` and their labels; internal/backend/backend.go has the same
-- constants, `Has` and `Event` for the backends. An Op is a uint32.
pub mod Labels
pub mod Bit
mod Tests
use Prim.Native.Nat.{bit_and, bit_or}
use go_gaze.Common.{
  ℕ, zero, suc, ◌+◌, ◌-◌, Bool, true, false, ◌&&◌, not, Option, none, some, List, [], ◌∷◌, ◌++◌,
  map, Bytes, codes, ltb, leb, ◌==◌, nat_eq, bytes_eq, length, get_elem?, take, if◌then◌else◌,
}

abbrev pub Op : Type 0
Op = ℕ

abbrev pub op_create : Op
op_create = 1

abbrev pub op_write : Op
op_write = 2

abbrev pub op_remove : Op
op_remove = 4

abbrev pub op_rename : Op
op_rename = 8

abbrev pub op_chmod : Op
op_chmod = 16

abbrev pub op_overflow : Op
op_overflow = 32

-- AllOps
abbrev pub all_ops : Op
all_ops =
    bit_or (bit_or (bit_or (bit_or (bit_or op_create op_write) op_remove) op_rename) op_chmod)
      op_overflow

-- Op.Has
unfoldable pub has_op : Op → Op → Bool
has_op o other = not (bit_and o other == 0)

pub record Event : Type 0 where
  pub path : Bytes
  pub old_path : Bytes
  pub op : Op
  pub is_dir : Bool

pub record PathInfo : Type 0 where
  pub path : Bytes
  pub base : Bytes
  pub is_dir : Bool

abbrev pub bar : ℕ
bar = b'|'

-- len(buf) of the label buffer.
abbrev pub buffer_size : ℕ
buffer_size = 48

abbrev pub op_names : List (Op × Bytes)
op_names =
    (op_create, codes "create")
    ∷ (op_write, codes "write")
    ∷ (op_remove, codes "remove")
    ∷ (op_rename, codes "rename")
    ∷ (op_chmod, codes "chmod")
    ∷ (op_overflow, codes "overflow")
    ∷ []

-- buf[n] = '|' when n > 0; `none` is an index out of range.
unfoldable pub put_bar : Bytes → Option Bytes
put_bar [] = some []
put_bar (c ∷ buf) =
    if ltb (length (c ∷ buf)) buffer_size then some ((c ∷ buf) ++ bar ∷ []) else none

-- n += copy(buf[n:], name)
unfoldable pub copy_name : Bytes → Bytes → Bytes
copy_name buf name = buf ++ take (buffer_size - length buf) name

abbrev named : Option Bytes → Bytes → Option Bytes
named none name = none
named (some buf) name = some (copy_name buf name)

abbrev label_item : Op → Op × Bytes → Bytes → Option Bytes
label_item mask (op, name) buf = if has_op mask op then named (put_bar buf) name else some buf

-- The inner loop of the table: the label written into `buf` so far.
unfoldable pub label_loop : Op → List (Op × Bytes) → Option Bytes → Option Bytes
unfolding put_bar copy_name has_op
label_loop mask items none = none
label_loop mask [] (some buf) = some buf
label_loop mask (item ∷ items) (some buf) = label_loop mask items (label_item mask item buf)

-- The outer loop, from `mask` for `n` more masks.
unfoldable pub label_table : ℕ → Op → List (Option Bytes)
unfolding label_loop
label_table zero mask = []
label_table (suc n) mask = label_loop mask op_names (some []) ∷ label_table n (mask + 1)

abbrev pub no_ops : Bytes
no_ops = codes "none"

-- opStrings
unfoldable pub op_strings : List (Option Bytes)
unfolding label_table
op_strings = some no_ops ∷ label_table all_ops 1

-- opStrings[o]; `none` is an index out of range or a panic while the table is filled.
unfoldable pub op_entry : Op → Option Bytes
unfolding op_strings
op_entry o = elim (get_elem? op_strings o) [ none ↦ none | some label ↦ label ]

-- Op.String
unfoldable pub op_string : Op → Option Bytes
unfolding op_entry
op_string o =
    if leb o all_ops
    then op_entry o
    else if bit_and o all_ops == 0
    then op_entry 0
    else op_entry (bit_and o all_ops)

-- strings.ToUpper on ASCII.
unfoldable pub to_upper : Bytes → Bytes
to_upper = map (λ c. if leb b'a' c && leb c b'z' then c - 32 else c)

-- Event.String around the operation's label.
unfoldable pub event_label : Bytes → Event → Bytes
unfolding to_upper has_op
event_label op evt =
    let label = codes "GAZE[" ++ (to_upper op ++ codes "]") in
    if has_op evt.op op_rename && not (evt.old_path == [])
    then label ++ (codes " " ++ (evt.old_path ++ (codes " -> " ++ evt.path)))
    else if evt.path == []
    then label
    else label ++ (codes " " ++ evt.path)

-- Event.String
unfoldable pub event_string : Event → Option Bytes
unfolding op_string event_label
event_string evt = elim (op_string evt.op) [ none ↦ none | some op ↦ some (event_label op evt) ]
