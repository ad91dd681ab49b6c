-- ===== src/Linux/Masks.antt =====
-- internal/backend/backend_linux.go: unix.InotifyEvent and the bits of its mask.
use Prim.Native.Nat.{bit_and}
use go_gaze.Common.{ℕ, Bool, not, Bytes, ◌==◌, nat_eq, bytes_eq}

-- The bits of unix.InotifyEvent.Mask.
abbrev pub in_modify : ℕ
in_modify = 0x2

abbrev pub in_attrib : ℕ
in_attrib = 0x4

abbrev pub in_close_write : ℕ
in_close_write = 0x8

abbrev pub in_moved_from : ℕ
in_moved_from = 0x40

abbrev pub in_moved_to : ℕ
in_moved_to = 0x80

abbrev pub in_create : ℕ
in_create = 0x100

abbrev pub in_delete : ℕ
in_delete = 0x200

abbrev pub in_delete_self : ℕ
in_delete_self = 0x400

abbrev pub in_move_self : ℕ
in_move_self = 0x800

abbrev pub in_q_overflow : ℕ
in_q_overflow = 0x4000

abbrev pub in_ignored : ℕ
in_ignored = 0x8000

abbrev pub in_isdir : ℕ
in_isdir = 0x40000000

-- `mask & bit != 0`
unfoldable pub has_bit : ℕ → ℕ → Bool
has_bit mask bit = not (bit_and mask bit == 0)

-- unix.InotifyEvent with the name behind it. The kernel's -1 for the descriptor of an overflow is
-- never read.
pub record RawEvent : Type 0 where
  pub wd : ℕ
  pub mask : ℕ
  pub cookie : ℕ
  pub name : Bytes
