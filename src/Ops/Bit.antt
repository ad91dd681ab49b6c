-- ===== src/Ops/Bit.antt =====
-- types.go: Has on one operation reads one bit of the mask.
use Prim.Native.Nat.{bit_or}
use go_gaze.Common.{◌/◌, ◌%◌, ◌≡◌, true, arith, ◌==◌, nat_eq}
use go_gaze.Common.Bits.{
  bit_and-1, bit_and-2, bit_and-4, bit_and-8, bit_and-16, bit_and-32, bit_or-32,
}
use go_gaze.Ops.{Op, op_create, op_write, op_remove, op_rename, op_chmod, op_overflow, has_op}

pub has_op-create : (o : Op) → has_op o op_create ≡ (o % 2 == 1)
unfolding has_op
has_op-create o = ground (arith, bit_and-1 o)

pub has_op-write : (o : Op) → has_op o op_write ≡ (o / 2 % 2 == 1)
unfolding has_op
has_op-write o = ground (arith, bit_and-2 o)

pub has_op-remove : (o : Op) → has_op o op_remove ≡ (o / 4 % 2 == 1)
unfolding has_op
has_op-remove o = ground (arith, bit_and-4 o)

pub has_op-rename : (o : Op) → has_op o op_rename ≡ (o / 8 % 2 == 1)
unfolding has_op
has_op-rename o = ground (arith, bit_and-8 o)

pub has_op-chmod : (o : Op) → has_op o op_chmod ≡ (o / 16 % 2 == 1)
unfolding has_op
has_op-chmod o = ground (arith, bit_and-16 o)

pub has_op-overflow : (o : Op) → has_op o op_overflow ≡ (o / 32 % 2 == 1)
unfolding has_op
has_op-overflow o = ground (arith, bit_and-32 o)

-- The mask with the overflow operation added has overflow.
pub bit_or-overflow : (o : Op) → has_op (bit_or o op_overflow) op_overflow ≡ true
bit_or-overflow o = ground (arith, has_op-overflow (bit_or o op_overflow), bit_or-32 o)
