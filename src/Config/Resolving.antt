-- ===== src/Config/Resolving.antt =====
-- config.go: what resolveConfig guarantees of the configuration that a watcher runs with.
use Prim.Native.Nat.{bit_or}
use go_gaze.Common.{
  ℕ, ◌/◌, ◌%◌, ◌≤◌, ◌≡◌, refl, ◌∙◌, ◌≢◌, ◌⊎◌, true, ◌||◌, Option, none, some, arith, leb, ◌==◌,
  nat_eq, Bool-cases, inl, inr, if◌then◌else◌,
}
use go_gaze.Common.Int.{ℤ, pos, negsuc, leb_ℤ}
use go_gaze.Common.Bits.{bit_or-32}
use go_gaze.Ops.{Op, op_create, op_write, op_remove, op_rename, op_chmod, op_overflow, has_op}
use go_gaze.Ops.Bit.{
  bit_or-overflow, has_op-create, has_op-write, has_op-remove, has_op-rename, has_op-chmod,
  has_op-overflow,
}
use go_gaze.Config.{Config, resolve_ops, resolve_capacity, resolve_logger, resolve_config}

resolve_ops-overflow : (o : Op) → has_op (resolve_ops o) op_overflow ≡ true
unfolding resolve_ops has_op
resolve_ops-overflow o = elim (Bool-cases (o == 0)) [
  | inl e ↦ rw (e, resolve_ops) refl
  | inr e ↦ rw (e, resolve_ops) (bit_or-overflow o)
]

bit_or-32_set : (o : ℕ) → o / 32 % 2 ≡ 1 → bit_or o 32 ≡ o
bit_or-32_set o h = let (low, bit, high) = bit_or-32 o in omega arith

resolve_ops-nonzero : (o : Op) → o ≢ 0 → resolve_ops o ≡ bit_or o 32
unfolding resolve_ops
resolve_ops-nonzero o h = ground arith

ops-resolve_config : (d : ℕ) (cfg : Config) → (resolve_config d cfg).ops ≡ resolve_ops cfg.ops
unfolding resolve_config
ops-resolve_config d cfg = refl

-- The parts of a resolved mask, also of the mask that means all operations.
resolve_ops-bits :
    (o : Op) → (resolve_ops o % 32 ≡ (if o == 0 then 31 else o % 32)) × (resolve_ops o / 32 % 2 ≡ 1)
unfolding resolve_ops
resolve_ops-bits o = let (low, bit, high) = bit_or-32 o in (ground arith, ground arith)

resolve_ops_idem : (o : Op) → resolve_ops (resolve_ops o) ≡ resolve_ops o
resolve_ops_idem o =
    let bits = resolve_ops-bits o in
    let set = bit_or-32_set (resolve_ops o) bits.1 in
    resolve_ops-nonzero (resolve_ops o) (omega arith) ∙ set

-- A resolved configuration delivers an operation exactly when its mask had it or was zero, and
-- always delivers overflow.
resolve_config-ops :
    (slog_default : ℕ) (cfg : Config)
    → (has_op (resolve_config slog_default cfg).ops op_create
        ≡ (cfg.ops == 0 || has_op cfg.ops op_create))
      × (has_op (resolve_config slog_default cfg).ops op_write
          ≡ (cfg.ops == 0 || has_op cfg.ops op_write))
      × (has_op (resolve_config slog_default cfg).ops op_remove
          ≡ (cfg.ops == 0 || has_op cfg.ops op_remove))
      × (has_op (resolve_config slog_default cfg).ops op_rename
          ≡ (cfg.ops == 0 || has_op cfg.ops op_rename))
      × (has_op (resolve_config slog_default cfg).ops op_chmod
          ≡ (cfg.ops == 0 || has_op cfg.ops op_chmod))
      × (has_op (resolve_config slog_default cfg).ops op_overflow ≡ true)
resolve_config-ops d cfg =
    let o = cfg.ops in
    let r = resolve_ops o in
    let bits = resolve_ops-bits o in
    rw ops-resolve_config (
      ground (arith, has_op-create r, has_op-create o),
      ground (arith, has_op-write r, has_op-write o),
      ground (arith, has_op-remove r, has_op-remove o),
      ground (arith, has_op-rename r, has_op-rename o),
      ground (arith, has_op-chmod r, has_op-chmod o),
      ground (arith, has_op-overflow r),
    )

-- A capacity that a channel can have.
abbrev pub IsPositive : ℤ → Type 0
IsPositive (pos n) = 1 ≤ n
IsPositive (negsuc n) = ⊥

resolve_capacity-IsPositive : (d : ℕ) (c : ℤ) → IsPositive (resolve_capacity d c)
unfolding resolve_capacity
resolve_capacity-IsPositive d (pos n) = elim (Bool-cases (leb n 0)) [
  | inl e ↦ rw (e, resolve_capacity) (omega arith)
  | inr e ↦ rw (e, resolve_capacity) (ground arith)
]
resolve_capacity-IsPositive d (negsuc n) = omega arith

resolve_capacity_idem :
    (d : ℕ) (c : ℤ) → resolve_capacity d (resolve_capacity d c) ≡ resolve_capacity d c
unfolding resolve_capacity
resolve_capacity_idem d (pos n) = ground arith
resolve_capacity_idem d (negsuc n) = refl

resolve_logger_idem :
    (d : ℕ) (l : Option ℕ) → resolve_logger d (resolve_logger d l) ≡ resolve_logger d l
unfolding resolve_logger
resolve_logger_idem d none = refl
resolve_logger_idem d (some n) = refl

resolve_capacity-cases :
    (d : ℕ) (c : ℤ)
    → (IsPositive c × (resolve_capacity d c ≡ c))
      ⊎ ((leb_ℤ c 0 ≡ true) × (resolve_capacity d c ≡ pos 1024))
unfolding resolve_capacity
resolve_capacity-cases d (pos n) = elim (Bool-cases (leb n 0)) [
  | inl e ↦ inr (e, rw e refl)
  | inr e ↦ inl (ground arith, rw e refl)
]
resolve_capacity-cases d (negsuc n) = inr (refl, refl)

resolve_logger-cases :
    (d : ℕ) (l : Option ℕ)
    → ((l ≡ none) × (resolve_logger d l ≡ some d))
      ⊎ ((n : ℕ) × (l ≡ some n) × (resolve_logger d l ≡ some n))
unfolding resolve_logger
resolve_logger-cases d none = inl (refl, refl)
resolve_logger-cases d (some n) = inr (n, refl, refl)

-- What a watcher may rely on of the configuration `r` made from `cfg`.
pub record IsResolved (slog_default : ℕ) (cfg r : Config) : Type 0 where
  pub recursion : r.recursion ≡ cfg.recursion
  pub exclude_globs : r.exclude_globs ≡ cfg.exclude_globs
  pub exclude_prefixes : r.exclude_prefixes ≡ cfg.exclude_prefixes
  pub exclude : r.exclude ≡ cfg.exclude
  pub on_event : r.on_event ≡ cfg.on_event
  pub on_error : r.on_error ≡ cfg.on_error
  pub follow_symlinks : r.follow_symlinks ≡ cfg.follow_symlinks
  pub create : has_op r.ops op_create ≡ (cfg.ops == 0 || has_op cfg.ops op_create)
  pub write : has_op r.ops op_write ≡ (cfg.ops == 0 || has_op cfg.ops op_write)
  pub remove : has_op r.ops op_remove ≡ (cfg.ops == 0 || has_op cfg.ops op_remove)
  pub rename : has_op r.ops op_rename ≡ (cfg.ops == 0 || has_op cfg.ops op_rename)
  pub chmod : has_op r.ops op_chmod ≡ (cfg.ops == 0 || has_op cfg.ops op_chmod)
  pub overflow : has_op r.ops op_overflow ≡ true
  pub capacity :
      (IsPositive cfg.queue_capacity × (r.queue_capacity ≡ cfg.queue_capacity))
      ⊎ ((leb_ℤ cfg.queue_capacity 0 ≡ true) × (r.queue_capacity ≡ pos 1024))
  pub positive : IsPositive r.queue_capacity
  pub logger :
      ((cfg.logger ≡ none) × (r.logger ≡ some slog_default))
      ⊎ ((l : ℕ) × (cfg.logger ≡ some l) × (r.logger ≡ some l))

resolve_config_idem :
    (d : ℕ) (cfg : Config) → resolve_config d (resolve_config d cfg) ≡ resolve_config d cfg
unfolding resolve_config
resolve_config_idem d cfg = λ i. record (resolve_config d cfg) {
  ops = resolve_ops_idem cfg.ops i;
  queue_capacity = resolve_capacity_idem d cfg.queue_capacity i;
  logger = resolve_logger_idem d cfg.logger i;
}

-- Resolving keeps the recursion, the exclusions, the handlers and the symlink setting; delivers each
-- of the five operations exactly when the mask had it or was zero, and always overflow; keeps a
-- positive queue capacity and makes any other 1024; keeps a logger and takes the default one where
-- there is none; and changes nothing when it is applied again.
pub resolve_config-IsResolved :
    (slog_default : ℕ) (cfg : Config)
    → IsResolved slog_default cfg (resolve_config slog_default cfg)
      × (resolve_config slog_default (resolve_config slog_default cfg)
          ≡ resolve_config slog_default cfg)
unfolding resolve_config
resolve_config-IsResolved d cfg =
    let (create, write, remove, rename, chmod, overflow) = resolve_config-ops d cfg in
    (
      record {
        recursion = refl;
        exclude_globs = refl;
        exclude_prefixes = refl;
        exclude = refl;
        on_event = refl;
        on_error = refl;
        follow_symlinks = refl;
        create = create;
        write = write;
        remove = remove;
        rename = rename;
        chmod = chmod;
        overflow = overflow;
        capacity = resolve_capacity-cases d cfg.queue_capacity;
        positive = resolve_capacity-IsPositive d cfg.queue_capacity;
        logger = resolve_logger-cases d cfg.logger;
      },
      resolve_config_idem d cfg,
    )
