-- ===== src/Ir.antt =====
-- frontend/src/ir.rs: the intermediate representation that the interpreter runs.
pub mod Program
pub mod Layers
use rtlola.Common.{ℕ, Bool, String, Outcome, ok, panic}
use rtlola.Common.Int.{ℤ}

pub data IntTy : Type 0 where
  i8 i16 i32 i64 : IntTy

pub data UIntTy : Type 0 where
  u8 u16 u32 u64 : UIntTy

pub data FloatTy : Type 0 where
  f16 f32 f64 : FloatTy

-- `enum Type`
mutual
  pub data Ty : Type 0 where
    bool : Ty
    int : IntTy → Ty
    uint : UIntTy → Ty
    float : FloatTy → Ty
    string : Ty
    bytes : Ty
    tuple : Tys → Ty
    option : Ty → Ty
    function : Tys → Ty → Ty

  pub data Tys : Type 0 where
    nil : Tys
    cons : Ty → Tys → Tys

pub data MemorizationBound : Type 0 where
  unbounded : MemorizationBound
  bounded : ℕ → MemorizationBound

-- `enum WindowOperation` of frontend/src/ast.rs
pub data WindowOperation : Type 0 where
  count min max sum product average integral conjunction disjunction : WindowOperation

-- `enum StreamAccessKind` of frontend/src/ast.rs
pub data StreamAccessKind : Type 0 where
  sync hold optional : StreamAccessKind

pub data StreamReference : Type 0 where
  in_ref : ℕ → StreamReference
  out_ref : ℕ → StreamReference

unfoldable pub out_ix : StreamReference → Outcome ℕ
out_ix (StreamReference.in_ref _) = panic
out_ix (StreamReference.out_ref ix) = ok ix

unfoldable pub in_ix : StreamReference → Outcome ℕ
in_ix (StreamReference.out_ref _) = panic
in_ix (StreamReference.in_ref ix) = ok ix

-- Durations are numbers of nanoseconds.
pub data Offset : Type 0 where
  future_discrete_offset : ℕ → Offset
  past_discrete_offset : ℕ → Offset
  future_real_time_offset : ℕ → Offset
  past_real_time_offset : ℕ → Offset

pub data ArithLogOp : Type 0 where
  not neg add sub mul div rem pow and or bit_xor bit_and bit_or bit_not shl shr : ArithLogOp
  eq lt le ne ge gt : ArithLogOp

pub data Constant (F : Type 0) : Type 0 where
  str : String → Constant F
  bool : Bool → Constant F
  uint : ℕ → Constant F
  int : ℤ → Constant F
  float : F → Constant F

-- `struct Expression` with its `ExpressionKind`. `F` is the type of floats.
mutual
  pub data Expression (F : Type 0) : Type 0 where
    load_constant : Constant F → Ty → Expression F
    arith_log : ArithLogOp → Expressions F → Ty → Ty → Expression F
    offset_lookup : StreamReference → Offset → Ty → Expression F
    stream_access : StreamReference → StreamAccessKind → Ty → Expression F
    window_lookup : ℕ → Ty → Expression F
    ite : Expression F → Expression F → Expression F → Ty → Expression F
    tuple : Expressions F → Ty → Expression F
    tuple_access : Expression F → ℕ → Ty → Expression F
    function : String → Expressions F → Ty → Ty → Expression F
    convert : Ty → Ty → Expression F → Ty → Expression F
    default : Expression F → Expression F → Ty → Expression F

  pub data Expressions (F : Type 0) : Type 0 where
    nil : Expressions F
    cons : Expression F → Expressions F → Expressions F
