-- ===== src/Frontend/Ast/Expr.antt =====
-- The types, literals and expressions of frontend/src/ast.rs. The struct `Type` is `Ty` here.
use rtlola.Common.{Bool, Option, List, String, ℕ}
use rtlola.Common.Int.{ℤ}
use rtlola.Frontend.Graph.{Span}

pub record Ident : Type 0 where
  pub name : String
  pub span : Span

pub record Parenthesis : Type 0 where
  pub id : ℕ
  pub span : Span

-- a type: its kind, the identifier of its node, its place
mutual
  pub data Ty : Type 0 where
    type_node : TypeKind → ℕ → Span → Ty

  pub data TypeKind : Type 0 where
    simple : String → TypeKind
    tuple : Tys → TypeKind
    optional : Ty → TypeKind
    inferred : TypeKind

  pub data Tys : Type 0 where
    nil : Tys
    cons : Ty → Tys → Tys

pub data WindowOperation : Type 0 where
  count min max sum product average integral conjunction disjunction : WindowOperation

pub data StreamAccessKind : Type 0 where
  sync hold optional : StreamAccessKind

pub data TimeUnit : Type 0 where
  nanosecond microsecond millisecond second minute hour day week year : TimeUnit

pub data Offset : Type 0 where
  discrete : ℤ → Offset
  real_time : ℤ × ℕ → TimeUnit → Offset

-- A number is kept as the text of the specification.
pub data LitKind : Type 0 where
  str : String → LitKind
  raw_str : String → LitKind
  numeric : String → Option String → LitKind
  bool : Bool → LitKind

pub record Literal : Type 0 where
  pub kind : LitKind
  pub id : ℕ
  pub span : Span

pub data BinOp : Type 0 where
  add sub mul div rem pow : BinOp
  and or bit_xor bit_and bit_or shl shr : BinOp
  eq lt le ne ge gt : BinOp

pub data UnOp : Type 0 where
  not neg bit_not : UnOp

pub record FunctionName : Type 0 where
  pub name : Ident
  pub arg_names : List (Option Ident)

-- an expression: its kind, the identifier of its node, its place
mutual
  pub data Expression : Type 0 where
    expr_node : ExpressionKind → ℕ → Span → Expression

  pub data ExpressionKind : Type 0 where
    lit : Literal → ExpressionKind
    ident : Ident → ExpressionKind
    stream_access : Expression → StreamAccessKind → ExpressionKind
    default : Expression → Expression → ExpressionKind
    offset : Expression → Offset → ExpressionKind
    sliding_window_aggregation : Expression → Expression → Bool → WindowOperation → ExpressionKind
    binary : BinOp → Expression → Expression → ExpressionKind
    unary : UnOp → Expression → ExpressionKind
    ite : Expression → Expression → Expression → ExpressionKind
    parenthesized_expression : Option Parenthesis → Expression → Option Parenthesis → ExpressionKind
    missing_expression : ExpressionKind
    tuple : Expressions → ExpressionKind
    field : Expression → Ident → ExpressionKind
    method : Expression → FunctionName → Tys → Expressions → ExpressionKind
    function : FunctionName → Tys → Expressions → ExpressionKind

  pub data Expressions : Type 0 where
    nil : Expressions
    cons : Expression → Expressions → Expressions
