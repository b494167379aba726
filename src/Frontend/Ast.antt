-- ===== src/Frontend/Ast.antt =====
-- frontend/src/ast.rs and `Ident` of frontend/src/parse.rs: the syntax tree of a specification. An
-- identifier of a node is a number, a rational number is its numerator and its denominator, and a
-- reference-counted pointer is the value that it points to.
pub mod Expr
pub use Expr.*
use rtlola.Common.{Bool, Option, List, String, ℕ}
use rtlola.Frontend.Graph.{Span}

pub record Import : Type 0 where
  pub name : Ident
  pub id : ℕ
  pub span : Span

pub record Constant : Type 0 where
  pub name : Ident
  pub ty : Option Ty
  pub literal : Literal
  pub id : ℕ
  pub span : Span

pub record Parameter : Type 0 where
  pub name : Ident
  pub ty : Ty
  pub id : ℕ
  pub span : Span

pub record Input : Type 0 where
  pub name : Ident
  pub ty : Ty
  pub params : List Parameter
  pub id : ℕ
  pub span : Span

pub record ActivationCondition : Type 0 where
  pub expr : Option Expression
  pub id : ℕ
  pub span : Span

pub record InvokeSpec : Type 0 where
  pub target : Expression
  pub condition : Option Expression
  pub is_if : Bool
  pub id : ℕ
  pub span : Span

pub record ExtendSpec : Type 0 where
  pub target : Expression
  pub id : ℕ
  pub span : Span

pub record TerminateSpec : Type 0 where
  pub target : Expression
  pub id : ℕ
  pub span : Span

pub record TemplateSpec : Type 0 where
  pub inv : Option InvokeSpec
  pub ext : Option ExtendSpec
  pub ter : Option TerminateSpec
  pub id : ℕ
  pub span : Span

pub record Output : Type 0 where
  pub name : Ident
  pub ty : Ty
  pub extend : ActivationCondition
  pub params : List Parameter
  pub template_spec : Option TemplateSpec
  pub termination : Option Expression
  pub expression : Expression
  pub id : ℕ
  pub span : Span

pub record Trigger : Type 0 where
  pub name : Option Ident
  pub expression : Expression
  pub message : Option String
  pub id : ℕ
  pub span : Span

pub record TypeDeclField : Type 0 where
  pub ty : Ty
  pub name : String
  pub id : ℕ
  pub span : Span

pub record TypeDeclaration : Type 0 where
  pub name : Option Ident
  pub fields : List TypeDeclField
  pub id : ℕ
  pub span : Span

pub record RtLolaAst : Type 0 where
  pub imports : List Import
  pub constants : List Constant
  pub inputs : List Input
  pub outputs : List Output
  pub trigger : List Trigger
  pub type_declarations : List TypeDeclaration
