-- ===== src/Frontend/Naming.antt =====
-- `Declaration` and `ScopedDecl` of frontend/src/analysis/naming.rs: what a name stands for, in
-- nested scopes. The innermost scope is the first of the list.
pub mod Expressions
pub mod Specs
pub mod Check
pub mod Returns
pub mod Closing
pub mod Balanced
pub mod Total
pub mod Binding
pub mod Shadowing
pub mod Scoping
use rtlola.Common.{
  ℕ, suc, Bool, true, false, if◌then◌else◌, Option, none, some, List, [], ◌∷◌, String, Outcome, ok,
  panic,
}
use text.Mathlib.Text.{◌==◌}
use rtlola.Frontend.Ast.{Constant, Input, Output, Parameter, FunctionName}
use rtlola.Frontend.Graph.{Span}
use rtlola.Frontend.ValueTy.{ValueTy}
use rtlola.Frontend.Stdlib.{FuncDecl, to_string}

pub data Declaration : Type 0 where
  const : Constant → Declaration
  in_decl : Input → Declaration
  out : Output → Declaration
  param_out : Output → Declaration
  type_decl : ValueTy → Declaration
  param : Parameter → Declaration
  func : FuncDecl → Declaration

unfoldable pub get_span : Declaration → Option Span
get_span (const constant) = some constant.name.span
get_span (in_decl input) = some input.name.span
get_span (out output) = some output.name.span
get_span (param_out output) = some output.name.span
get_span (param p) = some p.name.span
get_span (type_decl _) = none
get_span (func _) = none

unfoldable pub get_name : Declaration → Option String
get_name (const constant) = some constant.name.name
get_name (in_decl input) = some input.name.name
get_name (out output) = some output.name.name
get_name (param_out output) = some output.name.name
get_name (param p) = some p.name.name
get_name (type_decl _) = none
get_name (func _) = none

unfoldable pub is_type : Declaration → Bool
is_type (type_decl _) = true
is_type _ = false

unfoldable pub is_function : Declaration → Bool
is_function (func _) = true
is_function (param_out _) = true
is_function _ = false

-- `HashMap<String, Declaration>`
abbrev pub Scope : Type 0
Scope = List (String × Declaration)

abbrev pub find : Scope → String → Option Declaration
find [] k = none
find ((j, d) ∷ m) k = if j == k then some d else find m k

unfoldable pub store : Scope → String → Declaration → Scope
store [] k d = (k, d) ∷ []
store ((j, e) ∷ m) k d = if j == k then (k, d) ∷ m else (j, e) ∷ store m k d

abbrev pub ScopedDecl : Type 0
ScopedDecl = List Scope

unfoldable pub new : ScopedDecl
new = [] ∷ []

unfoldable pub push : ScopedDecl → ScopedDecl
push scopes = [] ∷ scopes

unfoldable pub pop : ScopedDecl → Outcome ScopedDecl
pop (scope ∷ outer ∷ scopes) = ok (outer ∷ scopes)
pop _ = panic

unfoldable pub get_decl_for : ScopedDecl → String → Option Declaration
get_decl_for [] name = none
get_decl_for (scope ∷ scopes) name = elim (find scope name) [
  | some d ↦ some d
  | none ↦ get_decl_for scopes name
]

unfoldable pub get_decl_in_current_scope_for : ScopedDecl → String → Outcome (Option Declaration)
get_decl_in_current_scope_for [] name = panic
get_decl_in_current_scope_for (scope ∷ scopes) name = ok (find scope name)

-- `ScopedDecl::add_decl_for`
unfoldable pub add_scoped : ScopedDecl → String → Declaration → Outcome ScopedDecl
add_scoped [] name decl = panic
add_scoped (scope ∷ scopes) name decl = ok (store scope name decl ∷ scopes)

unfoldable pub add_fun_decl : ScopedDecl → FuncDecl → Outcome ScopedDecl
add_fun_decl scopes fun = add_scoped scopes (to_string fun.name) (func fun)
