-- ===== src/Frontend/Stdlib.antt =====
-- frontend/src/stdlib.rs: the declarations of the operators and of the functions of the standard
-- library; and the names of functions as frontend/src/ast/print.rs writes them.
pub mod Closed
use rtlola.Common.{
  ℕ, ◌^◌, ◌-◌, Option, none, some, List, [], ◌∷◌, map, String, Outcome, ok, panic, ◌>>=◌,
}
use Prim.Native.String.{◌++◌}
use rtlola.Ir.{IntTy, UIntTy, FloatTy}
use rtlola.Frontend.Ast.{Ident, FunctionName, BinOp, UnOp}
use rtlola.Frontend.Graph.{Span}
use rtlola.Frontend.ValueTy.{ValueTy, TypeConstraint, replace_params_with_ty}

pub record FuncDecl : Type 0 where
  pub name : FunctionName
  pub generics : List ValueTy
  pub parameters : List ValueTy
  pub return_type : ValueTy

-- `Span::unknown()`, for numbers of 64 bits
abbrev pub unknown : Span
unknown = record { start = 2 ^ 64 - 1; end = 2 ^ 64 - 1 }

unfoldable pub new_arg_names : List (Option String) → List (Option Ident)
new_arg_names [] = []
new_arg_names (none ∷ names) = none ∷ new_arg_names names
new_arg_names (some s ∷ names) = some (record { name = s; span = unknown }) ∷ new_arg_names names

-- `FunctionName::new`
unfoldable pub function_name : String → List (Option String) → FunctionName
function_name name arg_names = record {
  name = record { name = name; span = unknown };
  arg_names = new_arg_names arg_names;
}

unfoldable pub print_args : List (Option Ident) → String
print_args [] = ""
print_args (none ∷ names) = "_:" ++ print_args names
print_args (some arg ∷ names) = (arg.name ++ ":") ++ print_args names

-- `FunctionName::to_string`, as in `matches(_:regex:)`
unfoldable pub to_string : FunctionName → String
to_string f = (f.name.name ++ ("(" ++ print_args f.arg_names)) ++ ")"

-- The instantiated types of one list of parameters.
unfoldable pub replace_each : List ValueTy → List ValueTy → Outcome (List ValueTy)
replace_each [] generics = ok []
replace_each (ty ∷ tys) generics = do
  ty' ← replace_params_with_ty ty generics
  tys' ← replace_each tys generics
  ok (ty' ∷ tys')

unfoldable pub get_types_for_args_and_ret :
    FuncDecl → List ValueTy → Outcome (List ValueTy × ValueTy)
get_types_for_args_and_ret decl generics = do
  args ← replace_each decl.parameters generics
  ret ← replace_params_with_ty decl.return_type generics
  ok (args, ret)

abbrev pub t_param : ValueTy
t_param = ValueTy.param 0 "T"

abbrev pub u_param : ValueTy
u_param = ValueTy.param 1 "U"

-- `BinOp` as it is printed
unfoldable pub binop_symbol : BinOp → String
binop_symbol BinOp.add = "+"
binop_symbol BinOp.sub = "-"
binop_symbol BinOp.mul = "*"
binop_symbol BinOp.div = "/"
binop_symbol BinOp.rem = "%"
binop_symbol BinOp.pow = "**"
binop_symbol BinOp.and = "∧"
binop_symbol BinOp.or = "∨"
binop_symbol BinOp.bit_xor = "^"
binop_symbol BinOp.bit_and = "&"
binop_symbol BinOp.bit_or = "|"
binop_symbol BinOp.shl = "<<"
binop_symbol BinOp.shr = ">>"
binop_symbol BinOp.eq = "="
binop_symbol BinOp.lt = "<"
binop_symbol BinOp.le = "≤"
binop_symbol BinOp.ne = "≠"
binop_symbol BinOp.ge = "≥"
binop_symbol BinOp.gt = ">"

-- a declaration of a function or an operator by its name and the names of its arguments
abbrev pub declare :
    String → List (Option String) → List TypeConstraint → List ValueTy → ValueTy → FuncDecl
declare name arg_names constraints parameters return_type = record {
  name = function_name name arg_names;
  generics = map ValueTy.constr constraints;
  parameters = parameters;
  return_type = return_type;
}

-- `BinOp::get_func_decl`
abbrev pub arithmetic_decl : BinOp → FuncDecl
arithmetic_decl op =
    declare (binop_symbol op) (none ∷ none ∷ []) (TypeConstraint.numeric ∷ [])
      (t_param ∷ t_param ∷ []) t_param

abbrev pub logical_decl : BinOp → FuncDecl
logical_decl op =
    declare (binop_symbol op) (none ∷ none ∷ []) [] (ValueTy.bool ∷ ValueTy.bool ∷ []) ValueTy.bool

abbrev pub equality_decl : BinOp → FuncDecl
equality_decl op =
    declare (binop_symbol op) (none ∷ none ∷ []) (TypeConstraint.equatable ∷ [])
      (t_param ∷ t_param ∷ []) ValueTy.bool

abbrev pub comparison_decl : BinOp → FuncDecl
comparison_decl op =
    declare (binop_symbol op) (none ∷ none ∷ []) (TypeConstraint.comparable ∷ [])
      (t_param ∷ t_param ∷ []) ValueTy.bool

abbrev pub bitwise_decl : BinOp → FuncDecl
bitwise_decl op =
    declare (binop_symbol op) (none ∷ none ∷ []) (TypeConstraint.integer ∷ [])
      (t_param ∷ t_param ∷ []) t_param

abbrev pub shift_decl : BinOp → FuncDecl
shift_decl op =
    declare (binop_symbol op) (none ∷ none ∷ [])
      (TypeConstraint.integer ∷ TypeConstraint.unsigned_integer ∷ []) (t_param ∷ u_param ∷ [])
      t_param

unfoldable pub binop_decl : BinOp → FuncDecl
binop_decl BinOp.add = arithmetic_decl BinOp.add
binop_decl BinOp.sub = arithmetic_decl BinOp.sub
binop_decl BinOp.mul = arithmetic_decl BinOp.mul
binop_decl BinOp.div = arithmetic_decl BinOp.div
binop_decl BinOp.rem = arithmetic_decl BinOp.rem
binop_decl BinOp.pow = arithmetic_decl BinOp.pow
binop_decl BinOp.and = logical_decl BinOp.and
binop_decl BinOp.or = logical_decl BinOp.or
binop_decl BinOp.eq = equality_decl BinOp.eq
binop_decl BinOp.ne = equality_decl BinOp.ne
binop_decl BinOp.lt = comparison_decl BinOp.lt
binop_decl BinOp.le = comparison_decl BinOp.le
binop_decl BinOp.ge = comparison_decl BinOp.ge
binop_decl BinOp.gt = comparison_decl BinOp.gt
binop_decl BinOp.bit_and = bitwise_decl BinOp.bit_and
binop_decl BinOp.bit_or = bitwise_decl BinOp.bit_or
binop_decl BinOp.bit_xor = bitwise_decl BinOp.bit_xor
binop_decl BinOp.shl = shift_decl BinOp.shl
binop_decl BinOp.shr = shift_decl BinOp.shr

-- `UnOp::get_func_decl`
unfoldable pub unop_decl : UnOp → FuncDecl
unop_decl UnOp.not = declare "!" (none ∷ []) [] (ValueTy.bool ∷ []) ValueTy.bool
unop_decl UnOp.neg = declare "-" (none ∷ []) (TypeConstraint.numeric ∷ []) (t_param ∷ []) t_param
unop_decl UnOp.bit_not =
    declare "~" (none ∷ []) (TypeConstraint.integer ∷ []) (t_param ∷ []) t_param

-- The functions of the library.
unfoldable pub fun_sqrt : FuncDecl
fun_sqrt = declare "sqrt" (none ∷ []) (TypeConstraint.floating_point ∷ []) (t_param ∷ []) t_param

unfoldable pub fun_min : FuncDecl
fun_min =
    declare "min" (none ∷ none ∷ []) (TypeConstraint.numeric ∷ []) (t_param ∷ t_param ∷ []) t_param

unfoldable pub fun_max : FuncDecl
fun_max =
    declare "max" (none ∷ none ∷ []) (TypeConstraint.numeric ∷ []) (t_param ∷ t_param ∷ []) t_param

unfoldable pub fun_cos : FuncDecl
fun_cos = declare "cos" (none ∷ []) (TypeConstraint.floating_point ∷ []) (t_param ∷ []) t_param

unfoldable pub fun_sin : FuncDecl
fun_sin = declare "sin" (none ∷ []) (TypeConstraint.floating_point ∷ []) (t_param ∷ []) t_param

unfoldable pub fun_arctan : FuncDecl
fun_arctan =
    declare "arctan" (none ∷ []) (TypeConstraint.floating_point ∷ []) (t_param ∷ []) t_param

unfoldable pub fun_abs : FuncDecl
fun_abs = declare "abs" (none ∷ []) (TypeConstraint.numeric ∷ []) (t_param ∷ []) t_param

unfoldable pub matches_string_regex : FuncDecl
matches_string_regex =
    declare "matches" (none ∷ some "regex" ∷ []) [] (ValueTy.string ∷ ValueTy.string ∷ [])
      ValueTy.bool

unfoldable pub matches_bytes_regex : FuncDecl
matches_bytes_regex =
    declare "matches" (none ∷ some "regex" ∷ []) [] (ValueTy.bytes ∷ ValueTy.string ∷ [])
      ValueTy.bool

unfoldable pub fun_cast : FuncDecl
fun_cast =
    declare "cast" (none ∷ []) (TypeConstraint.numeric ∷ TypeConstraint.numeric ∷ []) (t_param ∷ [])
      u_param

unfoldable pub bytes_at : FuncDecl
bytes_at =
    declare "at" (none ∷ some "index" ∷ []) [] (ValueTy.bytes ∷ ValueTy.uint UIntTy.u64 ∷ [])
      (ValueTy.option (ValueTy.uint UIntTy.u8))
