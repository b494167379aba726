-- ===== src/Interpreter/Expr/Interpreted.antt =====
-- `ExpressionEvaluator::eval_expr` of interpreter/src/evaluator.rs.
use text.Mathlib.Text.{◌==◌ as str_eq}
use rtlola.Common.{
  ℕ, zero, suc, true, false, if◌then◌else◌, Option, none, some, String, Outcome, ok, panic, ◌>>=◌,
  ◌>>◌, assert,
}
use rtlola.Ir.{
  Ty, ArithLogOp, Constant, Expression, Expressions, load_constant, arith_log, offset_lookup,
  stream_access, window_lookup, ite, tuple, tuple_access, function, convert, default, nil, cons,
}
use rtlola.Interpreter.Words.{to_bits, of_bits}
use rtlola.Interpreter.Value.{
  Value, Values, bool, unsigned, signed, float, str, get_bool, new_float,
}
use rtlola.Interpreter.Expr.Context.{
  Platform, Context, lookup_with_offset, offset_of, access, lookup_window,
}
use rtlola.Interpreter.Expr.Operators
use rtlola.Interpreter.Expr.Operators.{
  constant, unary, binary, named_unary, named_binary, is_absent,
}

abbrev pub count_args : {F : Type 0} → Expressions F → ℕ
count_args nil = zero
count_args (cons e rest) = suc (count_args rest)

-- the literal that a pattern has to be, as the second argument
abbrev pub literal_pattern : {F : Type 0} → Expressions F → Outcome String
literal_pattern (cons e (cons (load_constant (Constant.str s) ty) rest)) = ok s
literal_pattern _ = panic

module _ {F : Type 0} (p : Platform F) where
  -- a conversion of a value, by the types from and to
  unfoldable pub convert_value : Ty → Ty → Value F → Outcome (Value F)
  convert_value (Ty.uint _) (Ty.uint _) (unsigned u) = ok (unsigned u)
  convert_value (Ty.uint _) (Ty.int _) (unsigned u) = ok (signed (of_bits u))
  convert_value (Ty.uint _) (Ty.float _) (unsigned u) = new_float p.floats (p.floats.of_unsigned u)
  convert_value (Ty.int _) (Ty.uint _) (signed i) = ok (unsigned (to_bits i))
  convert_value (Ty.int _) (Ty.int _) (signed i) = ok (signed i)
  convert_value (Ty.int _) (Ty.float _) (signed i) = new_float p.floats (p.floats.of_signed i)
  convert_value (Ty.float _) (Ty.uint _) (float f) = ok (unsigned (p.floats.to_unsigned f))
  convert_value (Ty.float _) (Ty.int _) (float f) = ok (signed (p.floats.to_signed f))
  convert_value (Ty.float _) (Ty.float _) (float f) = new_float p.floats f
  convert_value _ _ _ = panic

  -- `matches` on a text
  unfoldable pub match_str : String → Value F → Outcome (Value F)
  match_str pattern (str s) = do
    assert (p.regexes.is_valid pattern)
    ok (bool (p.regexes.is_match pattern s))
  match_str pattern _ = panic

  -- Both operands of a lazy operator are not evaluated: the second waits for the first.
  abbrev pub arith_binary : ArithLogOp → Outcome (Value F) → Outcome (Value F) → Outcome (Value F)
  arith_binary ArithLogOp.and first second = do
    lhs ← first
    b ← get_bool lhs
    if b then second else ok (bool false)
  arith_binary ArithLogOp.or first second = do
    lhs ← first
    b ← get_bool lhs
    if b then ok (bool true) else second
  arith_binary op first second = do lhs ← first; rhs ← second; binary p.floats p.debug op lhs rhs

  abbrev pub arith_any :
      ArithLogOp
      → Option (Value F → Outcome (Value F))
      → Outcome (Value F)
      → Outcome (Value F)
      → Outcome (Value F)
  arith_any op (some f) first second = first >>= f
  arith_any op none first second = arith_binary op first second

  -- A function of two arguments takes no other number of them.
  abbrev pub call_binary :
      (Value F → Value F → Outcome (Value F)) → ℕ → Value F → Outcome (Value F) → Outcome (Value F)
  call_binary f (suc (suc zero)) fst second = do snd ← second; f fst snd
  call_binary f _ fst second = panic

  abbrev pub call_matches : ℕ → Outcome String → Value F → Outcome (Value F)
  call_matches (suc (suc zero)) pattern fst = do re ← pattern; match_str re fst
  call_matches _ pattern fst = panic

  abbrev pub call :
      String
      → Option (Value F → Outcome (Value F))
      → Option (Value F → Value F → Outcome (Value F))
      → ℕ
      → Outcome String
      → Value F
      → Outcome (Value F)
      → Outcome (Value F)
  call name (some f) g n pattern fst second = f fst
  call name none (some g) n pattern fst second = call_binary g n fst second
  call name none none n pattern fst second =
      if str_eq name "matches" then call_matches n pattern fst else panic

  unfoldable mutual
    pub eval_expr : Context p → Expression F → Outcome (Value F)
    eval_expr ctx (load_constant c ty) = constant p.floats p.debug c
    eval_expr ctx (arith_log op operands op_ty ty) =
        arith_any op (unary p.floats p.debug op) (eval_first ctx operands)
          (eval_second ctx operands)
    eval_expr ctx (offset_lookup target offset ty) = do
      o ← offset_of p offset
      lookup_with_offset p ctx target o
    eval_expr ctx (stream_access str_ref kind ty) = access p ctx str_ref kind
    eval_expr ctx (window_lookup win_ref ty) = lookup_window p ctx win_ref
    eval_expr ctx (ite condition consequence alternative ty) =
        let yes_case = eval_expr ctx consequence in
        let no_case = eval_expr ctx alternative in
        do c ← eval_expr ctx condition; b ← get_bool c; if b then yes_case else no_case
    eval_expr ctx (tuple entries ty) = do vs ← eval_entries ctx entries; ok (Value.tuple vs)
    eval_expr ctx (tuple_access e num ty) = do v ← eval_expr ctx e; Operators.tuple_access v num
    eval_expr ctx (function name args f_ty ty) = do
      fst ← eval_first ctx args
      call name (named_unary p.floats p.debug name) (named_binary p.floats p.debug name)
          (count_args args) (literal_pattern args) fst (eval_second ctx args)
    eval_expr ctx (convert from to e ty) = do v ← eval_expr ctx e; convert_value from to v
    eval_expr ctx (default e dft ty) =
        let otherwise = eval_expr ctx dft in
        do v ← eval_expr ctx e; if is_absent v then otherwise else ok v

    pub eval_first : Context p → Expressions F → Outcome (Value F)
    eval_first ctx nil = panic
    eval_first ctx (cons e rest) = eval_expr ctx e

    pub eval_second : Context p → Expressions F → Outcome (Value F)
    eval_second ctx nil = panic
    eval_second ctx (cons e rest) = eval_first ctx rest

    pub eval_entries : Context p → Expressions F → Outcome (Values F)
    eval_entries ctx nil = ok Values.nil
    eval_entries ctx (cons e rest) = do
      v ← eval_expr ctx e
      vs ← eval_entries ctx rest
      ok (Values.cons v vs)
