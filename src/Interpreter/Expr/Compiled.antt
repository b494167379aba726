-- ===== src/Interpreter/Expr/Compiled.antt =====
-- interpreter/src/closuregen.rs: an expression is compiled into a function of the context. To
-- compile may panic, and so may to execute.
use text.Mathlib.Text.{◌==◌ as str_eq}
use rtlola.Common.{
  ℕ, Bool, true, false, not, if◌then◌else◌, Option, none, some, String, List, [], ◌∷◌, get_elem?,
  Outcome, ok, panic, ◌>>=◌, ◌>>◌, assert, expect, leb, ◌==◌,
}
use rtlola.Ir.{
  Ty, Tys, ArithLogOp, Expression, Expressions, load_constant, arith_log, offset_lookup,
  stream_access, window_lookup, ite, tuple, tuple_access, function, convert, default, nil, cons,
}
use rtlola.Interpreter.Words.{to_bits, of_bits}
use rtlola.Interpreter.Value.{
  Value, Values, bool, unsigned, signed, float, str, bytes, get_bool, is_bool, new_float,
}
use rtlola.Interpreter.Expr.Context.{
  Platform, Context, lookup_with_offset, offset_of, access, lookup_window,
}
use rtlola.Interpreter.Expr.Operators
use rtlola.Interpreter.Expr.Operators.{
  constant, unary, binary, named_unary, named_binary, is_absent,
}
use rtlola.Interpreter.Expr.Interpreted.{count_args, literal_pattern}

-- `struct CompiledExpr`
abbrev pub CompiledExpr : {F : Type 0} → Platform F → Type 0
CompiledExpr {F} p = Context p → Outcome (Value F)

-- Is a function type's first argument the type of byte strings?
abbrev pub takes_bytes : Ty → Outcome Bool
takes_bytes (Ty.function (Tys.cons Ty.bytes rest) ret) = ok true
takes_bytes (Ty.function (Tys.cons ty rest) ret) = ok false
takes_bytes _ = panic

module _ {F : Type 0} (p : Platform F) where
  -- `f_operands[i].execute(ctx)`
  abbrev pub operand : List (CompiledExpr p) → ℕ → CompiledExpr p
  operand fs i ctx = do f ← expect (get_elem? fs i); f ctx

  -- `create_lazyop!`
  abbrev pub lazy_op : Bool → CompiledExpr p → CompiledExpr p → CompiledExpr p
  lazy_op stop first second ctx = do
    v ← first ctx
    b ← get_bool v
    if (if b then stop else not stop)
        then ok (bool stop)
        else do res ← second ctx; assert (is_bool res); ok res

  abbrev pub compile_binary : ArithLogOp → CompiledExpr p → CompiledExpr p → CompiledExpr p
  compile_binary ArithLogOp.and first second = lazy_op false first second
  compile_binary ArithLogOp.or first second = lazy_op true first second
  compile_binary op first second =
      λ ctx. do lhs ← first ctx; rhs ← second ctx; binary p.floats p.debug op lhs rhs

  abbrev pub compile_any :
      ArithLogOp
      → Option (Value F → Outcome (Value F))
      → CompiledExpr p
      → CompiledExpr p
      → CompiledExpr p
  compile_any op (some f) first second = λ ctx. first ctx >>= f
  compile_any op none first second = compile_binary op first second

  -- `create_convert!`
  unfoldable pub converted : Ty → Ty → Value F → Outcome (Value F)
  converted (Ty.uint _) (Ty.uint _) v = ok v
  converted (Ty.uint _) (Ty.int _) (unsigned u) = ok (signed (of_bits u))
  converted (Ty.uint _) (Ty.float _) (unsigned u) = new_float p.floats (p.floats.of_unsigned u)
  converted (Ty.int _) (Ty.uint _) (signed i) = ok (unsigned (to_bits i))
  converted (Ty.int _) (Ty.int _) v = ok v
  converted (Ty.int _) (Ty.float _) (signed i) = new_float p.floats (p.floats.of_signed i)
  converted (Ty.float _) (Ty.uint _) (float f) = ok (unsigned (p.floats.to_unsigned f))
  converted (Ty.float _) (Ty.int _) (float f) = ok (signed (p.floats.to_signed f))
  converted (Ty.float _) (Ty.float _) v = ok v
  converted _ _ _ = panic

  -- Types between which there is no conversion are refused when the expression is compiled.
  unfoldable pub can_convert : Ty → Ty → Bool
  can_convert (Ty.uint _) (Ty.uint _) = true
  can_convert (Ty.uint _) (Ty.int _) = true
  can_convert (Ty.uint _) (Ty.float _) = true
  can_convert (Ty.int _) (Ty.uint _) = true
  can_convert (Ty.int _) (Ty.int _) = true
  can_convert (Ty.int _) (Ty.float _) = true
  can_convert (Ty.float _) (Ty.uint _) = true
  can_convert (Ty.float _) (Ty.int _) = true
  can_convert (Ty.float _) (Ty.float _) = true
  can_convert _ _ = false

  unfoldable pub match_compiled_str : String → Value F → Outcome (Value F)
  match_compiled_str re (str s) = ok (bool (p.regexes.is_match re s))
  match_compiled_str re _ = panic

  unfoldable pub match_compiled_bytes : String → Value F → Outcome (Value F)
  match_compiled_bytes re (bytes b) = ok (bool (p.regexes.is_match_bytes re b))
  match_compiled_bytes re _ = panic

  abbrev pub byte_or_none : Option ℕ → Value F
  byte_or_none none = Value.none
  byte_or_none (some byte) = unsigned byte

  unfoldable pub byte_at : Value F → Value F → Outcome (Value F)
  byte_at (bytes b) (unsigned idx) = ok (byte_or_none (get_elem? b idx))
  byte_at _ _ = panic

  abbrev pub compile_matches : ℕ → Ty → Outcome String → CompiledExpr p → Outcome (CompiledExpr p)
  compile_matches n ty pattern arg = do
    assert (leb 2 n)
    is_bytes ← takes_bytes ty
    re ← pattern
    assert (p.regexes.is_valid re)
    ok (
        if is_bytes
        then (λ ctx. arg ctx >>= match_compiled_bytes re)
        else (λ ctx. arg ctx >>= match_compiled_str re))

  abbrev pub compile_call :
      String
      → Option (Value F → Outcome (Value F))
      → Option (Value F → Value F → Outcome (Value F))
      → ℕ
      → Ty
      → Outcome String
      → CompiledExpr p
      → Outcome (CompiledExpr p)
      → Outcome (CompiledExpr p)
  compile_call name (some f) g n ty pattern arg second = ok (λ ctx. arg ctx >>= f)
  compile_call name none (some g) n ty pattern arg second = do
    assert (n == 2)
    ok (λ ctx. do fst ← arg ctx; index ← second; snd ← index ctx; g fst snd)
  compile_call name none none n ty pattern arg second =
      if str_eq name "matches"
      then compile_matches n ty pattern arg
      else if str_eq name "at"
      then (do
        assert (n == 2)
        index ← second
        ok (λ ctx. do v ← arg ctx; i ← index ctx; byte_at v i))
      else panic

  unfoldable mutual
    pub compile : Expression F → Outcome (CompiledExpr p)
    compile (load_constant c ty) = do v ← constant p.floats p.debug c; ok (λ ctx. ok v)
    compile (arith_log op operands op_ty ty) = do
      fs ← compile_list operands
      ok (compile_any op (unary p.floats p.debug op) (operand fs 0) (operand fs 1))
    compile (offset_lookup target offset ty) = do
      o ← offset_of p offset
      ok (λ ctx. lookup_with_offset p ctx target o)
    compile (stream_access str_ref kind ty) = ok (λ ctx. access p ctx str_ref kind)
    compile (window_lookup win_ref ty) = ok (λ ctx. lookup_window p ctx win_ref)
    compile (ite condition consequence alternative ty) = do
      f_condition ← compile condition
      f_consequence ← compile consequence
      f_alternative ← compile alternative
      ok (λ ctx. do
        c ← f_condition ctx
        b ← get_bool c
        if b then f_consequence ctx else f_alternative ctx)
    compile (tuple entries ty) = do
      fs ← compile_entries entries
      ok (λ ctx. do vs ← fs ctx; ok (Value.tuple vs))
    compile (tuple_access e num ty) = do
      f ← compile e
      ok (λ ctx. do v ← f ctx; Operators.tuple_access v num)
    compile (function name args f_ty ty) = do
      arg ← compile_first args
      compile_call name (named_unary p.floats p.debug name) (named_binary p.floats p.debug name)
          (count_args args) f_ty (literal_pattern args) arg (compile_second args)
    compile (convert from to e ty) = do
      f ← compile e
      assert (can_convert from to)
      ok (λ ctx. f ctx >>= converted from to)
    compile (default e dft ty) = do
      f ← compile e
      f_default ← compile dft
      ok (λ ctx. do v ← f ctx; if is_absent v then f_default ctx else ok v)

    pub compile_first : Expressions F → Outcome (CompiledExpr p)
    compile_first nil = panic
    compile_first (cons e rest) = compile e

    pub compile_second : Expressions F → Outcome (CompiledExpr p)
    compile_second nil = panic
    compile_second (cons e rest) = compile_first rest

    pub compile_list : Expressions F → Outcome (List (CompiledExpr p))
    compile_list nil = ok []
    compile_list (cons e rest) = do f ← compile e; fs ← compile_list rest; ok (f ∷ fs)

    -- the closures of a tuple's entries, executed in order
    pub compile_entries : Expressions F → Outcome (Context p → Outcome (Values F))
    compile_entries nil = ok (λ ctx. ok Values.nil)
    compile_entries (cons e rest) = do
      f ← compile e
      fs ← compile_entries rest
      ok (λ ctx. do v ← f ctx; vs ← fs ctx; ok (Values.cons v vs))
