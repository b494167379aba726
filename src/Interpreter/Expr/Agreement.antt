-- ===== src/Interpreter/Expr/Agreement.antt =====
-- The closures of interpreter/src/closuregen.rs return what the interpreter of
-- interpreter/src/evaluator.rs returns.
pub mod Lift
pub mod Parts
use text.Mathlib.Text.{◌==◌ as str_eq}
use rtlola.Common.{
  ℕ, zero, suc, Bool, true, false, not, ◌&&◌, ◌||◌, if◌then◌else◌, Option, none, some, String, List,
  [], ◌∷◌, get_elem?, Outcome, ok, panic, ◌>>=◌, ◌>>◌, assert, expect, leb, ◌==◌, ◌≡◌, refl, sym,
  ap, ◌∙◌, arith, inl, inr, Bool-cases, Outcome-cases, and_parts, subst,
}
use rtlola.Common.Refines.{◌⊑◌, ⊑-refl, panic-⊑, assert-⊑, if-⊑, bind-⊑}
use rtlola.Ir.{
  Ty, Tys, ArithLogOp, Constant, Expression, Expressions, load_constant, arith_log, offset_lookup,
  stream_access, window_lookup, ite, tuple, tuple_access, function, convert, default, nil, cons,
}
use rtlola.Interpreter.Value.{
  Value, Values, bool, unsigned, signed, float, str, bytes, get_bool, is_bool, new_float,
}
use rtlola.Interpreter.Expr.Context.{Platform, Context, offset_of, lookup_with_offset}
use rtlola.Interpreter.Expr.Operators.{
  constant, unary, binary, named_unary, named_binary, is_absent,
}
use rtlola.Interpreter.Expr.Interpreted.{
  count_args, literal_pattern, convert_value, match_str, arith_binary, arith_any, call_binary,
  call_matches, call, eval_expr, eval_first, eval_second, eval_entries,
}
use rtlola.Interpreter.Expr.Compiled.{
  CompiledExpr, takes_bytes, operand, lazy_op, compile_binary, compile_any, converted, can_convert,
  match_compiled_str, match_compiled_bytes, byte_at, compile_matches, compile_call, compile,
  compile_first, compile_second, compile_list, compile_entries,
}
use rtlola.Interpreter.Expr.Agreement.Lift.{
  Agrees, AgreesList, Agrees-bind, Agrees-const, Agrees-constant, Agrees-list, AgreesList-cons,
  Agrees-assert,
}
use rtlola.Interpreter.Expr.Agreement.Parts.{changes_kind, is_shared_call, convert-⊑, any-⊑, call-⊑}

unfoldable mutual
  pub is_shared : {F : Type 0} → Expression F → Bool
  is_shared (load_constant c ty) = true
  is_shared (arith_log op operands op_ty ty) = all_shared operands
  is_shared (offset_lookup target offset ty) = true
  is_shared (stream_access str_ref kind ty) = true
  is_shared (window_lookup win_ref ty) = true
  is_shared (ite c t e ty) = is_shared c && (is_shared t && is_shared e)
  is_shared (tuple entries ty) = all_shared entries
  is_shared (tuple_access e num ty) = is_shared e
  is_shared (function name args f_ty ty) =
      is_shared_call name f_ty (count_args args) && all_shared args
  is_shared (convert from to e ty) = changes_kind from to && is_shared e
  is_shared (default e dft ty) = is_shared e && is_shared dft

  pub all_shared : {F : Type 0} → Expressions F → Bool
  all_shared nil = true
  all_shared (cons e rest) = is_shared e && all_shared rest

module _ {F : Type 0} (p : Platform F) where
  mutual
    unfolding is_shared eval_expr compile

    compile-⊑ :
        (e : Expression F) → is_shared e ≡ true → Agrees p (λ ctx. eval_expr p ctx e) (compile p e)
    compile-⊑ (load_constant c ty) h = Agrees-constant p (constant p.floats p.debug c)
    compile-⊑ (arith_log op operands op_ty ty) h =
        Agrees-list p operands _ (compile_list p operands) (list-⊑ operands h)
          λ fs first second ctx.
            any-⊑ p op (unary p.floats p.debug op) (operand p fs 0) (operand p fs 1) ctx
              (eval_first p ctx operands) (eval_second p ctx operands) (first ctx) (second ctx)
    compile-⊑ (offset_lookup target offset ty) h =
        Agrees-const p (offset_of p offset) (λ ctx o. lookup_with_offset p ctx target o)
          (λ o. ok (λ ctx. lookup_with_offset p ctx target o))
          (λ o ctx. ⊑-refl (lookup_with_offset p ctx target o))
    compile-⊑ (stream_access str_ref kind ty) h = λ ctx. ⊑-refl _
    compile-⊑ (window_lookup win_ref ty) h = λ ctx. ⊑-refl _
    compile-⊑ (ite c t e ty) h =
        let (hc, hr) = and_parts (is_shared c) (is_shared t && is_shared e) h in
        let (ht, he) = and_parts (is_shared t) (is_shared e) hr in
        Agrees-bind p _ _ (compile p c) _ (compile-⊑ c hc) λ fc kc.
          Agrees-bind p _ _ (compile p t) _ (compile-⊑ t ht) λ ft kt.
            Agrees-bind p _ _ (compile p e) _ (compile-⊑ e he) λ fe ke ctx.
              bind-⊑ (fc ctx) (eval_expr p ctx c) _ _ (kc ctx) λ v.
                bind-⊑ (get_bool v) (get_bool v) _ _ (⊑-refl (get_bool v))
                  λ b. if-⊑ b (ft ctx) (fe ctx) _ _ (kt ctx) (ke ctx)
    compile-⊑ (tuple entries ty) h =
        Agrees-bind p _ _ (compile_entries p entries) _ (entries-⊑ entries h)
          λ fs k ctx. bind-⊑ (fs ctx) (eval_entries p ctx entries) _ _ (k ctx) λ vs. ⊑-refl _
    compile-⊑ (tuple_access e num ty) h =
        Agrees-bind p _ _ (compile p e) _ (compile-⊑ e h)
          λ f k ctx. bind-⊑ (f ctx) (eval_expr p ctx e) _ _ (k ctx) λ v. ⊑-refl _
    compile-⊑ (function name args f_ty ty) h =
        let (hc, ha) = and_parts (is_shared_call name f_ty (count_args args)) (all_shared args) h in
        Agrees-bind p _ _ (compile_first p args) _ (first-⊑ args ha) λ arg k.
          call-⊑ p name (named_unary p.floats p.debug name) (named_binary p.floats p.debug name)
            (count_args args) f_ty (literal_pattern args) arg (compile_second p args) _ _ hc k
            (second-⊑ args ha)
    compile-⊑ (convert from to e ty) h =
        let (hk, he) = and_parts (changes_kind from to) (is_shared e) h in
        Agrees-bind p _ _ (compile p e) _ (compile-⊑ e he) λ f k.
          Agrees-assert p _ (can_convert p from to) _
            λ _ ctx. bind-⊑ (f ctx) (eval_expr p ctx e) _ _ (k ctx) λ v. convert-⊑ p from to v hk
    compile-⊑ (default e dft ty) h =
        let (he, hd) = and_parts (is_shared e) (is_shared dft) h in
        Agrees-bind p _ _ (compile p e) _ (compile-⊑ e he) λ f k.
          Agrees-bind p _ _ (compile p dft) _ (compile-⊑ dft hd) λ f_default l ctx.
            bind-⊑ (f ctx) (eval_expr p ctx e) _ _ (k ctx)
              λ v. if-⊑ (is_absent v) (f_default ctx) (ok v) _ _ (l ctx) (⊑-refl (ok v))

    first-⊑ :
        (es : Expressions F)
        → all_shared es ≡ true
        → Agrees p (λ ctx. eval_first p ctx es) (compile_first p es)
    first-⊑ nil h = tt
    first-⊑ (cons e rest) h = compile-⊑ e ((and_parts (is_shared e) (all_shared rest) h).0)

    second-⊑ :
        (es : Expressions F)
        → all_shared es ≡ true
        → Agrees p (λ ctx. eval_second p ctx es) (compile_second p es)
    second-⊑ nil h = tt
    second-⊑ (cons e rest) h = first-⊑ rest ((and_parts (is_shared e) (all_shared rest) h).1)

    list-⊑ : (es : Expressions F) → all_shared es ≡ true → AgreesList p es (compile_list p es)
    list-⊑ nil h = (λ ctx. panic-⊑ _, λ ctx. panic-⊑ _)
    list-⊑ (cons e rest) h =
        let (he, hr) = and_parts (is_shared e) (all_shared rest) h in
        AgreesList-cons p e rest (compile p e) (compile_list p rest) (compile-⊑ e he)
          (list-⊑ rest hr)

    entries-⊑ :
        (es : Expressions F)
        → all_shared es ≡ true
        → Agrees p (λ ctx. eval_entries p ctx es) (compile_entries p es)
    entries-⊑ nil h = λ ctx. ⊑-refl _
    entries-⊑ (cons e rest) h =
        let (he, hr) = and_parts (is_shared e) (all_shared rest) h in
        Agrees-bind p _ _ (compile p e) _ (compile-⊑ e he) λ f k.
          Agrees-bind p _ _ (compile_entries p rest) _ (entries-⊑ rest hr) λ fs l ctx.
            bind-⊑ (f ctx) (eval_expr p ctx e) _ _ (k ctx)
              λ v. bind-⊑ (fs ctx) (eval_entries p ctx rest) _ _ (l ctx) λ vs. ⊑-refl _

  -- If an expression compiles to a closure, calls neither `at` nor `matches` on byte strings, and
  -- converts between different kinds of number only, then whatever value the closure returns in a
  -- context, the interpreter returns for the expression in that context.
  pub compile-eval_expr :
      (e : Expression F) (f : CompiledExpr p) (ctx : Context p) (v : Value F)
      → is_shared e ≡ true
      → compile p e ≡ ok f
      → f ctx ≡ ok v
      → eval_expr p ctx e ≡ ok v
  compile-eval_expr e f ctx v h compiled returned =
      subst (Agrees p (λ ctx. eval_expr p ctx e)) compiled (compile-⊑ e h) ctx v returned
