-- ===== src/Interpreter/Expr/Agreement/Lift.antt =====
-- interpreter/src/closuregen.rs: what a compiled computation returns, against a computation that
-- does not compile first, and how the agreement of parts lifts to the closures built from them.
use rtlola.Common.{Bool, true, false, List, ◌∷◌, Outcome, ok, panic, ◌>>=◌, ◌>>◌, assert, ◌≡◌, refl}
use rtlola.Common.Refines.{◌⊑◌, ⊑-refl}
use rtlola.Ir.{Expression, Expressions, cons}
use rtlola.Interpreter.Value.{Value}
use rtlola.Interpreter.Expr.Context.{Platform, Context}
use rtlola.Interpreter.Expr.Interpreted.{eval_expr, eval_first, eval_second}
use rtlola.Interpreter.Expr.Compiled.{CompiledExpr, operand}

module _ {F : Type 0} (p : Platform F) where
  -- Whatever a compiled computation returns is what `g` returns.
  abbrev pub Agrees :
      {B : Type 0} → (Context p → Outcome B) → Outcome (Context p → Outcome B) → Type 0
  Agrees g (ok f) = (ctx : Context p) → f ctx ⊑ g ctx
  Agrees g panic = Unit

  abbrev pub AgreesList : Expressions F → Outcome (List (CompiledExpr p)) → Type 0
  AgreesList es (ok fs) =
      ((ctx : Context p) → operand p fs 0 ctx ⊑ eval_first p ctx es)
      × ((ctx : Context p) → operand p fs 1 ctx ⊑ eval_second p ctx es)
  AgreesList es panic = Unit

  pub Agrees-bind :
      {B C : Type 0} (g : Context p → Outcome B) (g' : Context p → Outcome C)
      (m : Outcome (Context p → Outcome B))
      (k : (Context p → Outcome B) → Outcome (Context p → Outcome C))
      → Agrees g m
      → ((f : Context p → Outcome B) → ((ctx : Context p) → f ctx ⊑ g ctx) → Agrees g' (k f))
      → Agrees g' (m >>= k)
  Agrees-bind g g' (ok f) k h step = step f h
  Agrees-bind g g' panic k h step = tt

  pub Agrees-const :
      {B A : Type 0} (m : Outcome A) (g : Context p → A → Outcome B)
      (k : A → Outcome (Context p → Outcome B))
      → ((a : A) → Agrees (λ ctx. g ctx a) (k a))
      → Agrees (λ ctx. m >>= g ctx) (m >>= k)
  Agrees-const (ok a) g k h = h a
  Agrees-const panic g k h = tt

  pub Agrees-constant : (m : Outcome (Value F)) → Agrees (λ ctx. m) (m >>= λ v. ok (λ ctx. ok v))
  Agrees-constant (ok v) = λ ctx. ⊑-refl (ok v)
  Agrees-constant panic = tt

  pub Agrees-list :
      {C : Type 0} (es : Expressions F) (g : Context p → Outcome C)
      (m : Outcome (List (CompiledExpr p))) {k : List (CompiledExpr p) → Context p → Outcome C}
      → AgreesList es m
      → ((fs : List (CompiledExpr p))
          → ((ctx : Context p) → operand p fs 0 ctx ⊑ eval_first p ctx es)
          → ((ctx : Context p) → operand p fs 1 ctx ⊑ eval_second p ctx es)
          → (ctx : Context p) → k fs ctx ⊑ g ctx)
      → Agrees g (m >>= λ fs. ok (k fs))
  Agrees-list es g (ok fs) (h, l) step = step fs h l
  Agrees-list es g panic h step = tt

  pub AgreesList-cons :
      (e : Expression F) (rest : Expressions F) (m : Outcome (CompiledExpr p))
      (ms : Outcome (List (CompiledExpr p)))
      → Agrees (λ ctx. eval_expr p ctx e) m
      → AgreesList rest ms
      → AgreesList (cons e rest) (do f ← m; fs ← ms; ok (f ∷ fs))
  unfolding eval_expr
  AgreesList-cons e rest (ok f) (ok fs) h (k, l) = (h, k)
  AgreesList-cons e rest (ok f) panic h k = tt
  AgreesList-cons e rest panic ms h k = tt

  pub Agrees-assert :
      {B : Type 0} (g : Context p → Outcome B) (b : Bool) (m : Outcome (Context p → Outcome B))
      → (b ≡ true → Agrees g m)
      → Agrees g (assert b >> m)
  Agrees-assert g true m h = h refl
  Agrees-assert g false m h = tt
