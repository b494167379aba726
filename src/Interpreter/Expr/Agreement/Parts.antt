-- ===== src/Interpreter/Expr/Agreement/Parts.antt =====
-- Conversions, operators and calls: interpreter/src/closuregen.rs against interpreter/src/evaluator.rs.
use text.Mathlib.Text.{◌==◌ as str_eq}
use rtlola.Common.{
  ℕ, zero, suc, Bool, true, false, not, ◌&&◌, if◌then◌else◌, Option, none, some, String, Outcome,
  ok, panic, ◌>>=◌, ◌>>◌, assert, ◌==◌, ◌≡◌, refl, ap, ◌∙◌, arith, and_parts,
}
use rtlola.Common.Refines.{◌⊑◌, ⊑-refl, panic-⊑, assert-⊑, bind-⊑}
use rtlola.Ir.{Ty, Tys, ArithLogOp}
use rtlola.Interpreter.Value.{Value, bool, unsigned, signed, float, str, get_bool, is_bool}
use rtlola.Interpreter.Expr.Context.{Platform, Context}
use rtlola.Interpreter.Expr.Operators.{binary}
use rtlola.Interpreter.Expr.Interpreted.{
  convert_value, match_str, arith_binary, arith_any, call_binary, call_matches, call,
}
use rtlola.Interpreter.Expr.Compiled.{
  CompiledExpr, takes_bytes, compile_binary, compile_any, converted, match_compiled_str,
  match_compiled_bytes, byte_at, compile_matches, compile_call,
}
use rtlola.Interpreter.Expr.Agreement.Lift.{Agrees, Agrees-assert}

-- A conversion between types of one kind: the closures do not look at the value.
abbrev pub changes_kind : Ty → Ty → Bool
changes_kind (Ty.uint _) (Ty.uint _) = false
changes_kind (Ty.int _) (Ty.int _) = false
changes_kind (Ty.float _) (Ty.float _) = false
changes_kind _ _ = true

abbrev pub not_bytes : Ty → Bool
not_bytes (Ty.function (Tys.cons Ty.bytes rest) ret) = false
not_bytes _ = true

-- The calls that both evaluators know: `at` and patterns over byte strings are the closures' own.
abbrev pub is_shared_call : String → Ty → ℕ → Bool
is_shared_call name ty n =
    if str_eq name "matches" then not_bytes ty && n == 2 else not (str_eq name "at")

module _ {F : Type 0} (p : Platform F) where
  pub convert-⊑ :
      (from to : Ty) (v : Value F)
      → changes_kind from to ≡ true
      → converted p from to v ⊑ convert_value p from to v
  unfolding converted convert_value
  convert-⊑ (Ty.uint _) (Ty.int _) (unsigned u) h a e = e
  convert-⊑ (Ty.uint _) (Ty.float _) (unsigned u) h a e = e
  convert-⊑ (Ty.int _) (Ty.uint _) (signed i) h a e = e
  convert-⊑ (Ty.int _) (Ty.float _) (signed i) h a e = e
  convert-⊑ (Ty.float _) (Ty.uint _) (float f) h a e = e
  convert-⊑ (Ty.float _) (Ty.int _) (float f) h a e = e
  convert-⊑ from to v h a e = cc

  returned-⊑ : (m : Outcome (Value F)) → (m >>= λ v. assert (is_bool v) >> ok v) ⊑ m
  returned-⊑ (ok v) = assert-⊑ (is_bool v) (ok v) (ok v) (⊑-refl (ok v))
  returned-⊑ panic = panic-⊑ panic

  ⊑-trans : (l m n : Outcome (Value F)) → l ⊑ m → m ⊑ n → l ⊑ n
  ⊑-trans l m n h k a e = k a (h a e)

  stop-⊑ :
      (stop b : Bool) (m n : Outcome (Value F))
      → m ⊑ n
      → (if (if b then stop else not stop)
          then ok (bool stop)
          else (m >>= λ v. assert (is_bool v) >> ok v))
        ⊑ (if stop then (if b then ok (bool true) else n) else (if b then n else ok (bool false)))
  stop-⊑ true true m n h = ⊑-refl (ok (bool true))
  stop-⊑ true false m n h = ⊑-trans _ m n (returned-⊑ m) h
  stop-⊑ false true m n h = ⊑-trans _ m n (returned-⊑ m) h
  stop-⊑ false false m n h = ⊑-refl (ok (bool false))

  binary-⊑ :
      (op : ArithLogOp) (first second : CompiledExpr p) (ctx : Context p) (m n : Outcome (Value F))
      → first ctx ⊑ m
      → second ctx ⊑ n
      → compile_binary p op first second ctx ⊑ arith_binary p op m n
  binary-⊑ ArithLogOp.and first second ctx m n h k = bind-⊑ (first ctx) m _ _ h λ v.
      bind-⊑ (get_bool v) (get_bool v) _ _ (⊑-refl (get_bool v))
        λ b. stop-⊑ false b (second ctx) n k
  binary-⊑ ArithLogOp.or first second ctx m n h k = bind-⊑ (first ctx) m _ _ h λ v.
      bind-⊑ (get_bool v) (get_bool v) _ _ (⊑-refl (get_bool v)) λ b. stop-⊑ true b (second ctx) n k
  binary-⊑ op first second ctx m n h k =
      bind-⊑ (first ctx) m _ _ h
        λ v. bind-⊑ (second ctx) n _ _ k λ w. ⊑-refl (binary p.floats p.debug op v w)

  pub any-⊑ :
      (op : ArithLogOp) (u : Option (Value F → Outcome (Value F))) (first second : CompiledExpr p)
      (ctx : Context p) (m n : Outcome (Value F))
      → first ctx ⊑ m
      → second ctx ⊑ n
      → compile_any p op u first second ctx ⊑ arith_any p op u m n
  any-⊑ op (some f) first second ctx m n h k = bind-⊑ (first ctx) m _ _ h λ v. ⊑-refl (f v)
  any-⊑ op none first second ctx m n h k = binary-⊑ op first second ctx m n h k

  str-⊑ :
      (re : String) (v : Value F)
      → p.regexes.is_valid re ≡ true
      → match_compiled_str p re v ⊑ match_str p re v
  unfolding match_compiled_str match_str
  str-⊑ re (str s) h a e = ap (λ b. assert b >> ok (bool (p.regexes.is_match re s))) h ∙ e
  str-⊑ re v h a e = cc

  -- `matches` on a text
  text-⊑ :
      (is_bytes : Outcome Bool) (pattern : Outcome String) (arg : CompiledExpr p)
      (g : Context p → Outcome (Value F))
      → (is_bytes ≡ ok true → false ≡ true)
      → ((ctx : Context p) → arg ctx ⊑ g ctx)
      → Agrees p
          (λ ctx. g ctx >>= λ v. pattern >>= λ re. match_str p re v)
          (is_bytes >>= λ b. pattern >>= λ re.
            assert (p.regexes.is_valid re)
            >> ok (
                if b
                then (λ ctx. arg ctx >>= match_compiled_bytes p re)
                else (λ ctx. arg ctx >>= match_compiled_str p re)))
  text-⊑ (ok false) (ok re) arg g h k =
      Agrees-assert p _ (p.regexes.is_valid re) _
        λ valid ctx. bind-⊑ (arg ctx) (g ctx) _ _ (k ctx) λ v. str-⊑ re v valid
  text-⊑ (ok false) panic arg g h k = tt
  text-⊑ (ok true) pattern arg g h k = cc (h refl)
  text-⊑ panic pattern arg g h k = tt

  text_type : (ty : Ty) → not_bytes ty ≡ true → takes_bytes ty ≡ ok true → false ≡ true
  text_type (Ty.function (Tys.cons Ty.bytes rest) ret) h k = h
  text_type ty h k = cc

  too_many : (n : ℕ) → (suc (suc (suc n)) == 2) ≡ false
  too_many n = ground arith

  matches-⊑ :
      (n : ℕ) (ty : Ty) (pattern : Outcome String) (arg : CompiledExpr p)
      (g : Context p → Outcome (Value F))
      → (not_bytes ty && n == 2) ≡ true
      → ((ctx : Context p) → arg ctx ⊑ g ctx)
      → Agrees p
          (λ ctx. g ctx >>= λ v. call_matches p n pattern v)
          (compile_matches p n ty pattern arg)
  matches-⊑ (suc (suc zero)) ty pattern arg g h k =
      text-⊑ (takes_bytes ty) pattern arg g (text_type ty ((and_parts (not_bytes ty) true h).0)) k
  matches-⊑ (suc (suc (suc n))) ty pattern arg g h k =
      cc (too_many n, (and_parts (not_bytes ty) (suc (suc (suc n)) == 2) h).1)
  matches-⊑ zero ty pattern arg g h k = tt
  matches-⊑ (suc zero) ty pattern arg g h k = tt

  two-⊑ :
      (f : Value F → Value F → Outcome (Value F)) (n : ℕ) (arg : CompiledExpr p)
      (second : Outcome (CompiledExpr p)) (g g' : Context p → Outcome (Value F))
      → ((ctx : Context p) → arg ctx ⊑ g ctx)
      → Agrees p g' second
      → (n == 2) ≡ true
      → Agrees p
          (λ ctx. g ctx >>= λ v. call_binary p f n v (g' ctx))
          (ok (λ ctx. do fst ← arg ctx; index ← second; snd ← index ctx; f fst snd))
  two-⊑ f (suc (suc zero)) arg (ok index) g g' k l e = λ ctx.
      bind-⊑ (arg ctx) (g ctx) _ _ (k ctx)
        λ v. bind-⊑ (index ctx) (g' ctx) _ _ (l ctx) λ w. ⊑-refl (f v w)
  two-⊑ f (suc (suc zero)) arg panic g g' k l e =
      λ ctx. bind-⊑ (arg ctx) (g ctx) _ _ (k ctx) λ v. panic-⊑ _
  two-⊑ f (suc (suc (suc n))) arg second g g' k l e = cc (too_many n)
  two-⊑ f zero arg second g g' k l e = cc
  two-⊑ f (suc zero) arg second g g' k l e = cc

  other-⊑ :
      (is_matches is_at : Bool) (n : ℕ) (ty : Ty) (pattern : Outcome String) (arg : CompiledExpr p)
      (second : Outcome (CompiledExpr p)) (g g' : Context p → Outcome (Value F))
      → (if is_matches then not_bytes ty && n == 2 else not is_at) ≡ true
      → ((ctx : Context p) → arg ctx ⊑ g ctx)
      → Agrees p
          (λ ctx. g ctx >>= λ v. if is_matches then call_matches p n pattern v else panic)
          (if is_matches
            then compile_matches p n ty pattern arg
            else if is_at
            then (do
              assert (n == 2)
              index ← second
              ok (λ ctx. do v ← arg ctx; i ← index ctx; byte_at p v i))
            else panic)
  other-⊑ true is_at n ty pattern arg second g g' h k = matches-⊑ n ty pattern arg g h k
  other-⊑ false true n ty pattern arg second g g' h k = cc
  other-⊑ false false n ty pattern arg second g g' h k = tt

  pub call-⊑ :
      (name : String) (u : Option (Value F → Outcome (Value F)))
      (b : Option (Value F → Value F → Outcome (Value F))) (n : ℕ) (ty : Ty)
      (pattern : Outcome String) (arg : CompiledExpr p) (second : Outcome (CompiledExpr p))
      (g g' : Context p → Outcome (Value F))
      → is_shared_call name ty n ≡ true
      → ((ctx : Context p) → arg ctx ⊑ g ctx)
      → Agrees p g' second
      → Agrees p
          (λ ctx. g ctx >>= λ v. call p name u b n pattern v (g' ctx))
          (compile_call p name u b n ty pattern arg second)
  call-⊑ name (some f) b n ty pattern arg second g g' h k l =
      λ ctx. bind-⊑ (arg ctx) (g ctx) _ _ (k ctx) λ v. ⊑-refl (f v)
  call-⊑ name none (some f) n ty pattern arg second g g' h k l =
      Agrees-assert p _ (n == 2) _ (two-⊑ f n arg second g g' k l)
  call-⊑ name none none n ty pattern arg second g g' h k l =
      other-⊑ (str_eq name "matches") (str_eq name "at") n ty pattern arg second g g' h k
