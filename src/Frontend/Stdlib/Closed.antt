-- ===== src/Frontend/Stdlib/Closed.antt =====
-- frontend/src/stdlib.rs: the types at which declared operators and functions are used.
use rtlola.Common.{
  ℕ, ◌<◌, ◌≡◌, refl, arith, Bool, true, false, ◌&&◌, List, [], ◌∷◌, length, all, get_elem?, zero,
  suc, ltb, ltb→lt, and_parts, and_intro, ◌⊎◌, inl, inr, expect, Returns, Returns-ok, Returns-bind,
}
use rtlola.Common.Sets.{◌∈◌}
use rtlola.Frontend.Ast.{BinOp, UnOp}
use rtlola.Frontend.ValueTy.{ValueTy, ValueTys, replace_params_with_ty}
use rtlola.Frontend.Stdlib.{
  FuncDecl, replace_each, get_types_for_args_and_ret, binop_decl, unop_decl, fun_sqrt, fun_min,
  fun_max, fun_cos, fun_sin, fun_arctan, fun_abs, matches_string_regex, matches_bytes_regex,
  fun_cast, bytes_at,
}

-- No parameter occurs in the type.
abbrev mutual
  pub is_closed : ValueTy → Bool
  is_closed (ValueTy.param _ _) = false
  is_closed (ValueTy.option ty) = is_closed ty
  is_closed (ValueTy.tuple tys) = are_closed tys
  is_closed _ = true

  pub are_closed : ValueTys → Bool
  are_closed ValueTys.nil = true
  are_closed (ValueTys.cons ty tys) = is_closed ty && are_closed tys

-- The type can be instantiated with `n` types: its parameters are among the first `n`.
abbrev pub is_scoped : ℕ → ValueTy → Bool
is_scoped n (ValueTy.param id _) = ltb id n
is_scoped n (ValueTy.option ty) = is_scoped n ty
is_scoped n (ValueTy.tuple _) = false
is_scoped n ValueTy.error = false
is_scoped n _ = true

abbrev pub is_scoped_decl : FuncDecl → Bool
is_scoped_decl decl =
    all (is_scoped (length decl.generics)) decl.parameters
    && is_scoped (length decl.generics) decl.return_type

abbrev pub library : List FuncDecl
library =
    fun_sqrt ∷ fun_min ∷ fun_max ∷ fun_cos ∷ fun_sin ∷ fun_arctan ∷ fun_abs ∷ matches_string_regex
    ∷ matches_bytes_regex ∷ fun_cast ∷ bytes_at ∷ []

-- the declaration of an operator or of a function of the library
abbrev pub IsDeclared : FuncDecl → Type 0
IsDeclared decl =
    ((op : BinOp) × (decl ≡ binop_decl op))
    ⊎ ((op : UnOp) × (decl ≡ unop_decl op))
    ⊎ (decl ∈ library)

binop_decl-is_scoped : (op : BinOp) → is_scoped_decl (binop_decl op) ≡ true
unfolding binop_decl
binop_decl-is_scoped BinOp.add = refl
binop_decl-is_scoped BinOp.sub = refl
binop_decl-is_scoped BinOp.mul = refl
binop_decl-is_scoped BinOp.div = refl
binop_decl-is_scoped BinOp.rem = refl
binop_decl-is_scoped BinOp.pow = refl
binop_decl-is_scoped BinOp.and = refl
binop_decl-is_scoped BinOp.or = refl
binop_decl-is_scoped BinOp.bit_xor = refl
binop_decl-is_scoped BinOp.bit_and = refl
binop_decl-is_scoped BinOp.bit_or = refl
binop_decl-is_scoped BinOp.shl = refl
binop_decl-is_scoped BinOp.shr = refl
binop_decl-is_scoped BinOp.eq = refl
binop_decl-is_scoped BinOp.lt = refl
binop_decl-is_scoped BinOp.le = refl
binop_decl-is_scoped BinOp.ne = refl
binop_decl-is_scoped BinOp.ge = refl
binop_decl-is_scoped BinOp.gt = refl

unop_decl-is_scoped : (op : UnOp) → is_scoped_decl (unop_decl op) ≡ true
unfolding unop_decl
unop_decl-is_scoped UnOp.not = refl
unop_decl-is_scoped UnOp.neg = refl
unop_decl-is_scoped UnOp.bit_not = refl

all-mem :
    (p : FuncDecl → Bool) (xs : List FuncDecl) (x : FuncDecl)
    → all p xs ≡ true
    → x ∈ xs
    → p x ≡ true
all-mem p [] x h m = absurd m
all-mem p (y ∷ xs) x h (inl e) = rw e ((and_parts (p y) (all p xs) h).0)
all-mem p (y ∷ xs) x h (inr m) = all-mem p xs x ((and_parts (p y) (all p xs) h).1) m

library-is_scoped : all is_scoped_decl library ≡ true
unfolding fun_sqrt fun_min fun_max fun_cos fun_sin fun_arctan fun_abs matches_string_regex
    matches_bytes_regex fun_cast bytes_at
library-is_scoped = refl

IsDeclared-is_scoped : (decl : FuncDecl) → IsDeclared decl → is_scoped_decl decl ≡ true
IsDeclared-is_scoped decl (inl (op, e)) = rw e (binop_decl-is_scoped op)
IsDeclared-is_scoped decl (inr (inl (op, e))) = rw e (unop_decl-is_scoped op)
IsDeclared-is_scoped decl (inr (inr m)) = all-mem is_scoped_decl library decl library-is_scoped m

abbrev pub Closed : ValueTy → Type 0
Closed ty = is_closed ty ≡ true

all-Closed-get :
    (tys : List ValueTy) (i : ℕ)
    → all is_closed tys ≡ true
    → i < length tys
    → Returns Closed (expect (get_elem? tys i))
all-Closed-get [] i h l = absurd (omega arith)
all-Closed-get (t ∷ ts) zero h l = Returns-ok Closed t ((and_parts _ _ h).0)
all-Closed-get (t ∷ ts) (suc i) h l =
    all-Closed-get ts i ((and_parts (is_closed t) _ h).1) (omega arith)

module _ (generics : List ValueTy) (closed : all is_closed generics ≡ true) where
  replace-Returns :
      (ty : ValueTy)
      → is_scoped (length generics) ty ≡ true
      → Returns Closed (replace_params_with_ty ty generics)
  unfolding replace_params_with_ty
  replace-Returns ValueTy.bool h = Returns-ok Closed _ refl
  replace-Returns (ValueTy.int w) h = Returns-ok Closed _ refl
  replace-Returns (ValueTy.uint w) h = Returns-ok Closed _ refl
  replace-Returns (ValueTy.float w) h = Returns-ok Closed _ refl
  replace-Returns ValueTy.string h = Returns-ok Closed _ refl
  replace-Returns ValueTy.bytes h = Returns-ok Closed _ refl
  replace-Returns (ValueTy.tuple tys) h = cc
  replace-Returns (ValueTy.option ty) h =
      Returns-bind _ _ (replace-Returns ty h) λ ty' c. Returns-ok Closed (ValueTy.option ty') c
  replace-Returns (ValueTy.infer v) h = Returns-ok Closed _ refl
  replace-Returns (ValueTy.constr c) h = Returns-ok Closed _ refl
  replace-Returns (ValueTy.param id name) h =
      all-Closed-get generics id closed (ltb→lt id (length generics) h)
  replace-Returns ValueTy.error h = cc

  abbrev pub AllClosed : List ValueTy → Type 0
  AllClosed tys = all is_closed tys ≡ true

  replace_each-Returns :
      (tys : List ValueTy)
      → all (is_scoped (length generics)) tys ≡ true
      → Returns AllClosed (replace_each tys generics)
  unfolding replace_each
  replace_each-Returns [] h = Returns-ok AllClosed [] refl
  replace_each-Returns (ty ∷ tys) h =
      let (a, b) = and_parts (is_scoped (length generics) ty) _ h in
      Returns-bind _ _ (replace-Returns ty a) λ ty' c.
        Returns-bind _ _ (replace_each-Returns tys b) λ tys' cs.
          Returns-ok AllClosed (ty' ∷ tys') (and_intro (is_closed ty') (all is_closed tys') c cs)

abbrev pub IsClosedPair : List ValueTy × ValueTy → Type 0
IsClosedPair r = (all is_closed r.0 ≡ true) × (is_closed r.1 ≡ true)

-- Every operator and every function of the library can be used at as many types without parameters
-- as it declares: the types of its arguments and of its result are then computed, without a panic,
-- and no parameter is left in them.
pub get_types_for_args_and_ret-IsClosed :
    (decl : FuncDecl) (generics : List ValueTy)
    → IsDeclared decl
    → length generics ≡ length decl.generics
    → all is_closed generics ≡ true
    → Returns IsClosedPair (get_types_for_args_and_ret decl generics)
unfolding get_types_for_args_and_ret
get_types_for_args_and_ret-IsClosed decl generics d e c =
    let (a, b) =
      and_parts (all (is_scoped (length generics)) decl.parameters)
        (is_scoped (length generics) decl.return_type) (rw e (IsDeclared-is_scoped decl d)) in
    Returns-bind _ _ (replace_each-Returns generics c decl.parameters a) λ args h.
      Returns-bind _ _ (replace-Returns generics c decl.return_type b)
        λ ret h'. Returns-ok IsClosedPair (args, ret) (h, h')
