-- ===== src/Frontend/ValueTy/Resolved.antt =====
-- frontend/src/ty.rs, `replace_constr`: the types that are left after inference.
use rtlola.Common.{
  Bool, true, false, ◌&&◌, ◌||◌, Option, none, some, ok, ◌≡◌, refl, ap₂, arith, and_intro, Post,
  Post-ok, Post-bind,
}
use rtlola.Frontend.ValueTy.{
  TypeConstraint, ValueTy, ValueTys, nil, cons, has_default, is_error, any_error, replace_constr,
  replace_all, or_error,
}

abbrev pub is_absent_default : Option ValueTy → Bool
is_absent_default none = true
is_absent_default (some ty) = false

unfoldable mutual
  -- Is the type free of constraints and of inference variables?
  pub is_resolved : ValueTy → Bool
  is_resolved (ValueTy.tuple tys) = all_resolved tys
  is_resolved (ValueTy.option ty) = is_resolved ty
  is_resolved (ValueTy.infer v) = false
  is_resolved (ValueTy.constr c) = false
  is_resolved _ = true

  pub all_resolved : ValueTys → Bool
  all_resolved nil = true
  all_resolved (cons ty tys) = is_resolved ty && all_resolved tys

unfoldable mutual
  -- Is there a constraint without a default in the type?
  pub lacks_default : ValueTy → Bool
  lacks_default (ValueTy.tuple tys) = any_lacks_default tys
  lacks_default (ValueTy.option ty) = lacks_default ty
  lacks_default (ValueTy.constr c) = is_absent_default (has_default c)
  lacks_default _ = false

  pub any_lacks_default : ValueTys → Bool
  any_lacks_default nil = false
  any_lacks_default (cons ty tys) = lacks_default ty || any_lacks_default tys

abbrev Resolves : ValueTy → ValueTy → Type 0
Resolves ty ty' = (is_resolved ty' ≡ true) × (is_error ty' ≡ lacks_default ty)

abbrev ResolvesAll : ValueTys → ValueTys → Type 0
ResolvesAll tys tys' = (all_resolved tys' ≡ true) × (any_error tys' ≡ any_lacks_default tys)

constr-Resolves : (c : TypeConstraint) → Resolves (ValueTy.constr c) (or_error (has_default c))
unfolding is_resolved is_error lacks_default has_default
constr-Resolves c = (ground arith, ground arith)

mutual
  unfolding is_resolved is_error lacks_default replace_constr

  replace-Resolves : (ty : ValueTy) → Post (Resolves ty) (replace_constr ty)
  replace-Resolves (ValueTy.tuple tys) =
      Post-bind (replace_all tys) _ (replace-ResolvesAll tys)
        λ tys' h. Post-ok (Resolves (ValueTy.tuple tys)) (ValueTy.tuple tys') h
  replace-Resolves (ValueTy.option ty) =
      Post-bind (replace_constr ty) _ (replace-Resolves ty)
        λ ty' h. Post-ok (Resolves (ValueTy.option ty)) (ValueTy.option ty') h
  replace-Resolves (ValueTy.constr c) =
      Post-ok (Resolves (ValueTy.constr c)) (or_error (has_default c)) (constr-Resolves c)
  replace-Resolves (ValueTy.infer v) = λ a e. cc
  replace-Resolves ValueTy.error = λ a e. cc
  replace-Resolves ty = Post-ok (Resolves ty) ty (refl, refl)

  replace-ResolvesAll : (tys : ValueTys) → Post (ResolvesAll tys) (replace_all tys)
  replace-ResolvesAll nil = Post-ok (ResolvesAll nil) nil (refl, refl)
  replace-ResolvesAll (cons ty tys) =
      Post-bind (replace_constr ty) _ (replace-Resolves ty) λ ty' (resolved, error).
        Post-bind (replace_all tys) _ (replace-ResolvesAll tys) λ tys' (all, any).
          Post-ok (ResolvesAll (cons ty tys)) (cons ty' tys')
            (and_intro (is_resolved ty') (all_resolved tys') resolved all, ap₂ ◌||◌ error any)

-- The type that `replace_constr` returns has neither constraints nor inference variables, and it is
-- an error exactly if the type had a constraint without a default.
pub replace_constr-is_resolved :
    (ty ty' : ValueTy)
    → replace_constr ty ≡ ok ty'
    → (is_resolved ty' ≡ true) × (is_error ty' ≡ lacks_default ty)
replace_constr-is_resolved ty ty' returned = replace-Resolves ty ty' returned
