-- ===== src/Frontend/ValueTy.antt =====
-- `ValueTy` and `TypeConstraint` of frontend/src/ty.rs: the types of values during inference, and the
-- constraints on them.
pub mod Constraints
pub mod Resolved
pub mod Primitive
use rtlola.Common.{
  ℕ, zero, suc, Bool, true, false, ◌||◌, ◌==◌, ltb, if◌then◌else◌, Option, none, some, String, List,
  [], ◌∷◌, get_elem?, Outcome, ok, panic, ◌>>=◌, ◌>>◌, assert, expect,
}
use rtlola.Ir.{IntTy, UIntTy, FloatTy}

pub data TypeConstraint : Type 0 where
  signed_integer unsigned_integer floating_point integer numeric : TypeConstraint
  equatable comparable unconstrained : TypeConstraint

mutual
  pub data ValueTy : Type 0 where
    bool : ValueTy
    int : IntTy → ValueTy
    uint : UIntTy → ValueTy
    float : FloatTy → ValueTy
    string : ValueTy
    bytes : ValueTy
    tuple : ValueTys → ValueTy
    option : ValueTy → ValueTy
    infer : ℕ → ValueTy
    constr : TypeConstraint → ValueTy
    param : ℕ → String → ValueTy
    error : ValueTy

  pub data ValueTys : Type 0 where
    nil : ValueTys
    cons : ValueTy → ValueTys → ValueTys

-- the derived order, by position
unfoldable pub rank : TypeConstraint → ℕ
rank TypeConstraint.signed_integer = 0
rank TypeConstraint.unsigned_integer = 1
rank TypeConstraint.floating_point = 2
rank TypeConstraint.integer = 3
rank TypeConstraint.numeric = 4
rank TypeConstraint.equatable = 5
rank TypeConstraint.comparable = 6
rank TypeConstraint.unconstrained = 7

unfoldable pub has_default : TypeConstraint → Option ValueTy
has_default TypeConstraint.integer = some (ValueTy.int IntTy.i64)
has_default TypeConstraint.signed_integer = some (ValueTy.int IntTy.i64)
has_default TypeConstraint.numeric = some (ValueTy.int IntTy.i64)
has_default TypeConstraint.unsigned_integer = some (ValueTy.uint UIntTy.u64)
has_default TypeConstraint.floating_point = some (ValueTy.float FloatTy.f64)
has_default _ = none

-- the `match` on the greater constraint
unfoldable pub conjoin_ordered : TypeConstraint → TypeConstraint → Option TypeConstraint
conjoin_ordered self TypeConstraint.unconstrained = some self
conjoin_ordered self TypeConstraint.comparable = some self
conjoin_ordered self TypeConstraint.equatable = some self
conjoin_ordered self TypeConstraint.numeric = some self
conjoin_ordered TypeConstraint.floating_point TypeConstraint.integer = none
conjoin_ordered self TypeConstraint.integer = some self
conjoin_ordered self _ = none

-- the part of `conjunction` that does not swap its arguments
unfoldable pub conjoin_smaller : TypeConstraint → TypeConstraint → Outcome (Option TypeConstraint)
conjoin_smaller self other =
    if rank self == rank other
    then ok (some self)
    else (assert (ltb (rank self) (rank other)) >> ok (conjoin_ordered self other))

unfoldable pub conjunction : TypeConstraint → TypeConstraint → Outcome (Option TypeConstraint)
conjunction self other =
    if ltb (rank other) (rank self) then conjoin_smaller other self else conjoin_smaller self other

unfoldable pub is_primitive : ValueTy → Bool
is_primitive ValueTy.bool = true
is_primitive (ValueTy.int _) = true
is_primitive (ValueTy.uint _) = true
is_primitive (ValueTy.float _) = true
is_primitive ValueTy.string = true
is_primitive ValueTy.bytes = true
is_primitive _ = false

abbrev pub is_int : ValueTy → Bool
is_int (ValueTy.int _) = true
is_int _ = false

abbrev pub is_uint : ValueTy → Bool
is_uint (ValueTy.uint _) = true
is_uint _ = false

abbrev pub is_float : ValueTy → Bool
is_float (ValueTy.float _) = true
is_float _ = false

unfoldable pub satisfies : ValueTy → TypeConstraint → Bool
satisfies self TypeConstraint.unconstrained = true
satisfies self TypeConstraint.comparable = is_primitive self
satisfies self TypeConstraint.equatable = is_primitive self
satisfies self TypeConstraint.numeric = (is_int self || is_uint self) || is_float self
satisfies self TypeConstraint.floating_point = is_float self
satisfies self TypeConstraint.integer = is_int self || is_uint self
satisfies self TypeConstraint.signed_integer = is_int self
satisfies self TypeConstraint.unsigned_integer = is_uint self

unfoldable mutual
  pub is_error : ValueTy → Bool
  is_error ValueTy.error = true
  is_error (ValueTy.tuple args) = any_error args
  is_error (ValueTy.option ty) = is_error ty
  is_error _ = false

  pub any_error : ValueTys → Bool
  any_error nil = false
  any_error (cons ty tys) = is_error ty || any_error tys

-- Replaces parameters by inference variables.
unfoldable pub replace_params : ValueTy → List ℕ → Outcome ValueTy
replace_params (ValueTy.param id name) infer_vars = do
  v ← expect (get_elem? infer_vars id)
  ok (ValueTy.infer v)
replace_params (ValueTy.option t) infer_vars = do
  t' ← replace_params t infer_vars
  ok (ValueTy.option t')
replace_params (ValueTy.tuple _) infer_vars = panic
replace_params ValueTy.error infer_vars = panic
replace_params ty infer_vars = ok ty

unfoldable pub replace_params_with_ty : ValueTy → List ValueTy → Outcome ValueTy
replace_params_with_ty (ValueTy.param id name) generics = expect (get_elem? generics id)
replace_params_with_ty (ValueTy.option t) generics = do
  t' ← replace_params_with_ty t generics
  ok (ValueTy.option t')
replace_params_with_ty (ValueTy.tuple _) generics = panic
replace_params_with_ty ValueTy.error generics = panic
replace_params_with_ty ty generics = ok ty

abbrev pub or_error : Option ValueTy → ValueTy
or_error none = ValueTy.error
or_error (some ty) = ty

-- Replaces constraints by their default types.
unfoldable mutual
  pub replace_constr : ValueTy → Outcome ValueTy
  replace_constr (ValueTy.tuple tys) = do tys' ← replace_all tys; ok (ValueTy.tuple tys')
  replace_constr (ValueTy.option ty) = do ty' ← replace_constr ty; ok (ValueTy.option ty')
  replace_constr (ValueTy.constr c) = ok (or_error (has_default c))
  replace_constr (ValueTy.infer _) = panic
  replace_constr ValueTy.error = panic
  replace_constr ty = ok ty

  pub replace_all : ValueTys → Outcome ValueTys
  replace_all nil = ok nil
  replace_all (cons ty tys) = do ty' ← replace_constr ty; tys' ← replace_all tys; ok (cons ty' tys')
