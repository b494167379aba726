-- ===== src/Tests/Types.antt =====
-- Examples of the theorems on the types of values.
use rtlola.Common.{true, ◌&&◌, Option, some, ok, ◌≡◌, refl}
use rtlola.Ir.{UIntTy, IntTy}
use rtlola.Frontend.ValueTy.{
  TypeConstraint, ValueTy, nil, cons, has_default, conjunction, satisfies, is_error, replace_constr,
}
use rtlola.Frontend.ValueTy.Constraints.{meets, conjunction-satisfies, has_default-satisfies}
use rtlola.Frontend.ValueTy.Resolved.{is_resolved, lacks_default, replace_constr-is_resolved}

conjunction-satisfies_example :
    (c : Option TypeConstraint) × (conjunction TypeConstraint.numeric TypeConstraint.signed_integer
      ≡ ok c)
    × ((ty : ValueTy)
        → meets ty c
          ≡ (satisfies ty TypeConstraint.numeric && satisfies ty TypeConstraint.signed_integer))
conjunction-satisfies_example =
    conjunction-satisfies TypeConstraint.numeric TypeConstraint.signed_integer

numeric_default : has_default TypeConstraint.numeric ≡ some (ValueTy.int IntTy.i64)
unfolding has_default
numeric_default = refl

has_default-satisfies_example : satisfies (ValueTy.int IntTy.i64) TypeConstraint.numeric ≡ true
has_default-satisfies_example =
    has_default-satisfies TypeConstraint.numeric (ValueTy.int IntTy.i64) numeric_default

abbrev open_pair : ValueTy
open_pair = ValueTy.tuple (
    cons (ValueTy.constr TypeConstraint.unsigned_integer)
      (cons (ValueTy.option (ValueTy.constr TypeConstraint.comparable)) nil))

abbrev closed_pair : ValueTy
closed_pair =
    ValueTy.tuple (cons (ValueTy.uint UIntTy.u64) (cons (ValueTy.option ValueTy.error) nil))

pair_closes : replace_constr open_pair ≡ ok closed_pair
unfolding replace_constr has_default
pair_closes = refl

replace_constr-is_resolved_example :
    (is_resolved closed_pair ≡ true) × (is_error closed_pair ≡ lacks_default open_pair)
replace_constr-is_resolved_example = replace_constr-is_resolved open_pair closed_pair pair_closes
