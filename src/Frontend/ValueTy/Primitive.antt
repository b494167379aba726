-- ===== src/Frontend/ValueTy/Primitive.antt =====
-- `TypeConfig`, the tables of primitive types and `ValueTy::primitive_types` of frontend/src/ty.rs.
use rtlola.Common.{Bool, if◌then◌else◌, List, [], ◌∷◌, ◌++◌, String}
use rtlola.Ir.{IntTy, UIntTy, FloatTy}
use rtlola.Frontend.ValueTy.{ValueTy}

pub record TypeConfig : Type 0 where
  pub use_64bit_only : Bool
  pub type_aliases : Bool

abbrev pub named_types : List (String × ValueTy)
named_types =
    ("Bool", ValueTy.bool)
    ∷ ("Int8", ValueTy.int IntTy.i8)
    ∷ ("Int16", ValueTy.int IntTy.i16)
    ∷ ("Int32", ValueTy.int IntTy.i32)
    ∷ ("Int64", ValueTy.int IntTy.i64)
    ∷ ("UInt8", ValueTy.uint UIntTy.u8)
    ∷ ("UInt16", ValueTy.uint UIntTy.u16)
    ∷ ("UInt32", ValueTy.uint UIntTy.u32)
    ∷ ("UInt64", ValueTy.uint UIntTy.u64)
    ∷ ("Float16", ValueTy.float FloatTy.f16)
    ∷ ("Float32", ValueTy.float FloatTy.f32)
    ∷ ("Float64", ValueTy.float FloatTy.f64)
    ∷ ("String", ValueTy.string)
    ∷ ("Bytes", ValueTy.bytes)
    ∷ []

abbrev pub reduced_types : List (String × ValueTy)
reduced_types =
    ("Bool", ValueTy.bool)
    ∷ ("Int64", ValueTy.int IntTy.i64)
    ∷ ("UInt64", ValueTy.uint UIntTy.u64)
    ∷ ("Float64", ValueTy.float FloatTy.f64)
    ∷ ("String", ValueTy.string)
    ∷ ("Bytes", ValueTy.bytes)
    ∷ []

abbrev pub type_aliases : List (String × ValueTy)
type_aliases =
    ("Int", ValueTy.int IntTy.i64)
    ∷ ("UInt", ValueTy.uint UIntTy.u64)
    ∷ ("Float", ValueTy.float FloatTy.f64)
    ∷ []

unfoldable pub primitive_types : TypeConfig → List (String × ValueTy)
primitive_types config =
    (if config.use_64bit_only then reduced_types else named_types)
    ++ (if config.type_aliases then type_aliases else [])
