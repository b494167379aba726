-- ===== src/Frontend/Naming/Binding.antt =====
-- frontend/src/analysis/naming.rs: what the analysis of an expression writes and reports, name by
-- name.
pub mod Uses
use rtlola.Common.{
  ℕ, ◌≡◌, ◌≢◌, refl, sym, ap, ◌∙◌, arith, ◌==◌, true, false, not, if◌then◌else◌, if-true, if-false,
  ==_iff, ne→==_false, Option, none, some, Option-cases, inl, inr, List, [], ◌∷◌, ◌++◌, map,
  append-nil, append_assoc, String, Outcome, ok, ◌>>=◌, ◌>>◌, assert, >>=-step, >>-step,
}
use rtlola.Common.Sets.{◌∈◌, IsDistinct, lookup, put, lookup-put}
use rtlola.Frontend.Ast.{
  Ident, FunctionName, Ty, type_node, TypeKind, Tys, Expression, expr_node, ExpressionKind,
  Expressions,
}
use rtlola.Frontend.Graph.{Span}
use rtlola.Frontend.Stdlib.{to_string}
use rtlola.Frontend.Naming.{Declaration, ScopedDecl, is_type, is_function, get_decl_for}
use rtlola.Frontend.Naming.Expressions.{Report, Log, Env, report, bind}

-- An occurrence of a name, with the identifier of its node.
pub data Use : Type 0 where
  type_use : String → ℕ → Span → Use
  ident_use : ℕ → Ident → Use
  function_use : ℕ → FunctionName → Use

abbrev pub use_id : Use → ℕ
use_id (type_use _ id _) = id
use_id (ident_use id _) = id
use_id (function_use id _) = id

abbrev pub complaint : Use → Report
complaint (type_use name _ span) = Report.unknown_type name span
complaint (ident_use _ ident) = Report.unknown_name ident.name ident.span
complaint (function_use _ name) = Report.unknown_function (to_string name) name.name.span

-- an output with parameters, which is called like a function
abbrev pub callable : Option Declaration → Option Declaration
callable (some (Declaration.param_out output)) = some (Declaration.param_out output)
callable _ = none

abbrev pub first_of : Option Declaration → Option Declaration → Option Declaration
first_of (some d) o = some d
first_of none o = o

-- What the name stands for where it occurs.
abbrev pub resolve : Env → Use → Option Declaration
resolve env (type_use name _ _) = get_decl_for env.type_declarations name
resolve env (ident_use _ ident) = get_decl_for env.declarations ident.name
resolve env (function_use _ name) =
    first_of (get_decl_for env.fun_declarations (to_string name))
      (callable (get_decl_for env.declarations name.name.name))

-- All occurrences of names, in the order of the text.
unfoldable mutual
  pub uses_ty : Ty → List Use
  uses_ty (type_node (TypeKind.simple name) id span) = type_use name id span ∷ []
  uses_ty (type_node (TypeKind.tuple tys) id span) = uses_tys tys
  uses_ty (type_node (TypeKind.optional ty) id span) = uses_ty ty
  uses_ty (type_node TypeKind.inferred id span) = []

  pub uses_tys : Tys → List Use
  uses_tys Tys.nil = []
  uses_tys (Tys.cons ty tys) = uses_ty ty ++ uses_tys tys

unfoldable mutual
  pub uses : Expression → List Use
  uses (expr_node kind id span) = uses_kind kind id

  pub uses_kind : ExpressionKind → ℕ → List Use
  uses_kind (ExpressionKind.ident name) id = ident_use id name ∷ []
  uses_kind (ExpressionKind.stream_access e _) id = uses e
  uses_kind (ExpressionKind.offset e _) id = uses e
  uses_kind (ExpressionKind.sliding_window_aggregation e d _ _) id = uses e ++ uses d
  uses_kind (ExpressionKind.binary _ a b) id = uses a ++ uses b
  uses_kind (ExpressionKind.lit _) id = []
  uses_kind ExpressionKind.missing_expression id = []
  uses_kind (ExpressionKind.ite c a b) id = uses c ++ (uses a ++ uses b)
  uses_kind (ExpressionKind.parenthesized_expression _ e _) id = uses e
  uses_kind (ExpressionKind.unary _ e) id = uses e
  uses_kind (ExpressionKind.field e _) id = uses e
  uses_kind (ExpressionKind.tuple es) id = uses_all es
  uses_kind (ExpressionKind.function name tys es) id =
      (function_use id name ∷ []) ++ (uses_tys tys ++ uses_all es)
  uses_kind (ExpressionKind.default a b) id = uses a ++ uses b
  uses_kind (ExpressionKind.method e _ tys es) id = uses e ++ (uses_tys tys ++ uses_all es)

  pub uses_all : Expressions → List Use
  uses_all Expressions.nil = []
  uses_all (Expressions.cons e es) = uses e ++ uses_all es

-- what an occurrence with its meaning does to the log, and to the complaints
abbrev pub note_as : Log → Use → Option Declaration → Log
note_as log u none = report log (complaint u)
note_as log u (some d) = bind log (use_id u) d

abbrev pub complain : Use → Option Declaration → List Report → List Report
complain u none rs = complaint u ∷ rs
complain u (some d) rs = rs

module _ (env : Env) where
  abbrev pub note : Log → Use → Log
  note log u = note_as log u (resolve env u)

  abbrev pub note_all : Log → List Use → Log
  note_all log [] = log
  note_all log (u ∷ us) = note_all (note log u) us

  abbrev pub complaints : List Use → List Report
  complaints [] = []
  complaints (u ∷ us) = complain u (resolve env u) (complaints us)

  pub note_all-append :
      (log : Log) (us vs : List Use) → note_all log (us ++ vs) ≡ note_all (note_all log us) vs
  note_all-append log [] vs = refl
  note_all-append log (u ∷ us) vs = note_all-append (note log u) us vs

  note-reported :
      (log : Log) (u : Use) (o : Option Declaration) (rs : List Report)
      → (note_as log u o).reported ++ rs ≡ log.reported ++ complain u o rs
  unfolding bind report
  note-reported log u none rs = append_assoc log.reported (complaint u ∷ []) rs
  note-reported log u (some d) rs = refl

  pub note_all-reported :
      (log : Log) (us : List Use) → (note_all log us).reported ≡ log.reported ++ complaints us
  note_all-reported log [] = sym (append-nil log.reported)
  note_all-reported log (u ∷ us) =
      note_all-reported (note log u) us ∙ note-reported log u (resolve env u) (complaints us)

  lookup-note :
      (log : Log) (u : Use) (o : Option Declaration) (i : ℕ)
      → lookup (note_as log u o).result i
        ≡ (if use_id u == i then first_of o (lookup log.result i) else lookup log.result i)
  unfolding bind report
  lookup-note log u none i = ground arith
  lookup-note log u (some d) i = lookup-put log.result (use_id u) i d

  lookup-note_ne :
      (log : Log) (us : List Use) (i : ℕ)
      → ¬ (i ∈ map use_id us)
      → lookup (note_all log us).result i ≡ lookup log.result i
  lookup-note_ne log [] i h = refl
  lookup-note_ne log (u ∷ us) i h =
      lookup-note_ne (note log u) us i (λ m. h (inr m))
      ∙ ground (arith, lookup-note log u (resolve env u) i, h)

  use_id-mem : (us : List Use) (u : Use) → u ∈ us → use_id u ∈ map use_id us
  use_id-mem [] u m = absurd m
  use_id-mem (v ∷ us) u (inl e) = inl (ap use_id e)
  use_id-mem (v ∷ us) u (inr m) = inr (use_id-mem us u m)

  -- Each occurrence with an identifier of its own is bound to what it stands for.
  pub lookup-note_all :
      (log : Log) (us : List Use) (u : Use)
      → IsDistinct (map use_id us)
      → u ∈ us
      → lookup (note_all log us).result (use_id u)
        ≡ first_of (resolve env u) (lookup log.result (use_id u))
  lookup-note_all log [] u d m = absurd m
  lookup-note_all log (v ∷ us) u (fresh, d) (inl e) = rw e (
      lookup-note_ne (note log v) us (use_id v) fresh
      ∙ lookup-note log v (resolve env v) (use_id v)
      ∙ if-true _ _ _ ((==_iff (use_id v) (use_id v)).1 refl))
  lookup-note_all log (v ∷ us) u (fresh, d) (inr m) =
      lookup-note_all (note log v) us u d m
      ∙ ap (first_of (resolve env u)) (
          lookup-note log v (resolve env v) (use_id u)
          ∙ if-false _ _ _
              (ne→==_false (use_id v) (use_id u) λ e. fresh (rw e (use_id-mem us u m))))
