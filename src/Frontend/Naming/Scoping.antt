-- ===== src/Frontend/Naming/Scoping.antt =====
-- `ScopedDecl` of frontend/src/analysis/naming.rs: what a name stands for after each operation.
use rtlola.Common.{◌≡◌, refl, arith, Bool, true, if◌then◌else◌, some, String, [], ◌∷◌}
use text.Mathlib.Text.{◌==◌}
use text.Mathlib.TextEquality.{eq_iff}
use rtlola.Frontend.Naming.{Declaration, Scope, find, store, ScopedDecl, push, get_decl_for}

pub find-store :
    (m : Scope) (k j : String) (d : Declaration)
    → find (store m k d) j ≡ (if k == j then some d else find m j)
unfolding store
find-store [] k j d = refl
find-store ((i, e) ∷ m) k j d =
    ground (arith, eq_iff k j, eq_iff i k, eq_iff i j, find-store m k j d)

-- All declarations in scope pass the test.
abbrev pub Only : (Declaration → Bool) → ScopedDecl → Type 0
Only p scopes = (name : String) (d : Declaration) → get_decl_for scopes name ≡ some d → p d ≡ true

-- the innermost scope holds `name`
pub get_decl_for-find :
    (scope : Scope) (scopes : ScopedDecl) (name : String) (d : Declaration)
    → find scope name ≡ some d
    → get_decl_for (scope ∷ scopes) name ≡ some d
unfolding get_decl_for
get_decl_for-find scope scopes name d h = ground (arith, h)

pub get_decl_for-store :
    (scope : Scope) (scopes : ScopedDecl) (k j : String) (d : Declaration)
    → get_decl_for (store scope k d ∷ scopes) j
      ≡ (if k == j then some d else get_decl_for (scope ∷ scopes) j)
unfolding get_decl_for
get_decl_for-store scope scopes k j d = ground (arith, find-store scope k j d)

module _ (p : Declaration → Bool) where
  pub Only-push : (scopes : ScopedDecl) → Only p scopes → Only p (push scopes)
  unfolding push get_decl_for
  Only-push scopes h name d e = h name d e

  pub Only-store :
      (scope : Scope) (scopes : ScopedDecl) (k : String) (d : Declaration)
      → Only p (scope ∷ scopes)
      → p d ≡ true
      → Only p (store scope k d ∷ scopes)
  Only-store scope scopes k d h q j e eq =
      ground (arith, get_decl_for-store scope scopes k j d, h j e)
