-- ===== src/Ir/Layers.antt =====
-- frontend/src/ir.rs, `RTLolaIR::get_event_driven_layers`: the order in which the event-based
-- streams are evaluated.
pub mod Order
use rtlola.Common.{
  ℕ, zero, suc, Bool, ◌==◌, if◌then◌else◌, List, [], ◌∷◌, Outcome, ok, panic, ◌>>=◌, get_elem?,
  expect, max,
}
use rtlola.Ir.{StreamReference, out_ix}
use rtlola.Ir.Program.{RtLolaIr, OutputStream}

-- `get_out`
unfoldable pub get_out : {F : Type 0} → RtLolaIr F → StreamReference → Outcome (OutputStream F)
get_out ir reference = do ix ← out_ix reference; expect (get_elem? ir.outputs ix)

-- the streams with their layers
unfoldable pub with_layers :
    {F : Type 0} → RtLolaIr F → List StreamReference → Outcome (List (ℕ × ℕ))
with_layers ir [] = ok []
with_layers ir (r ∷ rs) = do
  o ← get_out ir r
  ix ← out_ix r
  rest ← with_layers ir rs
  ok ((o.layer, ix) ∷ rest)

unfoldable pub max_layer : List (ℕ × ℕ) → ℕ
max_layer [] = 0
max_layer ((l, r) ∷ rest) = max l (max_layer rest)

-- the streams that would be in layer `i`
unfoldable pub in_layer : ℕ → List (ℕ × ℕ) → List ℕ
in_layer i [] = []
in_layer i ((l, r) ∷ rest) = if l == i then r ∷ in_layer i rest else in_layer i rest

-- A layer without streams is skipped.
abbrev pub add_layer : List ℕ → List (List ℕ) → List (List ℕ)
add_layer [] layers = layers
add_layer (r ∷ rs) layers = (r ∷ rs) ∷ layers

-- the layers `i`, `i + 1`, ..., of which there are `n`
unfoldable pub layers_from : ℕ → ℕ → List (ℕ × ℕ) → List (List ℕ)
layers_from zero i streams = []
layers_from (suc n) i streams = add_layer (in_layer i streams) (layers_from n (suc i) streams)

-- the loop over the layers of an intermediate representation with event-based streams
abbrev pub layers_of : List (ℕ × ℕ) → List (List ℕ)
layers_of [] = []
layers_of (s ∷ streams) = layers_from (suc (max_layer (s ∷ streams))) 0 (s ∷ streams)

unfoldable pub get_event_driven_layers : {F : Type 0} → RtLolaIr F → Outcome (List (List ℕ))
get_event_driven_layers ir = do streams ← with_layers ir ir.event_driven; ok (layers_of streams)
