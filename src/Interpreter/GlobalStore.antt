-- ===== src/Interpreter/GlobalStore.antt =====
-- interpreter/src/storage/stores.rs, `GlobalStore`: the memory of all streams and windows.
use rtlola.Common.{
  ℕ, suc, Bool, true, false, Option, none, some, List, [], ◌∷◌, map, get_elem?, set, Outcome, ok,
  ◌>>=◌, ◌>>◌, assert, expect,
}
use rtlola.Ir.{out_ix}
use rtlola.Ir.Program
use rtlola.Ir.Program.{RtLolaIr, InputStream, OutputStream}
use rtlola.Interpreter.Floats.{FloatOps}
use rtlola.Interpreter.Value.{Value}
use rtlola.Interpreter.Store
use rtlola.Interpreter.Store.{InstanceStore}
use rtlola.Interpreter.SlidingWindow
use rtlola.Interpreter.SlidingWindow.{SlidingWindow}

pub record GlobalStore (F : Type 0) : Type 0 where
  pub inputs : List (InstanceStore (Value F))
  pub index_map : List ℕ
  pub np_outputs : List (InstanceStore (Value F))
  pub np_windows : List (SlidingWindow F)

-- the entries before they are filled
abbrev pub unfilled : {F : Type 0} → OutputStream F → Option ℕ
unfilled o = none

-- The loop over the outputs without parameters, which are all: the entry of each is its place among
-- them, which is `np_ix` for the first.
unfoldable pub fill_index_map :
    {F : Type 0} → List (OutputStream F) → ℕ → List (Option ℕ) → Outcome (List (Option ℕ))
fill_index_map [] np_ix index_map = ok index_map
fill_index_map (o ∷ nps) np_ix index_map = do
  ix ← out_ix o.reference
  _ ← expect (get_elem? index_map ix)
  fill_index_map nps (suc np_ix) (set index_map ix (some np_ix))

unfoldable pub all_filled : List (Option ℕ) → Bool
all_filled [] = true
all_filled (none ∷ rest) = false
all_filled (some ix ∷ rest) = all_filled rest

-- `flatten`
unfoldable pub flatten : List (Option ℕ) → List ℕ
flatten [] = []
flatten (none ∷ rest) = flatten rest
flatten (some ix ∷ rest) = ix ∷ flatten rest

module _ {F : Type 0} (fl : FloatOps F) (debug : Bool) where
  unfoldable pub new_windows : List Program.SlidingWindow → ℕ → Outcome (List (SlidingWindow F))
  new_windows [] ts = ok []
  new_windows (w ∷ ws) ts = do
    window ← SlidingWindow.new fl debug w.duration w.wait w.op ts w.ty
    windows ← new_windows ws ts
    ok (window ∷ windows)

  unfoldable pub new : RtLolaIr F → ℕ → Outcome (GlobalStore F)
  new ir ts = do
    index_map ← fill_index_map ir.outputs 0 (map unfilled ir.outputs)
    assert (all_filled index_map)
    windows ← new_windows ir.sliding_windows ts
    ok (record {
      inputs = map (λ (i : InputStream). Store.new i.memory_bound) ir.inputs;
      index_map = flatten index_map;
      np_outputs = map (λ (o : OutputStream F). Store.new o.memory_bound) ir.outputs;
      np_windows = windows;
    })

module _ {F : Type 0} where
  unfoldable pub get_in_instance : GlobalStore F → ℕ → Outcome (InstanceStore (Value F))
  get_in_instance s inst = expect (get_elem? s.inputs inst)

  unfoldable pub get_out_instance : GlobalStore F → ℕ → Outcome (InstanceStore (Value F))
  get_out_instance s inst = do
    ix ← expect (get_elem? s.index_map inst)
    expect (get_elem? s.np_outputs ix)

  unfoldable pub get_window : GlobalStore F → ℕ → Outcome (SlidingWindow F)
  get_window s ix = expect (get_elem? s.np_windows ix)

  -- What is done through `get_in_instance_mut` and the like: the new instance takes the place.
  unfoldable pub put_in_instance : GlobalStore F → ℕ → InstanceStore (Value F) → GlobalStore F
  put_in_instance s inst i = record s { inputs = set s.inputs inst i }

  unfoldable pub put_out_instance :
      GlobalStore F → ℕ → InstanceStore (Value F) → Outcome (GlobalStore F)
  put_out_instance s inst o = do
    ix ← expect (get_elem? s.index_map inst)
    ok (record s { np_outputs = set s.np_outputs ix o })

  unfoldable pub put_window : GlobalStore F → ℕ → SlidingWindow F → GlobalStore F
  put_window s ix w = record s { np_windows = set s.np_windows ix w }
