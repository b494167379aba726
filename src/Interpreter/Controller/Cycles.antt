-- ===== src/Interpreter/Controller/Cycles.antt =====
-- What the offline loop of interpreter/src/coordination/controller.rs needs of its deadlines.
use rtlola.Common.{Bool, true, false, ◌&&◌, ltb, List, [], ◌∷◌}
use rtlola.Frontend.Schedule.{Deadline}

-- Every pause takes time.
unfoldable pub all_pause : List Deadline → Bool
all_pause [] = true
all_pause (d ∷ ds) = ltb 0 d.pause && all_pause ds

unfoldable pub is_some_deadline : List Deadline → Bool
is_some_deadline [] = false
is_some_deadline (d ∷ ds) = true

-- Where there are time-driven streams, the schedule has a deadline, and every pause takes time.
unfoldable pub is_scheduled : Bool → List Deadline → Bool
is_scheduled true deadlines = is_some_deadline deadlines && all_pause deadlines
is_scheduled false deadlines = true
