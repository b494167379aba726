-- ===== src/Ir/Program.antt =====
-- `struct RTLolaIR` of frontend/src/ir.rs and the structs of its streams. Fields that only describe
-- a stream to a reader (its name, its layer as an input, its dependencies) are left out.
use rtlola.Common.{ℕ, Bool, Option, List, String}
use rtlola.Ir.{Ty, MemorizationBound, WindowOperation, StreamReference, Expression}
use rtlola.Frontend.Activation.{Activation}

pub record InputStream : Type 0 where
  pub ty : Ty
  pub dependent_windows : List ℕ
  pub memory_bound : MemorizationBound

pub record OutputStream (F : Type 0) : Type 0 where
  pub ty : Ty
  pub expr : Expression F
  pub dependent_windows : List ℕ
  pub memory_bound : MemorizationBound
  pub layer : ℕ
  pub reference : StreamReference
  pub ac : Option (Activation StreamReference)

-- `period` is the numerator and the denominator of the period in nanoseconds.
pub record TimeDrivenStream : Type 0 where
  pub reference : StreamReference
  pub period : ℕ × ℕ

pub record Trigger : Type 0 where
  pub message : String
  pub reference : StreamReference
  pub trigger_idx : ℕ

pub record SlidingWindow : Type 0 where
  pub target : StreamReference
  pub duration : ℕ
  pub wait : Bool
  pub op : WindowOperation
  pub reference : ℕ
  pub ty : Ty

-- `event_driven` holds the references of the event-based streams.
pub record RtLolaIr (F : Type 0) : Type 0 where
  pub inputs : List InputStream
  pub outputs : List (OutputStream F)
  pub time_driven : List TimeDrivenStream
  pub event_driven : List StreamReference
  pub sliding_windows : List SlidingWindow
  pub triggers : List Trigger
