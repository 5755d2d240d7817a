-- ===== src/Engine/Run.antt =====
-- The life of an engine: the calls of its methods, one after the other in the order in which they
-- take the mutex. `Run` is the source of the ticks; connections are the source of the rest.
use nodefall.Base.{ℕ, Option, some, List}
use nodefall.Base.Loop.{try_each}
use nodefall.Engine.State.{Engine, Host, Input, Ranges}
use nodefall.Engine.Session.{join, leave, handle_input}
use nodefall.Engine.Lifecycle.{tick}

pub data Event (F C : Type 0) : Type 0 where
  joins : ℕ → C → Event F C
  leaves : C → Event F C
  inputs : ℕ → C → Input F → Event F C
  ticks : Ranges → ℕ → Event F C

module _ {F S C M : Type 0} (h : Host F S C M) where
  unfoldable pub step : Event F C → Engine F C × S → Option (Engine F C × S)
  step (joins now c) (e, s) = let (e', s', _) = join h now c e s in some (e', s')
  step (leaves c) (e, s) = some (leave h c e, s)
  step (inputs now c input) (e, s) = some (handle_input h now c input e, s)
  step (ticks ranges now) st = tick h ranges now st

  -- `none`: one of the calls panicked.
  unfoldable pub run : List (Event F C) → Engine F C × S → Option (Engine F C × S)
  run = try_each step
