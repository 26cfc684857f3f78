-- ===== src/Recorder/End/Mispairing.antt =====
-- The matcher of dropped begins, when a call inside a dropped call is accepted.
use php_analyze.Prelude.{ℕ, ◌≡◌, List, [], ◌∷◌}
use php_analyze.World.{World}
use php_analyze.Recorder.Types.{CallFrame}
use php_analyze.Recorder.Trace.{Trace}

-- The number of the frame on the top of a stack is this one.
abbrev pub IsTop : ℕ → List CallFrame → Type 0
IsTop id [] = ⊥
IsTop id (frame ∷ rest) = frame.call_id ≡ id
