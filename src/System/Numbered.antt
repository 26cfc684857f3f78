-- ===== src/System/Numbered.antt =====
-- The interner over a schedule: its table stays valid.
use php_analyze.Prelude.{ℕ, ◌≡◌, refl, sym, Bool, none, some, List}
use mathlib.Core.Path.{subst}
use php_analyze.Prelude.Text.{Text}
use php_analyze.World.{World}
use php_analyze.Recorder.Dictionary.{Dictionary, probe_ref, take_new_entries}
use php_analyze.Recorder.Dictionary.Laws.{IsValid, stage-IsValid}
use php_analyze.Recorder.Trace.{Trace}
use php_analyze.Recorder.Begin.{EntrySnapshots, lazy_build}
use php_analyze.Recorder.Begin.Cases.{Begun, dropped, known, fresh, staged}
use php_analyze.Recorder.CallSite.{LazyCategorised}
use php_analyze.Recorder.End.{ExitSnapshots, flush_and_send}
use php_analyze.Recorder.End.Cases.{Ended, skipped, unpaired, emitted, flushed}
use php_analyze.Recorder.Flush.{SendResult}
use php_analyze.System.{State, Event, run}
use php_analyze.System.Cases.{
  Stepped, begun, ended, idle, discarded, shipped, run_induction, All-events,
}

staged-IsValid :
    (lazy : LazyCategorised) (s : EntrySnapshots) (d : Dictionary)
    → probe_ref d lazy.key_ref ≡ none
    → IsValid d
    → IsValid (staged lazy s d)
unfolding lazy_build
staged-IsValid lazy s d absent v = stage-IsValid d lazy.key_ref _ _ refl absent v

Begun-IsValid :
    {lazy : LazyCategorised} {s : EntrySnapshots} {t t' : Trace} {w w' : World}
    → Begun lazy s t w t' w'
    → IsValid t.dictionary
    → IsValid t'.dictionary
Begun-IsValid (dropped _ et ew) v = subst (λ x. IsValid x.dictionary) (sym et) v
Begun-IsValid (known id found deep gate _ et ew) v = subst (λ x. IsValid x.dictionary) (sym et) v
Begun-IsValid {lazy} {s} {t} (fresh absent deep gate _ _ et ew) v =
    subst (λ x. IsValid x.dictionary) (sym et) (staged-IsValid lazy s t.dictionary absent v)

Ended-IsValid :
    {x : ExitSnapshots} {a : Bool} {r : SendResult} {t t' : Trace} {w w' : World}
    → Ended x a r t w t' w'
    → IsValid t.dictionary
    → IsValid t'.dictionary
unfolding flush_and_send take_new_entries
Ended-IsValid (skipped _ et ew) v = subst (λ x. IsValid x.dictionary) (sym et) v
Ended-IsValid (unpaired _ _ et ew) v = subst (λ x. IsValid x.dictionary) (sym et) v
Ended-IsValid (emitted frame rest _ _ _ et ew) v = subst (λ x. IsValid x.dictionary) (sym et) v
Ended-IsValid (flushed frame rest _ _ _ e) v = subst (λ q. IsValid q.0.dictionary) (sym e) v

module _ (uuid : List ℕ → Text) (url : Text) where
  keep :
      (e : Event) (s s' : State)
      → Unit {0}
      → Stepped uuid url e s s'
      → IsValid s.trace.dictionary
      → IsValid s'.trace.dictionary
  keep e s s' _ (begun lazy entry _ b _ _ _) v = Begun-IsValid b v
  keep e s s' _ (ended x a r _ d _ _ _) v = Ended-IsValid d v
  keep e s s' _ (idle same) v = subst (λ q. IsValid q.trace.dictionary) (sym same) v
  keep e s s' _ (discarded deadline rest eq same) v =
      subst (λ q. IsValid q.trace.dictionary) (sym same) v
  keep e s s' _ (shipped o b rest _ eq et _ _ ew) v = subst (λ t. IsValid t.dictionary) (sym et) v

  -- Over any schedule the dictionary of the trace stays valid.
  pub run-IsValid :
      (es : List Event) (s s' : State)
      → run uuid url es s ≡ some s'
      → IsValid s.trace.dictionary
      → IsValid s'.trace.dictionary
  run-IsValid es s s' h v =
      run_induction uuid url (λ s. IsValid s.trace.dictionary) (λ e. Unit {0}) keep es s s'
        (All-events es) h v
