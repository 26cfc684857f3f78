-- ===== src/Shipper/Lifecycle/Once.antt =====
-- A process starts at most one shipper thread, and a failure to start it is final.
use php_analyze.Prelude.{
  ℕ, ◌≡◌, ◌∙◌, Bool, true, false, Option, List, [], ◌∷◌, arith, Bool-cases, inl, inr,
}
use php_analyze.Shipper.Loop.{ShipperExit}
use php_analyze.Shipper.Lifecycle.{
  Slots, install_channel_at_minit, spawn_with_on_batch_factory_inner, not_installed,
  drain_and_join_at_mshutdown,
}

-- The calls that the bootstrap makes, in any order and number.
pub data Call : Type 0 where
  minit : ℕ → Call
  rinit : Bool → Call
  mshutdown : ℕ → ℕ → Bool → Option ShipperExit → Call

unfoldable pub call : Call → Slots → Slots
unfolding install_channel_at_minit spawn_with_on_batch_factory_inner drain_and_join_at_mshutdown
call (minit depth) s = install_channel_at_minit depth s
call (rinit starts) s = spawn_with_on_batch_factory_inner starts s
call (mshutdown now grace accepted joined) s =
    (drain_and_join_at_mshutdown now grace accepted joined s).1

unfoldable pub calls : List Call → Slots → Slots
unfolding call
calls [] s = s
calls (c ∷ rest) s = calls rest (call c s)

-- The three stages of a process: no thread yet, one thread started, one start failed for good.
pub data IsOnce (s : Slots) : Type 0 where
  unstarted : s.spawned ≡ false → s.spawn_failed ≡ false → s.threads ≡ 0 → s.warnings ≡ 0 → IsOnce s
  started : s.spawned ≡ true → s.spawn_failed ≡ false → s.threads ≡ 1 → s.warnings ≡ 0 → IsOnce s
  failed : s.spawned ≡ false → s.spawn_failed ≡ true → s.threads ≡ 0 → s.warnings ≡ 1 → IsOnce s

-- A change of the other slots.
IsOnce-same :
    (s s' : Slots)
    → s'.spawned ≡ s.spawned
    → s'.spawn_failed ≡ s.spawn_failed
    → s'.threads ≡ s.threads
    → s'.warnings ≡ s.warnings
    → IsOnce s
    → IsOnce s'
IsOnce-same s s' a b c d (unstarted e f g h) = unstarted (a ∙ e) (b ∙ f) (c ∙ g) (d ∙ h)
IsOnce-same s s' a b c d (started e f g h) = started (a ∙ e) (b ∙ f) (c ∙ g) (d ∙ h)
IsOnce-same s s' a b c d (failed e f g h) = failed (a ∙ e) (b ∙ f) (c ∙ g) (d ∙ h)

rinit-IsOnce : (starts : Bool) (s : Slots) → IsOnce s → IsOnce (call (rinit starts) s)
unfolding call spawn_with_on_batch_factory_inner
rinit-IsOnce true s (unstarted e f g h) = elim (Bool-cases s.receiver_slot) [
  | inl there ↦ started (ground arith) (ground arith) (ground arith) (ground arith)
  | inr none_there ↦ unstarted (ground arith) (ground arith) (ground arith) (ground arith)
]
rinit-IsOnce false s (unstarted e f g h) = elim (Bool-cases s.receiver_slot) [
  | inl there ↦ failed (ground arith) (ground arith) (ground arith) (ground arith)
  | inr none_there ↦ unstarted (ground arith) (ground arith) (ground arith) (ground arith)
]
rinit-IsOnce starts s (started e f g h) =
    started (ground arith) (ground arith) (ground arith) (ground arith)
rinit-IsOnce starts s (failed e f g h) =
    failed (ground arith) (ground arith) (ground arith) (ground arith)

call-IsOnce : (c : Call) (s : Slots) → IsOnce s → IsOnce (call c s)
unfolding call install_channel_at_minit drain_and_join_at_mshutdown
call-IsOnce (minit depth) s p =
    IsOnce-same s (install_channel_at_minit depth s) (ground arith) (ground arith) (ground arith)
      (ground arith) p
call-IsOnce (rinit starts) s p = rinit-IsOnce starts s p
call-IsOnce (mshutdown now grace accepted joined) s p =
    IsOnce-same s (drain_and_join_at_mshutdown now grace accepted joined s).1 (ground arith)
      (ground arith) (ground arith) (ground arith) p

-- Calls of the three entry points, whatever their number, their order and the answers of the system,
-- leave the process in one of three stages if it was in one at the start: no thread and no warning,
-- one thread and no warning, or, where a start has failed, no thread and one warning.
pub calls-IsOnce : (cs : List Call) (s : Slots) → IsOnce s → IsOnce (calls cs s)
unfolding calls
calls-IsOnce [] s p = p
calls-IsOnce (c ∷ rest) s p = calls-IsOnce rest (call c s) (call-IsOnce c s p)

-- After a drain at MSHUTDOWN no sender is installed, and a second drain finds nothing to join and
-- changes nothing.
pub drain_and_join_at_mshutdown-twice :
    (now grace now' grace' : ℕ) (accepted accepted' : Bool) (joined joined' : Option ShipperExit)
    (s : Slots)
    → ((drain_and_join_at_mshutdown now grace accepted joined s).1.sender_slot ≡ false)
      × (drain_and_join_at_mshutdown now' grace' accepted' joined'
            (drain_and_join_at_mshutdown now grace accepted joined s).1
          ≡ (not_installed, (drain_and_join_at_mshutdown now grace accepted joined s).1))
unfolding drain_and_join_at_mshutdown
drain_and_join_at_mshutdown-twice now grace now' grace' accepted accepted' joined joined' s =
    (ground arith, ground arith)
