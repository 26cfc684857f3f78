-- ===== src/Bootstrap/Hooks/Rinit.antt =====
-- RINIT: it does nothing, or it starts the shipper and allocates a trace.
use php_analyze.Prelude.{ℕ, Bool, true, some, List, ◌≡◌, arith, Option-cases, Bool-cases, inl, inr}
use php_analyze.Prelude.Int.{ℤ}
use php_analyze.Config.Types.{Config}
use php_analyze.Recorder.Key.{HashWrite}
use php_analyze.Recorder.Types.{RequestIdentity}
use php_analyze.Recorder.Request.{Process, rinit_allocate_trace}
use php_analyze.Shipper.Lifecycle.{spawn_with_on_batch_factory_inner}
use php_analyze.Bootstrap.Hooks.{
  limits_from, Host, caught, with_slots, spawn_shipper_if_enabled, rinit_body,
}

module _ (hash_one : List HashWrite → ℕ) (starts : Bool) (now : ℤ) (identity : RequestIdentity)
    (h : Host) where
  abbrev pub after_rinit : Host
  after_rinit = caught h (rinit_body hash_one starts now identity h)

  -- RINIT does nothing, or allocates a trace under an enabled configuration.
  pub data Requested : Type 0 where
    untouched : after_rinit ≡ h → Requested
    allocates :
        (c : Config) (p : Process)
        → h.config ≡ some c
        → c.enabled ≡ true
        → after_rinit.config ≡ some c
        → p.world.queue ≡ h.process.world.queue
        → after_rinit.cached_mode ≡ h.cached_mode
        → after_rinit.process ≡ rinit_allocate_trace hash_one now identity (limits_from c) p
        → Requested

  pub requested : Requested
  unfolding rinit_body spawn_shipper_if_enabled
  requested = elim (Option-cases h.config) [
    | inl unset ↦ untouched (ground arith)
    | inr (c, set) ↦ elim (Bool-cases c.enabled) [
      | inr shut ↦ untouched (ground arith)
      | inl on ↦ elim (Option-cases c.server_url) [
        | inl nowhere ↦ untouched (ground arith)
        | inr (url, there) ↦
            allocates c (with_slots (spawn_with_on_batch_factory_inner starts) h).process set on
              (ground arith) (ground arith) (ground arith) (ground arith)
      ]
    ]
  ]
