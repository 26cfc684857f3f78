-- ===== src/Bootstrap/Hooks.antt =====
-- The life-cycle hooks: MINIT, RINIT, RSHUTDOWN and MSHUTDOWN, and the observer that dispatches the
-- begins and the ends of calls. `none` is a panic.
pub mod Gate
pub mod Follows
pub mod Rinit
pub mod Limits
pub mod Steps
pub mod Untimed
use php_analyze.Prelude.{
  ℕ, ◌+◌, Bool, Option, none, some, List, [], ◌∷◌, ◌++◌, if◌then◌else◌, ◌>>=◌,
}
use php_analyze.Prelude.Int.{ℤ}
use php_analyze.Prelude.Text.{Text, codes}
use php_analyze.World.{World}
use php_analyze.Config.Types.{
  Config, ConfigWarning, CpuSnapshotMode, FileContent, DisableReason, master_switch_off,
}
use php_analyze.Config.Resolve.{from_ini_values}
use php_analyze.Recorder.Key.{HashWrite}
use php_analyze.Recorder.Types.{RequestIdentity, TraceLimits}
use php_analyze.Recorder.Flush.{SendResult}
use php_analyze.Recorder.CallSite.{RawCallSite}
use php_analyze.Recorder.Begin.{EntrySnapshots}
use php_analyze.Recorder.End.{ExitSnapshots}
use php_analyze.Recorder.Request.{
  Process, begin_handler, end_handler, rinit_allocate_trace, rshutdown_release_trace,
}
use php_analyze.Recorder.Snapshots.{
  Readings, encode_cpu_snapshot_mode, current_cpu_snapshot_mode, entry_capture_now,
  exit_capture_now,
}
use php_analyze.Shipper.Consume.{drain_drop_notices}
use php_analyze.Shipper.Loop.{ShipperExit}
use php_analyze.Shipper.Lifecycle.{
  Slots, install_channel_at_minit, spawn_with_on_batch_factory_inner, drain_and_join_at_mshutdown,
}
use php_analyze.Bootstrap.Directives.{Ini, raw_ini_from_ini_map}

pub data BootObserver : Type 0 where
  disabled recorder : BootObserver

-- The process: the frozen configuration, the cache of the CPU snapshot mode, the observer, the slots
-- of the shipper, the request window, and what has gone to PHP's error log.
pub record Host : Type 0 where
  pub config : Option Config
  pub cached_mode : ℕ
  pub observer : BootObserver
  pub slots : Slots
  pub process : Process
  pub notices : List Text
  pub warnings : List ConfigWarning

-- The sender slot and the channel are the same objects for the shipper's life cycle and for the
-- recorder.
abbrev pub with_slots : (Slots → Slots) → Host → Host
with_slots f h =
    let w = h.process.world in
    let s = f (record h.slots { sender_slot = w.sender_slot; queue = w.queue }) in
    record h {
      slots = s;
      process = record h.process {
        world = record w { sender_slot = s.sender_slot; queue = s.queue };
      };
    }

-- `TraceLimits::from`
unfoldable pub limits_from : Config → TraceLimits
limits_from config = record {
  max_depth = config.max_depth;
  buffer_cap_bytes = config.buffer_cap_bytes;
  flush_records = config.flush_records;
  flush_bytes = config.flush_bytes;
}

abbrev pub emit_php_notice : Text → Host → Host
emit_php_notice message h = record h { notices = h.notices ++ (message ∷ []) }

unfoldable pub emit_master_switch_notice_if_off : Host → Host
emit_master_switch_notice_if_off h = elim h.config [
  | none ↦ h
  | some config ↦ elim config.disable_reason [
    | some master_switch_off ↦
        emit_php_notice (codes "php_analyze: disabled by php_analyze.enabled = 0") h
    | _ ↦ h
  ]
]

unfoldable pub install_shipper_if_enabled : Host → Host
unfolding install_channel_at_minit
install_shipper_if_enabled h = elim h.config [
  | none ↦ h
  | some config ↦
      if config.enabled
      then with_slots (install_channel_at_minit config.shipper_queue_depth) h
      else h
]

unfoldable pub build_boot_observer : Option Config → BootObserver
build_boot_observer none = disabled
build_boot_observer (some config) = if config.enabled then recorder else disabled

unfoldable pub emit_queued_drop_notices : Host → Host
unfolding drain_drop_notices
emit_queued_drop_notices h =
    let (queued, w) = drain_drop_notices h.process.world in
    record h { notices = h.notices ++ queued; process = record h.process { world = w } }

-- The first configuration stays, and with it the cached mode.
unfoldable pub freeze : Config → List ConfigWarning → Host → Host
unfolding encode_cpu_snapshot_mode
freeze config warnings h =
    let warned : Host = record h { warnings = h.warnings ++ warnings } in
    elim h.config [
      | none ↦ record warned {
        config = some config;
        cached_mode = encode_cpu_snapshot_mode config.cpu_snapshot_mode;
      }
      | some first ↦ warned
    ]

-- What MINIT does once there is a configuration, and the observer that is built then.
unfoldable pub start_up : Host → Host
unfolding emit_master_switch_notice_if_off install_shipper_if_enabled build_boot_observer
start_up h =
    let h' = install_shipper_if_enabled (emit_master_switch_notice_if_off h) in
    record h' { observer = build_boot_observer h'.config }

module _ (read_to_string : Text → FileContent) where
  unfoldable pub initialise_from_ini : Ini → Host → Host
  unfolding from_ini_values raw_ini_from_ini_map freeze
  initialise_from_ini ini h =
      let (config, warnings) = from_ini_values read_to_string (raw_ini_from_ini_map ini) in
      freeze config warnings h

  unfoldable pub startup : Ini → Host → Host
  unfolding initialise_from_ini start_up
  startup ini h = start_up (initialise_from_ini ini h)

-- `expect` on the address of the server: `none` is its panic.
unfoldable pub spawn_shipper_if_enabled : Bool → Host → Option Host
unfolding spawn_with_on_batch_factory_inner
spawn_shipper_if_enabled starts h = elim h.config [
  | none ↦ some h
  | some config ↦
      if config.enabled
      then (elim config.server_url [
        | none ↦ none
        | some url ↦ some (with_slots (spawn_with_on_batch_factory_inner starts) h)
      ])
      else some h
]

unfoldable pub rinit_body : (List HashWrite → ℕ) → Bool → ℤ → RequestIdentity → Host → Option Host
unfolding spawn_shipper_if_enabled rinit_allocate_trace limits_from
rinit_body hash_one starts now identity h = elim h.config [
  | none ↦ some h
  | some config ↦
      if config.enabled
      then (do
        h1 ← spawn_shipper_if_enabled starts h
        some (record h1 {
          process = rinit_allocate_trace hash_one now identity (limits_from config) h1.process;
        }))
      else some h
]

unfoldable pub rshutdown_body : ExitSnapshots → SendResult → Host → Host
unfolding rshutdown_release_trace emit_queued_drop_notices
rshutdown_body exit answer h =
    emit_queued_drop_notices (record h { process = rshutdown_release_trace exit answer h.process })

unfoldable pub drain_shipper_if_enabled : ℕ → Bool → Option ShipperExit → Host → Host
unfolding drain_and_join_at_mshutdown emit_queued_drop_notices
drain_shipper_if_enabled now accepted joined h = elim h.config [
  | none ↦ h
  | some config ↦
      let drained =
        with_slots
          (λ s. (drain_and_join_at_mshutdown now config.shutdown_grace accepted joined s).1) h in
      if config.enabled then emit_queued_drop_notices drained else h
]

-- The calls of the engine, with what the environment answers.
pub data Hook : Type 0 where
  minit : Ini → Hook
  rinit : Bool → ℤ → RequestIdentity → Hook
  begin_call : RawCallSite → Readings → Hook
  end_call : Readings → Bool → SendResult → Hook
  rshutdown : Readings → SendResult → Hook
  mshutdown : ℕ → Bool → Option ShipperExit → Hook

-- A panic of a handler that runs outside `catch_unwind` is `none`; RINIT catches its panic.
abbrev pub caught : Host → Option Host → Host
caught before none = before
caught before (some after) = after

-- `BootObserver` passes a call on to the recorder, or does nothing.
abbrev pub dispatched : Host → Option Process → Option Host
dispatched h handled = elim h.observer [
  | disabled ↦ some h
  | recorder ↦ elim handled [ none ↦ none | some p ↦ some (record h { process = p }) ]
]

-- The mode in which the handlers read the clocks.
abbrev pub mode_of : Host → CpuSnapshotMode
mode_of h = current_cpu_snapshot_mode h.cached_mode h.config

module _ (read_to_string : Text → FileContent) (hash_one : List HashWrite → ℕ) where
  unfoldable pub hook : Hook → Host → Option Host
  unfolding startup rinit_body begin_handler end_handler rshutdown_body drain_shipper_if_enabled
      entry_capture_now exit_capture_now current_cpu_snapshot_mode
  hook (minit ini) h = some (startup read_to_string ini h)
  hook (rinit starts now identity) h = some (caught h (rinit_body hash_one starts now identity h))
  hook (begin_call info readings) h =
      dispatched h (begin_handler info (entry_capture_now (mode_of h) readings) h.process)
  hook (end_call readings abnormal answer) h =
      dispatched h (end_handler (exit_capture_now (mode_of h) readings) abnormal answer h.process)
  hook (rshutdown readings answer) h =
      some (rshutdown_body (exit_capture_now (mode_of h) readings) answer h)
  hook (mshutdown now accepted joined) h = some (drain_shipper_if_enabled now accepted joined h)

  unfoldable pub hooks : List Hook → Host → Option Host
  unfolding hook
  hooks [] h = some h
  hooks (e ∷ es) h = do h' ← hook e h; hooks es h'
