-- ===== src/Tests/Bootstrap.antt =====
-- A process that stays silent for want of a server, one that opens a trace, and the table of phpinfo.
use php_analyze.Prelude.{◌≡◌, refl, true, false, Option, none, some, List, [], ◌∷◌, if◌then◌else◌}
use php_analyze.Prelude.Int.{pos}
use php_analyze.Prelude.Text.{Text, codes, text_eq}
use php_analyze.Prelude.Strings.{trim, split_scheme}
use php_analyze.Config.Types.{RawIni, FileContent, unreadable, Config, off, master_switch_off}
use php_analyze.Config.Resolve as Resolve
use php_analyze.Config.Resolve.{from_ini_values}
use php_analyze.Recorder.Types.{RequestIdentity}
use php_analyze.Recorder.Trace.{Trace}
use php_analyze.Recorder.Dictionary as Dictionary
use php_analyze.Recorder.Dictionary.{probe_ref, intern_ref}
use php_analyze.Recorder.Key.{matches_ref, to_owned}
use php_analyze.Recorder.CallSite.{RawCallSite, render, render_len}
use php_analyze.Recorder.Flush as Flush
use php_analyze.Recorder.Snapshots.{Readings}
use php_analyze.Shipper.Lifecycle.{Slots}
use php_analyze.Bootstrap.Directives.{Ini, raw_ini_from_ini_map}
use php_analyze.Bootstrap.Directives.Defaults.{registered, from_ini_values-registered}
use php_analyze.Bootstrap.PhpInfo.{rows}
use php_analyze.Bootstrap.PhpInfo.Redacted.{rows-redacted}
use php_analyze.Bootstrap.Hooks.{
  Host, disabled, Hook, minit, rinit, begin_call, end_call, rshutdown, mshutdown, hooks,
}
use php_analyze.Bootstrap.Hooks.Gate.{is_enabled, hooks-silent}
use php_analyze.Recorder.Untimed.{IsUntimedProcess}
use php_analyze.Bootstrap.Hooks.Untimed.{hooks-IsUntimedProcess}
use php_analyze.Bootstrap.Hooks.Limits.{HasThresholds, hooks-HasThresholds}
use php_analyze.Tests.System.{world_at_start, trace_at_start}

abbrev no_files : Text → FileContent
no_files path = unreadable (codes "gone")

abbrev bare : Ini
bare name = none

-- A server and a token; all else has no value.
abbrev served : Ini
served name =
    if text_eq name (codes "php_analyze.server_url")
    then some (some (codes "https://a"))
    else if text_eq name (codes "php_analyze.auth_token")
    then some (some (codes "t"))
    else none

abbrev slots_at_start : Slots
slots_at_start = record {
  sender_slot = false;
  receiver_slot = false;
  spawned = false;
  spawn_failed = false;
  handle = false;
  drain_deadline = none;
  queue = [];
  capacity = 0;
  threads = 0;
  warnings = 0;
}

abbrev host_at_start : Host
host_at_start = record {
  config = none;
  cached_mode = 255;
  observer = disabled;
  slots = slots_at_start;
  process = record { current_trace = none; world = record world_at_start { sender_slot = false } };
  notices = [];
  warnings = [];
}

abbrev identity : RequestIdentity
identity = record { host = codes "h"; sapi = codes "cli"; pid = 1; uri_or_script = codes "a.php" }

abbrev call : RawCallSite
call = record {
  function_name = some (codes "f");
  class_name = none;
  filename = some (codes "a.php");
  lineno = 3;
  is_internal = false;
  execute_data_addr = 16;
}

abbrev readings : Readings
readings = record {
  monotonic_now_ns = pos 5;
  cpu_times_now_ns = record { user_ns = pos 2; system_ns = pos 1 };
  memory_usage_real_bytes = pos 7;
}

abbrev life : Ini → List Hook
life ini =
    minit ini
    ∷ rinit true (pos 0) identity
    ∷ begin_call call readings
    ∷ end_call readings false Flush.sent
    ∷ rshutdown readings Flush.sent
    ∷ mshutdown 0 true none
    ∷ []

abbrev or_start : Option Host → Host
or_start none = host_at_start
or_start (some h) = h

abbrev silent_end : Host
silent_end = or_start (hooks no_files (λ ws. 7) (life bare) host_at_start)

silent_runs : hooks no_files (λ ws. 7) (life bare) host_at_start ≡ some silent_end
unfolding hooks trim
silent_runs = refl

silent_disabled : is_enabled silent_end.config ≡ false
unfolding hooks trim
silent_disabled = refl

hooks-silent_example :
    (silent_end.slots ≡ host_at_start.slots) × (silent_end.process ≡ host_at_start.process)
hooks-silent_example =
    hooks-silent no_files (λ ws. 7) (life bare) host_at_start refl refl refl silent_runs
      silent_disabled

abbrev opening : List Hook
opening = minit served ∷ rinit true (pos 0) identity ∷ begin_call call readings ∷ []

abbrev open_host : Host
open_host = or_start (hooks no_files (λ ws. 7) opening host_at_start)

abbrev or_trace : Option Trace → Trace
or_trace none = trace_at_start
or_trace (some t) = t

abbrev open_trace : Trace
open_trace = or_trace open_host.process.current_trace

opening_runs : hooks no_files (λ ws. 7) opening host_at_start ≡ some open_host
unfolding hooks trim text_eq split_scheme probe_ref Dictionary.new render_len intern_ref
opening_runs = refl

opening_traces : open_host.process.current_trace ≡ some open_trace
unfolding hooks trim text_eq split_scheme probe_ref Dictionary.new render_len intern_ref
opening_traces = refl

hooks-HasThresholds_example : (is_enabled open_host.config ≡ true) × HasThresholds open_trace
hooks-HasThresholds_example =
    hooks-HasThresholds no_files (λ ws. 7) opening host_at_start refl refl opening_runs
      opening_traces

from_ini_values-registered_example :
    (from_ini_values no_files (raw_ini_from_ini_map (registered served))).0
    ≡ (from_ini_values no_files (raw_ini_from_ini_map served)).0
from_ini_values-registered_example = from_ini_values-registered no_files served

abbrev raw : RawIni
raw = raw_ini_from_ini_map served

rows-redacted_example :
    (rows (some (from_ini_values no_files (record raw { auth_token = some (codes "secret") })).0)
      ≡ rows (some (from_ini_values no_files (record raw { auth_token = some (codes "other") })).0))
    × ((from_ini_values no_files (record raw { auth_token = some (codes "secret") })).1
        ≡ (from_ini_values no_files (record raw { auth_token = some (codes "other") })).1)
unfolding trim
rows-redacted_example =
    rows-redacted no_files no_files (λ path. refl) raw (codes "secret") (codes "other") refl

-- The same server and token, with CPU snapshots off.
abbrev timeless : Ini
timeless name =
    if text_eq name (codes "php_analyze.cpu_snapshot_mode")
    then some (some (codes "off"))
    else served name

abbrev timeless_opening : List Hook
timeless_opening =
    minit timeless
    ∷ rinit true (pos 0) identity
    ∷ begin_call call readings
    ∷ end_call readings false Flush.sent
    ∷ begin_call call readings
    ∷ []

abbrev timeless_host : Host
timeless_host = or_start (hooks no_files (λ ws. 7) timeless_opening host_at_start)

abbrev or_config : Option Config → Config
or_config none = Resolve.disabled master_switch_off
or_config (some c) = c

timeless_runs : hooks no_files (λ ws. 7) timeless_opening host_at_start ≡ some timeless_host
unfolding hooks trim text_eq split_scheme probe_ref Dictionary.new render_len intern_ref render
    matches_ref to_owned
timeless_runs = refl

timeless_config : timeless_host.config ≡ some (or_config timeless_host.config)
unfolding hooks trim text_eq split_scheme probe_ref Dictionary.new render_len intern_ref render
    matches_ref to_owned
timeless_config = refl

timeless_mode : (or_config timeless_host.config).cpu_snapshot_mode ≡ off
unfolding hooks trim text_eq split_scheme probe_ref Dictionary.new render_len intern_ref render
    matches_ref to_owned
timeless_mode = refl

hooks-IsUntimedProcess_example : IsUntimedProcess timeless_host.process
hooks-IsUntimedProcess_example =
    hooks-IsUntimedProcess no_files (λ ws. 7) timeless_opening host_at_start refl refl refl
      timeless_runs timeless_config timeless_mode
