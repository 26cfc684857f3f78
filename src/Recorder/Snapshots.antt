-- ===== src/Recorder/Snapshots.antt =====
-- The readings of the clocks: clocks.rs, and in recorder/observer.rs the two `capture_now` and the
-- cache of the CPU snapshot mode. What the system calls answer is an argument.
use php_analyze.Prelude.{ℕ, ◌+◌, ◌-◌, ◌*◌, ◌%◌, ◌^◌, Option, none, some, ltb, ◌==◌, if◌then◌else◌}
use php_analyze.Prelude.Int.{ℤ, pos, negsuc}
use php_analyze.Prelude.Words.{u64_mod}
use php_analyze.Config.Types.{Config, CpuSnapshotMode, per_call, off}
use php_analyze.Recorder.Begin.{EntrySnapshots}
use php_analyze.Recorder.End.{ExitSnapshots}

-- A word read as an `i64`.
abbrev as_i64 : ℕ → ℤ
as_i64 w = if ltb w (2 ^ 63) then pos w else negsuc (u64_mod - 1 - w)

-- The fields of a `timeval` and a `timespec` are not negative; the sums wrap in a release build.
unfoldable pub timeval_to_ns : ℕ → ℕ → ℤ
timeval_to_ns tv_sec tv_usec = as_i64 ((tv_sec * 1000000000 + tv_usec * 1000) % u64_mod)

unfoldable pub clock_gettime_ns : ℕ → ℕ → ℤ
clock_gettime_ns tv_sec tv_nsec = as_i64 ((tv_sec * 1000000000 + tv_nsec) % u64_mod)

pub record CpuTimes : Type 0 where
  pub user_ns : ℤ
  pub system_ns : ℤ

pub record RawSnapshot : Type 0 where
  pub t_ns : ℤ
  pub cpu_u_ns : ℤ
  pub cpu_s_ns : ℤ
  pub mem_bytes : ℤ

-- What the three readings would give.
pub record Readings : Type 0 where
  pub monotonic_now_ns : ℤ
  pub cpu_times_now_ns : CpuTimes
  pub memory_usage_real_bytes : ℤ

unfoldable pub snapshot_now : CpuSnapshotMode → Readings → RawSnapshot
snapshot_now per_call r = record {
  t_ns = r.monotonic_now_ns;
  cpu_u_ns = r.cpu_times_now_ns.user_ns;
  cpu_s_ns = r.cpu_times_now_ns.system_ns;
  mem_bytes = r.memory_usage_real_bytes;
}
snapshot_now off r = record {
  t_ns = r.monotonic_now_ns;
  cpu_u_ns = pos 0;
  cpu_s_ns = pos 0;
  mem_bytes = r.memory_usage_real_bytes;
}

abbrev pub cpu_snapshot_mode_unset : ℕ
cpu_snapshot_mode_unset = 0xff

unfoldable pub encode_cpu_snapshot_mode : CpuSnapshotMode → ℕ
encode_cpu_snapshot_mode per_call = 0
encode_cpu_snapshot_mode off = 1

-- The mode from the cache, and from the configuration when the cache is unset.
unfoldable pub current_cpu_snapshot_mode : ℕ → Option Config → CpuSnapshotMode
current_cpu_snapshot_mode cached config =
    let fallback : CpuSnapshotMode = elim config [
      | none ↦ per_call
      | some c ↦ c.cpu_snapshot_mode
    ] in
    if cached == 0 then per_call else if cached == 1 then off else fallback

unfoldable pub entry_capture_now : CpuSnapshotMode → Readings → EntrySnapshots
unfolding snapshot_now
entry_capture_now mode r =
    let raw = snapshot_now mode r in
    record {
      t_in_ns = raw.t_ns;
      cpu_u_in_ns = raw.cpu_u_ns;
      cpu_s_in_ns = raw.cpu_s_ns;
      mem_in_bytes = raw.mem_bytes;
    }

unfoldable pub exit_capture_now : CpuSnapshotMode → Readings → ExitSnapshots
unfolding snapshot_now
exit_capture_now mode r =
    let raw = snapshot_now mode r in
    record {
      t_out_ns = raw.t_ns;
      cpu_u_now_ns = raw.cpu_u_ns;
      cpu_s_now_ns = raw.cpu_s_ns;
      mem_out_bytes = raw.mem_bytes;
    }
