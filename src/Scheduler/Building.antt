-- ===== src/Scheduler/Building.antt =====
-- The configurations that `SchedulerBuilder::build` accepts
-- (crates/hexeract-scheduler/src/builder.rs).
use hexeract.Common.{◌*◌, ◌≤◌, ◌<◌, min, ◌≡◌, ◌↔◌, arith}
use hexeract.Common.Result.{ok}
use hexeract.Clock.{checked_mul, last_duration, u32_max}
use hexeract.Scheduler.Worker.{SchedulerWorkerConfig, build}

pub record IsValid (c : SchedulerWorkerConfig) : Type 0 where
  pub some_batch : 0 < c.batch_size
  pub some_interval : 0 < c.poll_interval
  pub some_lease : 0 < c.lease
  pub some_timeout : 0 < c.dispatch_timeout
  pub some_delay : 0 < c.retry_base_delay
  pub ordered : c.retry_base_delay ≤ c.retry_max_delay
  pub covered : c.dispatch_timeout * min c.batch_size u32_max ≤ c.lease
  pub representable : c.dispatch_timeout * min c.batch_size u32_max ≤ last_duration

build-IsValid : (c d : SchedulerWorkerConfig) → build c ≡ ok d → (d ≡ c) × IsValid c
unfolding build checked_mul
build-IsValid c d h = ground arith

IsValid-build : (c : SchedulerWorkerConfig) → IsValid c → build c ≡ ok c
unfolding build checked_mul
IsValid-build c v = ground arith

-- `build` accepts exactly the valid configurations, and changes nothing in them: a batch, a poll
-- interval, a lease, a dispatch timeout and a base delay that are not zero, retry delays in order,
-- and a lease that covers one dispatch timeout for each occurrence of a batch (of `u32::MAX` at
-- most), a product that a `Duration` represents.
pub build_iff : (c d : SchedulerWorkerConfig) → (build c ≡ ok d) ↔ ((d ≡ c) × IsValid c)
build_iff c d = (build-IsValid c d, λ p. cc (IsValid-build c p.1, p.0))
