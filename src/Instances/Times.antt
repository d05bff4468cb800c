-- ===== src/Instances/Times.antt =====
-- supvisors/instancestatus.py: SupvisorsTimes. `clock` holds what `time.monotonic()` and
-- `time.time()` return; the sequence counter -1 of the local instance is `none`.
use supvisors.Prelude.{ℕ, ◌*◌, Option, none, some, ltb, if◌then◌else◌}
use supvisors.Prelude.Integers.{ℤ, negsuc, sub_ℕ, is_negative}

pub record Clock : Type 0 where
  pub mtime : ℕ
  pub time : ℕ

pub record SupvisorsTimes : Type 0 where
  pub remote_sequence_counter : ℕ
  pub remote_mtime : ℕ
  pub remote_time : ℕ
  pub local_sequence_counter : ℕ
  pub local_mtime : ℕ
  pub local_time : ℕ
  pub start_local_mtime : ℤ

unfoldable pub new : SupvisorsTimes
new = record {
  remote_sequence_counter = 0;
  remote_mtime = 0;
  remote_time = 0;
  local_sequence_counter = 0;
  local_mtime = 0;
  local_time = 0;
  start_local_mtime = negsuc 0;
}

-- A counter that goes back means that the remote instance has restarted unseen: the local counter
-- is reset, so that the periodic check finds the instance inactive. `tick_period` is TICK_PERIOD of
-- supvisors/utils.py in the unit of time.
module _ (tick_period : ℕ) where
  unfoldable pub synchronize :
      (counter mtime time : ℕ)
      → (local_counter local_mtime local_time : ℕ) → SupvisorsTimes
      → SupvisorsTimes
  synchronize counter mtime time local_counter local_mtime local_time t =
      let stealth = ltb counter t.remote_sequence_counter in
      let start = if stealth then negsuc 0 else t.start_local_mtime in
      record {
        remote_sequence_counter = counter;
        remote_mtime = mtime;
        remote_time = time;
        local_sequence_counter = if stealth then 0 else local_counter;
        local_mtime = local_mtime;
        local_time = local_time;
        start_local_mtime =
            if is_negative start then sub_ℕ local_mtime (tick_period * counter) else start;
      }

  -- update(counter, mtime, time, local_counter)
  unfoldable pub update :
      (counter mtime time : ℕ) → Option ℕ → Clock → SupvisorsTimes → SupvisorsTimes
  unfolding synchronize
  update counter mtime time none clock t = synchronize counter mtime time counter mtime time t
  update counter mtime time (some local_counter) clock t =
      synchronize counter mtime time local_counter clock.mtime clock.time t
