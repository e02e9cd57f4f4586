-- ===== src/Logs/Manager/Interval.antt =====
-- How often `log_manager_auto_cleanup` of src/log_manager.c runs the clean-up.
use spiketrace.Prelude.{ℕ, ◌+◌, ◌<◌, ◌≡◌, refl, Bool, true, false, some, arith}
use spiketrace.Status.{ok}
use spiketrace.Config.Types.{Config}
use spiketrace.Logs.{Disk}
use spiketrace.Logs.Manager.{
  LogManager, is_disabled, interval_ns, is_early, log_manager_auto_cleanup,
}

module _ {F : Type 0} where
  is_early-soon :
      (ctx : LogManager) (config : Config F) (now later : ℕ)
      → 0 < now
      → now < later
      → later < now + interval_ns config
      → is_early (record ctx { last_cleanup_ns = now }) config later ≡ true
  unfolding is_early
  is_early-soon ctx config now later p q r = ground arith

  -- Two calls of `log_manager_auto_cleanup` on an initialized manager, the second later than the
  -- first by less than the interval, the first at a time after 0 and with the clean-up of the first
  -- on, not disabled and due: the first records its time, and the second deletes nothing, whatever
  -- the disk holds by then, and leaves the manager as it is.
  pub log_manager_auto_cleanup_spaced :
      (disk disk' : Disk) (granted granted' : Bool) (ctx : LogManager) (config : Config F)
      (now later : ℕ)
      → ctx.initialized ≡ true
      → config.enable_auto_cleanup ≡ true
      → is_disabled config.cleanup_policy ≡ false
      → is_early ctx config now ≡ false
      → 0 < now
      → now < later
      → later < now + interval_ns config
      → let after = (log_manager_auto_cleanup disk granted ctx config now).2 in
        (after ≡ record ctx { last_cleanup_ns = now })
        × (log_manager_auto_cleanup disk' granted' after config later ≡ (ok, some 0, after))
  unfolding log_manager_auto_cleanup
  log_manager_auto_cleanup_spaced disk disk' granted granted' ctx config now later i on used due p q
        r =
      let ctx' = record ctx { last_cleanup_ns = now } in
      let early = is_early-soon ctx config now later p q r in
      let first : (log_manager_auto_cleanup disk granted ctx config now).2 ≡ ctx' =
        rw due (rw used (rw on (rw i refl))) in
      (first, rw first (rw early (rw used (rw on (rw i refl)))))
