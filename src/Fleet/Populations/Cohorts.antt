-- ===== src/Fleet/Populations/Cohorts.antt =====
-- The cohorts of a wave: which devices count, and which a change can touch.
use sextant.Common.{
  ◌==◌, any, contains, Map, contains-sort, contains-keep, String, ◌≡◌, refl, not, ◌&&◌, [], ◌∷◌,
  arith, ℕ_Testable, String_Testable,
}
use sextant.Common.{contains-keep, contains-sort}
use sextant.Fleet.Model.{Fleet, Device, Group, device_at, is_retired, is_provisional}
use sextant.Fleet.Populations.{
  tags_in, group_devices, active_group_devices, converging_group_devices, hosts_under, is_under,
}

module _ {A : Type 0} where
  contains-tags_in :
      (devices : Map (Device A)) (group t : String)
      → contains (tags_in devices group) t
        ≡ any (λ e. e.0 == t && contains e.1.groups group) devices
  unfolding tags_in
  contains-tags_in [] group t = refl
  contains-tags_in ((tag, d) ∷ devices) group t = ground (arith, contains-tags_in devices group t)

  -- A device counts towards the convergence of a group exactly when it is listed in the group, is
  -- not retired and has reported at least once.
  pub contains-converging_group_devices :
      (f : Fleet A) (group t : String)
      → contains (converging_group_devices f group) t ≡ (
          any (λ e. e.0 == t && contains e.1.groups group) f.devices
          && not (is_retired (device_at f t))
          && not (is_provisional (device_at f t)))
  unfolding converging_group_devices active_group_devices group_devices
  contains-converging_group_devices f group t =
      rw
        (contains-keep (λ tag. not (is_provisional (device_at f tag)))
          (active_group_devices f group) t)
        (rw
          (
            contains-keep (λ tag. not (is_retired (device_at f tag))) (group_devices f group) t,
            contains-sort (tags_in f.devices group) t,
            contains-tags_in f.devices group t,
          )
          refl)

  contains-hosts_under :
      (groups : Map (Group A)) (devices : Map (Device A)) (g t : String)
      → contains (hosts_under groups devices g) t
        ≡ any (λ e. e.0 == t && not (is_retired e.1) && is_under groups g e.1.groups) devices
  unfolding hosts_under
  contains-hosts_under groups [] g t = refl
  contains-hosts_under groups ((tag, d) ∷ devices) g t =
      ground (arith, contains-hosts_under groups devices g t)
