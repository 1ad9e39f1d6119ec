-- ===== src/Controller/Instances/Destroy.antt =====
-- The books of a plugin when tuned/daemon/controller.py destroys one of its instances.
use tuned.Base.{
  String, ◌≡◌, refl, ◌∙◌, true, false, some, List, [], ◌∷◌, arith, contains, string_eq, ◌==◌,
  Bool-cases, Option-cases, inl, inr,
}
use tuned.Base.Dict.{lookup, has}
use tuned.Plugins.Instance.{Instance}
use tuned.Plugins.Driver.{Driver}
use tuned.Plugins.Devices.{Matching, destroy_instance}
use tuned.Plugins.Devices.Partition.{IsSound}
use tuned.Plugins.Devices.Registry.{destroy_instance-IsSound}
use tuned.Plugins.Hotplug.{State, add_device, remove_devices_nocheck}
use tuned.Plugins.Hotplug.Books.{known, add_device-IsSound}
use tuned.Plugins.Hotplug.Kept.{remove_devices_nocheck-Keeps, add_device_keeps}
use tuned.Controller.Instances.{Member, add_each, unapply_held, instance_destroy}
use tuned.Base.{subst}
use tuned.Base.{ap}

module _ (D : Driver) (matching : Matching) where
  -- After devices were added one by one
  record Added (ds : List String) (s s' : State D) : Type 0 where
    sound : IsSound s'.plugin
    names : (k : String) → has s'.plugin.instances k ≡ has s.plugin.instances k
    still : (d : String) → known d s.plugin ≡ true → known d s'.plugin ≡ true
    now : (d : String) → contains ds d ≡ true → known d s'.plugin ≡ true

  add_each-Added :
      (ds : List String) (s : State D) → IsSound s.plugin → Added ds s (add_each D matching ds s)
  unfolding add_each
  add_each-Added [] s sound = record {
    sound = sound;
    names = λ k. refl;
    still = λ d h. h;
    now = λ d h. absurd (ground (arith, h));
  }
  add_each-Added (device ∷ ds) s sound =
      let (sound', here) = add_device-IsSound D matching device s sound in
      let (names, still) = add_device_keeps D matching device s sound in
      let rest = add_each-Added ds (add_device D matching device s) sound' in
      record {
        sound = rest.sound;
        names = λ k. rest.names k ∙ names k;
        still = λ d h. rest.still d (still d h);
        now = λ d h. elim (Bool-cases (d == device)) [
          | inl e ↦ rest.still d (
              subst (λ x. known x (add_device D matching device s).plugin ≡ true)
                (ground (arith, e)) here)
          | inr n ↦ rest.now d (ground (arith, h, n))
        ];
      }

  -- The removal of the tuning leaves the books alone.
  plugin-unapply_held :
      (name : String) (s : State D) → (unapply_held D matching name s).plugin ≡ s.plugin
  unfolding unapply_held
  plugin-unapply_held name s = elim (Option-cases (lookup name s.plugin.instances)) [
    | inl e ↦ rw (unapply_held, e) refl
    | inr (i, e) ↦ rw (unapply_held, e) refl
  ]

  -- From sound books of a plugin that supports devices, the call that destroys one of its instances
  -- succeeds. Then no instance has the name, the books are sound, and no device that the instance
  -- had tuned is lost: each is assigned or free afterwards.
  pub instance_destroy-IsSound :
      (name : String) (i : Instance) (members : List Member) (s : State D)
      → s.plugin.devices_supported ≡ true
      → lookup name s.plugin.instances ≡ some i
      → IsSound s.plugin
      → let (ok, members', s') = instance_destroy D matching name members s in
        (ok ≡ true)
        × IsSound s'.plugin
        × (has s'.plugin.instances name ≡ false)
        × ((d : String) → contains i.processed_devices d ≡ true → known d s'.plugin ≡ true)
  unfolding instance_destroy
  instance_destroy-IsSound name i members s supported here sound =
      let s0 = remove_devices_nocheck D name i.processed_devices s in
      let kept = remove_devices_nocheck-Keeps D name i.processed_devices s sound in
      let same = plugin-unapply_held name s0 in
      elim (Option-cases (lookup name s0.plugin.instances)) [
        | inl e ↦ absurd (ground (arith, kept.names name, here, e))
        | inr (j, e) ↦
            let (p, done, sound', names, freed) =
              destroy_instance-IsSound s0.plugin kept.sound name j (kept.supported ∙ supported) e in
            let s1 = unapply_held D matching name s0 in
            let done' : destroy_instance name s1.plugin ≡ some p =
              ap (destroy_instance name) same ∙ done in
            let end = add_each-Added i.processed_devices (record s1 { plugin = p }) sound' in
            rw (instance_destroy, here, done')
              (refl, end.sound, end.names name ∙ ground (arith, names name), end.now)
      ]
