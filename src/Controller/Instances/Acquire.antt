-- ===== src/Controller/Instances/Acquire.antt =====
-- The books of a plugin when tuned/daemon/controller.py moves devices to one of its instances.
use tuned.Base.{
  String, ◌≡◌, Bool, true, Option, none, some, List, [], ◌∷◌, string_eq, if_intro, arith,
  Option-cases, inl, inr,
}
use tuned.Base.Dict.{lookup, has}
use tuned.Base.Names.{inter, contains-inter, inter-IsNodup, IsNodup, diff-IsNodup}
use tuned.Plugins.Driver.{Driver}
use tuned.Plugins.Devices.Partition.{IsSound}
use tuned.Plugins.Hotplug.{State}
use tuned.Plugins.Hotplug.Moves.{move_devices-IsSound}
use tuned.Controller.Instances.{
  Member, own, foreign, is_nonempty, acquire_step, acquire_all, instance_acquire_devices,
}
use tuned.Base.{subst}

module _ (D : Driver) where
  -- The books stay sound, the target stays, and no device is looked for twice.
  Fine : String → Option (List String × State D) → Type 0
  Fine target none = Unit
  Fine target (some (devs, s)) =
      IsNodup devs × IsSound s.plugin × (has s.plugin.instances target ≡ true)

  acquire_step-Fine :
      (target : String) (m : Member) (devs : List String) (s : State D)
      → IsNodup devs
      → IsSound s.plugin
      → has s.plugin.instances target ≡ true
      → Fine target (acquire_step D target m devs s)
  unfolding acquire_step Fine
  acquire_step-Fine target (foreign plugin processed) devs s u sound there =
      if_intro (Fine target) (is_nonempty (inter devs processed)) _ _ (λ _. tt)
        (λ _. (u, sound, there))
  acquire_step-Fine target (own name) devs s u sound there =
      elim (Option-cases (lookup name s.plugin.instances)) [
        | inl e ↦ rw (acquire_step, e) (u, sound, there)
        | inr (i, e) ↦ elim (Option-cases (lookup target s.plugin.instances)) [
          | inl f ↦ absurd (ground (arith, there, f))
          | inr (j, f) ↦
              let moving = inter devs i.processed_devices in
              rw (acquire_step, e)
                (if_intro (Fine target) (is_nonempty moving) _ _
                  (λ _.
                    let (sound', there') =
                      move_devices-IsSound D name target moving i j s e f
                        (inter-IsNodup devs i.processed_devices u)
                        (λ d h. ground (arith, rw contains-inter at h)) sound in
                    (diff-IsNodup devs moving u, sound', there'))
                  (λ _. (u, sound, there)))
        ]
      ]

  acquire_all-IsSound :
      (target : String) (ms : List Member) (devs : List String) (s : State D)
      → IsNodup devs
      → IsSound s.plugin
      → has s.plugin.instances target ≡ true
      → IsSound (acquire_all D target ms devs s).1.plugin
  unfolding acquire_all Fine
  acquire_all-IsSound target [] devs s u sound there = sound
  acquire_all-IsSound target (m ∷ ms) devs s u sound there =
      elim (Option-cases (acquire_step D target m devs s)) [
        | inl e ↦ rw (acquire_all, e) sound
        | inr ((devs', s'), e) ↦
            let (u', sound', there') =
              subst (Fine target) e (acquire_step-Fine target m devs s u sound there) in
            rw (acquire_all, e) (acquire_all-IsSound target ms devs' s' u' sound' there')
      ]

  -- From sound books, whatever devices an instance is to acquire, each of them asked for once, and
  -- whether it gets them all or not, the books of the plugin stay sound: a device is held by one
  -- instance at most, it is assigned exactly if it is held, and then it is not free.
  pub instance_acquire_devices-IsSound :
      (target : String) (members : List Member) (devs : List String) (s : State D)
      → IsNodup devs
      → IsSound s.plugin
      → IsSound (instance_acquire_devices D target members devs s).1.plugin
  unfolding instance_acquire_devices
  instance_acquire_devices-IsSound target members devs s u sound =
      if_intro {A = Bool × State D} (λ r. IsSound r.1.plugin) (has s.plugin.instances target) _ _
        (λ there. acquire_all-IsSound target members devs s u sound there) (λ _. sound)
