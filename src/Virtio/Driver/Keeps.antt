-- ===== src/Virtio/Driver/Keeps.antt =====
-- The parts of `add_chain` that write the region leave the driver's free list and map alone.
use systems_study.Prelude.{ℕ, ◌≡◌, refl, arith, ◌∙◌, Bool, List, [], ◌∷◌}
use systems_study.Prelude.Result.{Result, ok, err, bind_result}
use systems_study.Virtio.Driver.{Buffer, World}
use systems_study.Virtio.Driver.Send.{
  is_last, Fault, Action, write_descriptors, publish, write_descriptor,
}

-- The pool of descriptors is the same.
abbrev pub SamePool : World → World → Type 0
SamePool w w' =
    (w'.drv.free_descs ≡ w.drv.free_descs)
    × (w'.drv.outstanding ≡ w.drv.outstanding)
    × (w'.drv.layout ≡ w.drv.layout)

write_descriptor-SamePool :
    (i : ℕ) (is : List ℕ) (b : Buffer) (last : Bool) (w : World)
    → SamePool w (write_descriptor i is b last w).1
unfolding write_descriptor
write_descriptor-SamePool i is b last w = ground arith

pub SamePool-result :
    {A B : Type 0} (w : World) (r : Result Fault A × World) (m : Action B)
    → SamePool w r.1
    → ((w' : World) → SamePool w' (m w').1)
    → SamePool w (bind_result r (λ _. m)).1
SamePool-result w (ok a, w') m h k = let t = k w' in (t.0 ∙ h.0, t.1 ∙ h.1, t.2 ∙ h.2)
SamePool-result w (err e, w') m h k = h

pub write_descriptors-SamePool :
    (is : List ℕ) (bs : List Buffer) (w : World) → SamePool w (write_descriptors is bs w).1
unfolding write_descriptors
write_descriptors-SamePool is [] w = (refl, refl, refl)
write_descriptors-SamePool [] (b ∷ bs) w = (refl, refl, refl)
write_descriptors-SamePool (i ∷ is) (b ∷ bs) w =
    SamePool-result w (write_descriptor i is b (is_last bs) w) (write_descriptors is bs)
      (write_descriptor-SamePool i is b (is_last bs) w) (write_descriptors-SamePool is bs)

pub publish-SamePool : (head : ℕ) (w : World) → SamePool w (publish head w).1
unfolding publish
publish-SamePool head w = ground arith
