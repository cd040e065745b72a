-- ===== src/Handler/Leads.antt =====
-- What holds of a part `f` of the server's state after code that changes it: a precondition, and a
-- postcondition that holds however the code ends.
use lemon_server.Common.{◌≡◌, refl, sym, ◌∙◌, Bool, true, false, if◌then◌else◌}
use mathlib.Core.Path.{subst}
use lemon_server.Handler.{
  Scene, Out, done, raised, M, ◌>>=◌, get_world, try_both, try_ics, caught, caught_both,
}
use lemon_server.Protocol.Errors.{otl_exception, std_exception, unexpected}
use lemon_server.Handler.Fixed.{Fixed, end_of}

module _ {W X : Type 0} (f : W → X) where
  abbrev pub Leads : {A : Type 0} → (X → Type 0) → (X → Type 0) → M W A → Type 0
  Leads P Q m = (s : Scene W) → P (f s.world) → Q (f (end_of (m s)))

  pub Leads-Fixed : {A : Type 0} (P : X → Type 0) (m : M W A) → Fixed f m → Leads P P m
  Leads-Fixed P m fixed s h = subst P (sym (fixed s)) h

  then_from :
      {A B : Type 0} (P Q : X → Type 0) (k : A → M W B) (o : Out W A)
      → ((x : X) → P x → Q x)
      → P (f (end_of o))
      → ((a : A) → Leads P Q (k a))
      → Q (f (end_of (elim o as (λ _. Out W B) [ done a s' ↦ k a s' | raised e s' ↦ raised e s' ])))
  then_from P Q k (done a s) weaker h rest = rest a s h
  then_from P Q k (raised e s) weaker h rest = weaker _ h

  pub Leads-bind :
      {A B : Type 0} (P Q : X → Type 0) (m : M W A) (k : A → M W B)
      → ((x : X) → P x → Q x)
      → Leads P P m
      → ((a : A) → Leads P Q (k a))
      → Leads P Q (m >>= k)
  Leads-bind P Q m k weaker first rest s h = then_from P Q k (m s) weaker (first s h) rest

  -- Code that leaves the part alone, and what follows it.
  pub Leads-after :
      {A B : Type 0} (P Q : X → Type 0) (m : M W A) (k : A → M W B)
      → ((x : X) → P x → Q x)
      → Fixed f m
      → ((a : A) → Leads P Q (k a))
      → Leads P Q (m >>= k)
  Leads-after P Q m k weaker fixed rest = Leads-bind P Q m k weaker (Leads-Fixed P m fixed) rest

  pub Leads-get_world :
      {B : Type 0} (P Q : X → Type 0) (k : W → M W B)
      → ((w : W) → P (f w) → Leads P Q (k w))
      → Leads P Q (get_world >>= k)
  Leads-get_world P Q k rest s h = rest s.world h s h

  pub Leads-if :
      {A : Type 0} (P Q : X → Type 0) (b : Bool) (m n : M W A)
      → (b ≡ true → Leads P Q m)
      → (b ≡ false → Leads P Q n)
      → Leads P Q (if b then m else n)
  Leads-if P Q true m n h k = h refl
  Leads-if P Q false m n h k = k refl

  caught_both_from : (o : Out W (Unit {0})) → f (end_of (caught_both o)) ≡ f (end_of o)
  unfolding caught_both
  caught_both_from (done a s) = refl
  caught_both_from (raised std_exception s) = refl
  caught_both_from (raised unexpected s) = refl
  caught_both_from (raised e s) = refl

  caught_from : (o : Out W (Unit {0})) → f (end_of (caught o)) ≡ f (end_of o)
  unfolding caught
  caught_from (done a s) = refl
  caught_from (raised otl_exception s) = refl
  caught_from (raised std_exception s) = refl
  caught_from (raised unexpected s) = refl
  caught_from (raised e s) = refl

  pub Leads-try_both :
      (P Q : X → Type 0) (m : M W (Unit {0})) → Leads P Q m → Leads P Q (try_both m)
  unfolding try_both
  Leads-try_both P Q m h s p = subst Q (sym (caught_both_from (m s))) (h s p)

  pub Fixed-try_ics : (m : M W (Unit {0})) → Fixed f m → Fixed f (try_ics m)
  unfolding try_ics
  Fixed-try_ics m h s = caught_from (m s) ∙ h s
