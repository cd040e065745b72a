-- ===== src/Center/Routing/Changes.antt =====
-- The changes of a route, and what must hold of it.
use lemon_server.Common.{
  ℕ, ◌<◌, ◌≡◌, ◌≢◌, refl, sym, ap, ◌∙◌, true, false, [], ◌∷◌, Option, none, some, ==_iff,
  if◌then◌else◌, arith, Bool-cases, inl, inr,
}
use mathlib.Core.Path.{subst}
use lemon_server.Common.Bytes.{Bytes, is_empty, same, same_iff}
use lemon_server.Common.Maps.{find-insert, find-erase}
use lemon_server.Center.Routing.{
  Core, Route, Routed, Session, Claim, Unlisted, set_core, closed, erased, retired_if, entered,
  added,
}
use lemon_server.Center.World.{Role, terminal_client, find}

-- Routes with the same content are the same.
pub Route-ext :
    {r s : Route} → ((j : ℕ) → r.core j ≡ s.core j) → r.count ≡ s.count → r.table ≡ s.table → r ≡ s
Route-ext c n t = λ i. record { core = λ j. c j i; count = n i; table = t i }

-- A terminal's connection that an entry leads to has a gateway id.
pub listed-known :
    (g : Bytes) (i : ℕ) (r : Route)
    → Routed r
    → find g r.table ≡ some i
    → (r.core i).role ≡ terminal_client
    → is_empty (r.core i).gwid ≡ false
listed-known [] i r h e t = ground (arith, h.named)
listed-known (b ∷ bs) i r h e t = ap is_empty ((h.owned (b ∷ bs) i e t).1)

pub closed-Routed : (i : ℕ) (r : Route) → Routed r → Unlisted i r → Routed (closed i r)
closed-Routed i r h free = record {
  named = h.named;
  objects = h.objects;
  alive = λ j v. ground (arith, h.alive j, ==_iff i j);
  owned = λ g j e t. ground (arith, h.owned g j e, free g, ==_iff i j);
}

pub erased-Routed : (i : ℕ) (r : Route) → Routed r → (r.core i).gwid ≢ [] → Routed (erased i r)
erased-Routed i r h known = record {
  named = ground (arith, find-erase (r.core i).gwid [] r.table, h.named);
  objects = λ g j e. ground (arith, find-erase (r.core i).gwid g r.table, h.objects g j);
  alive = λ j v. ground (arith, h.alive j, ==_iff i j);
  owned = λ g j e t. ground (
    arith,
    find-erase (r.core i).gwid g r.table,
    same_iff (r.core i).gwid g,
    h.owned g j,
    ==_iff i j,
  );
}

module _ (g : Bytes) (conn : ℕ) (r : Route) (h : Routed r) where
  -- The core of an object that makes place, if there is one, and whether it is in use still.
  retired-count : (o : Option ℕ) → (retired_if o r).count ≡ r.count
  retired-count none = refl
  retired-count (some old) = refl

  retired-role : (o : Option ℕ) (i : ℕ) → ((retired_if o r).core i).role ≡ (r.core i).role
  retired-role none i = refl
  retired-role (some old) i = ground (arith, ==_iff old i)

  retired-alive :
      (o : Option ℕ) (i : ℕ)
      → ((retired_if o r).core i).valid ≡ true
      → ((retired_if o r).core i).replaced ≡ false
  retired-alive none i v = h.alive i v
  retired-alive (some old) i v = ground (arith, h.alive i, ==_iff old i)

  abbrev Owns : Route → Bytes → ℕ → Type 0
  Owns s j i = ((s.core i).valid ≡ true) × ((s.core i).gwid ≡ j)

  -- An object that an entry of another id leads to stays as it is.
  retired-owned :
      (o : Option ℕ) (j : Bytes) (i : ℕ)
      → find g r.table ≡ o
      → j ≢ g
      → (r.core i).role ≡ terminal_client
      → find j r.table ≡ some i
      → Owns (retired_if o r) j i
  retired-owned none j i e other t f = h.owned j i f t
  retired-owned (some old) j i e other t f =
      ground (arith, h.owned j i f t, h.owned g i, ==_iff old i)

  -- So does the new one.
  retired-conn :
      (o : Option ℕ)
      → find g r.table ≡ o
      → Unlisted conn r
      → (r.core conn).role ≡ terminal_client
      → Owns r g conn
      → Owns (retired_if o r) g conn
  retired-conn none e free t own = own
  retired-conn (some old) e free t own = ground (arith, own, free g, ==_iff old conn)

  -- A new entry, for an object that had none.
  pub entered-Routed :
      g ≢ []
      → conn < r.count
      → Unlisted conn r
      → ((r.core conn).role ≡ terminal_client → Owns r g conn)
      → Routed (entered g conn r)
  entered-Routed known lt free own = record {
    named = ground (arith, find-insert g [] conn r.table, same_iff g [], h.named);
    objects = λ j i e.
        ground (arith, find-insert g j conn r.table, h.objects j i, retired-count (find g r.table));
    alive = retired-alive (find g r.table);
    owned = λ j i e t.
        entry j i (sym (find-insert g j conn r.table) ∙ e)
          (sym (retired-role (find g r.table) i) ∙ t);
  }
    where
      entry :
          (j : Bytes) (i : ℕ)
          → (if same g j then some conn else find j r.table) ≡ some i
          → (r.core i).role ≡ terminal_client
          → Owns (retired_if (find g r.table) r) j i
      entry j i e t = elim (Bool-cases (same g j)) [
        | inl own_id ↦
            let key : g ≡ j = (same_iff g j).0 own_id in
            let this : conn ≡ i = ground (arith, e, own_id) in
            let conn_role : (r.core conn).role ≡ terminal_client =
              ap (λ (k : ℕ). (r.core k).role) this ∙ t in
            let kept = retired-conn (find g r.table) refl free conn_role (own conn_role) in
            subst (λ (k : Bytes). Owns (retired_if (find g r.table) r) k i) key
              (subst (Owns (retired_if (find g r.table) r) g) this kept)
        | inr other ↦
            retired-owned (find g r.table) j i refl
              (λ same_id. ground (arith, same_iff g j, other, same_id)) t (ground (arith, e, other))
      ]

abbrev pub named : Bytes → ℕ → Route → Route
named g i r = set_core i (record (r.core i) { gwid = g }) r

-- An object without an entry takes an id.
pub named-Claim :
    (g : Bytes) (role : Role) (self : ℕ) (r : Route)
    → Session role self r
    → Unlisted self r
    → Claim g role self (named g self r)
named-Claim g role self r h free = record {
  session = record {
    routed = record {
      named = h.routed.named;
      objects = h.routed.objects;
      alive = λ i v. ground (arith, h.routed.alive i, ==_iff self i);
      owned = λ j i e t. ground (arith, h.routed.owned j i e, free j, ==_iff self i);
    };
    object = h.object;
    class = ground (arith, h.class, ==_iff self self);
    valid = λ t. ground (arith, h.valid t, ==_iff self self);
  };
  mine = ground (arith, ==_iff self self);
  free = λ j e t. free j e (ground (arith, t, ==_iff self self));
}

-- An object without a gateway id has no entry.
pub unnamed-Unlisted :
    (i : ℕ) (r : Route) → Routed r → is_empty (r.core i).gwid ≡ true → Unlisted i r
unnamed-Unlisted i r h none_known g e t = ground (arith, none_known, listed-known g i r h e t)

-- The id that was taken is entered.
pub entered-Session :
    (g : Bytes) (role : Role) (self : ℕ) (r : Route)
    → Claim g role self r
    → g ≢ []
    → Session role self (entered g self r)
entered-Session g role self r h known = record {
  routed = entered-Routed g self r h.session.routed known h.session.object h.free own;
  object =
      omega (arith, retired-count g self r h.session.routed (find g r.table), h.session.object);
  class = retired-role g self r h.session.routed (find g r.table) self ∙ h.session.class;
  valid = λ t.
      (retired-conn g self r h.session.routed (find g r.table) refl h.free (h.session.class ∙ t)
        (own (h.session.class ∙ t))).0;
}
  where
    own :
        (r.core self).role ≡ terminal_client
        → ((r.core self).valid ≡ true) × ((r.core self).gwid ≡ g)
    own t = (h.session.valid (sym h.session.class ∙ t), h.mine)

pub added-Routed : (c : Core) (r : Route) → Routed r → c.replaced ≡ false → Routed (added c r)
added-Routed c r h new = record {
  named = h.named;
  objects = λ g i e. omega (arith, h.objects g i e);
  alive = λ i v. ground (arith, new, h.alive i, ==_iff r.count i);
  owned = λ g i e t. ground (arith, h.objects g i e, h.owned g i e, ==_iff r.count i);
}

pub added-Session :
    (c : Core) (role : Role) (self : ℕ) (r : Route)
    → Session role self r
    → c.replaced ≡ false
    → Session role self (added c r)
added-Session c role self r h new = record {
  routed = added-Routed c r h.routed new;
  object = omega (arith, h.object);
  class = ground (arith, h.class, h.object, ==_iff r.count self);
  valid = λ t. ground (arith, h.valid t, h.object, ==_iff r.count self);
}
