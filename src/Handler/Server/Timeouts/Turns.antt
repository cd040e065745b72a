-- ===== src/Handler/Server/Timeouts/Turns.antt =====
-- What one round of the timer's loop does to a connection whose handler is registered: the handler
-- gives it its turn and is registered again.
use mathlib.Core.Path.{subst}
use lemon_server.Common.{
  ℕ, suc, ◌+◌, ◌%◌, ◌≤◌, ◌<◌, ◌≡◌, ◌⊎◌, refl, sym, ap, ◌∙◌, Bool, true, false, ◌&&◌, List, [], ◌∷◌,
  inl, inr, arith, leb, ◌==◌, ==_iff, Bool-cases, if◌then◌else◌,
}
use lemon_server.Handler.Server.{
  Server, Node, connection_timeout_handler, timeout_callback, callbacks, second, wheel_count,
}
use lemon_server.Timer.Wheel.{TimingWheel, TimeWork, add, task_add, tick, tick_handlers, called}

-- What `timeout` promises of validity and of a count of turns.
pub record Times {W : Type 0} (node : Node W) : Type 0 where
  pub count : ℕ → W → ℕ
  pub gone :
      (i j : ℕ) (w : W) → node.is_valid i w ≡ false → node.is_valid i (node.timeout j w) ≡ false
  pub kept : (i j : ℕ) (w : W) → count i w ≤ count i (node.timeout j w)
  pub counted :
      (i : ℕ) (w : W)
      → node.is_valid i (node.timeout i w) ≡ true
      → (suc (count i w) ≤ count i (node.timeout i w)) × (suc (count i w) ≤ 2)
  pub heartbeat : (j : ℕ) (w : W) → node.heartbeat_time (node.timeout j w) ≡ node.heartbeat_time w

-- Whether a slot has a handler for the connection that is called in the slot's next turn.
pub ready : ℕ → List (TimeWork ℕ) → Bool
ready i [] = false
ready i (t ∷ ts) = let rest = ready i ts in if t.handler == i && leb t.count 1 then true else rest

-- The slot that the wheel works off in `d` ticks.
abbrev pub ahead : ℕ → TimingWheel ℕ → List (TimeWork ℕ)
ahead d t = t.wheel ((d + t.current_point) % wheel_count)

ready-add :
    (i j k interval : ℕ) (t : TimingWheel ℕ)
    → ready i (t.wheel k) ≡ true
    → ready i ((add wheel_count interval j t).wheel k) ≡ true
unfolding add task_add ready
ready-add i j k interval t h = ground arith

pub ready-added :
    (i interval : ℕ) (t : TimingWheel ℕ)
    → interval < wheel_count
    → ready i (ahead interval (add wheel_count interval i t)) ≡ true
unfolding add task_add ready
ready-added i interval t h = ground arith

pub later_slot :
    (d : ℕ) (t : TimingWheel ℕ)
    → suc d < wheel_count
    → ahead d (tick wheel_count t) ≡ ahead (suc d) t
unfolding tick
later_slot d t h = ground arith

module _ {W : Type 0} (node : Node W) (laws : Times node) (i : ℕ) where
  abbrev pub Gone : Server W → Type 0
  Gone s = node.is_valid i s.world ≡ false

  -- The connection is gone, or has been given at least `c` turns, of at most 2.
  abbrev pub Reached : ℕ → Server W → Type 0
  Reached c s = Gone s ⊎ (c ≤ laws.count i s.world)

  -- ... and has its handler `d` ticks ahead.
  abbrev pub Live : ℕ → ℕ → Server W → Type 0
  Live c d s = Gone s ⊎ ((c ≤ 2) × (c ≤ laws.count i s.world) × (ready i (ahead d s.timer) ≡ true))

  callback_world :
      (j : ℕ) (s : Server W) → (timeout_callback node j s).world ≡ node.timeout j s.world
  unfolding timeout_callback connection_timeout_handler
  callback_world j s = elim (Bool-cases (node.is_valid j (node.timeout j s.world))) [
    | inl valid ↦ rw valid refl
    | inr gone ↦ rw gone refl
  ]

  callback-ready :
      (j d : ℕ) (s : Server W)
      → ready i (ahead d s.timer) ≡ true
      → ready i (ahead d (timeout_callback node j s).timer) ≡ true
  unfolding timeout_callback connection_timeout_handler add task_add
  callback-ready j d s h = elim (Bool-cases (node.is_valid j (node.timeout j s.world))) [
    | inl valid ↦ rw valid (
        ready-add i j ((d + s.timer.current_point) % wheel_count)
          (node.heartbeat_time (node.timeout j s.world)) s.timer h)
    | inr gone ↦ rw gone h
  ]

  callback-heartbeat :
      (j : ℕ) (s : Server W)
      → node.heartbeat_time (timeout_callback node j s).world ≡ node.heartbeat_time s.world
  callback-heartbeat j s = ap node.heartbeat_time (callback_world j s) ∙ laws.heartbeat j s.world

  callback-Gone : (j : ℕ) (s : Server W) → Gone s → Gone (timeout_callback node j s)
  callback-Gone j s h = ap (node.is_valid i) (callback_world j s) ∙ laws.gone i j s.world h

  callback-count :
      (j c : ℕ) (s : Server W)
      → c ≤ laws.count i s.world
      → c ≤ laws.count i (timeout_callback node j s).world
  callback-count j c s h =
      omega (arith, laws.kept i j s.world, ap (laws.count i) (callback_world j s))

  callback-Reached : (c j : ℕ) (s : Server W) → Reached c s → Reached c (timeout_callback node j s)
  callback-Reached c j s (inl h) = inl (callback-Gone j s h)
  callback-Reached c j s (inr h) = inr (callback-count j c s h)

  callback-Live : (c d j : ℕ) (s : Server W) → Live c d s → Live c d (timeout_callback node j s)
  callback-Live c d j s (inl h) = inl (callback-Gone j s h)
  callback-Live c d j s (inr (le, h, r)) = inr (le, callback-count j c s h, callback-ready j d s r)

  -- The connection's own handler counts the turn, and registers itself again.
  callback_self :
      (c : ℕ) (s : Server W)
      → node.heartbeat_time s.world < wheel_count
      → Reached c s
      → Live (suc c) (node.heartbeat_time s.world) (timeout_callback node i s)
  callback_self c s h (inl r) = inl (callback-Gone i s r)
  callback_self c s h (inr r) = elim (Bool-cases (node.is_valid i (node.timeout i s.world))) [
    | inl valid ↦ inr (
      omega (arith, laws.counted i s.world valid),
      omega (arith, laws.counted i s.world valid, ap (laws.count i) (callback_world i s)),
      (unfold timeout_callback connection_timeout_handler in
          rw valid (
            subst
              (λ t.
                ready i (
                  ahead t
                    (add wheel_count (node.heartbeat_time (node.timeout i s.world)) i s.timer))
                ≡ true)
              (laws.heartbeat i s.world)
              (ready-added i (node.heartbeat_time (node.timeout i s.world)) s.timer
                (omega (arith, laws.heartbeat i s.world))))),
    )
    | inr gone ↦ inl (ap (node.is_valid i) (callback_world i s) ∙ gone)
  ]

  callbacks-heartbeat :
      (js : List ℕ) (s : Server W)
      → node.heartbeat_time (callbacks node js s).world ≡ node.heartbeat_time s.world
  unfolding callbacks
  callbacks-heartbeat [] s = refl
  callbacks-heartbeat (j ∷ js) s =
      callbacks-heartbeat js (timeout_callback node j s) ∙ callback-heartbeat j s

  pub second-heartbeat :
      (s : Server W) → node.heartbeat_time (second node s).world ≡ node.heartbeat_time s.world
  unfolding second
  second-heartbeat s =
      callbacks-heartbeat (tick_handlers wheel_count s.timer)
        (record s { timer = tick wheel_count s.timer })

  pub callbacks-Live :
      (c d : ℕ) (js : List ℕ) (s : Server W) → Live c d s → Live c d (callbacks node js s)
  unfolding callbacks
  callbacks-Live c d [] s h = h
  callbacks-Live c d (j ∷ js) s h =
      callbacks-Live c d js (timeout_callback node j s) (callback-Live c d j s h)

  -- A slot that has the handler ready gives the connection its turn.
  pub called-Live :
      (c h : ℕ) (ts : List (TimeWork ℕ)) (s : Server W)
      → node.heartbeat_time s.world ≡ h
      → h < wheel_count
      → ready i ts ≡ true
      → Reached c s
      → Live (suc c) h (callbacks node (called wheel_count ts) s)
  unfolding callbacks called ready
  called-Live c h [] s e lt is_ready r = ground arith
  called-Live c h (t ∷ ts) s e lt is_ready r = elim (Bool-cases (leb t.count 1)) [
    | inl now ↦ elim (Bool-cases (t.handler == i)) [
      | inl own ↦ rw now (
          callbacks-Live (suc c) h (called wheel_count ts) (timeout_callback node t.handler s)
            (own_turn t.handler s e lt ((==_iff t.handler i).0 own) r))
      | inr other ↦ rw now (
          called-Live c h ts (timeout_callback node t.handler s)
            (callback-heartbeat t.handler s ∙ e) lt (ground arith)
            (callback-Reached c t.handler s r))
    ]
    | inr later ↦ rw later (called-Live c h ts s e lt (ground arith) r)
  ]
    where
      own_turn :
          (j : ℕ) (s : Server W)
          → node.heartbeat_time s.world ≡ h
          → h < wheel_count
          → j ≡ i
          → Reached c s
          → Live (suc c) h (timeout_callback node j s)
      own_turn j s e lt same r =
          subst (λ k. Live (suc c) h (timeout_callback node k s)) (sym same)
            (subst (λ k. Live (suc c) k (timeout_callback node i s)) e
              (callback_self c s (omega arith) r))

  pub callbacks-Gone : (js : List ℕ) (s : Server W) → Gone s → Gone (callbacks node js s)
  unfolding callbacks
  callbacks-Gone [] s g = g
  callbacks-Gone (j ∷ js) s g = callbacks-Gone js (timeout_callback node j s) (callback-Gone j s g)
