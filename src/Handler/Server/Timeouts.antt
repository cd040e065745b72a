-- ===== src/Handler/Server/Timeouts.antt =====
-- A connection from which nothing comes is given up: how the timer's wheel and `timeout` work together.
pub mod Turns
use lemon_server.Common.{
  ℕ, zero, suc, ◌+◌, ◌*◌, ◌%◌, ◌≤◌, ◌<◌, ◌≡◌, refl, ap, ◌∙◌, false, inl, inr, arith,
}
use lemon_server.Handler.Server.{Server, Node, connection_timeout_handler, second, wheel_count}
use lemon_server.Timer.Wheel.{tick, tick_handlers}
use lemon_server.Handler.Server.Timeouts.Turns.{
  Times, Gone, Live, callbacks-Live, called-Live, callbacks-Gone, second-heartbeat, ready,
  ready-added, later_slot,
}

-- `n` rounds of the timer's loop with nothing else in between.
module _ {W : Type 0} (node : Node W) where
  unfoldable pub seconds : ℕ → Server W → Server W
  unfolding second
  seconds zero s = s
  seconds (suc n) s = seconds n (second node s)

  seconds-add : (m n : ℕ) (s : Server W) → seconds (m + n) s ≡ seconds n (seconds m s)
  unfolding seconds
  seconds-add zero n s = let e : 0 + n ≡ n = omega arith in ap (λ (k : ℕ). seconds k s) e
  seconds-add (suc m) n s =
      let e : suc m + n ≡ suc (m + n) = omega arith in
      ap (λ (k : ℕ). seconds k s) e ∙ seconds-add m n (second node s)

module _ {W : Type 0} (node : Node W) (laws : Times node) (i : ℕ) where
  abbrev ticked : Server W → Server W
  ticked s = record s { timer = tick wheel_count s.timer }

  second-now :
      (c h : ℕ) (s : Server W)
      → node.heartbeat_time s.world ≡ h
      → h < wheel_count
      → Live node laws i c 0 s
      → Live node laws i (suc c) h (second node s)
  unfolding second tick_handlers
  second-now c h s e lt live = turn live
    where
      turn : Live node laws i c 0 s → Live node laws i (suc c) h (second node s)
      turn (inl g) =
          inl (callbacks-Gone node laws i (tick_handlers wheel_count s.timer) (ticked s) g)
      turn (inr (le, r, is_ready)) =
          let here : s.timer.current_point ≡ 0 + s.timer.current_point = omega arith in
          called-Live node laws i c h (s.timer.wheel (s.timer.current_point % wheel_count))
            (ticked s) e lt
            (ap (λ (k : ℕ). ready i (s.timer.wheel (k % wheel_count))) here ∙ is_ready) (inr r)

  second-later :
      (c d : ℕ) (s : Server W)
      → suc d < wheel_count
      → Live node laws i c (suc d) s
      → Live node laws i c d (second node s)
  unfolding second
  second-later c d s lt live =
      callbacks-Live node laws i c d (tick_handlers wheel_count s.timer)
        (record s { timer = tick wheel_count s.timer }) (nearer live)
    where
      nearer :
          Live node laws i c (suc d) s
          → Live node laws i c d (record s { timer = tick wheel_count s.timer })
      nearer (inl h) = inl h
      nearer (inr (le, h, r)) = inr (le, h, ap (ready i) (later_slot d s.timer lt) ∙ r)

  seconds-Live :
      (c d h : ℕ) (s : Server W)
      → node.heartbeat_time s.world ≡ h
      → h < wheel_count
      → d < wheel_count
      → Live node laws i c d s
      → Live node laws i (suc c) h (seconds node (suc d) s)
  unfolding seconds
  seconds-Live c zero h s e lt lt' live = second-now c h s e lt live
  seconds-Live c (suc d) h s e lt lt' live =
      seconds-Live c d h (second node s) (second-heartbeat node laws i s ∙ e) lt (omega arith)
        (second-later c d s lt' live)

  seconds-heartbeat :
      (n : ℕ) (s : Server W)
      → node.heartbeat_time (seconds node n s).world ≡ node.heartbeat_time s.world
  unfolding seconds
  seconds-heartbeat zero s = refl
  seconds-heartbeat (suc n) s = seconds-heartbeat n (second node s) ∙ second-heartbeat node laws i s

  three_not_two : 3 ≤ 2 → ⊥
  three_not_two le = omega arith

  three_turns :
      (h : ℕ) (s : Server W)
      → node.heartbeat_time s.world ≡ h
      → h < wheel_count
      → Live node laws i 0 h s
      → Gone node laws i (seconds node (suc h) (seconds node (suc h) (seconds node (suc h) s)))
  three_turns h s e lt live =
      over (turn 2 _ (again _ (again s e)) (turn 1 _ (again s e) (turn 0 s e live)))
    where
      again :
          (t : Server W)
          → node.heartbeat_time t.world ≡ h
          → node.heartbeat_time (seconds node (suc h) t).world ≡ h
      again t e' = seconds-heartbeat (suc h) t ∙ e'

      turn :
          (c : ℕ) (t : Server W)
          → node.heartbeat_time t.world ≡ h
          → Live node laws i c h t
          → Live node laws i (suc c) h (seconds node (suc h) t)
      turn c t e' l = seconds-Live c h h t e' lt lt l

      over :
          Live node laws i 3 h
            (seconds node (suc h) (seconds node (suc h) (seconds node (suc h) s)))
          → Gone node laws i (seconds node (suc h) (seconds node (suc h) (seconds node (suc h) s)))
      over (inl g) = g
      over (inr (le, _, _)) = absurd (three_not_two le)

  registered-heartbeat :
      (s : Server W)
      → node.heartbeat_time (connection_timeout_handler node i s).world
        ≡ node.heartbeat_time s.world
  unfolding connection_timeout_handler
  registered-heartbeat s = refl

  registered-Live :
      (s : Server W)
      → node.heartbeat_time s.world < wheel_count
      → Live node laws i 0 (node.heartbeat_time s.world) (connection_timeout_handler node i s)
  unfolding connection_timeout_handler
  registered-Live s lt =
      inr (omega arith, omega arith, ready-added i (node.heartbeat_time s.world) s.timer lt)

  -- A connection whose handler was just registered.
  pub registered_ends :
      (s : Server W)
      → node.heartbeat_time s.world < wheel_count
      → node.is_valid i
          (seconds node
            (3 * suc (node.heartbeat_time s.world))
            (connection_timeout_handler node i s)).world
        ≡ false
  registered_ends s lt =
      let h = node.heartbeat_time s.world in
      let t : Server W = connection_timeout_handler node i s in
      let three : 3 * suc h ≡ suc h + (suc h + suc h) = omega arith in
      ap (λ (k : ℕ). node.is_valid i (seconds node k t).world) three
      ∙ ap (λ (u : Server W). node.is_valid i u.world)
          (seconds-add node (suc h) (suc h + suc h) t ∙ seconds-add node (suc h) (suc h) _)
      ∙ three_turns h t (registered-heartbeat s) lt (registered-Live s lt)
