-- ===== src/Proxy/Center/Reply/Sent.antt =====
-- src/proxy/icsproxyserver.cpp, `handleForwardToTermianl` for a terminal that the proxy server does not
-- have.
use lemon_server.Common.{
  ℕ, ◌+◌, ◌≤◌, ◌<◌, ◌≡◌, ◌≢◌, refl, ◌∙◌, ap, Bool, true, false, [], ◌∷◌, Option, none, length,
  arith, All, ltb, ◌&&◌, ◌==◌, if◌then◌else◌,
}
use lemon_server.Common.Bytes.{Bytes, le_bytes}
use lemon_server.Handler.Steps.{
  bind_done, read_ok, read_string_ok, write_ok, write_string_ok, wrote,
}
use lemon_server.Protocol.Errors.{ok}
use lemon_server.Protocol.MessageId.{code, c2c_forward_response_0x4005, c2t_upgrade_request_0x0201}
use lemon_server.Protocol.Stream.{Reader, get_number, get_string, init_request}
use lemon_server.Protocol.Stream.Room.{short}
use lemon_server.Proxy.Center.{handle_forward_to_termianl, forward_to, failure, no_terminal_text}
use lemon_server.Proxy.Monad.{
  M, Scene, done, ◌>>=◌, ◌>>◌, read, read_string, respond, write, write_string, get_world, skip,
  request_skip_string,
}
use lemon_server.Proxy.Registry.{find_terminal_client}
use lemon_server.Proxy.World.{Env}
use lemon_server.Center.World.{find}

-- A test for texts without NUL bytes.
no_nul : Bytes → Bool
no_nul [] = true
no_nul (b ∷ bs) = ltb 0 b && no_nul bs

no_nul-All : (bs : Bytes) → no_nul bs ≡ true → All (λ c. 0 < c) bs
unfolding no_nul
no_nul-All [] h = tt
no_nul-All (b ∷ bs) h = (ground arith, no_nul-All bs (ground arith))

-- The scene with the three fields of the request in the answer.
abbrev pub begun : Bytes → ℕ → ℕ → Scene → Scene
begun gwid mid rid s = wrote (le_bytes 4 rid) 4 (
    wrote (le_bytes 2 mid) 2 (
      wrote (short gwid) (length gwid + 1) (record s {
        response = record (s.response) {
          head = init_request (code c2c_forward_response_0x4005) false s.response.head;
        };
      })))

abbrev pub failed : Bytes → Scene → Scene
failed reason s = wrote (short reason) (length reason + 1) (wrote (le_bytes 1 1) 1 s)

failure_ok :
    (env : Env) (self : ℕ) (reason : Bytes) (s : Scene)
    → All (λ c. 0 < c) reason
    → length reason + 2 ≤ s.response.room
    → failure env self reason s ≡ done tt (failed reason s)
unfolding failure
failure_ok env self reason s nonzero room =
    bind_done (write 1 1) _ s tt (write_ok 1 1 s (omega arith))
    ∙ write_string_ok reason (wrote (le_bytes 1 1) 1 s) nonzero (omega arith)

if_false : (b : Bool) (m n : M (Unit {0})) (s : Scene) → b ≡ false → (if b then m else n) s ≡ n s
if_false b m n s e = rw e refl

module _ (env : Env) (self : ℕ) where
  answer : Bytes → ℕ → ℕ → M (Unit {0})
  answer gwid mid rid = do
    respond (code c2c_forward_response_0x4005)
    write_string gwid
    write 2 mid
    write 4 rid
    w ← get_world
    forward_to env self (find gwid w.terminal_conn_map)

  answer_ok :
      (s : Scene) (gwid : Bytes) (mid rid : ℕ)
      → find gwid s.world.terminal_conn_map ≡ none
      → All (λ c. 0 < c) gwid
      → length gwid + 32 ≤ s.response.room
      → answer gwid mid rid s ≡ done tt (failed no_terminal_text (begun gwid mid rid s))
  unfolding answer respond forward_to
  answer_ok s gwid mid rid missing nonzero room =
      bind_done (write_string gwid) _ headed tt (write_string_ok gwid headed nonzero (omega arith))
      ∙ bind_done (write 2 mid) _ named tt (write_ok 2 mid named (omega arith))
      ∙ bind_done (write 4 rid) (λ _. ending) numbered tt (write_ok 4 rid numbered (omega arith))
      ∙ ap (λ (o : Option ℕ). forward_to env self o (begun gwid mid rid s)) missing
      ∙ failure_ok env self no_terminal_text (begun gwid mid rid s)
          (no_nul-All no_terminal_text (unfold no_nul in refl)) (omega arith)
    where
      headed : Scene
      headed = record s {
        response = record (s.response) {
          head = init_request (code c2c_forward_response_0x4005) false s.response.head;
        };
      }

      named : Scene
      named = wrote (short gwid) (length gwid + 1) headed

      numbered : Scene
      numbered = wrote (le_bytes 2 mid) 2 named

      ending : M (Unit {0})
      ending = do w ← get_world; forward_to env self (find gwid w.terminal_conn_map)

  pub answered :
      (s : Scene) (gwid : Bytes) (mid rid : ℕ) (r1 r2 r3 : Reader)
      → get_string 1 s.request ≡ ok (gwid, r1)
      → get_number 2 r1 ≡ ok (mid, r2)
      → mid ≢ code c2t_upgrade_request_0x0201
      → get_number 4 r2 ≡ ok (rid, r3)
      → find gwid s.world.terminal_conn_map ≡ none
      → All (λ c. 0 < c) gwid
      → length gwid + 32 ≤ s.response.room
      → handle_forward_to_termianl env self s
        ≡ done tt (failed no_terminal_text (begun gwid mid rid (record s { request = r3 })))
  unfolding handle_forward_to_termianl respond find_terminal_client forward_to answer
  answered s gwid mid rid r1 r2 r3 e1 e2 other e3 missing nonzero room =
      bind_done read_string _ s gwid (read_string_ok s gwid r1 e1)
      ∙ bind_done (read 2) from_id (record s { request = r1 }) mid
          (read_ok 2 (record s { request = r1 }) mid r2 e2)
      ∙ bind_done (if mid == code c2t_upgrade_request_0x0201 then request_skip_string else skip)
          (λ _. read 4 >>= answer gwid mid) (record s { request = r2 }) tt
          (if_false (mid == code c2t_upgrade_request_0x0201) request_skip_string skip
            (record s { request = r2 }) (ground arith))
      ∙ bind_done (read 4) (answer gwid mid) (record s { request = r2 }) rid
          (read_ok 4 (record s { request = r2 }) rid r3 e3)
      ∙ answer_ok (record s { request = r3 }) gwid mid rid missing nonzero room
    where
      from_id : ℕ → M (Unit {0})
      from_id mid = do
        (if mid == code c2t_upgrade_request_0x0201 then request_skip_string else skip)
        rid ← read 4
        answer gwid mid rid
