-- ===== src/Proxy/Center/Reply/Recorded.antt =====
-- src/center/icslocalserver.cpp, `handleForwardResponse` for the answer of a proxy server that does not
-- have the terminal.
use lemon_server.Common.{
  ℕ, ◌^◌, ◌<◌, ◌≡◌, refl, sym, ◌∙◌, ap, [], ◌∷◌, ◌++◌, length, arith, append_assoc, append-nil,
  ◌==◌, if◌then◌else◌,
}
use lemon_server.Common.Bytes.{Bytes, le_bytes}
use lemon_server.Center
use lemon_server.Center.Monad.Runs.{Runs, call_runs}
use lemon_server.Center.RemoteProxy
use lemon_server.Center.Monad
use lemon_server.Database.{Call, text, int, sp_webcmd_to_remote_proxy}
use lemon_server.Handler
use lemon_server.Handler.Steps.{bind_done, read_ok, read_string_ok, request_empty_ok}
use lemon_server.Protocol.Errors.{ok}
use lemon_server.Protocol.Head.{IcsMsgHead}
use lemon_server.Protocol.Stream.{Reader, get_string}
use lemon_server.Protocol.Stream.Room.{short}
use lemon_server.Protocol.Stream.RoundTrip.{at_pos, get_number_at, get_string_at}
use lemon_server.Proxy.Center.{no_terminal_text}
use lemon_server.Proxy.Monad.{done, ◌>>=◌, ◌>>◌, read, read_string, get_world, request_empty, pure}

-- The body of the answer.
abbrev pub answer_body : Bytes → ℕ → ℕ → Bytes
answer_body gwid mid rid =
    short gwid ++ (le_bytes 2 mid ++ (le_bytes 4 rid ++ (le_bytes 1 1 ++ short no_terminal_text)))

read_short :
    (reason : Bytes) (h : IcsMsgHead) (b : Bytes)
    → length reason < 256
    → get_string 1 (at_pos h b (short reason)) ≡ ok (reason, at_pos h (b ++ short reason) [])
read_short reason h b len =
    ap (λ (bs : Bytes). get_string 1 (at_pos h b (le_bytes 1 (length reason) ++ bs)))
      (sym (append-nil reason))
    ∙ get_string_at 1 reason h b [] len
    ∙ ap (λ (bs : Bytes). ok (reason, at_pos h bs []))
        (append_assoc b (le_bytes 1 (length reason)) reason)

-- The center's side: the body of the answer comes in on the connection of the proxy server.
module _ (center_env : Center.World.Env) (proxy : ℕ) where
  abbrev pub recorded : Bytes → ℕ → ℕ → Center.World.World → Call
  recorded gwid mid rid v = record {
    procedure = sp_webcmd_to_remote_proxy;
    args =
        text (v.clients proxy).enterprise_id
        ∷ int rid
        ∷ int mid
        ∷ int 1
        ∷ text no_terminal_text
        ∷ [];
  }

  abbrev pub RecordedIn : Bytes → ℕ → ℕ → Handler.Scene Center.World.World → Type 0
  RecordedIn gwid mid rid t =
      (out : Handler.Scene Center.World.World) × (RemoteProxy.handle_forward_response center_env
          proxy t
        ≡ done tt out)
      × (out.world ≡ record (t.world) { db = t.world.db ++ recorded gwid mid rid t.world ∷ [] })

  abbrev at_request : Handler.Scene Center.World.World → Reader → Handler.Scene Center.World.World
  at_request t r = record t { request = r }

  pub response_read :
      (t : Handler.Scene Center.World.World) (gwid : Bytes) (mid rid : ℕ) (h : IcsMsgHead)
      → t.request ≡ at_pos h [] (answer_body gwid mid rid)
      → Runs center_env
      → length gwid < 256
      → mid < 2 ^ 16
      → rid < 2 ^ 32
      → RecordedIn gwid mid rid t
  unfolding RemoteProxy.handle_forward_response
  response_read t gwid mid rid h e runs len small small' = (
    at_request
        (record t {
          world = record (t.world) { db = t.world.db ++ recorded gwid mid rid t.world ∷ [] };
        })
        r5,
    bind_done read_string (λ g. after_name) t gwid (read_string_ok t gwid r1 read_name)
        ∙ bind_done (read 2) after_mid (at_request t r1) mid
            (read_ok 2 (at_request t r1) mid r2 (get_number_at 2 mid h (short gwid) _ small))
        ∙ bind_done (read 4) (after_rid mid) (at_request t r2) rid (
            read_ok 4 (at_request t r2) rid r3 (
              get_number_at 4 rid h (short gwid ++ le_bytes 2 mid)
                (le_bytes 1 1 ++ short no_terminal_text) small'))
        ∙ bind_done (read 1) (after_result mid rid) (at_request t r3) 1 (
            read_ok 1 (at_request t r3) 1 r4 (
              get_number_at 1 1 h ((short gwid ++ le_bytes 2 mid) ++ le_bytes 4 rid)
                (short no_terminal_text) (omega arith)))
        ∙ bind_done read_string (recording mid rid 1 t.world) (at_request t r4) no_terminal_text
            (read_string_ok (at_request t r4) no_terminal_text r5 read_reason)
        ∙ bind_done
            (Monad.call center_env sp_webcmd_to_remote_proxy (recorded gwid mid rid t.world).args)
            (λ _. request_empty) (at_request t r5) tt
            (call_runs center_env sp_webcmd_to_remote_proxy (recorded gwid mid rid t.world).args
              (at_request t r5) runs)
        ∙ request_empty_ok _ refl,
    refl,
  )
    where
      after_name_bytes : Bytes
      after_name_bytes =
          le_bytes 2 mid ++ (le_bytes 4 rid ++ (le_bytes 1 1 ++ short no_terminal_text))

      r1 : Reader
      r1 = at_pos h (short gwid) after_name_bytes

      r2 : Reader
      r2 =
          at_pos h (short gwid ++ le_bytes 2 mid)
            (le_bytes 4 rid ++ (le_bytes 1 1 ++ short no_terminal_text))

      r3 : Reader
      r3 =
          at_pos h ((short gwid ++ le_bytes 2 mid) ++ le_bytes 4 rid)
            (le_bytes 1 1 ++ short no_terminal_text)

      r4 : Reader
      r4 =
          at_pos h (((short gwid ++ le_bytes 2 mid) ++ le_bytes 4 rid) ++ le_bytes 1 1)
            (short no_terminal_text)

      r5 : Reader
      r5 =
          at_pos h
            ((((short gwid ++ le_bytes 2 mid) ++ le_bytes 4 rid) ++ le_bytes 1 1)
              ++ short no_terminal_text)
            []

      read_name : get_string 1 t.request ≡ ok (gwid, r1)
      read_name =
          ap (get_string 1) e
          ∙ ap (λ (bs : Bytes). get_string 1 (at_pos h [] bs))
              (append_assoc (le_bytes 1 (length gwid)) gwid after_name_bytes)
          ∙ get_string_at 1 gwid h [] after_name_bytes len

      read_reason : get_string 1 r4 ≡ ok (no_terminal_text, r5)
      read_reason =
          read_short no_terminal_text h
            (((short gwid ++ le_bytes 2 mid) ++ le_bytes 4 rid) ++ le_bytes 1 1) (omega arith)

      recording : ℕ → ℕ → ℕ → Center.World.World → Bytes → Handler.M Center.World.World (Unit {0})
      recording mid rid result w reason =
          Monad.call center_env sp_webcmd_to_remote_proxy (
            text (w.clients proxy).enterprise_id
            ∷ int rid
            ∷ int mid
            ∷ int result
            ∷ text reason
            ∷ [])
          >> request_empty

      after_result : ℕ → ℕ → ℕ → Handler.M Center.World.World (Unit {0})
      after_result mid rid result = do
        w ← get_world
        reason ← (if result == 0 then pure [] else read_string)
        recording mid rid result w reason

      after_rid : ℕ → ℕ → Handler.M Center.World.World (Unit {0})
      after_rid mid rid = read 1 >>= after_result mid rid

      after_mid : ℕ → Handler.M Center.World.World (Unit {0})
      after_mid mid = read 4 >>= after_rid mid

      after_name : Handler.M Center.World.World (Unit {0})
      after_name = read 2 >>= after_mid
