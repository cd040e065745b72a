-- ===== src/Proxy/Center/Reply.antt =====
-- What the proxy server answers to a forwarded command for a terminal that it does not have, and what the
-- center makes of the answer.
pub mod Recorded
pub mod Sent
use lemon_server.Common.{
  ℕ, ◌+◌, ◌^◌, ◌≤◌, ◌<◌, ◌≡◌, ◌≢◌, refl, ◌∙◌, ap, [], ◌++◌, none, length, append_assoc, All,
}
use lemon_server.Common.Bytes.{Bytes, le_bytes}
use lemon_server.Center
use lemon_server.Center.Monad.Runs.{Runs}
use lemon_server.Handler
use lemon_server.Protocol.Errors.{ok}
use lemon_server.Protocol.Head.{IcsMsgHead}
use lemon_server.Protocol.MessageId.{code, c2c_forward_response_0x4005, c2t_upgrade_request_0x0201}
use lemon_server.Protocol.Stream.{Reader, get_number, get_string, init_request}
use lemon_server.Protocol.Stream.Room.{short}
use lemon_server.Protocol.Stream.RoundTrip.{at_pos}
use lemon_server.Proxy.Center.{handle_forward_to_termianl, no_terminal_text}
use lemon_server.Proxy.Monad.{Scene, done}
use lemon_server.Proxy.World.{Env}
use lemon_server.Center.World.{find}
use lemon_server.Proxy.Center.Reply.Recorded.{answer_body, RecordedIn, response_read}
use lemon_server.Proxy.Center.Reply.Sent.{begun, failed, answered}

five_parts : (a b c d e : Bytes) → (((a ++ b) ++ c) ++ d) ++ e ≡ a ++ (b ++ (c ++ (d ++ e)))
five_parts a b c d e =
    append_assoc ((a ++ b) ++ c) d e
    ∙ append_assoc (a ++ b) c (d ++ e)
    ∙ append_assoc a b (c ++ (d ++ e))

-- A center's message for a terminal that the proxy server does not have, which is no upgrade request,
-- and of which the terminal's name (of less than 256 bytes, none of them NUL), the message's id and
-- the request's number can be read, with an empty response that has room for the answer: the proxy
-- server's handler ends without a throw, and the answer is a forward response with a certain body.
-- On a connection of a center to a proxy server, where that body has come in as a message, and no
-- statement of the center's database fails: the center's handler ends without a throw, and all that
-- it does is to record the request's number, the message's id, the result 1 and the reason.
pub missing_terminal_recorded :
    (env : Env) (self : ℕ) (s : Scene) (gwid : Bytes) (mid rid : ℕ) (r1 r2 r3 : Reader)
    (center_env : Center.World.Env) (proxy : ℕ) (t : Handler.Scene Center.World.World)
    (h : IcsMsgHead)
    → get_string 1 s.request ≡ ok (gwid, r1)
    → get_number 2 r1 ≡ ok (mid, r2)
    → mid ≢ code c2t_upgrade_request_0x0201
    → get_number 4 r2 ≡ ok (rid, r3)
    → find gwid s.world.terminal_conn_map ≡ none
    → All (λ c. 0 < c) gwid
    → length gwid < 256
    → mid < 2 ^ 16
    → rid < 2 ^ 32
    → length gwid + 32 ≤ s.response.room
    → s.response.body ≡ []
    → t.request ≡ at_pos h [] (answer_body gwid mid rid)
    → Runs center_env
    → ((out : Scene) × (handle_forward_to_termianl env self s ≡ done tt out)
        × (out.response.head.id ≡ code c2c_forward_response_0x4005)
        × (out.response.body ≡ answer_body gwid mid rid))
      × RecordedIn center_env proxy gwid mid rid t
unfolding code
missing_terminal_recorded env self s gwid mid rid r1 r2 r3 center_env proxy t h e1 e2 other e3
      missing nonzero len small small' room empty e runs =
    (
      (
        failed no_terminal_text (begun gwid mid rid (record s { request = r3 })),
        answered env self s gwid mid rid r1 r2 r3 e1 e2 other e3 missing nonzero room,
        (unfold init_request in refl),
        layout,
      ),
      response_read center_env proxy t gwid mid rid h e runs len small small',
    )
  where
    layout :
        (failed no_terminal_text (begun gwid mid rid (record s { request = r3 }))).response.body
        ≡ answer_body gwid mid rid
    layout =
        ap
          (λ (bs : Bytes).
            ((((bs ++ short gwid) ++ le_bytes 2 mid) ++ le_bytes 4 rid) ++ le_bytes 1 1)
            ++ short no_terminal_text)
          empty
        ∙ five_parts (short gwid) (le_bytes 2 mid) (le_bytes 4 rid) (le_bytes 1 1)
            (short no_terminal_text)
