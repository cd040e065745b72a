-- ===== src/Proxy/Tests.antt =====
-- Runs of the proxy server on a small world.
use lemon_server.Common.{ℕ, ◌≡◌, refl, false, [], ◌∷◌, ◌++◌, none, some, arith, ◌+◌}
use lemon_server.Common.Bytes.{Bytes}
use lemon_server.Center
use lemon_server.Center.World.{find}
use lemon_server.Handler
use lemon_server.Handler.Messages.{handle_message}
use lemon_server.Handler.Server.{Server}
use lemon_server.Handler.Server.Timeouts.{seconds}
use lemon_server.Protocol.Errors.{ok}
use lemon_server.Protocol.Head.{new_head, head_of, head_bytes, is_response}
use lemon_server.Protocol.MessageId.{code, of_code, c2c_forward_response_0x4005}
use lemon_server.Protocol.Stream.{Reader, Writer, get_number, get_string, init_request}
use lemon_server.Protocol.Stream.RoundTrip.{at_pos}
use lemon_server.Proxy.Center.{handle_forward_to_termianl}
use lemon_server.Proxy.Center.Reply.{missing_terminal_recorded}
use lemon_server.Proxy.Center.Reply.Recorded.{RecordedIn, answer_body}
use lemon_server.Proxy.Centers.{send_to_ics_center}
use lemon_server.Proxy.Centers.Broadcast.{send_to_ics_center_all, times_in, waiting}
use lemon_server.Proxy.Centers.Message.{forward_body}
use lemon_server.Proxy.Centers.RoundTrip.{forward_body_read}
use lemon_server.Proxy.Monad.{Scene, done}
use lemon_server.Proxy.Server.{node, accept_terminal}
use lemon_server.Proxy.Server.Quiet.{accepted_terminal_ends}
use lemon_server.Proxy.Terminal.{handle}
use lemon_server.Handler.Fixed.{end_of}
use lemon_server.Proxy.Terminal.Kept.{SameButSends, handle_proxied}
use lemon_server.Proxy.Terminal.Gate.{Untouched, unnamed_lem}
use lemon_server.Proxy.World.{World, Env, Garbage, new_client, proxy_terminal_client, proxy_host}

abbrev garbage : Garbage
garbage = record { device_kind = 1; send_num = 2; last_bus_serial_num = 3 }

abbrev pub quiet : Env
quiet = record {
  now = record { year = 2015; month = 6; day = 1; hour = 12; miniute = 0; sec_data = 30 };
  clock = 10;
  gb2312_to_utf8 = λ bs. ok bs;
  open_file = λ name. none;
  filedir = [];
  message = λ e. [];
}

-- Two connections, of which number 1 is the terminal "a".
abbrev pub small_world : World
small_world = record {
  clients = λ j. new_client proxy_terminal_client garbage;
  client_count = 2;
  terminal_conn_map = (b'a' ∷ [], 1) ∷ [];
  ics_center_conn_map = [];
  memory_pool = record { chunk_size = 512; chunk_count = 2; chunk_list = 1000 ∷ 1512 ∷ [] };
  files = [];
  terminated = false;
  heartbeat_time = 3;
}

abbrev server : Server World
server = record {
  world = small_world;
  timer = record { wheel = λ slot. []; current_point = 62 };
  areas = λ i. record { recv_buff = []; recv_size = 0 };
}

accepted_terminal_ends_example :
    ((seconds (node quiet) 12 (accept_terminal quiet garbage server)).world.clients 2).valid ≡ false
accepted_terminal_ends_example = accepted_terminal_ends quiet garbage server (omega arith)

-- The head of a heartbeat, with any four bytes for the CRC.
abbrev heartbeat : Bytes
heartbeat = head_bytes (init_request 0x0b01 false new_head) ++ (1 ∷ 2 ∷ 3 ∷ 4 ∷ [])

unnamed_lem_example :
    ((handle_message proxy_host (handle quiet 0) 0 heartbeat small_world).0 ≡ false)
    × Untouched small_world (handle_message proxy_host (handle quiet 0) 0 heartbeat small_world).1
unfolding head_of head_bytes init_request new_head code is_response
unnamed_lem_example = unnamed_lem quiet 0 heartbeat small_world refl (omega arith) refl

-- A report of a business with the number 3, of the terminal "b".
abbrev business : Scene
business = record {
  world = record small_world {
    clients = λ j. record (new_client proxy_terminal_client garbage) { gwid = b'b' ∷ [] };
  };
  request = record {
    head = init_request 0x0901 false new_head;
    before = [];
    after = 223 ∷ 7 ∷ 6 ∷ 1 ∷ 12 ∷ 0 ∷ 30 ∷ 0 ∷ 3 ∷ 0 ∷ 0 ∷ 0 ∷ 9 ∷ 0 ∷ 0 ∷ 0 ∷ [];
  };
  response = record { start = some 1000; head = new_head; body = []; room = 496 };
}

handle_proxied_example : SameButSends (end_of (handle quiet 0 business)) business.world
unfolding init_request new_head of_code
handle_proxied_example = handle_proxied quiet 0 business (λ e. cc) (λ e. cc)

abbrev writer : Writer
writer = record { start = some 1000; head = new_head; body = []; room = 496 }

-- A GPS report's first bytes of the terminal "a".
forward_body_read_example :
    (w' : Writer) × (r1 : Reader) × (r2 : Reader) × (forward_body
        (b'a' ∷ [])
        0x0902
        (at_pos new_head [] (3 ∷ 4 ∷ []))
        writer
      ≡ ok w')
    × (get_string 1 (at_pos new_head [] w'.body) ≡ ok (b'a' ∷ [], r1))
    × (get_number 2 r1 ≡ ok (0x0902, r2))
    × (r2.after ≡ 3 ∷ 4 ∷ [])
forward_body_read_example =
    forward_body_read (b'a' ∷ []) 0x0902 (at_pos new_head [] (3 ∷ 4 ∷ [])) writer new_head refl
      (omega arith, tt) (omega arith) (omega arith) (omega arith)

-- Message 0x0d01 with the request's number 9, for the terminal "b", which has no connection.
abbrev for_b : Bytes
for_b = 1 ∷ b'b' ∷ []

abbrev command : Scene
command = record {
  world = small_world;
  request = at_pos new_head [] (for_b ++ 1 ∷ 13 ∷ 9 ∷ 0 ∷ 0 ∷ 0 ∷ []);
  response = writer;
}

-- The center's connection number 0, on which the answer comes in.
abbrev answer : Handler.Scene Center.World.World
answer = record {
  world = Center.Tests.small_world;
  request = at_pos new_head [] (answer_body (b'b' ∷ []) 0x0d01 9);
  response = writer;
}

missing_terminal_recorded_example :
    ((out : Scene) × (handle_forward_to_termianl quiet 0 command ≡ done tt out)
      × (out.response.head.id ≡ code c2c_forward_response_0x4005)
      × (out.response.body ≡ answer_body (b'b' ∷ []) 0x0d01 9))
    × RecordedIn Center.Tests.quiet 0 (b'b' ∷ []) 0x0d01 9 answer
unfolding get_string get_number code find
missing_terminal_recorded_example =
    missing_terminal_recorded quiet 0 command (b'b' ∷ []) 0x0d01 9
      (at_pos new_head for_b (1 ∷ 13 ∷ 9 ∷ 0 ∷ 0 ∷ 0 ∷ []))
      (at_pos new_head (for_b ++ 1 ∷ 13 ∷ []) (9 ∷ 0 ∷ 0 ∷ 0 ∷ []))
      (at_pos new_head (for_b ++ 1 ∷ 13 ∷ 9 ∷ 0 ∷ 0 ∷ 0 ∷ []) []) Center.Tests.quiet 0 answer
      new_head refl refl (omega arith) refl refl (omega arith, tt) (omega arith) (omega arith)
      (omega arith) (omega arith) refl refl (λ calls c. refl)

-- Connections 0 and 1 are centers.
abbrev with_centers : Scene
with_centers = record command { world = record small_world { ics_center_conn_map = 0 ∷ 1 ∷ [] } }

send_to_ics_center_all_example :
    (s' : Scene) × (send_to_ics_center writer with_centers ≡ done tt s')
    × ((j : ℕ)
        → waiting j s'.world
          ≡ times_in j with_centers.world.ics_center_conn_map + waiting j with_centers.world)
send_to_ics_center_all_example =
    send_to_ics_center_all writer with_centers (omega arith) (omega arith)
