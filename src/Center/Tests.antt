-- ===== src/Center/Tests.antt =====
-- Runs of the center server's code on a small world.
use lemon_server.Common.{
  none, if◌then◌else◌, ℕ, ◌+◌, ◌≤◌, ◌≡◌, refl, true, false, [], ◌∷◌, ◌++◌, some, ltb, arith, length,
  take, drop, if◌then◌else◌,
}
use lemon_server.Common.Bytes.{Bytes, same}
use lemon_server.Center.Frame.{world_of}
use lemon_server.Center.Terminal.Kept.{Ended, handle_other}
use lemon_server.Center.Messages.{handle_message}
use lemon_server.Center.Messages.Gate.{Untouched, unauthenticated_lem}
use lemon_server.Center.Monad.{Scene, done, raised}
use lemon_server.Center.Registry.{add_terminal_client, do_error, destroy, replace, offline_call}
use lemon_server.Center.Registry.Destruction.{destroy-replace, destroy-do_error}
use lemon_server.Center.Registry.Ownership.{add_terminal_client-find, timeouts, timeouts-valid}
use lemon_server.Center.Terminal.{handle}
use lemon_server.Center.Terminal.Auth.{handle_auth_request}
use lemon_server.Center.Terminal.Auth.Malformed.{handle_auth_request_malformed}
use lemon_server.Center.Terminal.Business.{handle_business_report}
use lemon_server.Center.Terminal.Business.Repeated.{handle_business_report_twice}
use lemon_server.Center.Terminal.Upgrade.{fragment_size}
use lemon_server.Center.Terminal.Upgrade.Fragment.{fragment_size-fits}
use lemon_server.Center.World.{new_client, refused, World, Client, terminal_client, Env, find}
use lemon_server.Connection.Send.{new_send_area}
use lemon_server.Protocol.Errors.{no_data, ok}
use lemon_server.Protocol.Head.{new_head, head_of, head_bytes, is_response}
use lemon_server.Protocol.MessageId.{of_code, code}
use lemon_server.Protocol.Stream.{
  Reader, IcsDataTime, get_time, get_number, get_string, init_request,
}

abbrev noon : IcsDataTime
noon = record { year = 2015; month = 6; day = 1; hour = 12; miniute = 0; sec_data = 30 }

abbrev pub quiet : Env
quiet = record {
  now = noon;
  clock = 0;
  db_fails = λ calls c. false;
  authroize = λ calls id pwd. (0, [], []);
  progress_stat = λ calls. 0;
  file_path = λ calls. [];
  monitoring_point = λ calls. [];
  gb2312_to_utf8 = λ bs. ok bs;
  push_connects = true;
  enterprise_address = λ calls. none;
  stale_port = 0;
  connecting = λ ip port. refused;
}

abbrev unknown_client : Client
unknown_client = new_client terminal_client

-- Two connections, of which number 1 is the terminal "a".
abbrev pub small_world : World
small_world = record {
  clients = λ j. unknown_client;
  client_count = 2;
  terminal_conn_map = (b'a' ∷ [], 1) ∷ [];
  proxy_conn_map = [];
  memory_pool = record { chunk_size = 512; chunk_count = 2; chunk_list = 1000 ∷ 1512 ∷ [] };
  files = [];
  push = record { connected = false; send = new_send_area };
  db = [];
  terminated = false;
  heartbeat_time = 60;
  online_ip = [];
  online_port = 0;
}

-- The head of a heartbeat, with any four bytes for the CRC.
abbrev pub heartbeat : Bytes
heartbeat = head_bytes (init_request 0x0b01 false new_head) ++ (1 ∷ 2 ∷ 3 ∷ 4 ∷ [])

unauthenticated_lem_example :
    ((handle_message (handle quiet 0) 0 heartbeat small_world).0 ≡ false)
    × Untouched small_world (handle_message (handle quiet 0) 0 heartbeat small_world).1
unfolding head_of head_bytes init_request new_head code is_response
unauthenticated_lem_example =
    unauthenticated_lem quiet 0 heartbeat small_world refl (omega arith) refl

-- A time, the number 5 and the type 9, which is none: the first handling throws.
abbrev report_body : Bytes
report_body = 223 ∷ 7 ∷ 6 ∷ 1 ∷ 12 ∷ 0 ∷ 30 ∷ 0 ∷ 5 ∷ 0 ∷ 0 ∷ 0 ∷ 9 ∷ 0 ∷ 0 ∷ 0 ∷ []

abbrev read_to : ℕ → Reader
read_to n = record { head = new_head; before = take n report_body; after = drop n report_body }

abbrev first_scene : Scene
first_scene = record {
  world = small_world;
  request = read_to 0;
  response = record { start = some 1000; head = new_head; body = []; room = 496 };
}

abbrev second_scene : Scene
second_scene = record first_scene { world = world_of (handle_business_report quiet 0 first_scene) }

handle_business_report_twice_example :
    (out : Scene) × (handle_business_report quiet 0 second_scene ≡ done tt out)
    × (out.world ≡ world_of (handle_business_report quiet 0 first_scene))
    × (out.response.head.id ≡ 0)
    × (out.response.body ≡ [])
unfolding get_time get_number
handle_business_report_twice_example =
    handle_business_report_twice quiet 0 first_scene second_scene noon 5 9 (read_to 8) (read_to 12)
      (read_to 16) refl refl refl refl refl

-- Bytes 2 to 5 of a file of five are asked for: three are sent.
fragment_size-fits_example :
    (fragment_size 2 4 5 ≤ 4)
    × (fragment_size 2 4 5 ≤ 512)
    × (2 + fragment_size 2 4 5 ≤ 5)
    × (length {A = ℕ} (take (fragment_size 2 4 5) (drop 2 (1 ∷ 2 ∷ 3 ∷ 4 ∷ 5 ∷ [])))
        ≡ fragment_size 2 4 5)
    × (4 ≤ 512 → 2 + 4 ≤ 5 → fragment_size 2 4 5 ≡ 4)
fragment_size-fits_example =
    fragment_size-fits 2 4 (1 ∷ 2 ∷ 3 ∷ 4 ∷ 5 ∷ []) (omega arith) (omega arith) (omega arith)

-- Connection 0 takes the place of connection 1.
add_terminal_client-find_example :
    ((j : Bytes)
      → find j (add_terminal_client quiet (b'a' ∷ []) 0 small_world).terminal_conn_map
        ≡ (if same (b'a' ∷ []) j then some 0 else find j small_world.terminal_conn_map))
    × ((old : ℕ)
        → find (b'a' ∷ []) small_world.terminal_conn_map ≡ some old
        → (((add_terminal_client quiet (b'a' ∷ []) 0 small_world).clients old).valid ≡ false)
          × (do_error quiet old (add_terminal_client quiet (b'a' ∷ []) 0 small_world)
              ≡ add_terminal_client quiet (b'a' ∷ []) 0 small_world))
add_terminal_client-find_example = add_terminal_client-find quiet (b'a' ∷ []) 0 small_world

timeouts-valid_example : ((timeouts quiet 1 3 small_world).clients 1).valid ≡ ltb (0 + 3) 3
timeouts-valid_example = timeouts-valid quiet 1 3 small_world refl (omega arith)

-- Both connections are that of the terminal "a" with the monitor id "m".
abbrev named_world : World
named_world = record small_world {
  clients = λ j. record unknown_client { gwid = b'a' ∷ []; monitor_id = b'm' ∷ [] };
}

destroy-replace_example : (destroy quiet 1 (replace quiet 1 named_world)).db ≡ named_world.db
destroy-replace_example = destroy-replace quiet 1 named_world refl

destroy-do_error_example :
    (destroy quiet 1 (do_error quiet 1 named_world)).db
    ≡ (named_world.db ++ offline_call quiet (b'a' ∷ []) named_world ∷ [])
      ++ offline_call quiet (b'm' ∷ []) named_world ∷ []
destroy-do_error_example =
    destroy-do_error quiet 1 named_world refl refl refl refl refl (λ calls c. refl)

-- An authentication request of connection 0 that holds the id "a" and nothing behind it: the
-- terminal "a" of connection 1 is no longer in the map.
abbrev cut_request : Scene
cut_request = record first_scene {
  request = record { head = new_head; before = []; after = 1 ∷ b'a' ∷ [] };
}

handle_auth_request_malformed_example :
    (s' : Scene) × (handle_auth_request quiet 0 cut_request ≡ raised (no_data 1) s')
    × ((j : Bytes)
        → find j (do_error quiet 0 s'.world).terminal_conn_map
          ≡ (if same (b'a' ∷ []) j then none else find j small_world.terminal_conn_map))
unfolding get_string
handle_auth_request_malformed_example =
    handle_auth_request_malformed quiet 0 cut_request (b'a' ∷ [])
      (record { head = new_head; before = 1 ∷ b'a' ∷ []; after = [] }) (no_data 1) refl refl refl
      refl refl refl refl

-- A terminal reports one event, while the push server's connection is lost and cannot be made again.
abbrev lonely : Env
lonely = record quiet { push_connects = false }

abbrev event_scene : Scene
event_scene = record first_scene {
  world = record small_world {
    clients = λ j. record unknown_client { gwid = b'b' ∷ [] };
    push = record { connected = false; send = new_send_area };
  };
  request = record {
    head = init_request 0x0501 false new_head;
    before = [];
    after = 223 ∷ 7 ∷ 6 ∷ 1 ∷ 12 ∷ 0 ∷ 0 ∷ 0 ∷ 1 ∷ 0 ∷ 5 ∷ 0 ∷ 1 ∷ 1 ∷ b'v' ∷ [];
  };
}

handle_other_example :
    Ended lonely 0
      (of_code event_scene.request.head.id)
      event_scene.world
      (world_of (handle lonely 0 event_scene))
unfolding init_request new_head of_code
handle_other_example = handle_other lonely 0 event_scene (λ e. cc) (λ e. cc)

-- It ends the program.
event_ends : (world_of (handle lonely 0 event_scene)).terminated ≡ true
unfolding handle init_request new_head of_code code
event_ends = refl
