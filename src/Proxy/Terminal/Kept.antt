-- ===== src/Proxy/Terminal/Kept.antt =====
-- What the messages of a terminal leave as it is in the proxy server's state.
use lemon_server.Common.{ℕ, not, ◌&&◌, Option, none, some, ◌≡◌, ◌≢◌, refl, arith, ◌==◌, ==_iff}
use lemon_server.Common.Bytes.{is_empty}
use lemon_server.Connection.Send.{SendArea, new_send_area}
use lemon_server.Files.{FileInfo}
use lemon_server.Handler.Fixed.{Fixed, fixed, end_of, Fixed-raise, Fixed-skip, Fixed-if}
use lemon_server.Pool.{MemoryPool}
use lemon_server.Protocol.Errors.{must_authrize}
use lemon_server.Protocol.MessageId.{
  MessageId, code, of_code, t2c_auth_request_0x0101, t2c_std_status_report_0x0301,
  t2c_def_status_report_0x0401, t2c_event_report_0x0501, t2c_bus_report_0x0901,
  t2c_gps_report_0x0902, t2c_datetime_sync_request_0x0a01, t2c_log_report_0x0c01,
  t2c_upgrade_agree_0x0203, t2c_upgrade_deny_0x0202, t2c_upgrade_file_request_0x0204,
  t2c_upgrade_result_report_0x0207, t2c_upgrade_cancel_ack_0x0209,
}
use lemon_server.Proxy.Fixed.{forward_to_ics_center-Fixed}
use lemon_server.Proxy.Monad.{Scene, raise}
use lemon_server.Proxy.Terminal.{by_id, handle}
use lemon_server.Proxy.Terminal.Reports.{
  standard_status, handle_std_status_report, handle_def_status_report, handle_events_report,
  handle_business_report, handle_gps_report, checked_text, handle_log_report,
}
use lemon_server.Proxy.Terminal.Upgrade.{
  number_only, handle_deny_upgrade, handle_agree_upgrade, handle_request_file,
  handle_upgrade_result, handle_upgrade_cancel_ack, not_found, fragment, send_file,
}
use lemon_server.Proxy.World.{World, Env, proxy_host}

module _ {X : Type 0} (f : World → X)
    (pool : (p : MemoryPool) (w : World) → f (proxy_host.set_pool p w) ≡ f w)
    (area : (i : ℕ) (a : SendArea) (w : World) → f (proxy_host.set_area i a w) ≡ f w) (env : Env)
    (self : ℕ) where
  std_status-Fixed : Fixed f (handle_std_status_report env self)
  unfolding handle_std_status_report standard_status
  std_status-Fixed = search (fixed, forward_to_ics_center-Fixed) depth 20

  events-Fixed : Fixed f (handle_events_report env self)
  unfolding handle_events_report
  events-Fixed = search (fixed, forward_to_ics_center-Fixed) depth 20

  business-Fixed : Fixed f (handle_business_report env self)
  unfolding handle_business_report
  business-Fixed = search (fixed, forward_to_ics_center-Fixed) depth 20

  gps-Fixed : Fixed f (handle_gps_report env self)
  unfolding handle_gps_report
  gps-Fixed = search (fixed, forward_to_ics_center-Fixed) depth 20

  log-Fixed : Fixed f (handle_log_report env self)
  unfolding handle_log_report checked_text
  log-Fixed = search (fixed, forward_to_ics_center-Fixed) depth 20

  deny-Fixed : Fixed f (handle_deny_upgrade self)
  unfolding handle_deny_upgrade
  deny-Fixed = search (fixed, forward_to_ics_center-Fixed) depth 20

  number_only-Fixed : Fixed f (number_only self)
  unfolding number_only
  number_only-Fixed = search (fixed, forward_to_ics_center-Fixed) depth 20

  result-Fixed : Fixed f (handle_upgrade_result self)
  unfolding handle_upgrade_result
  result-Fixed = search (fixed, forward_to_ics_center-Fixed) depth 20

  send_file-Fixed :
      (file_id request_id fragment_offset fragment_length : ℕ) (o : Option FileInfo)
      → Fixed f (send_file file_id request_id fragment_offset fragment_length o)
  unfolding send_file not_found fragment
  send_file-Fixed file_id request_id fragment_offset fragment_length none = search fixed depth 20
  send_file-Fixed file_id request_id fragment_offset fragment_length (some i) =
      search fixed depth 20

  request_file-Fixed : Fixed f handle_request_file
  unfolding handle_request_file
  request_file-Fixed = search (fixed, send_file-Fixed) depth 20

  by_id-Fixed :
      (m : Option MessageId)
      → m ≢ some t2c_auth_request_0x0101
      → m ≢ some t2c_datetime_sync_request_0x0a01
      → Fixed f (by_id env self m)
  unfolding by_id handle_def_status_report handle_agree_upgrade handle_upgrade_cancel_ack
  by_id-Fixed (some t2c_auth_request_0x0101) a b = absurd (a refl)
  by_id-Fixed (some t2c_datetime_sync_request_0x0a01) a b = absurd (b refl)
  by_id-Fixed (some t2c_std_status_report_0x0301) a b = std_status-Fixed
  by_id-Fixed (some t2c_def_status_report_0x0401) a b = Fixed-skip f
  by_id-Fixed (some t2c_event_report_0x0501) a b = events-Fixed
  by_id-Fixed (some t2c_bus_report_0x0901) a b = business-Fixed
  by_id-Fixed (some t2c_gps_report_0x0902) a b = gps-Fixed
  by_id-Fixed (some t2c_log_report_0x0c01) a b = log-Fixed
  by_id-Fixed (some t2c_upgrade_agree_0x0203) a b = number_only-Fixed
  by_id-Fixed (some t2c_upgrade_deny_0x0202) a b = deny-Fixed
  by_id-Fixed (some t2c_upgrade_file_request_0x0204) a b = request_file-Fixed
  by_id-Fixed (some t2c_upgrade_result_report_0x0207) a b = result-Fixed
  by_id-Fixed (some t2c_upgrade_cancel_ack_0x0209) a b = number_only-Fixed
  by_id-Fixed _ a b = Fixed-skip f

  handle-Fixed :
      (s : Scene)
      → of_code s.request.head.id ≢ some t2c_auth_request_0x0101
      → of_code s.request.head.id ≢ some t2c_datetime_sync_request_0x0a01
      → f (end_of (handle env self s)) ≡ f s.world
  unfolding handle
  handle-Fixed s a b =
      Fixed-if f
        (not (s.request.head.id == code t2c_auth_request_0x0101)
          && is_empty (s.world.clients self).gwid)
        (raise must_authrize) (by_id env self (of_code s.request.head.id))
        (Fixed-raise f (Unit {0}) must_authrize) (by_id-Fixed (of_code s.request.head.id) a b) s

-- `w` is `v` but for the memory pool and what waits to be sent.
pub record SameButSends (v w : World) : Type 0 where
  pub terminals : v.terminal_conn_map ≡ w.terminal_conn_map
  pub centers : v.ics_center_conn_map ≡ w.ics_center_conn_map
  pub files : v.files ≡ w.files
  pub terminated : v.terminated ≡ w.terminated
  pub clients :
      (j : ℕ)
      → record (v.clients j) { send = new_send_area }
        ≡ record (w.clients j) { send = new_send_area }

-- Any message of a terminal of the proxy server whose id is neither that of the authentication
-- request nor that of the time request, whatever is in it, and whether its handler throws or not:
-- nothing has changed but the memory pool and the connections' send areas. So no connection is
-- entered, replaced or ended, and no field of a connection object but its send area has changed,
-- the number of the last business report included.
pub handle_proxied :
    (env : Env) (self : ℕ) (s : Scene)
    → of_code s.request.head.id ≢ some t2c_auth_request_0x0101
    → of_code s.request.head.id ≢ some t2c_datetime_sync_request_0x0a01
    → SameButSends (end_of (handle env self s)) s.world
handle_proxied env self s a b = record {
  terminals =
      handle-Fixed (λ (w : World). w.terminal_conn_map) (λ p w. refl) (λ i q w. refl) env self s a
        b;
  centers =
      handle-Fixed (λ (w : World). w.ics_center_conn_map) (λ p w. refl) (λ i q w. refl) env self s a
        b;
  files = handle-Fixed (λ (w : World). w.files) (λ p w. refl) (λ i q w. refl) env self s a b;
  terminated =
      handle-Fixed (λ (w : World). w.terminated) (λ p w. refl) (λ i q w. refl) env self s a b;
  clients = λ j.
      handle-Fixed (λ (w : World). record (w.clients j) { send = new_send_area }) (λ p w. refl)
        (λ i q w. ground (arith, ==_iff i j)) env self s a b;
}
