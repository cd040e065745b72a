-- ===== src/Center/Terminal/Reports/Kept.antt =====
-- The reports of a terminal are stored, and change no connection.
use lemon_server.Common.{ℕ, zero, suc}
use lemon_server.Common.Bytes.{Bytes}
use lemon_server.Center.Frame.{Keeps, keeps, Same-refl}
use lemon_server.Center.Push.Kept.{Keeps-push_send}
use lemon_server.Center.Terminal.Reports.{
  standard_status, handle_std_status_report, handle_def_status_report, event, events, reported,
  handle_gps_report, query_results, handle_param_query_response, alterations,
  handle_param_alert_report, modify_results, handle_param_modify_response, decoded,
  handle_log_report, handle_control_ack,
}
use lemon_server.Handler.{lift}
use lemon_server.Center.World.{Env}
use lemon_server.Protocol.Errors.{Result, ok, throw}
use lemon_server.Protocol.Stream.{IcsDataTime}

lift-Keeps : {A : Type 0} (r : Result A) → Keeps (lift r)
unfolding lift
lift-Keeps (ok a) s = Same-refl s.world
lift-Keeps (throw e) s = Same-refl s.world

module _ (env : Env) (self : ℕ) where
  standard_status-Keeps : Keeps (standard_status env self)
  unfolding standard_status
  standard_status-Keeps = search keeps depth 20

  pub handle_std_status_report-Keeps : Keeps (handle_std_status_report env self)
  unfolding handle_std_status_report
  handle_std_status_report-Keeps = search (keeps, standard_status-Keeps) depth 8

  pub handle_def_status_report-Keeps : Keeps (handle_def_status_report env self)
  unfolding handle_def_status_report
  handle_def_status_report-Keeps = search keeps

  event-Keeps : (t : IcsDataTime) → Keeps (event env self t)
  unfolding event
  event-Keeps t = search (keeps, Keeps-push_send) depth 20

  events-Keeps : (t : IcsDataTime) (n : ℕ) → Keeps (events env self t n)
  unfolding events
  events-Keeps t zero = search keeps
  events-Keeps t (suc n) = search (keeps, event-Keeps t, events-Keeps t n) depth 6

  pub reported-Keeps : Keeps (reported env self)
  unfolding reported
  reported-Keeps = search (keeps, events-Keeps) depth 10

  pub handle_gps_report-Keeps : Keeps (handle_gps_report env self)
  unfolding handle_gps_report
  handle_gps_report-Keeps = search keeps depth 20

  query_results-Keeps : (id n : ℕ) → Keeps (query_results env self id n)
  unfolding query_results
  query_results-Keeps id zero = search keeps
  query_results-Keeps id (suc n) = search (keeps, query_results-Keeps id n) depth 20

  pub handle_param_query_response-Keeps : Keeps (handle_param_query_response env self)
  unfolding handle_param_query_response
  handle_param_query_response-Keeps = search (keeps, query_results-Keeps) depth 10

  alterations-Keeps : (t : IcsDataTime) (n : ℕ) → Keeps (alterations env self t n)
  unfolding alterations
  alterations-Keeps t zero = search keeps
  alterations-Keeps t (suc n) = search (keeps, alterations-Keeps t n) depth 20

  pub handle_param_alert_report-Keeps : Keeps (handle_param_alert_report env self)
  unfolding handle_param_alert_report
  handle_param_alert_report-Keeps = search (keeps, alterations-Keeps) depth 10

  modify_results-Keeps : (id n : ℕ) → Keeps (modify_results env self id n)
  unfolding modify_results
  modify_results-Keeps id zero = search keeps
  modify_results-Keeps id (suc n) = search (keeps, modify_results-Keeps id n) depth 20

  pub handle_param_modify_response-Keeps : Keeps (handle_param_modify_response env self)
  unfolding handle_param_modify_response
  handle_param_modify_response-Keeps = search (keeps, modify_results-Keeps) depth 10

  decoded-Keeps : (n : ℕ) (b : Bytes) → Keeps (decoded env self n b)
  unfolding decoded
  decoded-Keeps n b = search (keeps, lift-Keeps) depth 8

  pub handle_log_report-Keeps : Keeps (handle_log_report env self)
  unfolding handle_log_report
  handle_log_report-Keeps = search (keeps, decoded-Keeps) depth 20

  pub handle_control_ack-Keeps : Keeps (handle_control_ack env self)
  unfolding handle_control_ack
  handle_control_ack-Keeps = search keeps depth 20
