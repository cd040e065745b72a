-- ===== src/Center/Terminal/Upgrade/Kept.antt =====
-- The upgrade of a terminal changes no connection, and no file.
use lemon_server.Common.{ℕ, Bool, Option, none, some}
use lemon_server.Center.Frame.{Keeps, keeps}
use lemon_server.Center.Terminal.Upgrade.{
  not_found, fragment, send_file, handle_request_file, handle_deny_upgrade, handle_agree_upgrade,
  handle_upgrade_result, handle_upgrade_cancel_ack,
}
use lemon_server.Center.World.{Env}
use lemon_server.Files.{FileInfo}

module _ (env : Env) (self : ℕ) where
  not_found-Keeps : Keeps (not_found env self)
  unfolding not_found
  not_found-Keeps = search keeps depth 8

  fragment-Keeps :
      (id request offset len : ℕ) (f : FileInfo) → Keeps (fragment env self id request offset len f)
  unfolding fragment
  fragment-Keeps id request offset len f = search keeps depth 20

  send_file-Keeps :
      (id request offset len : ℕ) (wanted : Bool) (o : Option FileInfo)
      → Keeps (send_file env self id request offset len wanted o)
  unfolding send_file
  send_file-Keeps id request offset len wanted none = not_found-Keeps
  send_file-Keeps id request offset len wanted (some f) = search (keeps, fragment-Keeps) depth 8

  pub handle_request_file-Keeps : Keeps (handle_request_file env self)
  unfolding handle_request_file
  handle_request_file-Keeps = search (keeps, send_file-Keeps) depth 20

  pub handle_deny_upgrade-Keeps : Keeps (handle_deny_upgrade env self)
  unfolding handle_deny_upgrade
  handle_deny_upgrade-Keeps = search keeps depth 20

  pub handle_agree_upgrade-Keeps : Keeps (handle_agree_upgrade env self)
  unfolding handle_agree_upgrade
  handle_agree_upgrade-Keeps = search keeps depth 20

  pub handle_upgrade_result-Keeps : Keeps (handle_upgrade_result env self)
  unfolding handle_upgrade_result
  handle_upgrade_result-Keeps = search keeps depth 20

  pub handle_upgrade_cancel_ack-Keeps : Keeps (handle_upgrade_cancel_ack env self)
  unfolding handle_upgrade_cancel_ack
  handle_upgrade_cancel_ack-Keeps = search keeps depth 20
