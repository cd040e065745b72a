-- ===== src/Center/Terminal/Business/Routes.antt =====
-- A business report changes no route.
use lemon_server.Common.{ℕ, refl}
use lemon_server.Center.Monad.{modify}
use lemon_server.Center.Routing.{route}
use lemon_server.Center.Routing.Keeps.{Keeps-Fixed, set_client-route}
use lemon_server.Center.Terminal.Business.{
  handle_business_report, report, by_type, set_last_bus_serial_num,
}
use lemon_server.Center.Terminal.Business.Repeated.{by_type-Keeps}
use lemon_server.Center.World.{Env}
use lemon_server.Handler.Fixed.{Fixed, fixed, Fixed-modify}
use lemon_server.Protocol.Stream.{IcsDataTime}

module _ (env : Env) (self : ℕ) where
  noted-Fixed : (n : ℕ) → Fixed route (modify (set_last_bus_serial_num env self n))
  noted-Fixed n =
      Fixed-modify route (set_last_bus_serial_num env self n) (λ w. set_client-route self _ w refl)

  by_type-Fixed : (t : IcsDataTime) (n k : ℕ) → Fixed route (by_type env self t n k)
  by_type-Fixed t n k = Keeps-Fixed (by_type env self t n k) (by_type-Keeps env self t n k)

  report-Fixed : (t : IcsDataTime) (n k : ℕ) → Fixed route (report env self t n k)
  unfolding report
  report-Fixed t n k = search (fixed, noted-Fixed, by_type-Fixed) depth 20

  pub handle_business_report-Fixed : Fixed route (handle_business_report env self)
  unfolding handle_business_report
  handle_business_report-Fixed = search (fixed, report-Fixed) depth 20
