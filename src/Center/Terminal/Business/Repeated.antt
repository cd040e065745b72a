-- ===== src/Center/Terminal/Business/Repeated.antt =====
-- Business reports that come twice.
use lemon_server.Common.{
  ℕ, zero, suc, ◌≡◌, refl, sym, ◌∙◌, ap, ◌==◌, Bool-cases, inl, inr, ==_iff, arith,
}
use lemon_server.Common.Bytes.{Bytes}
use lemon_server.Center.Frame.{
  Keeps, Same, keeps, Keeps-request_empty, Keeps-bind, Keeps-read, Keeps-pure, world_of,
}
use lemon_server.Handler.Steps.{read_time_ok, read_ok, bind_done}
use lemon_server.Center.Monad.{Scene, done, read, read_time, respond, request_empty, ◌>>◌}
use lemon_server.Center.Terminal.Business.{
  vehicle, scales, pack, number_list, expressway, weight, overload, day_report, by_type,
  handle_business_report, report, set_last_bus_serial_num,
}
use lemon_server.Center.World.{World, Client, Env}
use lemon_server.Protocol.Stream.{IcsDataTime, Reader, get_time, get_number, init_request}
use lemon_server.Protocol.Errors.{ok}

module _ (env : Env) (self : ℕ) where
  vehicle-Keeps : (t : IcsDataTime) (n : ℕ) → Keeps (vehicle env self t n)
  unfolding vehicle
  vehicle-Keeps t n = search keeps depth 20

  day_report-Keeps : (t : IcsDataTime) → Keeps (day_report env self t)
  unfolding day_report
  day_report-Keeps t = search keeps depth 20

  overload-Keeps : (n : ℕ) → Keeps (overload env self n)
  unfolding overload
  overload-Keeps n = search keeps depth 20

  weight-Keeps : (t : IcsDataTime) (n : ℕ) → Keeps (weight env self t n)
  unfolding weight
  weight-Keeps t n = search keeps depth 20

  scales-Keeps : (t : IcsDataTime) (n k : ℕ) → Keeps (scales env self t n k)
  unfolding scales
  scales-Keeps t n zero = search keeps depth 20
  scales-Keeps t n (suc k) = search (keeps, scales-Keeps t n k) depth 20

  number_list-Keeps : (size sep n : ℕ) (str : Bytes) → Keeps (number_list env self size sep n str)
  unfolding number_list
  number_list-Keeps size sep zero str = Keeps-pure str
  number_list-Keeps size sep (suc n) str =
      Keeps-bind (read size) _ (Keeps-read size) (λ v. number_list-Keeps size sep n _)

  pack-Keeps : (t : IcsDataTime) (n : ℕ) → Keeps (pack env self t n)
  unfolding pack
  pack-Keeps t n = search (keeps, scales-Keeps) depth 8

  expressway-Keeps : (t : IcsDataTime) (n : ℕ) → Keeps (expressway env self t n)
  unfolding expressway
  expressway-Keeps t n = search (keeps, number_list-Keeps) depth 20

  pub by_type-Keeps : (t : IcsDataTime) (n k : ℕ) → Keeps (by_type env self t n k)
  unfolding by_type
  by_type-Keeps t n k =
      search
        (
          keeps, vehicle-Keeps, pack-Keeps, expressway-Keeps, weight-Keeps, overload-Keeps,
          day_report-Keeps,
        )
        depth 20

  same_self :
      (n : ℕ) (w : World)
      → ((set_last_bus_serial_num env self n w).clients self).last_bus_serial_num ≡ n
  same_self n w = ground arith

  report-noted :
      (t : IcsDataTime) (n k : ℕ) (s : Scene)
      → ((world_of (report env self t n k s)).clients self).last_bus_serial_num ≡ n
  unfolding report respond
  report-noted t n k s = elim (Bool-cases ((s.world.clients self).last_bus_serial_num == n)) [
    | inl again ↦ rw again ((==_iff _ _).0 again)
    | inr new ↦ rw new (
        ap (λ (c : ℕ → Client). (c self).last_bus_serial_num) (sym (kept.clients))
        ∙ same_self n s.world)
  ]
    where
      noted : Scene
      noted = record s { world = set_last_bus_serial_num env self n s.world }

      kept : Same noted.world (world_of ((by_type env self t n k >> request_empty) noted))
      kept =
          Keeps-bind (by_type env self t n k) _ (by_type-Keeps t n k) (λ u. Keeps-request_empty)
            noted

  report-again :
      (t : IcsDataTime) (n k : ℕ) (s : Scene)
      → (s.world.clients self).last_bus_serial_num ≡ n
      → report env self t n k s ≡ respond 0 s
  unfolding report
  report-again t n k s e = rw ((==_iff _ n).1 e) refl

  handle-report :
      (s : Scene) (t : IcsDataTime) (n k : ℕ) (r1 r2 r3 : Reader)
      → get_time s.request ≡ ok (t, r1)
      → get_number 4 r1 ≡ ok (n, r2)
      → get_number 4 r2 ≡ ok (k, r3)
      → handle_business_report env self s ≡ report env self t n k (record s { request = r3 })
  unfolding handle_business_report
  handle-report s t n k r1 r2 r3 e1 e2 e3 =
      bind_done read_time _ s t (read_time_ok s t r1 e1)
      ∙ bind_done (read 4) _ _ n (read_ok 4 (record s { request = r1 }) n r2 e2)
      ∙ bind_done (read 4) _ _ k (read_ok 4 (record s { request = r2 }) k r3 e3)

  -- A business report whose time, number and type can be read, however its handling ends, and then
  -- the same report once more: the second is handled without a throw, changes nothing of the world
  -- (so that no statement is executed), and leaves a response without id and body.
  pub handle_business_report_twice :
      (s s' : Scene) (t : IcsDataTime) (n k : ℕ) (r1 r2 r3 : Reader)
      → get_time s.request ≡ ok (t, r1)
      → get_number 4 r1 ≡ ok (n, r2)
      → get_number 4 r2 ≡ ok (k, r3)
      → s'.request ≡ s.request
      → s'.world ≡ world_of (handle_business_report env self s)
      → (out : Scene) × (handle_business_report env self s' ≡ done tt out)
        × (out.world ≡ s'.world)
        × (out.response.head.id ≡ 0)
        × (out.response.body ≡ s'.response.body)
  unfolding respond init_request
  handle_business_report_twice s s' t n k r1 r2 r3 e1 e2 e3 q v = (
    _,
    handle-report s' t n k r1 r2 r3 (ap get_time q ∙ e1) e2 e3 ∙ report-again t n k _ noted,
    refl,
    refl,
    refl,
  )
    where
      noted : (s'.world.clients self).last_bus_serial_num ≡ n
      noted =
          ap (λ (w : World). (w.clients self).last_bus_serial_num)
            (v ∙ ap world_of (handle-report s t n k r1 r2 r3 e1 e2 e3))
          ∙ report-noted t n k _
