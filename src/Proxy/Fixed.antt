-- ===== src/Proxy/Fixed.antt =====
-- What the code that sends to the centers leaves as it is: any part `f` of the proxy server's state that has
-- neither the memory pool nor a send area in it.
use lemon_server.Common.{ℕ, Bool, List, [], ◌∷◌, ◌≡◌}
use lemon_server.Connection.Send.{SendArea}
use lemon_server.Handler.Fixed.{
  Fixed, fixed, Fixed-bind, Fixed-pure, Fixed-skip, Fixed-get_world, Fixed-new_stream,
  Fixed-copy_stream, Fixed-drop_stream, Fixed-build, Fixed-holding, Fixed-send_on,
}
use lemon_server.Pool.{MemoryPool}
use lemon_server.Protocol.Errors.{Result}
use lemon_server.Protocol.Stream.{Writer}
use lemon_server.Proxy.Centers.{
  send_to_each, send_to_ics_center, send_and_drop, forward_to_ics_center, onoff_line_to_ics_center,
}
use lemon_server.Proxy.Monad.{
  M, new_stream, copy_stream, drop_stream, build, holding, send_on, new_message,
}
use lemon_server.Proxy.World.{World, proxy_host}

module _ {X : Type 0} (f : World → X)
    (pool : (p : MemoryPool) (w : World) → f (proxy_host.set_pool p w) ≡ f w)
    (area : (i : ℕ) (a : SendArea) (w : World) → f (proxy_host.set_area i a w) ≡ f w) where
  copy_stream-Fixed : (rhs : Writer) → Fixed f (copy_stream rhs)
  unfolding copy_stream
  copy_stream-Fixed rhs = Fixed-copy_stream f proxy_host pool area rhs

  drop_stream-Fixed : (w : Writer) → Fixed f (drop_stream w)
  unfolding drop_stream
  drop_stream-Fixed w = Fixed-drop_stream f proxy_host pool area w

  pub build-Fixed : (w : Writer) (r : Result Writer) → Fixed f (build w r)
  unfolding build
  build-Fixed w r = Fixed-build f proxy_host pool area w r

  holding-Fixed : (w : Writer) (m : M (Unit {0})) → Fixed f m → Fixed f (holding w m)
  unfolding holding
  holding-Fixed w m = Fixed-holding f proxy_host pool area w m

  pub send_on-Fixed : (i : ℕ) (w : Writer) → Fixed f (send_on i w)
  unfolding send_on
  send_on-Fixed i w = Fixed-send_on f proxy_host pool area i w

  pub new_stream-Fixed : Fixed f new_stream
  unfolding new_stream
  new_stream-Fixed = Fixed-new_stream f proxy_host pool area

  pub new_message-Fixed : (id : ℕ) (need : Bool) → Fixed f (new_message id need)
  unfolding new_message
  new_message-Fixed id need = search (Fixed-bind, Fixed-pure, new_stream-Fixed)

  send_to_each-Fixed : (is : List ℕ) (w : Writer) → Fixed f (send_to_each is w)
  unfolding send_to_each
  send_to_each-Fixed [] w = Fixed-skip f
  send_to_each-Fixed (i ∷ centers) w =
      search (Fixed-bind, copy_stream-Fixed, send_on-Fixed, send_to_each-Fixed centers w)

  send_and_drop-Fixed : (w : Writer) → Fixed f (send_and_drop w)
  unfolding send_and_drop send_to_ics_center
  send_and_drop-Fixed w =
      search (Fixed-bind, Fixed-get_world, holding-Fixed, drop_stream-Fixed, send_to_each-Fixed)

  pub forward_to_ics_center-Fixed : (i : ℕ) → Fixed f (forward_to_ics_center i)
  unfolding forward_to_ics_center
  forward_to_ics_center-Fixed i =
      search (fixed, new_message-Fixed, build-Fixed, send_and_drop-Fixed) depth 20

  pub onoff_line_to_ics_center-Fixed : (i status : ℕ) → Fixed f (onoff_line_to_ics_center i status)
  unfolding onoff_line_to_ics_center
  onoff_line_to_ics_center-Fixed i status =
      search (fixed, new_message-Fixed, build-Fixed, send_and_drop-Fixed) depth 20
