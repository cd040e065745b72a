-- ===== src/Protocol/Stream/Moves.antt =====
-- Moving the position over what is known to stand there.
use lemon_server.Common.{
  ◌-◌, ℕ, ◌<◌, ◌≡◌, ◌∙◌, ap, refl, ◌++◌, length, length-append, append_assoc, arith,
}
use lemon_server.Common.Bytes.{Bytes, le_bytes, take-append_at, drop-append_at}
use lemon_server.Protocol.Errors.{ok}
use lemon_server.Protocol.Head.{IcsMsgHead}
use lemon_server.Protocol.Stream.{move_forward, move_forward_string, move_back}
use lemon_server.Protocol.Stream.Room.{short}
use lemon_server.Protocol.Stream.RoundTrip.{at_pos, get_number_at}

pub move_forward_at :
    (size : ℕ) (bs : Bytes) (h : IcsMsgHead) (b rest : Bytes)
    → length bs ≡ size
    → move_forward size (at_pos h b (bs ++ rest)) ≡ ok (at_pos h (b ++ bs) rest)
unfolding move_forward
move_forward_at size bs h b rest e =
    rw (take-append_at bs rest e, drop-append_at bs rest e, length-append bs rest)
      (ground (arith, e))

pub move_forward_string_at :
    (s : Bytes) (h : IcsMsgHead) (b rest : Bytes)
    → length s < 256
    → move_forward_string 1 (at_pos h b (short s ++ rest)) ≡ ok (at_pos h (b ++ short s) rest)
unfolding move_forward_string
move_forward_string_at s h b rest len = rw (get_number_at 1 (length s) h b (s ++ rest) len) (
    move_forward_at (length s) s h (b ++ le_bytes 1 (length s)) rest refl
    ∙ ap (λ (x : Bytes). ok (at_pos h x rest)) (append_assoc b (le_bytes 1 (length s)) s))

pub move_back_at :
    (size : ℕ) (bs : Bytes) (h : IcsMsgHead) (b rest : Bytes)
    → length bs ≡ size
    → move_back size (at_pos h (b ++ bs) rest) ≡ ok (at_pos h b (bs ++ rest))
unfolding move_back
move_back_at size bs h b rest e =
    let keep : length b ≡ length (b ++ bs) - size = omega (arith, length-append b bs, e) in
    rw (take-append_at b bs keep, drop-append_at b bs keep) (ground (arith, length-append b bs, e))
