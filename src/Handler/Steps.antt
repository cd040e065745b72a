-- ===== src/Handler/Steps.antt =====
-- Running the code of a handler step by step.
use lemon_server.Common.{ℕ, ◌+◌, ◌-◌, ◌≤◌, ◌<◌, All, ◌≡◌, ◌∙◌, ap, [], ◌++◌, length, arith}
use lemon_server.Common.Bytes.{le_bytes}
use lemon_server.Common.Bytes.{Bytes}
use lemon_server.Handler.{
  M, Scene, Out, done, raised, ◌>>=◌, read, read_string, read_time, lift_read, lift_write,
  request_empty, write, write_string, request_skip, request_skip_string, request_back, lift_move,
  lift,
}
use lemon_server.Protocol.Stream.Room.{written, short, put_string_room}
use lemon_server.Protocol.Errors.{Exception, Result, ok, throw}
use lemon_server.Protocol.Stream.{
  Writer, Reader, IcsDataTime, get_time, get_number, get_string, assert_empty, put_number,
  move_forward, move_forward_string, move_back,
}

pub read_time_ok :
    {W : Type 0} (s : Scene W) (t : IcsDataTime) (r : Reader)
    → get_time s.request ≡ ok (t, r)
    → read_time s ≡ done t (record s { request = r })
unfolding read_time
read_time_ok s t r e = ap (λ (q : Result (IcsDataTime × Reader)). lift_read q s) e

pub read_ok :
    {W : Type 0} (size : ℕ) (s : Scene W) (n : ℕ) (r : Reader)
    → get_number size s.request ≡ ok (n, r)
    → read size s ≡ done n (record s { request = r })
unfolding read
read_ok size s n r e = ap (λ (q : Result (ℕ × Reader)). lift_read q s) e

pub bind_done :
    {W A B : Type 0} (m : M W A) (f : A → M W B) (s : Scene W) (a : A) {s' : Scene W}
    → m s ≡ done a s'
    → (m >>= f) s ≡ f a s'
bind_done {W} {A} {B} m f s a e =
    ap
      (λ (o : Out W A). elim o as (λ _. Out W B) [ done a s' ↦ f a s' | raised e s' ↦ raised e s' ])
      e

pub bind_raised :
    {W A B : Type 0} (m : M W A) (f : A → M W B) (s : Scene W) (e : Exception) {s' : Scene W}
    → m s ≡ raised e s'
    → (m >>= f) s ≡ raised e s'
bind_raised {W} {A} {B} m f s e h =
    ap
      (λ (o : Out W A). elim o as (λ _. Out W B) [ done a s' ↦ f a s' | raised e s' ↦ raised e s' ])
      h

pub read_string_ok :
    {W : Type 0} (s : Scene W) (b : Bytes) (r : Reader)
    → get_string 1 s.request ≡ ok (b, r)
    → read_string s ≡ done b (record s { request = r })
unfolding read_string
read_string_ok s b r e = ap (λ (q : Result (Bytes × Reader)). lift_read q s) e

pub read_string_throw :
    {W : Type 0} (s : Scene W) (e : Exception)
    → get_string 1 s.request ≡ throw e
    → read_string s ≡ raised e s
unfolding read_string
read_string_throw s e h = ap (λ (q : Result (Bytes × Reader)). lift_read q s) h

pub request_empty_ok :
    {W : Type 0} (s : Scene W) → s.request.after ≡ [] → request_empty s ≡ done tt s
unfolding request_empty assert_empty
request_empty_ok s e = ground arith

pub write_ok :
    {W : Type 0} (size n : ℕ) (s : Scene W)
    → size ≤ s.response.room
    → write size n s
      ≡ done tt (record s {
        response = record (s.response) {
          body = s.response.body ++ le_bytes size n;
          room = s.response.room - size;
        };
      })
unfolding write put_number
write_ok size n s h = ground arith

-- The scene with something written into the response.
abbrev pub wrote : {W : Type 0} → Bytes → ℕ → Scene W → Scene W
wrote bs size s = record s { response = written bs size s.response }

pub write_string_ok :
    {W : Type 0} (text : Bytes) (s : Scene W)
    → All (λ c. 0 < c) text
    → length text + 1 ≤ s.response.room
    → write_string text s ≡ done tt (wrote (short text) (length text + 1) s)
unfolding write_string
write_string_ok text s nonzero h =
    ap (λ (q : Result Writer). lift_write q s) (put_string_room text s.response nonzero h)

-- A step that is done, and what follows it.
pub step :
    {W A B : Type 0} (m : M W A) (f : A → M W B) (s : Scene W) (a : A) (s' : Scene W)
    (out : Out W B)
    → m s ≡ done a s'
    → f a s' ≡ out
    → (m >>= f) s ≡ out
step {W} {A} {B} m f s a s' out e rest =
    ap
      (λ (o : Out W A). elim o as (λ _. Out W B) [ done a s' ↦ f a s' | raised e s' ↦ raised e s' ])
      e
    ∙ rest

pub request_skip_ok :
    {W : Type 0} (size : ℕ) (s : Scene W) (r : Reader)
    → move_forward size s.request ≡ ok r
    → request_skip size s ≡ done tt (record s { request = r })
unfolding request_skip
request_skip_ok size s r e = ap (λ (q : Result Reader). lift_move q s) e

pub request_skip_string_ok :
    {W : Type 0} (s : Scene W) (r : Reader)
    → move_forward_string 1 s.request ≡ ok r
    → request_skip_string s ≡ done tt (record s { request = r })
unfolding request_skip_string
request_skip_string_ok s r e = ap (λ (q : Result Reader). lift_move q s) e

pub request_back_ok :
    {W : Type 0} (size : ℕ) (s : Scene W) (r : Reader)
    → move_back size s.request ≡ ok r
    → request_back size s ≡ done tt (record s { request = r })
unfolding request_back
request_back_ok size s r e = ap (λ (q : Result Reader). lift_move q s) e

pub lift_ok : {W A : Type 0} (q : Result A) (s : Scene W) (a : A) → q ≡ ok a → lift q s ≡ done a s
unfolding lift
lift_ok q s a e = ap (λ (x : Result _). lift x s) e
