-- ===== src/Protocol/Stream/Time.antt =====
-- `IcsDataTime` on the wire: eight bytes.
use lemon_server.Common.{
  ◌≤◌, ◌-◌, ℕ, ◌+◌, ◌*◌, ◌/◌, ◌%◌, ◌^◌, ◌<◌, ◌≡◌, ap, ◌∙◌, ◌++◌, length, drop, append_assoc, arith,
}
use lemon_server.Common.Bytes.{Bytes, le_bytes, drop-append}
use lemon_server.Protocol.Errors.{ok}
use lemon_server.Protocol.Head.{IcsMsgHead}
use lemon_server.Protocol.Stream.{Writer, IcsDataTime, put_time, put_number, get_time, get_number}
use lemon_server.Protocol.Stream.RoundTrip.{at_pos}

-- The fields fit the struct's members.
pub record IsDataTime (t : IcsDataTime) : Type 0 where
  pub year_fits : t.year < 2 ^ 16
  pub month_fits : t.month < 2 ^ 8
  pub day_fits : t.day < 2 ^ 8
  pub hour_fits : t.hour < 2 ^ 8
  pub miniute_fits : t.miniute < 2 ^ 8
  pub sec_fits : t.sec_data < 2 ^ 16

abbrev pub time_bytes : IcsDataTime → Bytes
time_bytes t =
    le_bytes 2 t.year
    ++ (le_bytes 1 t.month
        ++ (le_bytes 1 t.day
            ++ (le_bytes 1 t.hour ++ (le_bytes 1 t.miniute ++ le_bytes 2 t.sec_data))))

-- As the reads and writes build it, from the left.
abbrev pub then_time : Bytes → IcsDataTime → Bytes
then_time b t =
    b
    ++ le_bytes 2 t.year
    ++ le_bytes 1 t.month
    ++ le_bytes 1 t.day
    ++ le_bytes 1 t.hour
    ++ le_bytes 1 t.miniute
    ++ le_bytes 2 t.sec_data

then_time_lem : (b : Bytes) (t : IcsDataTime) → then_time b t ≡ b ++ time_bytes t
then_time_lem b t = simp append_assoc

pub put_time_ok :
    (t : IcsDataTime) (w w' : Writer)
    → put_time t w ≡ ok w'
    → (w'.body ≡ then_time w.body t) × (w'.room + 8 ≡ w.room) × (w'.head ≡ w.head)
unfolding put_time put_number
put_time_ok t w w' e = ground arith

byte : (n : ℕ) → n < 2 ^ 8 → n % 256 + 256 * 0 ≡ n
byte n h = omega arith

word : (n : ℕ) → n < 2 ^ 16 → n % 256 + 256 * (n / 256 % 256 + 256 * 0) ≡ n
word n h = omega arith

pub get_time_at :
    (t : IcsDataTime) (h : IcsMsgHead) (b rest : Bytes)
    → IsDataTime t
    → get_time (at_pos h b (time_bytes t ++ rest)) ≡ ok (t, at_pos h (then_time b t) rest)
unfolding get_time get_number
get_time_at t h b rest v =
    ground
      (arith, byte t.month, byte t.day, byte t.hour, byte t.miniute, word t.year, word t.sec_data)

time-back :
    (t : IcsDataTime) (w w' : Writer) (h : IcsMsgHead) (b rest : Bytes)
    → IsDataTime t
    → put_time t w ≡ ok w'
    → get_time (at_pos h b (drop (length w.body) w'.body ++ rest))
      ≡ ok (t, at_pos h (then_time b t) rest)
time-back t w w' h b rest v e =
    let added : drop (length w.body) w'.body ≡ time_bytes t =
      ap (drop (length w.body)) ((put_time_ok t w w' e).0 ∙ then_time_lem w.body t)
      ∙ drop-append w.body (time_bytes t) in
    rw added (get_time_at t h b rest v)

put_time-room : (t : IcsDataTime) (w : Writer) → 8 ≤ w.room → (w' : Writer) × (put_time t w ≡ ok w')
unfolding put_time put_number
put_time-room t w room =
    (record w { body = then_time w.body t; room = w.room - 2 - 1 - 1 - 1 - 1 - 2 }, ground arith)

-- A time whose fields fit, and room for its eight bytes: `<<` writes it, and `>>` reads the same time
-- from the written bytes, whatever follows them.
pub get_time-put_time :
    (t : IcsDataTime) (w : Writer) (h : IcsMsgHead) (b rest : Bytes)
    → IsDataTime t
    → 8 ≤ w.room
    → (w' : Writer) × (put_time t w ≡ ok w')
      × (get_time (at_pos h b (drop (length w.body) w'.body ++ rest))
          ≡ ok (t, at_pos h (then_time b t) rest))
get_time-put_time t w h b rest v room =
    let (w', e) = put_time-room t w room in (w', e, time-back t w w' h b rest v e)
