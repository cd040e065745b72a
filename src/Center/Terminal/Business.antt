-- ===== src/Center/Terminal/Business.antt =====
-- src/center/icslocalserver.cpp: `IcsTerminalClient::handleBusinessReport`.
pub mod Repeated
pub mod Routes
use lemon_server.Common.{
  ℕ, zero, suc, ◌+◌, ◌-◌, ◌/◌, ◌%◌, List, [], ◌∷◌, ◌++◌, length, take, ltb, ◌==◌, if◌then◌else◌,
}
use lemon_server.Common.Bytes.{Bytes}
use lemon_server.Center.Monad.{
  M, ◌>>=◌, ◌>>◌, pure, skip, raise, read, read_string, read_time, request_empty, respond,
  get_world, modify, call,
}
use lemon_server.Center.World.{World, Client, Env, set_client}
use lemon_server.Database.{
  sp_business_vehicle, sp_business_pack, sp_business_expressway, sp_weight_report,
  sp_business_overload, sp_business_dayreport, text, int, real, tenths, timestamp,
}
use lemon_server.Protocol.Errors.{unknown_business_type}
use lemon_server.Protocol.Stream.{IcsDataTime}

-- `sprintf("%u", n)`, for numbers of at most `fuel` digits.
unfoldable pub decimal : ℕ → ℕ → Bytes
decimal zero n = []
decimal (suc fuel) n =
    let rest = decimal fuel (n / 10) in
    if ltb n 10 then (48 + n) ∷ [] else rest ++ (48 + n % 10) ∷ []

-- Without its last character, if it has one.
unfoldable pub chopped : Bytes → Bytes
chopped s = take (length s - 1) s

module _ (env : Env) (self : ℕ) where
  abbrev monitor : M Bytes
  monitor = get_world >>= λ w. pure (w.clients self).monitor_id

  abbrev set_last_bus_serial_num : ℕ → World → World
  set_last_bus_serial_num serial w =
      set_client self (record (w.clients self) { last_bus_serial_num = serial }) w

  -- Type 1: a weighbridge.
  vehicle : IcsDataTime → ℕ → M (Unit {0})
  unfolding read read_string call
  vehicle report_time business_no = do
    cargo_num ← read_string
    vehicle_num ← read_string
    consigness ← read_string
    cargo_name ← read_string
    weight1 ← read 4
    weight2 ← read 4
    weight3 ← read 4
    weight4 ← read 4
    unit_price ← read 4
    money ← read 4
    in_out ← read 1
    id ← monitor
    call env sp_business_vehicle (
        text id
        ∷ int business_no
        ∷ text cargo_num
        ∷ text vehicle_num
        ∷ text consigness
        ∷ text cargo_name
        ∷ real weight1
        ∷ real weight2
        ∷ real weight3
        ∷ real weight4
        ∷ real unit_price
        ∷ real money
        ∷ int in_out
        ∷ timestamp report_time
        ∷ timestamp env.now
        ∷ [])

  -- Type 2: packing scales, a statement for each. The scale's number is read and not bound: seven
  -- values go to a statement of eight places, and `db_fails` says what becomes of it.
  unfoldable pub scales : IcsDataTime → ℕ → ℕ → M (Unit {0})
  unfolding read call
  scales report_time business_no zero = skip
  scales report_time business_no (suc n) =
      (do
        number ← read 1
        amount ← read 2
        total_weight ← read 4
        single_weighet ← read 4
        id ← monitor
        call env sp_business_pack (
            text id
            ∷ int business_no
            ∷ int amount
            ∷ real total_weight
            ∷ real single_weighet
            ∷ timestamp report_time
            ∷ timestamp env.now
            ∷ []))
      >> scales report_time business_no n

  pack : IcsDataTime → ℕ → M (Unit {0})
  unfolding read scales
  pack report_time business_no = read 1 >>= scales report_time business_no

  -- `n` numbers of `size` bytes in decimal, each with `sep` behind it, onto `str`.
  unfoldable pub number_list : ℕ → ℕ → ℕ → Bytes → M Bytes
  unfolding read
  number_list size sep zero str = pure str
  number_list size sep (suc n) str =
      read size >>= λ v. number_list size sep n (str ++ decimal 10 v ++ sep ∷ [])

  -- Type 3: a road scale.
  expressway : IcsDataTime → ℕ → M (Unit {0})
  unfolding read number_list call
  expressway report_time business_no = do
    total_weight ← read 4
    speed ← read 2
    axle_num ← read 1
    axle_str ← number_list 2 b',' axle_num []
    type_num ← read 1
    type_str ← number_list 1 b'+' type_num []
    id ← monitor
    call env sp_business_expressway (
        text id
        ∷ int business_no
        ∷ int total_weight
        ∷ tenths speed
        ∷ int axle_num
        ∷ text (chopped axle_str)
        ∷ int type_num
        ∷ text (chopped type_str)
        ∷ timestamp report_time
        ∷ timestamp env.now
        ∷ [])

  -- Type 4: a kitchen waste truck. The flags are bit fields from the lowest bit up.
  weight : IcsDataTime → ℕ → M (Unit {0})
  unfolding read read_string call
  weight report_time business_no = do
    flags ← read 1
    tub_id ← read_string
    tub_volumn ← read 4
    weight ← read 4
    driver_id ← read 4
    position ← read 1
    longitude ← read 4
    latitude ← read 4
    height ← read 4
    speed ← read 4
    id ← monitor
    call env sp_weight_report (
        text id
        ∷ int business_no
        ∷ timestamp report_time
        ∷ timestamp env.now
        ∷ int (flags % 2)
        ∷ int (flags / 2 % 2)
        ∷ int (flags / 4 % 2)
        ∷ int (flags / 8 % 2)
        ∷ int (flags / 16 % 4)
        ∷ text tub_id
        ∷ int tub_volumn
        ∷ int weight
        ∷ int driver_id
        ∷ int (position % 2)
        ∷ int longitude
        ∷ int (position / 2 % 2)
        ∷ int latitude
        ∷ int (position / 4 % 8)
        ∷ int height
        ∷ int speed
        ∷ [])

  -- Type 5: an overload check.
  overload : ℕ → M (Unit {0})
  unfolding read read_string read_time request_empty call
  overload business_no = do
    vehicle_id ← read_string
    check_time2 ← read_time
    total_weight2 ← read 4
    limit_weight2 ← read 4
    axle_count2 ← read 1
    check_time1 ← read_time
    total_weight1 ← read 4
    limit_weight1 ← read 4
    over_weight ← read 4
    axle_count1 ← read 1
    request_empty
    id ← monitor
    call env sp_business_overload (
        text id
        ∷ int business_no
        ∷ timestamp env.now
        ∷ text vehicle_id
        ∷ timestamp check_time1
        ∷ int total_weight1
        ∷ int limit_weight1
        ∷ int axle_count1
        ∷ int over_weight
        ∷ timestamp check_time2
        ∷ int total_weight2
        ∷ int limit_weight2
        ∷ int axle_count2
        ∷ [])

  -- Type 6: the daily report of the overload checks.
  day_report : IcsDataTime → M (Unit {0})
  unfolding read request_empty call
  day_report report_time = do
    vehicle_count ← read 4
    request_empty
    id ← monitor
    call env sp_business_dayreport
        (text id ∷ timestamp env.now ∷ timestamp report_time ∷ int vehicle_count ∷ [])

  pub by_type : IcsDataTime → ℕ → ℕ → M (Unit {0})
  unfolding vehicle pack expressway weight overload day_report
  by_type report_time business_no business_type =
      if business_type == 1
      then vehicle report_time business_no
      else if business_type == 2
      then pack report_time business_no
      else if business_type == 3
      then expressway report_time business_no
      else if business_type == 4
      then weight report_time business_no
      else if business_type == 5
      then overload business_no
      else if business_type == 6
      then day_report report_time
      else raise (unknown_business_type business_type)

  -- What follows the report's three leading values. A report with the number of the one before is
  -- answered by nothing and not stored; the number is noted before the rest is known to be well
  -- formed.
  report : IcsDataTime → ℕ → ℕ → M (Unit {0})
  unfolding respond by_type request_empty
  report report_time business_no business_type = do
    w ← get_world
    if (w.clients self).last_bus_serial_num == business_no then respond 0 else (do
      modify (set_last_bus_serial_num business_no)
      by_type report_time business_no business_type
      request_empty)

  unfoldable pub handle_business_report : M (Unit {0})
  unfolding read_time read report
  handle_business_report = do
    report_time ← read_time
    business_no ← read 4
    business_type ← read 4
    report report_time business_no business_type
