-- ===== src/Proxy/Registry.antt =====
-- src/proxy/icsproxyserver.cpp: the maps of `IcsPorxyServer`, and the virtual `error()` with its callers in
-- src/module/icsconnection.hpp. None of these throws.
pub mod Turns
use lemon_server.Common.{
  ℕ, ◌+◌, true, false, not, ◌&&◌, List, [], ◌∷◌, Option, none, some, ltb, ◌==◌, if◌then◌else◌,
}
use lemon_server.Common.Bytes.{Bytes, is_empty}
use lemon_server.Center.World.{find, insert, erase}
use lemon_server.Proxy.Centers.{onoff_line_to_ics_center, not_throwing}
use lemon_server.Proxy.World.{World, Role, proxy_terminal_client, ics_center, change_client}

-- m_timeoutMax
abbrev timeout_max : ℕ
timeout_max = 2

unfoldable pub find_terminal_client : Bytes → World → Option ℕ
unfolding find
find_terminal_client gwid w = find gwid w.terminal_conn_map

unfoldable pub remove_terminal_client : Bytes → World → World
unfolding erase
remove_terminal_client gwid w = record w { terminal_conn_map = erase gwid w.terminal_conn_map }

-- `std::set::emplace` and `erase`.
unfoldable pub with_center : ℕ → List ℕ → List ℕ
with_center i [] = i ∷ []
with_center i (j ∷ js) = let rest = with_center i js in if j == i then j ∷ js else j ∷ rest

unfoldable pub without_center : ℕ → List ℕ → List ℕ
without_center i [] = []
without_center i (j ∷ js) = let rest = without_center i js in if j == i then rest else j ∷ rest

unfoldable pub add_ics_center_conn : ℕ → World → World
unfolding with_center
add_ics_center_conn i w = record w { ics_center_conn_map = with_center i w.ics_center_conn_map }

unfoldable pub remove_ics_center_conn : ℕ → World → World
unfolding without_center
remove_ics_center_conn i w = record w {
  ics_center_conn_map = without_center i w.ics_center_conn_map;
}

-- `IcsProxyTerminalClient::error`. If the centers cannot be told, the program is terminated.
unfoldable pub terminal_error : ℕ → World → World
unfolding remove_terminal_client not_throwing onoff_line_to_ics_center
terminal_error i w =
    let c = w.clients i in
    if not c.replaced && not (is_empty c.gwid)
    then change_client i (λ c. record c { gwid = [] })
        (not_throwing (onoff_line_to_ics_center i 1) (remove_terminal_client c.gwid w))
    else w

-- The virtual call `error()`.
unfoldable pub error_by : Role → ℕ → World → World
unfolding terminal_error remove_ics_center_conn
error_by proxy_terminal_client i w = terminal_error i w
error_by ics_center i w = remove_ics_center_conn i w

-- `do_error`; closing the socket changes nothing here.
unfoldable pub do_error : ℕ → World → World
unfolding error_by
do_error i w =
    let c = w.clients i in
    if c.valid then error_by c.role i (change_client i (λ c. record c { valid = false }) w) else w

-- `replaced`
unfoldable pub replace : ℕ → World → World
unfolding do_error
replace i w = do_error i (change_client i (λ c. record c { replaced = true }) w)

replace_old : Option ℕ → World → World
unfolding replace
replace_old none w = w
replace_old (some old) w = replace old w

-- `addTerminalClient`
unfoldable pub add_terminal_client : Bytes → ℕ → World → World
unfolding replace_old find insert
add_terminal_client gwid conn w =
    let w' = replace_old (find gwid w.terminal_conn_map) w in
    record w' { terminal_conn_map = insert gwid conn w'.terminal_conn_map }

-- `timeout`: the new world; its result is whether the connection is valid there.
unfoldable pub timeout : ℕ → World → World
unfolding do_error
timeout i w =
    let c = w.clients i in
    let w' = change_client i (λ c. record c { timeout_count = c.timeout_count + 1 }) w in
    if c.valid then (if ltb timeout_max (c.timeout_count + 1) then do_error i w' else w') else w
