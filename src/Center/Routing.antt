-- ===== src/Center/Routing.antt =====
-- src/center/icslocalserver.cpp: which connection object a gateway id leads to. A part of the server's
-- state, with what must hold of it between two events.
pub mod Changes
pub mod Keeps
use lemon_server.Common.{
  ℕ, suc, ◌<◌, ◌≡◌, ◌≢◌, Bool, true, false, [], Option, none, some, ◌==◌, if◌then◌else◌,
}
use lemon_server.Common.Bytes.{Bytes}
use lemon_server.Center.World.{
  World, Client, Role, terminal_client, ConnectionMap, find, insert, erase,
}

-- What matters of a connection object.
pub record Core : Type 0 where
  pub role : Role
  pub valid : Bool
  pub replaced : Bool
  pub gwid : Bytes

pub record Route : Type 0 where
  pub core : ℕ → Core
  pub count : ℕ
  pub table : ConnectionMap

abbrev pub core_of : Client → Core
core_of c = record { role = c.role; valid = c.valid; replaced = c.replaced; gwid = c.gwid }

abbrev pub route : World → Route
route w = record {
  core = λ j. core_of (w.clients j);
  count = w.client_count;
  table = w.terminal_conn_map;
}

-- No entry has the empty id; each leads to an object; a valid object is not replaced; and where an
-- entry leads to a terminal's own connection, that is valid, and has the entry's id.
pub record Routed (r : Route) : Type 0 where
  pub named : find [] r.table ≡ none
  pub objects : (g : Bytes) (i : ℕ) → find g r.table ≡ some i → i < r.count
  pub alive : (i : ℕ) → (r.core i).valid ≡ true → (r.core i).replaced ≡ false
  pub owned :
      (g : Bytes) (i : ℕ)
      → find g r.table ≡ some i
      → (r.core i).role ≡ terminal_client
      → ((r.core i).valid ≡ true) × ((r.core i).gwid ≡ g)

-- The message that is handled came in on object `self`, of class `role`; if that is a terminal, the
-- connection is valid.
pub record Session (role : Role) (self : ℕ) (r : Route) : Type 0 where
  pub routed : Routed r
  pub object : self < r.count
  pub class : (r.core self).role ≡ role
  pub valid : role ≡ terminal_client → (r.core self).valid ≡ true

-- No entry leads to the object, if it is a terminal's connection.
abbrev pub Unlisted : ℕ → Route → Type 0
Unlisted i r = (g : Bytes) → find g r.table ≡ some i → (r.core i).role ≢ terminal_client

abbrev pub set_core : ℕ → Core → Route → Route
set_core i c r = record r { core = λ j. if i == j then c else r.core j }

-- The connection is closed.
abbrev pub closed : ℕ → Route → Route
closed i r = set_core i (record (r.core i) { valid = false }) r

-- ... and its entry is taken out.
abbrev pub erased : ℕ → Route → Route
erased i r = record (set_core i (record (r.core i) { valid = false; gwid = [] }) r) {
  table = erase (r.core i).gwid r.table;
}

-- The connection makes place for another one of its terminal.
abbrev pub retired : ℕ → Route → Route
retired i r = set_core i (record (r.core i) { valid = false; replaced = true }) r

abbrev pub retired_if : Option ℕ → Route → Route
retired_if none r = r
retired_if (some i) r = retired i r

abbrev pub entered : Bytes → ℕ → Route → Route
entered g conn r = record (retired_if (find g r.table) r) { table = insert g conn r.table }

-- While object `self` authenticates: it has taken the id `g`, and no entry leads to it.
pub record Claim (g : Bytes) (role : Role) (self : ℕ) (r : Route) : Type 0 where
  pub session : Session role self r
  pub mine : (r.core self).gwid ≡ g
  pub free : Unlisted self r

-- A new object.
abbrev pub added : Core → Route → Route
added c r = record r { core = λ j. if r.count == j then c else r.core j; count = suc r.count }
