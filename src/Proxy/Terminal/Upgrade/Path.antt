-- ===== src/Proxy/Terminal/Upgrade/Path.antt =====
-- An upgrade request that the center forwarded: what the proxy server makes of it.
use lemon_server.Common.{
  ℕ, ◌+◌, ◌^◌, ◌≤◌, ◌<◌, ◌≡◌, refl, ◌∙◌, ap, false, [], ◌∷◌, ◌++◌, length, append_assoc, arith, All,
}
use lemon_server.Common.Bytes.{Bytes, le_bytes, is_empty, length-le_bytes}
use lemon_server.Center.Monad
use lemon_server.Center.Monad.Runs.{Runs}
use lemon_server.Center.RemoteProxy.Outgoing.{forward_body}
use lemon_server.Center.RemoteProxy.Outgoing.Upgrade.{
  upgrade_id, command, forwarded, request_of, queried, forward_body_ok,
}
use lemon_server.Center.World
use lemon_server.Files.{load_file_info}
use lemon_server.Handler.Steps.{read_ok, read_string_ok, request_skip_ok, request_back_ok}
use lemon_server.Protocol.Errors.{ok}
use lemon_server.Protocol.Head.{IcsMsgHead}
use lemon_server.Protocol.MessageId.{code, c2t_upgrade_request_0x0201}
use lemon_server.Protocol.Stream.{Reader, Writer, get_number, get_string, move_back}
use lemon_server.Protocol.Stream.Moves.{move_forward_at, move_back_at}
use lemon_server.Protocol.Stream.Room.{short}
use lemon_server.Protocol.Stream.RoundTrip.{at_pos, get_number_at, get_string_at}
use lemon_server.Proxy.Monad.{Scene, done, ◌>>=◌}
use lemon_server.Proxy.Terminal.Upgrade.{load_upgrade, loaded}
use lemon_server.Proxy.World.{Env}

module _ (env : Env) (h : IcsMsgHead) (path : Bytes) (req file : ℕ) (more : Bytes) (t : Scene) where
  abbrev seen : Bytes → Bytes → Scene
  seen b a = record t { request = at_pos h b a }

  back_ok :
      (b : Bytes)
      → move_back 8 (at_pos h ((b ++ le_bytes 4 req) ++ le_bytes 4 file) more)
        ≡ ok (at_pos h b (request_of req file more))
  back_ok b =
      ap (λ (x : Bytes). move_back 8 (at_pos h x more))
        (append_assoc b (le_bytes 4 req) (le_bytes 4 file))
      ∙ move_back_at 8 (le_bytes 4 req ++ le_bytes 4 file) h b more refl

  -- Behind the path.
  abbrev front : Bytes → Bytes
  front b = b ++ le_bytes 1 (length path) ++ path

  load_upgrade_ok :
      (b : Bytes)
      → file < 2 ^ 32
      → length path < 256
      → load_upgrade env (seen b (short path ++ request_of req file more))
        ≡ loaded
            (load_file_info env.open_file file (env.filedir ++ b'/' ∷ path) t.world.files)
            (seen (b ++ le_bytes 1 (length path) ++ path) (request_of req file more))
  unfolding load_upgrade
  load_upgrade_ok b file_fits len =
      rw
        (
          ◌>>=◌,
          read_string_ok (seen b (short path ++ request_of req file more)) path
              (at_pos h (front b) (request_of req file more))
              (get_string_at 1 path h b (request_of req file more) len),
          request_skip_ok 4 (seen (front b) (request_of req file more))
              (at_pos h (front b ++ le_bytes 4 req) (le_bytes 4 file ++ more))
              (move_forward_at 4 (le_bytes 4 req) h (front b) (le_bytes 4 file ++ more)
                (length-le_bytes 4 req)),
          read_ok 4 (seen (front b ++ le_bytes 4 req) (le_bytes 4 file ++ more)) file
              (at_pos h ((front b ++ le_bytes 4 req) ++ le_bytes 4 file) more)
              (get_number_at 4 file h (front b ++ le_bytes 4 req) more (omega (arith, file_fits))),
          request_back_ok 8 (seen ((front b ++ le_bytes 4 req) ++ le_bytes 4 file) more)
              (at_pos h (front b) (request_of req file more)) (back_ok (front b)),
        )
        refl

-- An upgrade request comes to the center for a terminal of a remote proxy server: with the
-- enterprise's and the terminal's name, the request's and the file's number, and whatever follows. Where no
-- statement fails, the database has a path for the file and the enterprise, names and path have no NUL
-- bytes and less than 256 bytes, and the empty stream has room, the center writes a message without a throw; and
-- from that message the proxy server reads the terminal's name and the id, loads the file with that
-- number from that path under its own directory, and if this succeeds is left with exactly the
-- request's rest.
pub upgrade_path :
    (center : World.Env) (proxy : Env) (h h' : IcsMsgHead) (ent gwid path : Bytes) (req file : ℕ)
    (more : Bytes) (v : World.World) (out w : Writer) (t : Scene)
    → w.body ≡ []
    → Runs center
    → center.file_path (queried file ent v).db ≡ path
    → is_empty path ≡ false
    → file < 2 ^ 32
    → length ent < 256
    → length gwid < 256
    → length path < 256
    → All (λ c. 0 < c) gwid
    → All (λ c. 0 < c) path
    → length gwid + length path + length (request_of req file more) + 4 ≤ w.room
    → (w' : Writer) × (s' : Monad.Scene) × (r1 : Reader) × (r2 : Reader) × (r3 : Reader)
      × (forward_body center w (record {
        world = v;
        request = at_pos h [] (command ent gwid (request_of req file more));
        response = out;
      })
          ≡ Monad.done w' s')
      × (get_string 1 (at_pos h' [] w'.body) ≡ ok (gwid, r1))
      × (get_number 2 r1 ≡ ok (code c2t_upgrade_request_0x0201, r2))
      × (load_upgrade proxy (record t { request = r2 })
          ≡ loaded
              (load_file_info proxy.open_file file (proxy.filedir ++ b'/' ∷ path) t.world.files)
              (record t { request = r3 }))
      × (r3.after ≡ request_of req file more)
upgrade_path center proxy h h' ent gwid path req file more v out w t empty runs found some_path
      file_fits ent_len gwid_len path_len gwid_text path_text room =
    let (s', e) =
      forward_body_ok center h ent gwid path req file more v out w runs found some_path file_fits
        ent_len gwid_len gwid_text path_text room in
    let rest = request_of req file more in
    (
      forwarded gwid path rest w,
      s',
      at_pos h' (short gwid) (upgrade_id ++ (short path ++ rest)),
      at_pos h' (short gwid ++ upgrade_id) (short path ++ rest),
      at_pos h' ((short gwid ++ upgrade_id) ++ le_bytes 1 (length path) ++ path) rest,
      e,
      ap (λ (bs : Bytes). get_string 1 (at_pos h' [] bs)) layout
          ∙ get_string_at 1 gwid h' [] (upgrade_id ++ (short path ++ rest)) gwid_len,
      get_number_at 2 (code c2t_upgrade_request_0x0201) h' (short gwid) (short path ++ rest)
          (unfold code in omega arith),
      load_upgrade_ok proxy h' path req file more t (short gwid ++ upgrade_id) file_fits path_len,
      refl,
    )
  where
    layout :
        (forwarded gwid path (request_of req file more) w).body
        ≡ short gwid ++ (upgrade_id ++ (short path ++ request_of req file more))
    layout =
        ap
          (λ (bs : Bytes).
            (((bs ++ short gwid) ++ upgrade_id) ++ short path) ++ request_of req file more)
          empty
        ∙ append_assoc (short gwid ++ upgrade_id) (short path) (request_of req file more)
        ∙ append_assoc (short gwid) upgrade_id (short path ++ request_of req file more)
