-- ===== src/Center/RemoteProxy/Outgoing/Upgrade.antt =====
-- An upgrade request on its way to a remote proxy server: what `dispatch` writes.
use lemon_server.Common.{
  ℕ, ◌+◌, ◌^◌, ◌≤◌, ◌<◌, ◌≡◌, refl, ◌∙◌, ap, false, true, [], ◌∷◌, ◌++◌, length, append_assoc,
  arith, All, ◌==◌,
}
use lemon_server.Common.Bytes.{Bytes, le_bytes, is_empty, length-le_bytes}
use lemon_server.Center.Monad.{Scene, done, ◌>>=◌, request_rewind}
use lemon_server.Center.Monad.Runs.{Runs, call_runs}
use lemon_server.Center.RemoteProxy.Outgoing.{upgrade_body, with_path, forward_body}
use lemon_server.Center.World.{World, Env}
use lemon_server.Database.{select_file_path, text, int}
use lemon_server.Handler.Steps.{
  read_ok, read_string_ok, request_skip_ok, request_skip_string_ok, lift_ok,
}
use lemon_server.Protocol.Head.{IcsMsgHead}
use lemon_server.Protocol.MessageId.{code, c2t_upgrade_request_0x0201}
use lemon_server.Protocol.Stream.{Writer, put_number, put_string, put_rest}
use lemon_server.Protocol.Stream.Moves.{move_forward_at, move_forward_string_at}
use lemon_server.Protocol.Stream.Room.{
  written, short, put_number_room, put_rest_room, put_string_room,
}
use lemon_server.Protocol.Stream.RoundTrip.{at_pos, get_number_at, get_string_at}

-- The id of an upgrade request.
abbrev pub upgrade_id : Bytes
upgrade_id = le_bytes 2 (code c2t_upgrade_request_0x0201)

-- The message as it comes in: the enterprise, the terminal, the id and the rest.
abbrev pub command : Bytes → Bytes → Bytes → Bytes
command ent gwid rest = short ent ++ (short gwid ++ (upgrade_id ++ rest))

-- What is written: the terminal, the id, the path and the rest.
abbrev pub forwarded : Bytes → Bytes → Bytes → Writer → Writer
forwarded gwid path rest w = written rest (length rest) (
    written (short path) (length path + 1)
      (written upgrade_id 2 (written (short gwid) (length gwid + 1) w)))

module _ (h : IcsMsgHead) (ent gwid path rest : Bytes) (v : World) (out : Writer) where
  abbrev seen : Bytes → Bytes → Scene
  seen b a = record { world = v; request = at_pos h b a; response = out }

  -- In front of the terminal's name, of the message's id and of the rest.
  abbrev past_ent : Bytes
  past_ent = short ent

  abbrev past_gwid : Bytes
  past_gwid = short ent ++ le_bytes 1 (length gwid) ++ gwid

  abbrev past_id : Bytes
  past_id = past_gwid ++ upgrade_id

  abbrev w1 : Writer → Writer
  w1 w = written (short gwid) (length gwid + 1) w

  abbrev w2 : Writer → Writer
  w2 w = written upgrade_id 2 (w1 w)

  abbrev w3 : Writer → Writer
  w3 w = written (short path) (length path + 1) (w2 w)

  upgrade_body_ok :
      (w : Writer) (b a : Bytes)
      → b ++ a ≡ command ent gwid rest
      → length ent < 256
      → length gwid < 256
      → All (λ c. 0 < c) gwid
      → All (λ c. 0 < c) path
      → length gwid + length path + length rest + 4 ≤ w.room
      → upgrade_body path w (seen b a) ≡ done (forwarded gwid path rest w) (seen past_id rest)
  unfolding upgrade_body request_rewind
  upgrade_body_ok w b a all ent_len gwid_len gwid_text path_text room =
      rw
        (
          all,
          ◌>>=◌,
          request_skip_string_ok (seen [] (command ent gwid rest))
              (at_pos h past_ent (short gwid ++ (upgrade_id ++ rest)))
              (move_forward_string_at ent h [] (short gwid ++ (upgrade_id ++ rest)) ent_len),
          read_string_ok (seen past_ent (short gwid ++ (upgrade_id ++ rest))) gwid
              (at_pos h past_gwid (upgrade_id ++ rest))
              (get_string_at 1 gwid h past_ent (upgrade_id ++ rest) gwid_len),
          lift_ok (put_string 1 gwid w) (seen past_gwid (upgrade_id ++ rest)) (w1 w)
              (put_string_room gwid w gwid_text (omega (arith, room))),
          read_ok 2 (seen past_gwid (upgrade_id ++ rest)) (code c2t_upgrade_request_0x0201)
              (at_pos h past_id rest)
              (get_number_at 2 (code c2t_upgrade_request_0x0201) h past_gwid rest
                (unfold code in omega arith)),
          lift_ok (put_number 2 (code c2t_upgrade_request_0x0201) (w1 w)) (seen past_id rest) (w2 w)
              (put_number_room 2 (code c2t_upgrade_request_0x0201) (w1 w) (omega (arith, room))),
          lift_ok (put_string 1 path (w2 w)) (seen past_id rest) (w3 w)
              (put_string_room path (w2 w) path_text (omega (arith, room))),
          lift_ok (put_rest (at_pos h past_id rest) (w3 w)) (seen past_id rest)
              (forwarded gwid path rest w)
              (put_rest_room (at_pos h past_id rest) (w3 w) (omega (arith, room))),
        )
        refl

same_id : (code c2t_upgrade_request_0x0201 == code c2t_upgrade_request_0x0201) ≡ true
unfolding code
same_id = refl

-- The rest of an upgrade request: its number, the file's, and what follows.
abbrev pub request_of : ℕ → ℕ → Bytes → Bytes
request_of req file more = le_bytes 4 req ++ (le_bytes 4 file ++ more)

-- The query of the path.
abbrev pub queried : ℕ → Bytes → World → World
queried file ent v = record v {
  db = v.db ++ record { procedure = select_file_path; args = int file ∷ text ent ∷ [] } ∷ [];
}

module _ (env : Env) (h : IcsMsgHead) (ent gwid path : Bytes) (req file : ℕ) (more : Bytes)
    (v : World) (out : Writer) where
  abbrev rest : Bytes
  rest = request_of req file more

  abbrev scene : Bytes → Bytes → Scene
  scene b a = seen h ent gwid path rest v out b a

  with_path_ok :
      (w : Writer) (b : Bytes)
      → b ++ rest ≡ command ent gwid rest
      → Runs env
      → env.file_path (queried file ent v).db ≡ path
      → is_empty path ≡ false
      → file < 2 ^ 32
      → length ent < 256
      → length gwid < 256
      → All (λ c. 0 < c) gwid
      → All (λ c. 0 < c) path
      → length gwid + length path + length rest + 4 ≤ w.room
      → (s' : Scene) × (with_path env ent w (scene b rest) ≡ done (forwarded gwid path rest w) s')
  unfolding with_path
  with_path_ok w b all runs found some_path file_fits ent_len gwid_len gwid_text path_text room = (
    seen h ent gwid path rest (queried file ent v) out (past_id h ent gwid path rest v out) rest,
    rw
        (
          ◌>>=◌,
          request_skip_ok 4 (scene b rest)
              (at_pos h (b ++ le_bytes 4 req) (le_bytes 4 file ++ more))
              (move_forward_at 4 (le_bytes 4 req) h b (le_bytes 4 file ++ more)
                (length-le_bytes 4 req)),
          read_ok 4 (scene (b ++ le_bytes 4 req) (le_bytes 4 file ++ more)) file
              (at_pos h ((b ++ le_bytes 4 req) ++ le_bytes 4 file) more)
              (get_number_at 4 file h (b ++ le_bytes 4 req) more (omega (arith, file_fits))),
          call_runs env select_file_path (int file ∷ text ent ∷ [])
              (scene ((b ++ le_bytes 4 req) ++ le_bytes 4 file) more) runs,
          found,
          some_path,
        )
        (ap
            (λ (x : Bytes). upgrade_body x w (
              seen h ent gwid path rest (queried file ent v) out
                ((b ++ le_bytes 4 req) ++ le_bytes 4 file) more))
            found
          ∙ upgrade_body_ok h ent gwid path rest (queried file ent v) out w
              ((b ++ le_bytes 4 req) ++ le_bytes 4 file) more
              (append_assoc (b ++ le_bytes 4 req) (le_bytes 4 file) more
                ∙ append_assoc b (le_bytes 4 req) (le_bytes 4 file ++ more)
                ∙ all)
              ent_len gwid_len gwid_text path_text room),
  )

  pub forward_body_ok :
      (w : Writer)
      → Runs env
      → env.file_path (queried file ent v).db ≡ path
      → is_empty path ≡ false
      → file < 2 ^ 32
      → length ent < 256
      → length gwid < 256
      → All (λ c. 0 < c) gwid
      → All (λ c. 0 < c) path
      → length gwid + length path + length rest + 4 ≤ w.room
      → (s' : Scene) × (forward_body env w (scene [] (command ent gwid rest))
          ≡ done (forwarded gwid path rest w) s')
  unfolding forward_body
  forward_body_ok w runs found some_path file_fits ent_len gwid_len gwid_text path_text room =
      let (s', e) =
        with_path_ok w ((short ent ++ short gwid) ++ upgrade_id)
          (append_assoc (short ent ++ short gwid) upgrade_id rest
            ∙ append_assoc (short ent) (short gwid) (upgrade_id ++ rest))
          runs found some_path file_fits ent_len gwid_len gwid_text path_text room in
      (
        s',
        rw
            (
              ◌>>=◌,
              read_string_ok (scene [] (command ent gwid rest)) ent
                  (at_pos h (short ent) (short gwid ++ (upgrade_id ++ rest)))
                  (get_string_at 1 ent h [] (short gwid ++ (upgrade_id ++ rest)) ent_len),
              request_skip_string_ok (scene (short ent) (short gwid ++ (upgrade_id ++ rest)))
                  (at_pos h (short ent ++ short gwid) (upgrade_id ++ rest))
                  (move_forward_string_at gwid h (short ent) (upgrade_id ++ rest) gwid_len),
              read_ok 2 (scene (short ent ++ short gwid) (upgrade_id ++ rest))
                  (code c2t_upgrade_request_0x0201)
                  (at_pos h ((short ent ++ short gwid) ++ upgrade_id) rest)
                  (get_number_at 2 (code c2t_upgrade_request_0x0201) h (short ent ++ short gwid)
                    rest (unfold code in omega arith)),
              same_id,
            )
            e,
      )
