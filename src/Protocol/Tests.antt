-- ===== src/Protocol/Tests.antt =====
-- Runs of the protocol's code on concrete messages.
use lemon_server.Common.{
  drop, ℕ, zero, suc, ◌+◌, ◌%◌, ◌^◌, ◌<◌, ◌≡◌, All, refl, [], ◌∷◌, ◌++◌, some, length, arith,
}
use lemon_server.Common.Bytes.{Bytes}
use lemon_server.Protocol.Errors.{ok}
use lemon_server.Protocol.Head.{new_head}
use lemon_server.Protocol.Head.Layout.{new_head-IsHead}
use lemon_server.Protocol.Stream.{Reader, Writer, new_reader, serialize, put_string, get_string}
use lemon_server.Protocol.Stream.Message.{message, IsReady, new_reader-serialize}
use lemon_server.Protocol.Stream.RoundTrip.{at_pos, get_string-put_string, get_string-put_long}

abbrev draft : Writer
draft = record { start = some 4096; head = new_head; body = 1 ∷ 2 ∷ []; room = 40 }

draft-IsReady : IsReady new_head
unfolding new_head
draft-IsReady = record { form = new_head-IsHead; named = refl; versioned = refl }

new_reader-serialize_example :
    (w' : Writer) × (serialize 7 draft ≡ ok w')
    × (new_reader (message w') ≡ ok (record { head = w'.head; before = []; after = 1 ∷ 2 ∷ [] }))
    × (w'.head.send_num ≡ 7 % 2 ^ 16)
    × (w'.head.length ≡ 22)
new_reader-serialize_example =
    new_reader-serialize 7 draft draft-IsReady (omega arith) (omega arith)

abbrev hello : Bytes
hello = b'h' ∷ b'i' ∷ []

get_string-put_string_example :
    (w' : Writer) × (put_string 1 hello draft ≡ ok w')
    × (get_string 1 (at_pos new_head [] (drop 2 w'.body ++ 9 ∷ []))
        ≡ ok (hello, at_pos new_head (2 ∷ b'h' ∷ b'i' ∷ []) (9 ∷ [])))
get_string-put_string_example =
    get_string-put_string 1 hello draft new_head [] (9 ∷ []) (omega arith, (omega arith, tt))
      (omega arith) (omega arith)

-- `n` letters.
abbrev letters : ℕ → Bytes
letters zero = []
letters (suc n) = b'a' ∷ letters n

letters-All : (n : ℕ) → All (λ c. 0 < c) (letters n)
letters-All zero = tt
letters-All (suc n) = (omega arith, letters-All n)

abbrev roomy : Writer
roomy = record { start = some 4096; head = new_head; body = []; room = 400 }

-- 260 letters: four of them come back.
get_string-put_long_example :
    (w' : Writer) × (r : Reader) × (put_string 1 (letters 260) roomy ≡ ok w')
    × (get_string 1 (at_pos new_head [] (w'.body ++ [])) ≡ ok (letters 4, r))
    × (r.after ≡ letters 256 ++ [])
    × (length (letters 256) + 4 ≡ 260)
get_string-put_long_example =
    get_string-put_long (letters 260) roomy new_head [] [] (letters-All 260) (omega arith)
      (omega arith)
