-- ===== src/Protocol/Stream/Message.antt =====
-- A message that `serialize` finished is one that the reading constructor accepts.
use lemon_server.Common.{
  ◌≤◌, ◌-◌, ℕ, ◌+◌, ◌-◌, ◌%◌, ◌^◌, ◌≤◌, ◌<◌, ◌≡◌, ◌↔◌, sym, ap, ◌∙◌, [], ◌++◌, length, take, drop,
  length-append, append_assoc, arith,
}
use lemon_server.Common.Bytes.{
  Bytes, le_bytes, le_value, le_value-le_bytes, take-append_at, drop-append_at, same_iff,
}
use lemon_server.Crc.{crc32_code, crc32_code-lt}
use lemon_server.Protocol.Errors.{ok}
use lemon_server.Protocol.Head.{
  IcsMsgHead, IsHead, head_bytes, head_of, head_size, crc_code_size, field, ics_head_protocol_name,
  ics_head_protocol_version, set_length, set_send_num,
}
use lemon_server.Protocol.Head.Layout.{
  head_of-head_bytes, length-head_bytes, set_length-IsHead, set_send_num-IsHead,
}
use lemon_server.Protocol.Stream.{Writer, verify, new_reader, serialize, put_number}

-- A message with the CRC of its front part behind it.
abbrev sealed : Bytes → Bytes
sealed front = front ++ le_bytes 4 (crc32_code front)

length-sealed : (front : Bytes) → length (sealed front) ≡ length front + 4
length-sealed front = omega (arith, length-append front (le_bytes 4 (crc32_code front)))

take-sealed : (front : Bytes) → take (length (sealed front) - 4) (sealed front) ≡ front
take-sealed front = take-append_at front _ (omega (arith, length-sealed front))

field-sealed :
    (front : Bytes) → field (length (sealed front) - 4) 4 (sealed front) ≡ crc32_code front
field-sealed front =
    let crc : Bytes = le_bytes 4 (crc32_code front) in
    let behind : drop (length (sealed front) - 4) (front ++ crc) ≡ crc =
      drop-append_at front crc (omega (arith, length-sealed front)) in
    ap (λ (bs : Bytes). le_value (take 4 bs)) behind
    ∙ le_value-le_bytes 4 (crc32_code front) (crc32_code-lt front)

-- `verify` does not throw exactly if the head has the protocol's name and version, its length is that
-- of the message, and the CRC behind the message is the CRC of what is in front of it.
pub verify_iff :
    (h : IcsMsgHead) (buf : Bytes)
    → (verify h buf ≡ ok tt) ↔ (
        (h.name ≡ ics_head_protocol_name)
        × (h.version ≡ ics_head_protocol_version)
        × (h.length ≡ length buf)
        × (field (h.length - 4) 4 buf ≡ crc32_code (take (length buf - 4) buf)))
unfolding verify
verify_iff h buf = (
  λ e. ground (arith, same_iff h.name ics_head_protocol_name),
  λ e. ground (arith, same_iff h.name ics_head_protocol_name),
)

verify-sealed :
    (h : IcsMsgHead) (front : Bytes)
    → h.name ≡ ics_head_protocol_name
    → h.version ≡ ics_head_protocol_version
    → h.length ≡ length (sealed front)
    → verify h (sealed front) ≡ ok tt
verify-sealed h front name version len =
    (verify_iff h (sealed front)).1
      (name, version, len, rw len (field-sealed front ∙ ap crc32_code (sym (take-sealed front))))

-- The message that lies in the writer's chunk.
abbrev pub message : Writer → Bytes
message w = head_bytes w.head ++ w.body

-- A head that is ready to be sent: well formed, with the protocol's name and version.
pub record IsReady (h : IcsMsgHead) : Type 0 where
  pub form : IsHead h
  pub named : h.name ≡ ics_head_protocol_name
  pub versioned : h.version ≡ ics_head_protocol_version

-- The head that `serialize` leaves over a body of `size` bytes.
abbrev pub stamped : ℕ → ℕ → IcsMsgHead → IcsMsgHead
stamped n size h = set_length (head_size + size + crc_code_size) (set_send_num n h)

stamped-IsHead : (n size : ℕ) (h : IcsMsgHead) → IsHead h → IsHead (stamped n size h)
stamped-IsHead n size h v = set_length-IsHead _ _ (set_send_num-IsHead n h v)

pub serialize_ok :
    (n : ℕ) (w w' : Writer)
    → serialize n w ≡ ok w'
    → (w'.head ≡ stamped n (length w.body) w.head)
      × (message w' ≡ sealed (head_bytes (stamped n (length w.body) w.head) ++ w.body))
      × (w'.room + 4 ≡ w.room)
      × (w'.start ≡ w.start)
unfolding serialize put_number
serialize_ok n w w' e =
    let h = stamped n (length w.body) w.head in
    ground
      (arith, append_assoc (head_bytes h) w.body (le_bytes 4 (crc32_code (head_bytes h ++ w.body))))

pub new_reader_ok :
    (buf : Bytes)
    → 20 ≤ length buf
    → verify (head_of buf) buf ≡ ok tt
    → new_reader buf
      ≡ ok (record {
        head = head_of buf;
        before = [];
        after = take (length buf - head_size - crc_code_size) (drop head_size buf);
      })
unfolding new_reader
new_reader_ok buf long good = ground arith

-- The reading constructor on a sealed message whose head says its length.
new_reader-sealed :
    (h : IcsMsgHead) (body : Bytes)
    → IsReady h
    → h.length ≡ 20 + length body
    → new_reader (sealed (head_bytes h ++ body))
      ≡ ok (record { head = h; before = []; after = body })
new_reader-sealed h body ready len =
    new_reader_ok buf (omega (arith, size))
      (rw head (verify-sealed h front ready.named ready.versioned (omega (arith, size))))
    ∙ (λ i. ok (record { head = head i; before = []; after = rest i }))
  where
    front : Bytes
    front = head_bytes h ++ body

    buf : Bytes
    buf = sealed front

    crc : Bytes
    crc = le_bytes 4 (crc32_code front)

    size : length buf ≡ 20 + length body
    size = omega (
      arith,
      length-sealed front,
      length-append (head_bytes h) body,
      length-head_bytes h ready.form,
    )

    split : buf ≡ head_bytes h ++ (body ++ crc)
    split = append_assoc (head_bytes h) body crc

    head : head_of buf ≡ h
    head = ap head_of split ∙ head_of-head_bytes h (body ++ crc) ready.form

    behind : drop head_size buf ≡ body ++ crc
    behind =
        ap (drop head_size) split
        ∙ drop-append_at (head_bytes h) (body ++ crc) (length-head_bytes h ready.form)

    rest : take (length buf - head_size - crc_code_size) (drop head_size buf) ≡ body
    rest =
        ap (take (length buf - head_size - crc_code_size)) behind
        ∙ take-append_at {n = length buf - head_size - crc_code_size} body crc (omega (arith, size))

serialize-accepted :
    (n : ℕ) (w w' : Writer)
    → IsReady w.head
    → 20 + length w.body < 2 ^ 16
    → serialize n w ≡ ok w'
    → (new_reader (message w') ≡ ok (record { head = w'.head; before = []; after = w.body }))
      × (w'.head.send_num ≡ n % 2 ^ 16)
      × (w'.head.length ≡ 20 + length w.body)
unfolding set_length set_send_num
serialize-accepted n w w' ready small e =
    let (head, bytes, _, _) = serialize_ok n w w' e in
    let h = stamped n (length w.body) w.head in
    let size : h.length ≡ 20 + length w.body = omega arith in
    (
      ap new_reader bytes
          ∙ new_reader-sealed h w.body
              (record {
                form = stamped-IsHead n (length w.body) w.head ready.form;
                named = ready.named;
                versioned = ready.versioned;
              })
              size
          ∙ ap (λ (g : IcsMsgHead). ok (record { head = g; before = []; after = w.body }))
              (sym head),
      ap (λ (g : IcsMsgHead). g.send_num) head,
      ap (λ (g : IcsMsgHead). g.length) head ∙ size,
    )

-- What `serialize` leaves when there is room for the CRC.
pub serialize-room : (n : ℕ) (w : Writer) → 4 ≤ w.room → (w' : Writer) × (serialize n w ≡ ok w')
unfolding serialize put_number
serialize-room n w room =
    let h = stamped n (length w.body) w.head in
    (
      record w {
        head = h;
        body = w.body ++ le_bytes 4 (crc32_code (head_bytes h ++ w.body));
        room = w.room - 4;
      },
      ground arith,
    )

-- A writer over a ready head, with a body that fits 16 bits of message length and room for the four
-- bytes of the CRC: `serialize` does not throw, and the message it leaves in the chunk is accepted
-- by the reading constructor, with the serial number (mod 2^16) and the length in its head, and
-- with exactly the body that was written.
pub new_reader-serialize :
    (n : ℕ) (w : Writer)
    → IsReady w.head
    → 20 + length w.body < 2 ^ 16
    → 4 ≤ w.room
    → (w' : Writer) × (serialize n w ≡ ok w')
      × (new_reader (message w') ≡ ok (record { head = w'.head; before = []; after = w.body }))
      × (w'.head.send_num ≡ n % 2 ^ 16)
      × (w'.head.length ≡ 20 + length w.body)
new_reader-serialize n w ready small room =
    let (w', e) = serialize-room n w room in
    let (accepted, num, len) = serialize-accepted n w w' ready small e in
    (w', e, accepted, num, len)
