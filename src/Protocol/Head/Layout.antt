-- ===== src/Protocol/Head/Layout.antt =====
-- The memory layout of the head, and the flag bits.
use lemon_server.Common.{
  ℕ, ◌+◌, ◌*◌, ◌/◌, ◌%◌, ◌^◌, ◌<◌, ◌≡◌, refl, [], ◌∷◌, ◌==◌, ◌++◌, length, arith,
}
use lemon_server.Common.Bytes.{Bytes}
use lemon_server.Protocol.Head.{
  IcsMsgHead, IsHead, new_head, head_bytes, head_of, head_size, set_flag, set_msg_id, set_length,
  set_send_num, set_ack_num, is_response, need_response,
}

word : (n : ℕ) → n < 2 ^ 16 → n % 256 + 256 * (n / 256 % 256 + 256 * 0) ≡ n
word n h = omega arith

-- The head with its fields written out.
abbrev of_fields : Bytes → ℕ → ℕ → ℕ → ℕ → ℕ → ℕ → IcsMsgHead
of_fields nm v l f s k i = record {
  name = nm;
  version = v;
  length = l;
  flag_data = f;
  send_num = s;
  ack_num = k;
  id = i;
}

head_of-fields :
    (nm : Bytes) (v l f s k i : ℕ) (rest : Bytes)
    → IsHead (of_fields nm v l f s k i)
    → head_of (head_bytes (of_fields nm v l f s k i) ++ rest) ≡ of_fields nm v l f s k i
unfolding head_of head_bytes
head_of-fields (a ∷ b ∷ c ∷ d ∷ []) v l f s k i rest h = λ j.
    of_fields (a ∷ b ∷ c ∷ d ∷ []) (word v h.version_fits j) (word l h.length_fits j)
      (word f h.flag_fits j) (word s h.send_fits j) (word k h.ack_fits j) (word i h.id_fits j)
head_of-fields [] v l f s k i rest h = absurd (omega (arith, h.name_size))
head_of-fields (a ∷ []) v l f s k i rest h = absurd (omega (arith, h.name_size))
head_of-fields (a ∷ b ∷ []) v l f s k i rest h = absurd (omega (arith, h.name_size))
head_of-fields (a ∷ b ∷ c ∷ []) v l f s k i rest h = absurd (omega (arith, h.name_size))
head_of-fields (a ∷ b ∷ c ∷ d ∷ e ∷ g) v l f s k i rest h = absurd (omega (arith, h.name_size))

-- The head at the front of some memory is read back from it.
pub head_of-head_bytes :
    (h : IcsMsgHead) (rest : Bytes) → IsHead h → head_of (head_bytes h ++ rest) ≡ h
head_of-head_bytes h rest v =
    head_of-fields h.name h.version h.length h.flag_data h.send_num h.ack_num h.id rest v

length-fields :
    (nm : Bytes) (v l f s k i : ℕ)
    → length nm ≡ 4
    → length (head_bytes (of_fields nm v l f s k i)) ≡ head_size
unfolding head_bytes
length-fields (a ∷ b ∷ c ∷ d ∷ []) v l f s k i h = refl
length-fields [] v l f s k i h = absurd (omega arith)
length-fields (a ∷ []) v l f s k i h = absurd (omega arith)
length-fields (a ∷ b ∷ []) v l f s k i h = absurd (omega arith)
length-fields (a ∷ b ∷ c ∷ []) v l f s k i h = absurd (omega arith)
length-fields (a ∷ b ∷ c ∷ d ∷ e ∷ g) v l f s k i h = absurd (omega arith)

pub length-head_bytes : (h : IcsMsgHead) → IsHead h → length (head_bytes h) ≡ head_size
length-head_bytes h v =
    length-fields h.name h.version h.length h.flag_data h.send_num h.ack_num h.id v.name_size

pub new_head-IsHead : IsHead new_head
unfolding new_head
new_head-IsHead = omega arith

pub set_flag-IsHead :
    (encrypt ack need : ℕ) (h : IcsMsgHead) → IsHead h → IsHead (set_flag encrypt ack need h)
unfolding set_flag
set_flag-IsHead encrypt ack need h v = omega arith

pub set_msg_id-IsHead : (id : ℕ) (h : IcsMsgHead) → IsHead h → IsHead (set_msg_id id h)
unfolding set_msg_id
set_msg_id-IsHead id h v = omega arith

pub set_length-IsHead : (len : ℕ) (h : IcsMsgHead) → IsHead h → IsHead (set_length len h)
unfolding set_length
set_length-IsHead len h v = omega arith

pub set_send_num-IsHead : (num : ℕ) (h : IcsMsgHead) → IsHead h → IsHead (set_send_num num h)
unfolding set_send_num
set_send_num-IsHead num h v = omega arith

pub set_ack_num-IsHead : (num : ℕ) (h : IcsMsgHead) → IsHead h → IsHead (set_ack_num num h)
unfolding set_ack_num
set_ack_num-IsHead num h v = omega arith

-- What `setFlag` stores is what the flag queries read: a message counts as a response exactly if
-- the ack bit was set, and asks for a response exactly if it is a request with the response bit.
pub set_flag_read :
    (encrypt ack need : ℕ) (h : IcsMsgHead)
    → ack < 2
    → need < 2
    → (is_response (set_flag encrypt ack need h) ≡ (ack == 1))
      × (need_response (set_flag encrypt ack need h) ≡ (ack + 2 * need == 2))
unfolding set_flag is_response need_response
set_flag_read encrypt ack need h ha hn = (ground arith, ground arith)
