-- ===== src/Connection/Send/Order.antt =====
-- Messages leave in the order in which they were queued, one at a time, and none is left waiting.
use lemon_server.Common.{
  ◌≡◌, refl, sym, ap, ◌∙◌, not, List, [], ◌∷◌, ◌++◌, map, some, append_assoc, arith,
}
use mathlib.Core.List.{map-append}
use lemon_server.Common.Bytes.{Bytes}
use lemon_server.Pool.{MemoryChunk, MemoryPool}
use lemon_server.Connection.Send.{SendArea, new_send_area, is_nil, enqueue, send_done, done_from}

-- A send area with the messages ever queued on it and those completely sent, oldest first.
pub record Trace : Type 0 where
  pub area : SendArea
  pub queued : List Bytes
  pub sent : List Bytes

abbrev contents : List MemoryChunk → List Bytes
contents = map λ c. c.content

pub data Step (t : Trace) : Trace → Type 0 where
  queue :
      (c : MemoryChunk)
      → Step t
          (record { area = enqueue c t.area; queued = t.queued ++ c.content ∷ []; sent = t.sent })
  complete :
      {c : MemoryChunk} {a : SendArea} (p : MemoryPool) {q : MemoryPool}
      → send_done t.area p ≡ some (c, a, q)
      → Step t (record { area = a; queued = t.queued; sent = t.sent ++ c.content ∷ [] })

pub data Reach (s : Trace) : Trace → Type 0 where
  here : Reach s s
  next : {t u : Trace} → Reach s t → Step t u → Reach s u

abbrev pub initial : Trace
initial = record { area = new_send_area; queued = []; sent = [] }

pub record Inv (t : Trace) : Type 0 where
  pub in_order : t.sent ++ contents t.area.send_list ≡ t.queued
  pub busy : t.area.is_sending ≡ not (is_nil t.area.send_list)

enqueue_list : (c : MemoryChunk) (a : SendArea) → (enqueue c a).send_list ≡ a.send_list ++ c ∷ []
unfolding enqueue
enqueue_list c a = ground arith

enqueue_busy :
    (c : MemoryChunk) (a : SendArea)
    → a.is_sending ≡ not (is_nil a.send_list)
    → (enqueue c a).is_sending ≡ not (is_nil (enqueue c a).send_list)
unfolding enqueue
enqueue_busy c a h = ground arith

done_split :
    (a : SendArea) (l : List MemoryChunk) (p : MemoryPool) {c : MemoryChunk} {b : SendArea}
    {q : MemoryPool}
    → done_from a l p ≡ some (c, b, q)
    → (l ≡ c ∷ b.send_list) × (b.is_sending ≡ not (is_nil b.send_list))
unfolding done_from
done_split a [] p e = cc
done_split a (d ∷ rest) p e = ground arith

send_done_split :
    (a : SendArea) (p : MemoryPool) {c : MemoryChunk} {b : SendArea} {q : MemoryPool}
    → send_done a p ≡ some (c, b, q)
    → (a.send_list ≡ c ∷ b.send_list) × (b.is_sending ≡ not (is_nil b.send_list))
unfolding send_done
send_done_split a p {c} {b} {q} e =
    ground (arith, done_split a a.send_list p {c = c} {b = b} {q = q})

Step-Inv : {t u : Trace} → Step t u → Inv t → Inv u
Step-Inv {t} (queue c) v = record {
  in_order =
      ap (λ (l : List MemoryChunk). t.sent ++ contents l) (enqueue_list c t.area)
      ∙ ap (◌++◌ t.sent) (map-append _ t.area.send_list (c ∷ []))
      ∙ sym (append_assoc t.sent (contents t.area.send_list) (c.content ∷ []))
      ∙ ap (λ (l : List Bytes). l ++ c.content ∷ []) v.in_order;
  busy = enqueue_busy c t.area v.busy;
}
Step-Inv {t} (complete {c} {a} p e) v = record {
  in_order =
      append_assoc t.sent (c.content ∷ []) (contents a.send_list)
      ∙ ap (λ (l : List MemoryChunk). t.sent ++ contents l) (sym (send_done_split t.area p e).0)
      ∙ v.in_order;
  busy = (send_done_split t.area p e).1;
}

-- From an idle connection, through any sequence of queued messages and completed sends: what was
-- sent and then what waits are together the messages queued, in their order; and a send is under
-- way exactly if a message waits.
pub Reach-Inv : {t : Trace} → Reach initial t → Inv t
Reach-Inv here = unfold new_send_area in record { in_order = refl; busy = refl }
Reach-Inv (next r st) = Step-Inv st (Reach-Inv r)
