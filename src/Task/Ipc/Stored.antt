-- ===== src/Task/Ipc/Stored.antt =====
-- The arrays of the queues, in which no call puts a message.
use info.Prelude.{
  ℕ, subst, ◌≡◌, sym, ap, ◌∙◌, inl, inr, false, not, Option, none, some, arith, leb, ◌==◌,
  Bool-cases,
}
use info.Prelude.Maps.{put, put_self, put_ne}
use info.Task.Ipc.{
  MessageQueue, Ipc, max_queues, wake, block, copy, sign, send_to, send, receive_from, receive,
  Call, sends, receives, perform, Steps, done, step,
}

-- No message in any array.
unfoldable pub NoneStored : Ipc → Type 0
NoneStored s = (d : ℕ) → (s.queues d).head ≡ (s.queues d).tail

at_queue : (s : Ipc) → NoneStored s → (d : ℕ) → (s.queues d).head ≡ (s.queues d).tail
unfolding NoneStored
at_queue s k = k

NoneStored-put :
    (d : ℕ) (f : ℕ → MessageQueue) (q : MessageQueue)
    → ((i : ℕ) → (f i).head ≡ (f i).tail)
    → q.head ≡ q.tail
    → (i : ℕ) → (put f d q i).head ≡ (put f d q i).tail
NoneStored-put d f q all new i = elim (Bool-cases (d == i)) [
  | inl e ↦
      let same : d ≡ i = ground arith in
      subst (λ (r : MessageQueue). r.head ≡ r.tail)
        (sym (ap (put f d q) (sym same) ∙ put_self f d q)) new
  | inr e ↦
      subst (λ (r : MessageQueue). r.head ≡ r.tail)
        (sym (put_ne f {i = d} {j = i} q (λ x. absurd (ground arith)))) (all i)
]

send_to-NoneStored :
    (d p m : ℕ) (s : Ipc) (waiting : Option ℕ)
    → NoneStored s
    → NoneStored (send_to waiting d p m s).1
unfolding NoneStored send_to wake block copy
send_to-NoneStored d p m s (some r) k = NoneStored-put d s.queues _ k (k d)
send_to-NoneStored d p m s none k = NoneStored-put d s.queues _ k (k d)

receive_from-NoneStored :
    (d p m : ℕ) (s : Ipc) (waiting : Option ℕ)
    → NoneStored s
    → NoneStored (receive_from waiting d p m s).1
unfolding NoneStored receive_from wake block copy sign
receive_from-NoneStored d p m s (some r) k = NoneStored-put d s.queues _ k (k d)
receive_from-NoneStored d p m s none k = NoneStored-put d s.queues _ k (k d)

sign-NoneStored : (p m : ℕ) (s : Ipc) → NoneStored s → NoneStored (sign p m s)
unfolding NoneStored sign
sign-NoneStored p m s k = k

send-NoneStored : (p m : ℕ) (s : Ipc) → NoneStored s → NoneStored (send p m s).1
unfolding send
send-NoneStored p m s k = elim (Bool-cases (leb max_queues (s.memory m).dst_pid)) [
  | inl e ↦ rw e (sign-NoneStored p m s k)
  | inr e ↦
      rw e (send_to-NoneStored (s.memory m).dst_pid p m (sign p m s) _ (sign-NoneStored p m s k))
]

receive-NoneStored : (p m : ℕ) (s : Ipc) → NoneStored s → NoneStored (receive p m s).1
unfolding receive
receive-NoneStored p m s k =
    let d : ℕ = (s.pcbs p).pid in
    let q : MessageQueue = s.queues d in
    let nothing : not (q.head == q.tail) ≡ false = ground (arith, at_queue s k d) in
    elim (Bool-cases (leb max_queues d)) [
      | inl e ↦ rw e k
      | inr e ↦ rw (e, nothing) (receive_from-NoneStored d p m s _ k)
    ]

perform-NoneStored : (p : ℕ) (call : Call) (s : Ipc) → NoneStored s → NoneStored (perform p call s)
unfolding perform
perform-NoneStored p (sends m) s = send-NoneStored p m s
perform-NoneStored p (receives m) s = receive-NoneStored p m s

-- If no queue stores a message, none does after any sequence of Sends and Receives: messages
-- pass only by rendezvous.
pub Steps-NoneStored : {s t : Ipc} → Steps s t → NoneStored s → NoneStored t
Steps-NoneStored done k = k
Steps-NoneStored (step {s = s} p call active rest) k =
    Steps-NoneStored rest (perform-NoneStored p call s k)
