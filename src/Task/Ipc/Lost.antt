-- ===== src/Task/Ipc/Lost.antt =====
-- A sender whose place in the queue another sender takes.
use info.Prelude.{
  ℕ, subst, ◌<◌, ◌≡◌, sym, ap, ◌∙◌, ◌≢◌, inl, inr, not, Option, none, some, arith, leb, ◌==◌,
  Bool-cases,
}
use mathlib.Core.Option.{some-injective}
use info.Prelude.Maps.{put, put_self, put_ne}
use info.Task.Ipc.{
  Message, Pcb, MessageQueue, Ipc, Ending, blocked, max_queues, wake, block, copy, sign, send_to,
  send, take_message, receive_from, receive, Call, sends, receives, perform, Steps, done, step,
}
use info.Task.Ipc.Laws.{send-send_to}

-- The process does not wait at the queue.
abbrev pub NotAt : ℕ → MessageQueue → Type 0
NotAt a q = (q.waiting_sender ≢ some a) × (q.waiting_receiver ≢ some a)

-- The process is blocked and no queue knows it.
pub record Stuck (a : ℕ) (s : Ipc) : Type 0 where
  pub is_blocked : (s.pcbs a).stat ≡ blocked
  pub nowhere : (d : ℕ) → NotAt a (s.queues d)

NotAt-put :
    (a d : ℕ) (f : ℕ → MessageQueue) (q : MessageQueue)
    → ((i : ℕ) → d ≢ i → NotAt a (f i))
    → NotAt a q
    → (i : ℕ) → NotAt a (put f d q i)
NotAt-put a d f q all new i = elim (Bool-cases (d == i)) [
  | inl e ↦ subst (NotAt a) (sym (ap (put f d q) (ground arith) ∙ put_self f d q)) new
  | inr e ↦
      let apart : d ≢ i = λ x. absurd (ground arith) in
      subst (NotAt a) (sym (put_ne f {i = d} {j = i} q apart)) (all i apart)
]

none_other : (a : ℕ) → none ≢ some a
none_other a e = cc e

some_other : {p a : ℕ} → p ≢ a → some p ≢ some a
some_other {p} {a} ne e = ne (some-injective p a e)

send_to-Stuck :
    (a p m d : ℕ) (s : Ipc) (waiting : Option ℕ)
    → p ≢ a
    → waiting ≢ some a
    → Stuck a s
    → Stuck a (send_to waiting d p m s).1
unfolding send_to wake copy block
send_to-Stuck a p m d s (some r) ne other k = record {
  is_blocked =
      ap (λ (c : Pcb). c.stat) (put_ne s.pcbs {i = r} {j = a} _ (λ e. other (ap some e)))
      ∙ k.is_blocked;
  nowhere = NotAt-put a d s.queues _ (λ i x. k.nowhere i) ((k.nowhere d).0, none_other a);
}
send_to-Stuck a p m d s none ne other k = record {
  is_blocked = ap (λ (c : Pcb). c.stat) (put_ne s.pcbs {i = p} {j = a} _ ne) ∙ k.is_blocked;
  nowhere = NotAt-put a d s.queues _ (λ i x. k.nowhere i) (some_other ne, (k.nowhere d).1);
}

receive_from-Stuck :
    (a p m d : ℕ) (s : Ipc) (waiting : Option ℕ)
    → p ≢ a
    → waiting ≢ some a
    → Stuck a s
    → Stuck a (receive_from waiting d p m s).1
unfolding receive_from wake copy block sign
receive_from-Stuck a p m d s (some r) ne other k = record {
  is_blocked =
      ap (λ (c : Pcb). c.stat) (put_ne s.pcbs {i = r} {j = a} _ (λ e. other (ap some e)))
      ∙ k.is_blocked;
  nowhere = NotAt-put a d s.queues _ (λ i x. k.nowhere i) (none_other a, (k.nowhere d).1);
}
receive_from-Stuck a p m d s none ne other k = record {
  is_blocked = ap (λ (c : Pcb). c.stat) (put_ne s.pcbs {i = p} {j = a} _ ne) ∙ k.is_blocked;
  nowhere = NotAt-put a d s.queues _ (λ i x. k.nowhere i) ((k.nowhere d).0, some_other ne);
}

sign-Stuck : (a p m : ℕ) (s : Ipc) → Stuck a s → Stuck a (sign p m s)
unfolding sign
sign-Stuck a p m s k = record { is_blocked = k.is_blocked; nowhere = k.nowhere }

send-Stuck : (a p m : ℕ) (s : Ipc) → p ≢ a → Stuck a s → Stuck a (send p m s).1
unfolding send
send-Stuck a p m s ne k = elim (Bool-cases (leb max_queues (s.memory m).dst_pid)) [
  | inl e ↦ rw e (sign-Stuck a p m s k)
  | inr e ↦ rw e (
      send_to-Stuck a p m (s.memory m).dst_pid (sign p m s) _ ne (k.nowhere (s.memory m).dst_pid).1
        (sign-Stuck a p m s k))
]

take_message-Stuck : (a d m : ℕ) (s : Ipc) → Stuck a s → Stuck a (take_message d m s)
unfolding take_message
take_message-Stuck a d m s k = record {
  is_blocked = k.is_blocked;
  nowhere = NotAt-put a d s.queues _ (λ i x. k.nowhere i) (k.nowhere d);
}

receive-Stuck : (a p m : ℕ) (s : Ipc) → p ≢ a → Stuck a s → Stuck a (receive p m s).1
unfolding receive
receive-Stuck a p m s ne k =
    let d : ℕ = (s.pcbs p).pid in
    let q : MessageQueue = s.queues d in
    elim (Bool-cases (leb max_queues d)) [
      | inl e ↦ rw e k
      | inr e ↦ elim (Bool-cases (not (q.head == q.tail))) [
        | inl h ↦ rw (e, h) (take_message-Stuck a d m s k)
        | inr h ↦ rw (e, h) (receive_from-Stuck a p m d s _ ne (k.nowhere d).0 k)
      ]
    ]

perform-Stuck : (a p : ℕ) (call : Call) (s : Ipc) → p ≢ a → Stuck a s → Stuck a (perform p call s)
unfolding perform
perform-Stuck a p (sends m) s = send-Stuck a p m s
perform-Stuck a p (receives m) s = receive-Stuck a p m s

-- A process that no queue knows stays blocked.
Steps-Stuck : (a : ℕ) {s t : Ipc} → Steps s t → Stuck a s → Stuck a t
Steps-Stuck a done k = k
Steps-Stuck a (step {s = s} p call active rest) k =
    Steps-Stuck a rest
      (perform-Stuck a p call s (λ e. active (ap (λ i. (s.pcbs i).stat) e ∙ k.is_blocked)) k)

-- If a and then another process c send to the same pid d < 256 from different buffers, with no
-- receiver waiting at d and a waiting nowhere, then a stays blocked after any sequence of calls
-- by processes that are not blocked.
pub send-lost :
    (a c m n d : ℕ) (s : Ipc) {t : Ipc}
    → a ≢ c
    → m ≢ n
    → d < max_queues
    → (s.memory m).dst_pid ≡ d
    → (s.memory n).dst_pid ≡ d
    → (s.queues d).waiting_receiver ≡ none
    → ((i : ℕ) → NotAt a (s.queues i))
    → Steps (send c n (send a m s).1).1 t
    → (t.pcbs a).stat ≡ blocked
unfolding send_to sign block
send-lost a c m n d s {t} ne apart h to_m to_n r nowhere steps =
    let s' : Ipc = (send_to none d a m (sign a m s)).1 in
    let first : send a m s ≡ send_to none d a m (sign a m s) = send-send_to a m d s h to_m r in
    let second : send c n s' ≡ send_to none d c n (sign c n s') =
      send-send_to c n d s' {waiting = none} h
        (ap (λ (x : Message). x.dst_pid) (put_ne s.memory {i = m} {j = n} _ apart) ∙ to_n)
        (simp (put_self, r)) in
    let both : (send c n (send a m s).1).1 ≡ (send_to none d c n (sign c n s')).1 =
      ap (λ (o : Ending × Ipc). (send c n o.1).1) first ∙ ap (λ (o : Ending × Ipc). o.1) second in
    let stuck : Stuck a (send_to none d c n (sign c n s')).1 = record {
      is_blocked =
          ap (λ (x : Pcb). x.stat)
            (put_ne s'.pcbs {i = c} {j = a} _ (λ e. ne (sym e)) ∙ put_self s.pcbs a _);
      nowhere =
          NotAt-put a d s'.queues _
            (λ i x. subst (NotAt a) (sym (put_ne s.queues {i = d} {j = i} _ x)) (nowhere i))
            (
              some_other (λ e. ne (sym e)),
              subst (λ (q : MessageQueue). q.waiting_receiver ≢ some a)
                  (sym (put_self s.queues d _)) (nowhere d).1,
            );
    } in
    (Steps-Stuck a (subst (λ x. Steps x t) both steps) stuck).is_blocked
