-- ===== src/Task/Ipc/Laws.antt =====
-- The rendezvous of a sender and a receiver.
use info.Prelude.{
  ℕ, subst, ◌<◌, ◌≡◌, refl, sym, ap, ◌∙◌, ◌≢◌, false, not, Option, none, some, ◌∷◌, arith, leb,
  ◌==◌,
}
use info.Prelude.Maps.{put_self, put_ne}
use info.Task.Ipc.{
  Pcb, Ipc, Ending, ready, max_queues, wake, block, copy, sign, send_to, send, receive_from,
  receive,
}

-- No process waits at queue `d`.
pub record IsIdle (d : ℕ) (s : Ipc) : Type 0 where
  pub in_range : d < max_queues
  pub no_sender : (s.queues d).waiting_sender ≡ none
  pub no_receiver : (s.queues d).waiting_receiver ≡ none
  pub none_stored : (s.queues d).head ≡ (s.queues d).tail

pub send-send_to :
    (a m d : ℕ) (s : Ipc) {waiting : Option ℕ}
    → d < max_queues
    → (s.memory m).dst_pid ≡ d
    → (s.queues d).waiting_receiver ≡ waiting
    → send a m s ≡ send_to waiting d a m (sign a m s)
unfolding send
send-send_to a m d s h e r =
    let inside : leb max_queues (s.memory m).dst_pid ≡ false = ground arith in
    let step_0 : send a m s
        ≡ send_to (s.queues (s.memory m).dst_pid).waiting_receiver (s.memory m).dst_pid a m
            (sign a m s) =
      rw inside refl in
    step_0
    ∙ ap (λ i. send_to (s.queues i).waiting_receiver i a m (sign a m s)) e
    ∙ ap (λ o. send_to o d a m (sign a m s)) r

pub receive-receive_from :
    (b n d : ℕ) (s : Ipc) {waiting : Option ℕ}
    → d < max_queues
    → (s.pcbs b).pid ≡ d
    → (s.queues d).head ≡ (s.queues d).tail
    → (s.queues d).waiting_sender ≡ waiting
    → receive b n s ≡ receive_from waiting d b n s
unfolding receive
receive-receive_from b n d s h e empty w =
    let i : ℕ = (s.pcbs b).pid in
    let inside : leb max_queues i ≡ false = ground arith in
    let same : (s.queues i).head ≡ (s.queues i).tail =
      subst (λ k. (s.queues k).head ≡ (s.queues k).tail) (sym e) empty in
    let nothing : not ((s.queues i).head == (s.queues i).tail) ≡ false = ground (arith, same) in
    let step_0 : receive b n s ≡ receive_from (s.queues i).waiting_sender i b n s =
      rw (inside, nothing) refl in
    step_0
    ∙ ap (λ k. receive_from (s.queues k).waiting_sender k b n s) e
    ∙ ap (λ o. receive_from o d b n s) w

-- What a rendezvous leaves: the message in the receiver's buffer, both slots empty, and the process
-- that waited made ready.
pub record Delivered (a b m n d : ℕ) (s t : Ipc) (woken : ℕ) : Type 0 where
  pub message : t.memory n ≡ record (s.memory m) { sender = some a }
  pub idle : IsIdle d t
  pub is_ready : (t.pcbs woken).stat ≡ ready
  pub enqueued : t.enqueued ≡ woken ∷ s.enqueued

-- With no process waiting at the queue of pid d and no message stored in it, a Send to d by a,
-- then a Receive by another process b of pid d, leave the message in the buffer of b with a as
-- its sender, both places of the queue empty, and a ready and enqueued.
pub send-receive :
    (a b m n d : ℕ) (s : Ipc)
    → IsIdle d s
    → a ≢ b
    → (s.memory m).dst_pid ≡ d
    → (s.pcbs b).pid ≡ d
    → Delivered a b m n d s (receive b n (send a m s).1).1 a
unfolding send_to receive_from wake sign copy block
send-receive a b m n d s i ne to own =
    let s' : Ipc = (send_to none d a m (sign a m s)).1 in
    let first : send a m s ≡ send_to none d a m (sign a m s) =
      send-send_to a m d s i.in_range to i.no_receiver in
    let second : receive b n s' ≡ receive_from (some a) d b n s' =
      receive-receive_from b n d s' {waiting = some a} i.in_range
        (ap (λ (p : Pcb). p.pid) (put_ne s.pcbs {i = a} {j = b} _ ne) ∙ own)
        (simp (put_self, i.none_stored)) (simp put_self) in
    subst (λ t. Delivered a b m n d s t a)
      (sym (
        ap (λ (o : Ending × Ipc). (receive b n o.1).1) first
        ∙ ap (λ (o : Ending × Ipc). o.1) second))
      (record {
        message = simp put_self;
        idle = record {
          in_range = i.in_range;
          no_sender = simp put_self;
          no_receiver = simp (put_self, i.no_receiver);
          none_stored = simp (put_self, i.none_stored);
        };
        is_ready = simp put_self;
        enqueued = refl;
      })

-- With no process waiting at the queue of pid d and no message stored in it, a Receive by b of
-- pid d, then a Send to d by a, leave the message in the buffer of b with a as its sender, both
-- places of the queue empty, and b ready and enqueued.
pub receive-send :
    (a b m n d : ℕ) (s : Ipc)
    → IsIdle d s
    → (s.memory m).dst_pid ≡ d
    → (s.pcbs b).pid ≡ d
    → Delivered a b m n d s (send a m (receive b n s).1).1 b
unfolding send_to receive_from wake sign copy block
receive-send a b m n d s i to own =
    let s' : Ipc = (receive_from none d b n s).1 in
    let first : receive b n s ≡ receive_from none d b n s =
      receive-receive_from b n d s i.in_range own i.none_stored i.no_sender in
    let second : send a m s' ≡ send_to (some b) d a m (sign a m s') =
      send-send_to a m d s' {waiting = some b} i.in_range to (simp put_self) in
    subst (λ t. Delivered a b m n d s t b)
      (sym
        (ap (λ (o : Ending × Ipc). (send a m o.1).1) first ∙ ap (λ (o : Ending × Ipc). o.1) second))
      (record {
        message = simp put_self;
        idle = record {
          in_range = i.in_range;
          no_sender = simp (put_self, i.no_sender);
          no_receiver = simp put_self;
          none_stored = simp (put_self, i.none_stored);
        };
        is_ready = simp put_self;
        enqueued = refl;
      })
