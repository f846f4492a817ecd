-- ===== src/Task/Ipc.antt =====
-- task/ipc.cc: messages between processes. A `Pcb *` and a `Message *` are numbers that name a
-- process and a buffer. A call runs without preemption; one that ends in `Schedule` leaves its
-- process blocked, and returns 1 when the process runs again.
pub mod Laws
pub mod Stored
pub mod Lost
mod Tests
use info.Prelude.{
  ℕ, subst, ap₂, zero, suc, ◌+◌, ◌-◌, ◌*◌, ◌/◌, ◌%◌, ◌^◌, ◌≤◌, ◌<◌, min, ◌≡◌, refl, sym, ap, ◌∙◌,
  ◌≢◌, ◌↔◌, ◌⊎◌, inl, inr, Bool, true, false, not, ◌&&◌, ◌||◌, Option, none, some, List, [], ◌∷◌,
  ◌++◌, map, append-nil, append_assoc, arith, add-zero, ltb, leb, ◌==◌, if◌then◌else◌, ltb→lt,
  lt→ltb, leb→le, ==_iff, tests, Bool-cases, Option-cases, length, get_elem?, set, length-append,
  length-set, get_elem?-set_self, get_elem?-set_ne, get_or, take, drop, replicate, take-append-drop,
  length-take, length-drop, length-replicate, length-map, take_all, drop_all, All, All-get_elem?,
  All-set, All-replicate, get_elem?-some,
}
use info.Prelude.Int.{ℤ, pos, negsuc}
use info.Prelude.Maps.{put}

-- `State`
pub data State : Type 0 where
  running : State
  ready : State
  blocked : State
  zombie : State
  dead : State

-- `Message`; the fields but `sender` and `dst_pid` are one number, which the calls only copy.
pub record Message : Type 0 where
  pub sender : Option ℕ
  pub dst_pid : ℕ
  pub content : ℕ

-- `Pcb`, as far as the calls use it; `pid` is not negative.
pub record Pcb : Type 0 where
  pub pid : ℕ
  pub stat : State
  pub msg : ℕ

-- `MessageQueue`, less its lock; `none` is a null pointer.
pub record MessageQueue : Type 0 where
  pub messages : ℕ → Message
  pub head : ℕ
  pub tail : ℕ
  pub waiting_sender : Option ℕ
  pub waiting_receiver : Option ℕ
  pub has_message : Bool

-- `msg_queues`, the processes and the buffers, and the processes that `cfs::sched.Enqueue` was given,
-- the last one first.
pub record Ipc : Type 0 where
  pub queues : ℕ → MessageQueue
  pub pcbs : ℕ → Pcb
  pub memory : ℕ → Message
  pub enqueued : List ℕ

-- How a call ends. `out_of_bounds` is an access beyond the 256 queues.
pub data Ending : Type 0 where
  returned : ℤ → Ending
  waits : Ending
  out_of_bounds : Ending

abbrev pub max_queues : ℕ
max_queues = 256

-- What both calls do to a process that waited: `stat` and `Enqueue`.
pub wake : ℕ → Ipc → Ipc
wake p s = record s {
  pcbs = put s.pcbs p (record (s.pcbs p) { stat = ready });
  enqueued = p ∷ s.enqueued;
}

-- What both calls do to the current process before `Schedule`.
pub block : ℕ → ℕ → Ipc → Ipc
block current msg s = record s {
  pcbs = put s.pcbs current (record (s.pcbs current) { msg = msg; stat = blocked });
}

-- A copy of the message at one buffer into another.
pub copy : ℕ → ℕ → Ipc → Ipc
copy to from s = record s { memory = put s.memory to (s.memory from) }

-- `Send` once `msg->sender` is written, by the receiver that waits at queue `d`.
pub send_to : Option ℕ → ℕ → ℕ → ℕ → Ipc → Ending × Ipc
send_to (some r) d current msg s = (
  returned (pos 1),
  wake r (record (copy (s.pcbs r).msg msg s) {
    queues = put s.queues d (record (s.queues d) { waiting_receiver = none });
  }),
)
send_to none d current msg s = (
  waits,
  record (block current msg s) {
    queues = put s.queues d (record (s.queues d) { waiting_sender = some current });
  },
)

-- `msg->sender = current_proc`
pub sign : ℕ → ℕ → Ipc → Ipc
sign current msg s = record s {
  memory = put s.memory msg (record (s.memory msg) { sender = some current });
}

-- `Send`, by the process `current`
pub send : ℕ → ℕ → Ipc → Ending × Ipc
send current msg s =
    let d : ℕ = (s.memory msg).dst_pid in
    if leb max_queues d
    then (returned (negsuc 0), sign current msg s)
    else send_to (s.queues d).waiting_receiver d current msg (sign current msg s)

-- The branch of `Receive` that takes a message from the array of the queue.
pub take_message : ℕ → ℕ → Ipc → Ipc
take_message d msg s =
    let q : MessageQueue = s.queues d in
    let head : ℕ = (q.head + 1) % 16 in
    record s {
      memory = put s.memory msg (q.messages q.head);
      queues =
          put s.queues d (record q {
            head = head;
            has_message = if head == q.tail then false else q.has_message;
          });
    }

-- The branches of `Receive` for an empty array, by the sender that waits at queue `d`.
pub receive_from : Option ℕ → ℕ → ℕ → ℕ → Ipc → Ending × Ipc
receive_from (some p) d current msg s = (
  returned (pos 1),
  wake p (
      sign p msg (record (copy msg (s.pcbs p).msg s) {
        queues = put s.queues d (record (s.queues d) { waiting_sender = none });
      })),
)
receive_from none d current msg s = (
  waits,
  record (block current msg s) {
    queues = put s.queues d (record (s.queues d) { waiting_receiver = some current });
  },
)

-- `Receive`, by the process `current`
pub receive : ℕ → ℕ → Ipc → Ending × Ipc
receive current msg s =
    let d : ℕ = (s.pcbs current).pid in
    if leb max_queues d
    then (out_of_bounds, s)
    else if not ((s.queues d).head == (s.queues d).tail)
    then (returned (pos 1), take_message d msg s)
    else receive_from (s.queues d).waiting_sender d current msg s

-- The calls, and the steps of a system in which a process that is not blocked makes one.
pub data Call : Type 0 where
  sends : ℕ → Call
  receives : ℕ → Call

pub perform : ℕ → Call → Ipc → Ipc
perform p (sends msg) s = (send p msg s).1
perform p (receives msg) s = (receive p msg s).1

pub data Steps : Ipc → Ipc → Type 0 where
  done : {s : Ipc} → Steps s s
  step :
      {s t : Ipc} (p : ℕ) (call : Call)
      → (s.pcbs p).stat ≢ blocked
      → Steps (perform p call s) t
      → Steps s t
