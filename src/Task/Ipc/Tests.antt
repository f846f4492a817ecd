-- ===== src/Task/Ipc/Tests.antt =====
-- Runs of the calls on messages at concrete inputs.
use info.Prelude.{◌≡◌, refl, ◌≢◌, false, none, [], arith}
use info.Prelude.Maps.{put}
use info.Task.Ipc.{
  Ipc, State, running, blocked, send, receive, perform, sends, receives, Steps, done, step, sign,
  send_to, receive_from, wake, block, copy,
}
use info.Task.Ipc.Laws.{IsIdle, Delivered, send-receive, receive-send}
use info.Task.Ipc.Stored.{NoneStored, Steps-NoneStored}
use info.Task.Ipc.Lost.{send-lost}

-- Processes with pids of their own, buffers addressed to process 7, and empty queues.
abbrev start : Ipc
start = record {
  queues = λ d. record {
    messages = λ i. record { sender = none; dst_pid = 0; content = 0 };
    head = 0;
    tail = 0;
    waiting_sender = none;
    waiting_receiver = none;
    has_message = false;
  };
  pcbs = λ p. record { pid = p; stat = running; msg = 0 };
  memory = λ m. record { sender = none; dst_pid = 7; content = m };
  enqueued = [];
}

start-IsIdle : IsIdle 7 start
start-IsIdle = record {
  in_range = omega arith;
  no_sender = refl;
  no_receiver = refl;
  none_stored = refl;
}

receive_run : ((receive 7 101 (send 3 100 start).1).1.memory 101).content ≡ 100
unfolding send receive send_to receive_from sign wake block copy put
receive_run = refl

send-receive_example : Delivered 3 7 100 101 7 start (receive 7 101 (send 3 100 start).1).1 3
send-receive_example = send-receive 3 7 100 101 7 start start-IsIdle (λ e. omega arith) refl refl

receive-send_example : Delivered 3 7 100 101 7 start (send 3 100 (receive 7 101 start).1).1 7
receive-send_example = receive-send 3 7 100 101 7 start start-IsIdle refl refl

is_active : {p : State} → p ≡ running → p ≢ blocked
is_active e f = cc (e, f)

-- Process 7 receives after both sends.
receive_step :
    Steps
      (send 4 200 (send 3 100 start).1).1
      (perform 7 (receives 101) (send 4 200 (send 3 100 start).1).1)
unfolding send send_to sign block put
receive_step = step 7 (receives 101) (is_active refl) done

send-lost_example :
    ((perform 7 (receives 101) (send 4 200 (send 3 100 start).1).1).pcbs 3).stat ≡ blocked
send-lost_example =
    send-lost 3 4 100 200 7 start {t = perform 7 (receives 101) (send 4 200 (send 3 100 start).1).1}
      (λ e. omega arith) (λ e. omega arith) (omega arith) refl refl refl
      (λ i. (λ e. cc e, λ e. cc e)) receive_step

start-NoneStored : NoneStored start
unfolding NoneStored
start-NoneStored d = refl

Steps-NoneStored_example : NoneStored (perform 3 (sends 100) start)
Steps-NoneStored_example =
    Steps-NoneStored {s = start} {t = perform 3 (sends 100) start}
      (step 3 (sends 100) (is_active refl) done) start-NoneStored
