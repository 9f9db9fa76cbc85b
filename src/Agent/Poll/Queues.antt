-- ===== src/Agent/Poll/Queues.antt =====
-- internal/domain/agent/client_poll.go: every command that Send enqueues for a machine is handed to
-- that machine once, in the order of the queue, and the queue never holds more than eight.
use mathlib.Core.Option.{some-injective}
use hatchet_workflow.Base.{
  ℕ, ◌≤◌, ◌≡◌, refl, subst, String, List, [], ◌∷◌, ◌++◌, length, Option, some, if◌then◌else◌, ◌==◌,
  lookup, insert, arith, append_assoc, length-append, lookup-insert, eq_iff, List-cases, ◌<◌, inl,
  inr,
}
use hatchet_workflow.Agent.Poll.{
  Command, Report, PollClient, Stage, Call, System, Event, begin, await, connect, give_up, register,
  enqueue, interrupt, receive, finish, mark, take, find_channel, put_report, mark_agent_ready,
  new_poll_client, queue_of, move, with_channel, send_begin, send_await, send_connect, send_give_up,
  send_register, send_enqueue, send_interrupt, send_receive, send_finish, poll_mark, poll_take,
  deliver_find, deliver_put, at_call, at_call_cases, step, Reachable, initial, next,
}

-- The commands for a machine in a sequence of commands, in their order.
unfoldable pub to : String → List (String × Command) → List Command
to machine [] = []
to machine ((other, c) ∷ rest) = if other == machine then c ∷ to machine rest else to machine rest

to-append :
    (m : String) (xs : List (String × Command)) (other : String) (c : Command)
    → to m (xs ++ ((other, c) ∷ [])) ≡ (if other == m then to m xs ++ (c ∷ []) else to m xs)
unfolding to
to-append m [] other c = ground arith
to-append m ((name, d) ∷ xs) other c = let ih = to-append m xs other c in ground (arith, ih)

-- What was enqueued for a machine is what it was handed and what still waits.
pub record Fifo (m : String) (s : System) : Type 0 where
  pub order : to m s.sent ≡ to m s.handed ++ queue_of s.client m
  pub bound : length (queue_of s.client m) ≤ 8

-- Steps that touch neither queues nor history.
abbrev Quiet : System → System → Type 0
Quiet s t = (t.sent ≡ s.sent) × (t.handed ≡ s.handed) × (t.client.queues ≡ s.client.queues)

kept : (m : String) (s t : System) → Quiet s t → Fifo m s → Fifo m t
unfolding queue_of
kept m s t (sent, handed, queues) f = record {
  order = rw (sent, handed, queues) (f.order);
  bound = rw (queues) (f.bound);
}

Quiet-stages :
    (m : String) (f : Call → Stage → System → Option System) (i : ℕ) (s t : System)
    → ((call : Call) (st : Stage) → f call st s ≡ some t → Quiet s t)
    → at_call i f s ≡ some t
    → Quiet s t
Quiet-stages m f i s t each e = let (call, _, p) = at_call_cases i f s t e in each call call.stage p

kept_now : (m : String) (s t u : System) → Quiet s u → Fifo m s → some u ≡ some t → Fifo m t
kept_now m s t u q f e = subst (Fifo m) (some-injective u t e) (kept m s u q f)

-- The steps of Send but one, and those of the other functions but one.
module _ (i : ℕ) (s t : System) (call : Call) (st : Stage) where
  await-Quiet : send_await i call st s ≡ some t → Quiet s t
  unfolding send_await with_channel move
  await-Quiet e = ground (arith, e)

  connect-Quiet : send_connect i call st s ≡ some t → Quiet s t
  unfolding send_connect move
  connect-Quiet e = ground (arith, e)

  give_up-Quiet : send_give_up i call st s ≡ some t → Quiet s t
  unfolding send_give_up move
  give_up-Quiet e = ground (arith, e)

  register-Quiet : send_register i call st s ≡ some t → Quiet s t
  unfolding send_register move
  register-Quiet e = ground (arith, e)

  interrupt-Quiet : send_interrupt i call st s ≡ some t → Quiet s t
  unfolding send_interrupt move
  interrupt-Quiet e = ground (arith, e)

  receive-Quiet : send_receive i call st s ≡ some t → Quiet s t
  unfolding send_receive move
  receive-Quiet e = ground (arith, e)

  finish-Quiet : send_finish i call st s ≡ some t → Quiet s t
  unfolding send_finish move
  finish-Quiet e = ground (arith, e)

mark-Quiet : (m : String) (s : System) → Quiet s (poll_mark m s)
unfolding poll_mark
mark-Quiet m s = ground arith

find-Quiet : (r : Report) (s : System) → Quiet s (deliver_find r s)
unfolding deliver_find
find-Quiet r s = ground arith

put-Quiet : (n : ℕ) (s t : System) → deliver_put n s ≡ some t → Quiet s t
unfolding deliver_put
put-Quiet n s t e = ground (arith, e)

ready-Quiet : (m : String) (s : System) → Quiet s (record s { client = with_channel m s.client })
unfolding with_channel
ready-Quiet m s = ground arith

begin-Quiet :
    (cmd_id : String → ℕ → String) (target : String) (c : Command) (s : System)
    → Quiet s (send_begin cmd_id target c s)
unfolding send_begin
begin-Quiet cmd_id target c s = ground arith

queue_of-insert :
    (c : PollClient) (k m : String) (q : List Command)
    → queue_of (record c { queues = insert k q c.queues }) m ≡ (if k == m then q else queue_of c m)
unfolding queue_of
queue_of-insert c k m q = ground (arith, lookup-insert k m q c.queues)

-- A command is enqueued behind those that wait, and only where there is room.
enqueue_effect :
    (m : String) (i : ℕ) (s t : System) (call : Call) (st : Stage)
    → send_enqueue i call st s ≡ some t
    → (length (queue_of s.client call.target) < 8)
      × (t.sent ≡ s.sent ++ ((call.target, call.command) ∷ []))
      × (t.handed ≡ s.handed)
      × (queue_of t.client m ≡ (
          if call.target == m
          then queue_of s.client call.target ++ (call.command ∷ [])
          else queue_of s.client m))
unfolding send_enqueue move
enqueue_effect m i s t call st e = ground (
  arith,
  e,
  queue_of-insert s.client call.target m (queue_of s.client call.target ++ (call.command ∷ [])),
)

enqueue-Fifo :
    (m : String) (i : ℕ) (s t : System) (call : Call) (st : Stage)
    → Fifo m s
    → send_enqueue i call st s ≡ some t
    → Fifo m t
enqueue-Fifo m i s t call st f e =
    let (room, sent, handed, queue) = enqueue_effect m i s t call st e in
    record {
      order =
          rw (sent, handed, queue, to-append m s.sent call.target call.command)
            (ground (
              arith,
              f.order,
              eq_iff call.target m,
              append_assoc (to m s.handed) (queue_of s.client m) (call.command ∷ []),
            ));
      bound = ground (
        arith,
        f.bound,
        queue,
        room,
        eq_iff call.target m,
        length-append (queue_of s.client call.target) (call.command ∷ []),
      );
    }

-- A poll hands out the first command that waits for the machine.
take_effect :
    (m machine : String) (s t : System)
    → poll_take machine s ≡ some t
    → (cmd : Command) × (rest : List Command) × (queue_of s.client machine ≡ cmd ∷ rest)
      × (t.sent ≡ s.sent)
      × (t.handed ≡ s.handed ++ ((machine, cmd) ∷ []))
      × (queue_of t.client m ≡ (if machine == m then rest else queue_of s.client m))
unfolding poll_take
take_effect m machine s t e = elim (List-cases (queue_of s.client machine)) [
  | inl p ↦ ground (arith, e, p)
  | inr (cmd, rest, p) ↦ (
    cmd,
    rest,
    p,
    ground (arith, e, p),
    ground (arith, e, p),
    ground (arith, e, p, queue_of-insert s.client machine m rest),
  )
]

take-Fifo : (m machine : String) (s t : System) → Fifo m s → poll_take machine s ≡ some t → Fifo m t
take-Fifo m machine s t f e =
    let (cmd, rest, p, sent, handed, queue) = take_effect m machine s t e in
    record {
      order =
          rw (sent, handed, queue, to-append m s.handed machine cmd)
            (ground
              (arith, f.order, p, eq_iff machine m, append_assoc (to m s.handed) (cmd ∷ []) rest));
      bound = ground (arith, f.bound, queue, p, eq_iff machine m);
    }

-- Every step keeps the order and the bound.
step-Fifo :
    (cmd_id : String → ℕ → String) (m : String) (ev : Event) (s t : System)
    → Fifo m s
    → step cmd_id ev s ≡ some t
    → Fifo m t
unfolding step
step-Fifo cmd_id m (begin target c) s t f e = kept_now m s t _ (begin-Quiet cmd_id target c s) f e
step-Fifo cmd_id m (await i) s t f e =
    kept m s t (Quiet-stages m (send_await i) i s t (await-Quiet i s t) e) f
step-Fifo cmd_id m (connect i) s t f e =
    kept m s t (Quiet-stages m (send_connect i) i s t (connect-Quiet i s t) e) f
step-Fifo cmd_id m (give_up i) s t f e =
    kept m s t (Quiet-stages m (send_give_up i) i s t (give_up-Quiet i s t) e) f
step-Fifo cmd_id m (register i) s t f e =
    kept m s t (Quiet-stages m (send_register i) i s t (register-Quiet i s t) e) f
step-Fifo cmd_id m (enqueue i) s t f e =
    let (call, _, p) = at_call_cases i (send_enqueue i) s t e in
    enqueue-Fifo m i s t call call.stage f p
step-Fifo cmd_id m (interrupt i) s t f e =
    kept m s t (Quiet-stages m (send_interrupt i) i s t (interrupt-Quiet i s t) e) f
step-Fifo cmd_id m (receive i) s t f e =
    kept m s t (Quiet-stages m (send_receive i) i s t (receive-Quiet i s t) e) f
step-Fifo cmd_id m (finish i) s t f e =
    kept m s t (Quiet-stages m (send_finish i) i s t (finish-Quiet i s t) e) f
step-Fifo cmd_id m (mark machine) s t f e = kept_now m s t _ (mark-Quiet machine s) f e
step-Fifo cmd_id m (take machine) s t f e = take-Fifo m machine s t f e
step-Fifo cmd_id m (find_channel r) s t f e = kept_now m s t _ (find-Quiet r s) f e
step-Fifo cmd_id m (put_report n) s t f e = kept m s t (put-Quiet n s t e) f
step-Fifo cmd_id m (mark_agent_ready machine) s t f e = kept_now m s t _ (ready-Quiet machine s) f e

-- Whatever the calls of Send, the polls and the reports do, and in whatever order: the commands
-- enqueued for a machine are those handed to its polls followed by those that wait in its queue, in
-- one order, so that none is lost, repeated or overtaken; and at most eight wait.
pub Reachable-Fifo :
    (cmd_id : String → ℕ → String) (m : String) (s : System) → Reachable cmd_id s → Fifo m s
unfolding to new_poll_client queue_of lookup
Reachable-Fifo cmd_id m _ initial = record { order = refl; bound = omega arith }
Reachable-Fifo cmd_id m _ (next {s} ev t from e) =
    step-Fifo cmd_id m ev s t (Reachable-Fifo cmd_id m s from) e
