-- ===== src/Agent/Poll.antt =====
-- internal/domain/agent/client_poll.go and protocol.go: the poll client, through which the server's
-- tasks send commands to machines that poll for them. Each goroutine is cut at its locks and its
-- channel operations; a step is one such piece, and an event says which goroutine takes it. A channel
-- of results is a place of the heap `channels`. A payload is its JSON text.
mod Effects
mod Sound
pub mod Queues
pub mod Reports
pub mod Cancelled
use hatchet_workflow.Base.{
  ℕ, suc, ◌+◌, ◌≡◌, String, Bool, true, false, List, [], ◌∷◌, ◌++◌, length, Option, none, some, leb,
  ltb, if◌then◌else◌, ◌==◌, lookup, insert, remove, get_elem?, set_at, remove_at, Option-cases, inl,
  inr, arith,
}

pub record Command : Type 0 where
  pub id : String
  pub action : String
  pub config : String

pub record Report : Type 0 where
  pub command_id : String
  pub status : String
  pub error : String
  pub output : String

-- A channel for one report, and the command that it was made for.
pub record Channel : Type 0 where
  pub owner : String
  pub buffer : Option Report

-- PollClient: the commands that wait for each machine, the channel of each command, and whether each
-- machine's channel `healthy` is closed.
pub record PollClient : Type 0 where
  pub queues : List (String × List Command)
  pub results : List (String × ℕ)
  pub healthy : List (String × Bool)
  pub cmd_seq : ℕ

-- Why Send returns: a report came, the machine did not poll in time, or the caller's context ended.
pub data Outcome : Type 0 where
  reported : (report : Report) → Outcome
  did_not_connect interrupted : Outcome

-- Where a call of Send stands.
pub data Stage : Type 0 where
  starting connecting connected : Stage
  registered enqueued : (channel : ℕ) → Stage
  ending returned : (outcome : Outcome) → Stage

pub record Call : Type 0 where
  pub target : String
  pub command : Command
  pub stage : Stage

-- The client, the channels made so far, the calls of Send, the calls of DeliverReport that have
-- found their channel; and, for the proofs, the commands enqueued and handed out so far.
pub record System : Type 0 where
  pub client : PollClient
  pub channels : List Channel
  pub calls : List Call
  pub deliveries : List (ℕ × Report)
  pub sent : List (String × Command)
  pub handed : List (String × Command)

pub data Event : Type 0 where
  begin : (target : String) (command : Command) → Event
  await connect give_up register enqueue interrupt receive finish : (call : ℕ) → Event
  mark take : (machine : String) → Event
  find_channel : (report : Report) → Event
  put_report : (delivery : ℕ) → Event
  mark_agent_ready : (machine : String) → Event

-- NewPollClient
unfoldable pub new_poll_client : System
new_poll_client = record {
  client = record { queues = []; results = []; healthy = []; cmd_seq = 0 };
  channels = [];
  calls = [];
  deliveries = [];
  sent = [];
  handed = [];
}

unfoldable pub queue_of : PollClient → String → List Command
queue_of c machine = elim (lookup machine c.queues) [ some q ↦ q | none ↦ [] ]

unfoldable pub move : System → ℕ → Call → Stage → System
move s i call stage = record s { calls = set_at i (record call { stage = stage }) s.calls }

-- A machine's channel `healthy`, made on first use.
unfoldable pub with_channel : String → PollClient → PollClient
with_channel machine c = elim (lookup machine c.healthy) [
  | some _ ↦ c
  | none ↦ record c { healthy = insert machine false c.healthy }
]

-- Send, step by step. `cmd_id` is the text of fmt.Sprintf for a target and a number.
module _ (cmd_id : String → ℕ → String) where
  -- It numbers the command, unless the caller did.
  unfoldable pub send_begin : String → Command → System → System
  send_begin target command s =
      let seq = suc s.client.cmd_seq in
      if command.id == ""
      then record s {
        client = record s.client { cmd_seq = seq };
        calls =
            s.calls
            ++ (record {
              target = target;
              command = record command { id = cmd_id target seq };
              stage = starting;
            }
                ∷ []);
      }
      else record s {
        calls = s.calls ++ (record { target = target; command = command; stage = starting } ∷ []);
      }

-- waitForAgent: its lock, its channel, and its deadline or the end of the context.
unfoldable pub send_await : ℕ → Call → Stage → System → Option System
unfolding move with_channel
send_await i call starting s =
    some (move (record s { client = with_channel call.target s.client }) i call connecting)
send_await i call _ s = none

unfoldable pub send_connect : ℕ → Call → Stage → System → Option System
unfolding move
send_connect i call connecting s = elim (lookup call.target s.client.healthy) [
  | some true ↦ some (move s i call connected)
  | some false ↦ none
  | none ↦ none
]
send_connect i call _ s = none

unfoldable pub send_give_up : ℕ → Call → Stage → System → Option System
unfolding move
send_give_up i call connecting s = some (move s i call (returned did_not_connect))
send_give_up i call _ s = none

-- The channel of the command.
unfoldable pub send_register : ℕ → Call → Stage → System → Option System
unfolding move
send_register i call connected s =
    let ch = length s.channels in
    some (
      move
        (record s {
          client = record s.client { results = insert call.command.id ch s.client.results };
          channels = s.channels ++ (record { owner = call.command.id; buffer = none } ∷ []);
        })
        i call (registered ch))
send_register i call _ s = none

-- The queue of the machine, which holds eight commands.
unfoldable pub send_enqueue : ℕ → Call → Stage → System → Option System
unfolding move queue_of
send_enqueue i call (registered ch) s =
    let q = queue_of s.client call.target in
    if ltb (length q) 8
    then some (
        move
          (record s {
            client = record s.client {
              queues = insert call.target (q ++ (call.command ∷ [])) s.client.queues;
            };
            sent = s.sent ++ ((call.target, call.command) ∷ []);
          })
          i call (enqueued ch))
    else none
send_enqueue i call _ s = none

-- The end of the context, before the command is enqueued or while its report is awaited.
unfoldable pub send_interrupt : ℕ → Call → Stage → System → Option System
unfolding move
send_interrupt i call (registered _) s = some (move s i call (ending interrupted))
send_interrupt i call (enqueued _) s = some (move s i call (ending interrupted))
send_interrupt i call _ s = none

unfoldable pub send_receive : ℕ → Call → Stage → System → Option System
unfolding move
send_receive i call (enqueued ch) s = elim (get_elem? s.channels ch) [
  | some c ↦ elim (c.buffer) [
    | some r ↦ some (
        move (record s { channels = set_at ch (record c { buffer = none }) s.channels }) i call
          (ending (reported r)))
    | none ↦ none
  ]
  | none ↦ none
]
send_receive i call _ s = none

-- The deferred removal of the channel.
unfoldable pub send_finish : ℕ → Call → Stage → System → Option System
unfolding move
send_finish i call (ending o) s = some (
    move
      (record s { client = record s.client { results = remove call.command.id s.client.results } })
      i call (returned o))
send_finish i call _ s = none

-- What Send returns: none for nil, or the kind of its error.
unfoldable pub send_error : Outcome → Option String
send_error (reported r) = if r.status == "failed" then some r.error else none
send_error did_not_connect = some "did not connect"
send_error interrupted = some "context ended"

-- Poll: the machine is healthy from its first poll on, if its channel is there; and the first command
-- of its queue. A poll that waits in vain changes nothing.
unfoldable pub poll_mark : String → System → System
poll_mark machine s = elim (lookup machine s.client.healthy) [
  | some _ ↦ record s {
    client = record s.client { healthy = insert machine true s.client.healthy };
  }
  | none ↦ s
]

unfoldable pub poll_take : String → System → Option System
unfolding queue_of
poll_take machine s = elim (queue_of s.client machine) [
  | [] ↦ none
  | cmd ∷ rest ↦ some (record s {
    client = record s.client { queues = insert machine rest s.client.queues };
    handed = s.handed ++ ((machine, cmd) ∷ []);
  })
]

-- DeliverReport: the channel of the report's command, and a send that does not wait.
unfoldable pub deliver_find : Report → System → System
deliver_find r s = elim (lookup r.command_id s.client.results) [
  | some ch ↦ record s { deliveries = s.deliveries ++ ((ch, r) ∷ []) }
  | none ↦ s
]

unfoldable pub deliver_put : ℕ → System → Option System
deliver_put n s = elim (get_elem? s.deliveries n) [
  | none ↦ none
  | some (ch, r) ↦ elim (get_elem? s.channels ch) [
    | none ↦ none
    | some c ↦ some (record s {
      deliveries = remove_at n s.deliveries;
      channels = elim (c.buffer) [
        | some _ ↦ s.channels
        | none ↦ set_at ch (record c { buffer = some r }) s.channels
      ];
    })
  ]
]

-- One step of a call of Send.
unfoldable pub at_call : ℕ → (Call → Stage → System → Option System) → System → Option System
at_call i f s = elim (get_elem? s.calls i) [ some call ↦ f call call.stage s | none ↦ none ]

-- A step of a call of Send that is taken is taken by a call that there is.
pub at_call_cases :
    (i : ℕ) (f : Call → Stage → System → Option System) (s t : System)
    → at_call i f s ≡ some t
    → (call : Call) × (get_elem? s.calls i ≡ some call) × (f call call.stage s ≡ some t)
unfolding at_call
at_call_cases i f s t e = elim (Option-cases (get_elem? s.calls i)) [
  | inl p ↦ cc
  | inr (call, p) ↦ (call, p, ground (arith, e, p))
]

-- One step of the system, none where the goroutine waits.
module _ (cmd_id : String → ℕ → String) where
  unfoldable pub step : Event → System → Option System
  unfolding at_call
  step (begin target command) s = some (send_begin cmd_id target command s)
  step (await i) s = at_call i (send_await i) s
  step (connect i) s = at_call i (send_connect i) s
  step (give_up i) s = at_call i (send_give_up i) s
  step (register i) s = at_call i (send_register i) s
  step (enqueue i) s = at_call i (send_enqueue i) s
  step (interrupt i) s = at_call i (send_interrupt i) s
  step (receive i) s = at_call i (send_receive i) s
  step (finish i) s = at_call i (send_finish i) s
  step (mark machine) s = some (poll_mark machine s)
  step (take machine) s = poll_take machine s
  step (find_channel r) s = some (deliver_find r s)
  step (put_report n) s = deliver_put n s
  step (mark_agent_ready machine) s = some (record s { client = with_channel machine s.client })

  -- Several steps, in their order.
  unfoldable pub steps : List Event → System → Option System
  unfolding step
  steps [] s = some s
  steps (e ∷ rest) s = elim (step e s) [ some t ↦ steps rest t | none ↦ none ]

  -- The states that the client can come to.
  pub data Reachable : System → Type 0 where
    initial : Reachable new_poll_client
    next : {s : System} (e : Event) (t : System) → Reachable s → step e s ≡ some t → Reachable t

-- SendAll: a call of Send for each target, which begin in any order with the steps of others, and
-- whose contexts end at the first error; and what it returns, by the outcomes of its calls in the order
-- in which they return.
unfoldable pub send_all : (targets : List String) → Command → List Event
send_all [] command = []
send_all (target ∷ targets) command = begin target command ∷ send_all targets command

unfoldable pub first_error : List Outcome → Option String
unfolding send_error
first_error [] = none
first_error (o ∷ outcomes) =
    let later = first_error outcomes in elim (send_error o) [ some e ↦ some e | none ↦ later ]
