-- ===== src/Agent/Poll/Cancelled.antt =====
-- internal/domain/agent/client_poll.go: what a call of Send leaves behind when its caller gives up,
-- and what it takes for the end of a command.
use hatchet_workflow.Base.{
  ℕ, ◌≡◌, String, List, [], ◌∷◌, ◌++◌, Option, none, some, lookup, get_elem?, set_at, remove_at,
  arith, get_elem?-set_at, eq_false, insert, remove, refl, ◌∙◌, ◌≢◌,
}
use hatchet_workflow.Agent.Poll.{
  Command, Report, Channel, Outcome, Stage, Call, System, Event, interrupt, receive, finish, take,
  find_channel, put_report, enqueued, ending, returned, reported, interrupted, queue_of, move,
  send_interrupt, send_receive, send_finish, poll_take, deliver_find, deliver_put, at_call, step,
  steps, send_error,
}

-- One step, and the steps after it.
steps-cons :
    (cmd_id : String → ℕ → String) (e : Event) (rest : List Event) (s t : System)
    → step cmd_id e s ≡ some t
    → steps cmd_id (e ∷ rest) s ≡ steps cmd_id rest t
unfolding steps
steps-cons cmd_id e rest s t h = rw (h, steps) refl

-- A call of Send at a stage, in the list of calls.
abbrev At : System → ℕ → Call → Type 0
At s i call = get_elem? s.calls i ≡ some call

move-At :
    (s : System) (i : ℕ) (call old : Call) (st : Stage)
    → At s i old
    → At (move s i call st) i (record call { stage = st })
unfolding move
move-At s i call old st found =
    ground (arith, found, get_elem?-set_at i i (record call { stage = st }) s.calls)

-- The step of a call at a known stage.
at_call-At :
    (i : ℕ) (f : Call → Stage → System → Option System) (s : System) (call : Call)
    → At s i call
    → at_call i f s ≡ f call call.stage s
unfolding at_call
at_call-At i f s call found = rw (found, at_call) refl

ended : System → ℕ → Call → Outcome → System
ended s i call o = record s {
  client = record s.client { results = remove call.command.id s.client.results };
  calls =
      set_at i (record call { stage = returned o })
        (set_at i (record call { stage = ending o }) s.calls);
}

-- The deferred end of a call.
finish_lem :
    (cmd_id : String → ℕ → String) (s : System) (i : ℕ) (call : Call) (o : Outcome)
    → At s i call
    → step cmd_id (finish i) (move s i call (ending o)) ≡ some (ended s i call o)
unfolding step send_finish move ended
finish_lem cmd_id s i call o found =
    at_call-At i (send_finish i) (move s i call (ending o)) (record call { stage = ending o })
      (move-At s i call call (ending o) found)

ended-At :
    (s : System) (i : ℕ) (call : Call) (o : Outcome)
    → At s i call
    → At (ended s i call o) i (record call { stage = returned o })
unfolding ended
ended-At s i call o found = ground (
  arith,
  found,
  get_elem?-set_at i i (record call { stage = returned o })
      (set_at i (record call { stage = ending o }) s.calls),
  get_elem?-set_at i i (record call { stage = ending o }) s.calls,
)

interrupt_lem :
    (cmd_id : String → ℕ → String) (s : System) (i ch : ℕ) (call : Call)
    → At s i call
    → call.stage ≡ enqueued ch
    → step cmd_id (interrupt i) s ≡ some (move s i call (ending interrupted))
unfolding step send_interrupt
interrupt_lem cmd_id s i ch call found at =
    at_call-At i (send_interrupt i) s call found ∙ ground (arith, at)

take_lem :
    (cmd_id : String → ℕ → String) (s : System) (m : String) (cmd : Command) (rest : List Command)
    → queue_of s.client m ≡ cmd ∷ rest
    → step cmd_id (take m) s
      ≡ some (record s {
        client = record s.client { queues = insert m rest s.client.queues };
        handed = s.handed ++ ((m, cmd) ∷ []);
      })
unfolding step poll_take
take_lem cmd_id s m cmd rest waits = ground (arith, waits)

-- A call of Send awaits its report, and its command is the next in the machine's queue. When the
-- caller's context ends, the call returns with an error, and still the machine's next poll is handed
-- the command.
pub interrupted-handed :
    (cmd_id : String → ℕ → String) (s : System) (i ch : ℕ) (call : Call) (rest : List Command)
    → get_elem? s.calls i ≡ some call
    → call.stage ≡ enqueued ch
    → queue_of s.client call.target ≡ call.command ∷ rest
    → (t : System) × (steps cmd_id (interrupt i ∷ finish i ∷ take call.target ∷ []) s ≡ some t)
      × (get_elem? t.calls i ≡ some (record call { stage = returned interrupted }))
      × (t.handed ≡ s.handed ++ ((call.target, call.command) ∷ []))
unfolding steps ended queue_of
interrupted-handed cmd_id s i ch call rest found at waits =
    let u = ended s i call interrupted in
    (
      record u {
        client = record u.client { queues = insert call.target rest u.client.queues };
        handed = s.handed ++ ((call.target, call.command) ∷ []);
      },
      steps-cons cmd_id (interrupt i) (finish i ∷ take call.target ∷ []) s _
            (interrupt_lem cmd_id s i ch call found at)
          ∙ (steps-cons cmd_id (finish i) (take call.target ∷ []) _ u
                (finish_lem cmd_id s i call interrupted found)
              ∙ steps-cons cmd_id (take call.target) [] u _
                  (take_lem cmd_id u call.target call.command rest waits)),
      ended-At s i call interrupted found,
      refl,
    )

find_lem :
    (cmd_id : String → ℕ → String) (s : System) (ch : ℕ) (id : String) (r : Report)
    → lookup id s.client.results ≡ some ch
    → r.command_id ≡ id
    → s.deliveries ≡ []
    → step cmd_id (find_channel r) s ≡ some (record s { deliveries = (ch, r) ∷ [] })
unfolding step deliver_find
find_lem cmd_id s ch id r e own idle =
    let e' : lookup r.command_id s.client.results ≡ some ch = rw own e in
    rw (e', deliver_find, idle) refl

put_lem :
    (cmd_id : String → ℕ → String) (s : System) (ch : ℕ) (c : Channel) (r : Report)
    → get_elem? s.channels ch ≡ some c
    → c.buffer ≡ none
    → step cmd_id (put_report 0) (record s { deliveries = (ch, r) ∷ [] })
      ≡ some (record s {
        deliveries = [];
        channels = set_at ch (record c { buffer = some r }) s.channels;
      })
unfolding step deliver_put remove_at
put_lem cmd_id s ch c r there empty = ground (arith, there, empty)

receive_lem :
    (cmd_id : String → ℕ → String) (s : System) (i ch : ℕ) (call : Call) (c : Channel) (r : Report)
    → At s i call
    → call.stage ≡ enqueued ch
    → get_elem? s.channels ch ≡ some c
    → c.buffer ≡ some r
    → step cmd_id (receive i) s
      ≡ some (
          move
            (record s { channels = set_at ch (record c { buffer = none }) s.channels })
            i
            call
            (ending (reported r)))
unfolding step send_receive
receive_lem cmd_id s i ch call c r found at there full =
    at_call-At i (send_receive i) s call found ∙ ground (arith, at, there, full)

-- A call of Send awaits its report. A report of its command that says anything else than `failed`,
-- the status `running` as well, makes it return without an error.
pub unfailed_ends :
    (cmd_id : String → ℕ → String) (s : System) (i ch : ℕ) (call : Call) (c : Channel) (r : Report)
    → get_elem? s.calls i ≡ some call
    → call.stage ≡ enqueued ch
    → s.deliveries ≡ []
    → lookup call.command.id s.client.results ≡ some ch
    → get_elem? s.channels ch ≡ some c
    → c.buffer ≡ none
    → r.command_id ≡ call.command.id
    → r.status ≢ "failed"
    → (t : System) × (steps cmd_id (find_channel r ∷ put_report 0 ∷ receive i ∷ finish i ∷ []) s
        ≡ some t)
      × (get_elem? t.calls i ≡ some (record call { stage = returned (reported r) }))
      × (send_error (reported r) ≡ none)
unfolding steps ended send_error
unfailed_ends cmd_id s i ch call c r found at idle channel_is there empty own unfailed =
    let full : Channel = record c { buffer = some r } in
    let put = record s { deliveries = []; channels = set_at ch full s.channels } in
    let got = record put {
      channels = set_at ch (record full { buffer = none }) (set_at ch full s.channels);
    } in
    (
      ended got i call (reported r),
      steps-cons cmd_id (find_channel r) (put_report 0 ∷ receive i ∷ finish i ∷ []) s
            (record s { deliveries = (ch, r) ∷ [] })
            (find_lem cmd_id s ch call.command.id r channel_is own idle)
          ∙ (steps-cons cmd_id (put_report 0) (receive i ∷ finish i ∷ []) _ put
                (put_lem cmd_id s ch c r there empty)
              ∙ (steps-cons cmd_id (receive i) (finish i ∷ []) put _ (
                    receive_lem cmd_id put i ch call full r found at
                      (ground (arith, there, get_elem?-set_at ch ch full s.channels)) refl)
                  ∙ steps-cons cmd_id (finish i) [] _ _
                      (finish_lem cmd_id got i call (reported r) found))),
      ended-At got i call (reported r) found,
      rw (eq_false r.status "failed" unfailed) refl,
    )
