-- ===== src/Agent/Samples.antt =====
-- Calls of Send and polls, with the theorems about internal/domain/agent at these inputs.
use hatchet_workflow.Base.{
  ℕ, zero, suc, String, true, ◌≡◌, refl, List, [], ◌∷◌, none, some, get_elem?, lookup, insert,
  remove, set_at, remove_at, eq_iff, arith, subst, Option-cases, inl, inr,
}
use hatchet_workflow.Agent.Poll.{
  Command, Report, Call, System, Event, begin, await, connect, register, enqueue, interrupt,
  receive, finish, mark, take, find_channel, put_report, returned, reported, interrupted, enqueued,
  new_poll_client, queue_of, steps, step, Reachable, initial, next, send_error, send_begin,
  send_await, poll_mark, send_connect, send_register, send_enqueue, poll_take, deliver_put,
  deliver_find, send_receive, send_finish,
}
use mathlib.Core.Option.{some-injective}
use hatchet_workflow.Agent.Poll.Queues.{Fifo, Reachable-Fifo}
use hatchet_workflow.Agent.Poll.Reports.{reported-own}
use hatchet_workflow.Agent.Poll.Cancelled.{interrupted-handed, unfailed_ends}

abbrev cmd_id : String → ℕ → String
cmd_id target zero = "cmd-0"
cmd_id target (suc n) = "cmd-1"

abbrev install : Command
install = record { id = ""; action = "install_postgres"; config = "{}" }

abbrev numbered : Command
numbered = record { id = "cmd-1"; action = "install_postgres"; config = "{}" }

abbrev done : Report
done = record { command_id = "cmd-1"; status = "completed"; error = ""; output = "" }

-- A command that is enqueued, handed out and reported.
abbrev whole_run : List Event
whole_run =
    begin "db-0" install
    ∷ await 0
    ∷ mark "db-0"
    ∷ connect 0
    ∷ register 0
    ∷ enqueue 0
    ∷ take "db-0"
    ∷ find_channel done
    ∷ put_report 0
    ∷ receive 0
    ∷ finish 0
    ∷ []

-- The states that steps lead to can be reached.
steps-Reachable :
    (evs : List Event) (s t : System)
    → Reachable cmd_id s
    → steps cmd_id evs s ≡ some t
    → Reachable cmd_id t
unfolding steps
steps-Reachable [] s t from e = subst (Reachable cmd_id) (some-injective s t e) from
steps-Reachable (ev ∷ rest) s t from e = elim (Option-cases (step cmd_id ev s)) [
  | inl p ↦ ground (arith, e, p)
  | inr (u, p) ↦ steps-Reachable rest u t (next ev u from p) (ground (arith, e, p))
]

abbrev end_call : Call
end_call = record { target = "db-0"; command = numbered; stage = returned (reported done) }

abbrev end_state : System
end_state = record {
  client = record {
    queues = ("db-0", []) ∷ [];
    results = [];
    healthy = ("db-0", true) ∷ [];
    cmd_seq = 1;
  };
  channels = record { owner = "cmd-1"; buffer = none } ∷ [];
  calls = end_call ∷ [];
  deliveries = [];
  sent = ("db-0", numbered) ∷ [];
  handed = ("db-0", numbered) ∷ [];
}

whole_run_ends : steps cmd_id whole_run new_poll_client ≡ some end_state
unfolding steps step new_poll_client send_begin send_await poll_mark send_connect send_register
    send_enqueue poll_take deliver_put deliver_find send_receive send_finish lookup insert set_at
    remove remove_at
whole_run_ends = refl

end-Reachable : Reachable cmd_id end_state
end-Reachable = steps-Reachable whole_run new_poll_client end_state initial whole_run_ends

Reachable-Fifo_example : Fifo "db-0" end_state
Reachable-Fifo_example = Reachable-Fifo cmd_id "db-0" end_state end-Reachable

reported-own_example : done.command_id ≡ numbered.id
reported-own_example = reported-own cmd_id end_state 0 end_call done end-Reachable refl refl

-- A command that is enqueued.
abbrev half_call : Call
half_call = record { target = "db-0"; command = numbered; stage = enqueued 0 }

abbrev half_state : System
half_state = record {
  client = record {
    queues = ("db-0", numbered ∷ []) ∷ [];
    results = ("cmd-1", 0) ∷ [];
    healthy = ("db-0", true) ∷ [];
    cmd_seq = 1;
  };
  channels = record { owner = "cmd-1"; buffer = none } ∷ [];
  calls = half_call ∷ [];
  deliveries = [];
  sent = ("db-0", numbered) ∷ [];
  handed = [];
}

interrupted-handed_example :
    (t : System) × (steps cmd_id (interrupt 0 ∷ finish 0 ∷ take "db-0" ∷ []) half_state ≡ some t)
    × (get_elem? t.calls 0 ≡ some (record half_call { stage = returned interrupted }))
    × (t.handed ≡ ("db-0", numbered) ∷ [])
unfolding queue_of lookup
interrupted-handed_example = interrupted-handed cmd_id half_state 0 0 half_call [] refl refl refl

abbrev progress : Report
progress = record { command_id = "cmd-1"; status = "running"; error = ""; output = "" }

unfailed_ends_example :
    (t : System) × (steps cmd_id
        (find_channel progress ∷ put_report 0 ∷ receive 0 ∷ finish 0 ∷ [])
        half_state
      ≡ some t)
    × (get_elem? t.calls 0 ≡ some (record half_call { stage = returned (reported progress) }))
    × (send_error (reported progress) ≡ none)
unfolding lookup
unfailed_ends_example =
    unfailed_ends cmd_id half_state 0 0 half_call (record { owner = "cmd-1"; buffer = none })
      progress refl refl refl refl refl refl refl
      (λ e. ground (arith, e, eq_iff "running" "failed"))
