-- ===== src/Agent/Poll/Reports.antt =====
-- internal/domain/agent/client_poll.go: a call of Send that returns on a report returns on one of its
-- own command.
use hatchet_workflow.Base.{
  ℕ, suc, ◌≡◌, refl, subst, String, true, [], ◌∷◌, ◌++◌, Option, some, ◌==◌, lookup, insert,
  get_elem?, set_at, remove_at, arith, Option-cases, Bool-cases, List-cases, inl, inr, All-lookup,
  All-set_at, All-remove_at, All-add, All-get,
}
use hatchet_workflow.Agent.Poll.{
  Command, Report, Channel, Stage, Call, System, Event, begin, await, connect, give_up, register,
  enqueue, interrupt, receive, finish, mark, take, find_channel, put_report, mark_agent_ready,
  starting, returned, reported, new_poll_client, queue_of, with_channel, send_begin, send_await,
  send_connect, send_give_up, send_register, send_enqueue, send_interrupt, send_receive,
  send_finish, poll_mark, poll_take, deliver_find, deliver_put, at_call, at_call_cases, step,
  Reachable, initial, next,
}
use hatchet_workflow.Agent.Poll.Sound.{
  owner_of, FitsStage, FitsChannel, FitsResult, FitsDelivery, FitsCall, Sound, Extends-set,
  other_client, with_channel-results, with_channels, arrives, await-Sound, connect-Sound,
  give_up-Sound, register-Sound, enqueue-Sound, interrupt-Sound, receive-Sound, finish-Sound,
}

begin-Sound :
    (cmd_id : String → ℕ → String) (target : String) (c : Command) (s : System)
    → Sound s
    → Sound (send_begin cmd_id target c s)
unfolding send_begin
begin-Sound cmd_id target c s ok = elim (Bool-cases (c.id == "")) [
  | inl e ↦
      let seq = suc s.client.cmd_seq in
      let call : Call = record {
        target = target;
        command = record c { id = cmd_id target seq };
        stage = starting;
      } in
      rw e (record {
        results_fit = ok.results_fit;
        channels_fit = ok.channels_fit;
        deliveries_fit = ok.deliveries_fit;
        calls_fit = All-add (FitsCall s.channels) s.calls call ok.calls_fit tt;
      })
  | inr e ↦
      let call : Call = record { target = target; command = c; stage = starting } in
      rw e (record {
        results_fit = ok.results_fit;
        channels_fit = ok.channels_fit;
        deliveries_fit = ok.deliveries_fit;
        calls_fit = All-add (FitsCall s.channels) s.calls call ok.calls_fit tt;
      })
]

mark-Sound : (m : String) (s : System) → Sound s → Sound (poll_mark m s)
unfolding poll_mark
mark-Sound m s ok = elim (Option-cases (lookup m s.client.healthy)) [
  | inl e ↦ rw (e, poll_mark) ok
  | inr (b, e) ↦
      rw (e, poll_mark)
        (other_client s (record s.client { healthy = insert m true s.client.healthy }) refl ok)
]

take-Sound : (m : String) (s t : System) → Sound s → poll_take m s ≡ some t → Sound t
unfolding poll_take
take-Sound m s t ok e = elim (List-cases (queue_of s.client m)) [
  | inl p ↦ ground (arith, e, p)
  | inr (cmd, rest, p) ↦
      let now : t ≡ record s {
        client = record s.client { queues = insert m rest s.client.queues };
        handed = s.handed ++ ((m, cmd) ∷ []);
      } =
        ground (arith, e, p) in
      rw now (record {
        results_fit = ok.results_fit;
        channels_fit = ok.channels_fit;
        deliveries_fit = ok.deliveries_fit;
        calls_fit = ok.calls_fit;
      })
]

find-Sound : (r : Report) (s : System) → Sound s → Sound (deliver_find r s)
unfolding deliver_find
find-Sound r s ok = elim (Option-cases (lookup r.command_id s.client.results)) [
  | inl e ↦ rw (e, deliver_find) ok
  | inr (ch, e) ↦
      rw (e, deliver_find)
        (record {
          results_fit = ok.results_fit;
          channels_fit = ok.channels_fit;
          deliveries_fit =
              All-add (FitsDelivery s.channels) s.deliveries (ch, r) ok.deliveries_fit
                (All-lookup (FitsResult s.channels) r.command_id ch s.client.results ok.results_fit
                  e);
          calls_fit = ok.calls_fit;
        })
]

-- A delivery that is done.
delivered :
    (s : System) (n : ℕ) → Sound s → Sound (record s { deliveries = remove_at n s.deliveries })
delivered s n ok = record {
  results_fit = ok.results_fit;
  channels_fit = ok.channels_fit;
  deliveries_fit = All-remove_at (FitsDelivery s.channels) n s.deliveries ok.deliveries_fit;
  calls_fit = ok.calls_fit;
}

put-Sound : (n : ℕ) (s t : System) → Sound s → deliver_put n s ≡ some t → Sound t
unfolding deliver_put owner_of
put-Sound n s t ok e = elim (Option-cases (get_elem? s.deliveries n)) [
  | inl p ↦ ground (arith, e, p)
  | inr ((ch, r), p) ↦ elim (Option-cases (get_elem? s.channels ch)) [
    | inl q ↦ ground (arith, e, p, q)
    | inr (c, q) ↦
        let less = delivered s n ok in
        let owned : owner_of s.channels ch ≡ some r.command_id =
          All-get (FitsDelivery s.channels) s.deliveries n (ch, r) ok.deliveries_fit p in
        let own : r.command_id ≡ c.owner = ground (arith, owned, q) in
        elim (Option-cases (c.buffer)) [
          | inr (_, full) ↦
              let now : t ≡ record s { deliveries = remove_at n s.deliveries } =
                ground (arith, e, p, q, full) in
              rw now less
          | inl empty ↦
              let filled : Channel = record c { buffer = some r } in
              let now : t ≡ record s {
                deliveries = remove_at n s.deliveries;
                channels = set_at ch filled s.channels;
              } =
                ground (arith, e, p, q, empty) in
              rw now (
                with_channels (record s { deliveries = remove_at n s.deliveries })
                  (set_at ch filled s.channels) (Extends-set s.channels ch c (some r) q)
                  (All-set_at FitsChannel ch filled s.channels own ok.channels_fit) less)
        ]
  ]
]

-- A step of a call of Send.
call-Sound :
    (i : ℕ) (f : Call → Stage → System → Option System) (s t : System)
    → Sound s
    → ((call : Call) (st : Stage)
        → FitsStage s.channels call.command.id st
        → f call st s ≡ some t
        → Sound t)
    → at_call i f s ≡ some t
    → Sound t
call-Sound i f s t ok each e =
    let (call, found, p) = at_call_cases i f s t e in
    each call call.stage (All-get (FitsCall s.channels) s.calls i call ok.calls_fit found) p

step-Sound :
    (cmd_id : String → ℕ → String) (ev : Event) (s t : System)
    → Sound s
    → step cmd_id ev s ≡ some t
    → Sound t
unfolding step
step-Sound cmd_id (begin target c) s t ok e =
    arrives (send_begin cmd_id target c s) t (begin-Sound cmd_id target c s ok) e
step-Sound cmd_id (await i) s t ok e =
    call-Sound i (send_await i) s t ok (λ call st. await-Sound i s t call st ok) e
step-Sound cmd_id (connect i) s t ok e =
    call-Sound i (send_connect i) s t ok (λ call st. connect-Sound i s t call st ok) e
step-Sound cmd_id (give_up i) s t ok e =
    call-Sound i (send_give_up i) s t ok (λ call st. give_up-Sound i s t call st ok) e
step-Sound cmd_id (register i) s t ok e =
    call-Sound i (send_register i) s t ok (λ call st. register-Sound i s t call st ok) e
step-Sound cmd_id (enqueue i) s t ok e =
    call-Sound i (send_enqueue i) s t ok (λ call st. enqueue-Sound i s t call st ok) e
step-Sound cmd_id (interrupt i) s t ok e =
    call-Sound i (send_interrupt i) s t ok (λ call st. interrupt-Sound i s t call st ok) e
step-Sound cmd_id (receive i) s t ok e =
    call-Sound i (send_receive i) s t ok (λ call st. receive-Sound i s t call st ok) e
step-Sound cmd_id (finish i) s t ok e =
    call-Sound i (send_finish i) s t ok (λ call st. finish-Sound i s t call st ok) e
step-Sound cmd_id (mark m) s t ok e = arrives (poll_mark m s) t (mark-Sound m s ok) e
step-Sound cmd_id (take m) s t ok e = take-Sound m s t ok e
step-Sound cmd_id (find_channel r) s t ok e = arrives (deliver_find r s) t (find-Sound r s ok) e
step-Sound cmd_id (put_report n) s t ok e = put-Sound n s t ok e
step-Sound cmd_id (mark_agent_ready m) s t ok e =
    arrives (record s { client = with_channel m s.client }) t
      (other_client s (with_channel m s.client) (with_channel-results m s.client) ok) e

Reachable-Sound : (cmd_id : String → ℕ → String) (s : System) → Reachable cmd_id s → Sound s
unfolding new_poll_client
Reachable-Sound cmd_id _ initial = record {
  results_fit = tt;
  channels_fit = tt;
  deliveries_fit = tt;
  calls_fit = tt;
}
Reachable-Sound cmd_id _ (next {s} ev t from e) =
    step-Sound cmd_id ev s t (Reachable-Sound cmd_id s from) e

-- In every state that the client can come to, a call of Send that has returned on a report has
-- returned on a report about its own command.
pub reported-own :
    (cmd_id : String → ℕ → String) (s : System) (i : ℕ) (call : Call) (r : Report)
    → Reachable cmd_id s
    → get_elem? s.calls i ≡ some call
    → call.stage ≡ returned (reported r)
    → r.command_id ≡ call.command.id
reported-own cmd_id s i call r from found at =
    let ok = Reachable-Sound cmd_id s from in
    let fits : FitsStage s.channels call.command.id call.stage =
      All-get (FitsCall s.channels) s.calls i call ok.calls_fit found in
    subst (FitsStage s.channels call.command.id) at fits
