-- ===== src/Agent/Poll/Effects.antt =====
-- internal/domain/agent/client_poll.go: the state that each step of Send leads to.
use hatchet_workflow.Base.{
  ℕ, ◌≡◌, [], ◌∷◌, ◌++◌, length, none, some, insert, remove, get_elem?, set_at, arith, Option-cases,
  inl, inr,
}
use hatchet_workflow.Agent.Poll.{
  Report, Channel, Outcome, Stage, Call, System, starting, connecting, connected, registered,
  enqueued, ending, returned, reported, did_not_connect, interrupted, queue_of, move, with_channel,
  send_await, send_connect, send_give_up, send_register, send_enqueue, send_interrupt, send_receive,
  send_finish,
}

-- The channel and the outcome of a stage that has one.
unfoldable pub channel_of : Stage → ℕ
channel_of starting = 0
channel_of connecting = 0
channel_of connected = 0
channel_of (registered ch) = ch
channel_of (enqueued ch) = ch
channel_of (ending _) = 0
channel_of (returned _) = 0

unfoldable pub outcome_of : Stage → Outcome
outcome_of starting = interrupted
outcome_of connecting = interrupted
outcome_of connected = interrupted
outcome_of (registered _) = interrupted
outcome_of (enqueued _) = interrupted
outcome_of (ending o) = o
outcome_of (returned o) = o

-- The states that the steps of Send lead to.
module _ (i : ℕ) (s t : System) (call : Call) (st : Stage) where
  pub await_effect :
      send_await i call st s ≡ some t
      → t ≡ move (record s { client = with_channel call.target s.client }) i call connecting
  unfolding send_await
  await_effect e = ground (arith, e)

  pub connect_effect : send_connect i call st s ≡ some t → t ≡ move s i call connected
  unfolding send_connect
  connect_effect e = ground (arith, e)

  pub give_up_effect :
      send_give_up i call st s ≡ some t → t ≡ move s i call (returned did_not_connect)
  unfolding send_give_up
  give_up_effect e = ground (arith, e)

  pub register_effect :
      send_register i call st s ≡ some t
      → t
        ≡ move
            (record s {
              client = record s.client {
                results = insert call.command.id (length s.channels) s.client.results;
              };
              channels = s.channels ++ (record { owner = call.command.id; buffer = none } ∷ []);
            })
            i
            call
            (registered (length s.channels))
  unfolding send_register
  register_effect e = ground (arith, e)

  pub enqueue_effect :
      send_enqueue i call st s ≡ some t
      → (st ≡ registered (channel_of st))
        × (t
            ≡ move
                (record s {
                  client = record s.client {
                    queues =
                        insert call.target
                          (queue_of s.client call.target ++ (call.command ∷ []))
                          s.client.queues;
                  };
                  sent = s.sent ++ ((call.target, call.command) ∷ []);
                })
                i
                call
                (enqueued (channel_of st)))
  unfolding send_enqueue channel_of
  enqueue_effect e = ground (arith, e)

  pub interrupt_effect :
      send_interrupt i call st s ≡ some t → t ≡ move s i call (ending interrupted)
  unfolding send_interrupt
  interrupt_effect e = ground (arith, e)

  pub finish_effect :
      send_finish i call st s ≡ some t
      → (st ≡ ending (outcome_of st))
        × (t
            ≡ move
                (record s {
                  client = record s.client { results = remove call.command.id s.client.results };
                })
                i
                call
                (returned (outcome_of st)))
  unfolding send_finish outcome_of
  finish_effect e = ground (arith, e)

  pub receive_effect :
      send_receive i call st s ≡ some t
      → (c : Channel) × (r : Report) × (st ≡ enqueued (channel_of st))
        × (get_elem? s.channels (channel_of st) ≡ some c)
        × (c.buffer ≡ some r)
        × (t
            ≡ move
                (record s {
                  channels = set_at (channel_of st) (record c { buffer = none }) s.channels;
                })
                i
                call
                (ending (reported r)))
  unfolding send_receive channel_of
  receive_effect e = elim (Option-cases (get_elem? s.channels (channel_of st))) [
    | inl p ↦ ground (arith, e, p)
    | inr (c, p) ↦ elim (Option-cases (c.buffer)) [
      | inl q ↦ ground (arith, e, p, q)
      | inr (r, q) ↦ (c, r, ground (arith, e, p, q), p, q, ground (arith, e, p, q))
    ]
  ]
