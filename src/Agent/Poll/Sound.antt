-- ===== src/Agent/Poll/Sound.antt =====
-- internal/domain/agent/client_poll.go: reports stay with their commands, in channels, deliveries and
-- calls of Send; the steps of Send keep it so.
use mathlib.Core.Option.{some-injective}
use hatchet_workflow.Base.{
  ℕ, ◌≡◌, subst, String, List, [], ◌∷◌, ◌++◌, length, Option, none, some, insert, remove, get_elem?,
  set_at, arith, All, All-insert, All-remove, All-set_at, All-add, All-get, All-map,
  get_elem?-set_at, get_elem?-append, get_elem?-length,
}
use hatchet_workflow.Agent.Poll.Effects.{
  channel_of, outcome_of, await_effect, connect_effect, give_up_effect, register_effect,
  enqueue_effect, interrupt_effect, finish_effect, receive_effect,
}
use hatchet_workflow.Agent.Poll.{
  Report, Channel, PollClient, Outcome, Stage, Call, System, starting, connecting, connected,
  registered, enqueued, ending, returned, reported, did_not_connect, interrupted, move,
  with_channel, send_await, send_connect, send_give_up, send_register, send_enqueue, send_interrupt,
  send_receive, send_finish,
}

-- The command that a channel was made for.
unfoldable pub owner_of : List Channel → ℕ → Option String
owner_of cs ch = elim (get_elem? cs ch) [ some c ↦ some c.owner | none ↦ none ]

-- A report in a channel is about the channel's command.
abbrev pub FitsBuffer : String → Option Report → Type 0
FitsBuffer owner none = Unit
FitsBuffer owner (some r) = r.command_id ≡ owner

abbrev pub FitsOutcome : String → Outcome → Type 0
FitsOutcome id (reported r) = r.command_id ≡ id
FitsOutcome id did_not_connect = Unit
FitsOutcome id interrupted = Unit

-- What a call of Send holds is about its own command.
abbrev pub FitsStage : List Channel → String → Stage → Type 0
FitsStage cs id starting = Unit
FitsStage cs id connecting = Unit
FitsStage cs id connected = Unit
FitsStage cs id (registered ch) = owner_of cs ch ≡ some id
FitsStage cs id (enqueued ch) = owner_of cs ch ≡ some id
FitsStage cs id (ending o) = FitsOutcome id o
FitsStage cs id (returned o) = FitsOutcome id o

abbrev pub FitsChannel : Channel → Type 0
FitsChannel c = FitsBuffer c.owner c.buffer

abbrev pub FitsResult : List Channel → (String × ℕ) → Type 0
FitsResult cs (id, ch) = owner_of cs ch ≡ some id

abbrev pub FitsDelivery : List Channel → (ℕ × Report) → Type 0
FitsDelivery cs (ch, r) = owner_of cs ch ≡ some r.command_id

abbrev pub FitsCall : List Channel → Call → Type 0
FitsCall cs call = FitsStage cs call.command.id call.stage

pub record Sound (s : System) : Type 0 where
  pub results_fit : All (FitsResult s.channels) s.client.results
  pub channels_fit : All FitsChannel s.channels
  pub deliveries_fit : All (FitsDelivery s.channels) s.deliveries
  pub calls_fit : All (FitsCall s.channels) s.calls

-- Channels keep their owners when one is added or one's buffer changes.
abbrev pub Extends : List Channel → List Channel → Type 0
Extends cs ds = (ch : ℕ) (id : String) → owner_of cs ch ≡ some id → owner_of ds ch ≡ some id

pub Extends-add : (cs : List Channel) (c : Channel) → Extends cs (cs ++ (c ∷ []))
unfolding owner_of
Extends-add cs c ch id e = ground (arith, e, get_elem?-append ch cs c, get_elem?-length cs)

pub Extends-set :
    (cs : List Channel) (n : ℕ) (c : Channel) (b : Option Report)
    → get_elem? cs n ≡ some c
    → Extends cs (set_at n (record c { buffer = b }) cs)
unfolding owner_of
Extends-set cs n c b found ch id e =
    ground (arith, found, e, get_elem?-set_at n ch (record c { buffer = b }) cs)

module _ (cs ds : List Channel) (ext : Extends cs ds) where
  extends-FitsStage : (id : String) (st : Stage) → FitsStage cs id st → FitsStage ds id st
  extends-FitsStage id starting fits = tt
  extends-FitsStage id connecting fits = tt
  extends-FitsStage id connected fits = tt
  extends-FitsStage id (registered ch) fits = ext ch id fits
  extends-FitsStage id (enqueued ch) fits = ext ch id fits
  extends-FitsStage id (ending o) fits = fits
  extends-FitsStage id (returned o) fits = fits

  extends-calls : (calls : List Call) → All (FitsCall cs) calls → All (FitsCall ds) calls
  extends-calls calls =
      All-map (FitsCall cs) (FitsCall ds) calls
        (λ call. extends-FitsStage call.command.id call.stage)

  extends-results :
      (results : List (String × ℕ)) → All (FitsResult cs) results → All (FitsResult ds) results
  extends-results results =
      All-map (FitsResult cs) (FitsResult ds) results (λ entry. ext entry.1 entry.0)

  extends-deliveries :
      (deliveries : List (ℕ × Report))
      → All (FitsDelivery cs) deliveries
      → All (FitsDelivery ds) deliveries
  extends-deliveries deliveries =
      All-map (FitsDelivery cs) (FitsDelivery ds) deliveries (λ d. ext d.0 d.1.command_id)

-- A call that comes to another stage, where the rest of the state is sound.
pub moved :
    (s : System) (i : ℕ) (call : Call) (st : Stage)
    → Sound s
    → FitsStage s.channels call.command.id st
    → Sound (move s i call st)
unfolding move
moved s i call st ok fits = record {
  results_fit = ok.results_fit;
  channels_fit = ok.channels_fit;
  deliveries_fit = ok.deliveries_fit;
  calls_fit =
      All-set_at (FitsCall s.channels) i (record call { stage = st }) s.calls fits ok.calls_fit;
}

-- Only the results of the client matter.
pub other_client :
    (s : System) (c : PollClient)
    → c.results ≡ s.client.results
    → Sound s
    → Sound (record s { client = c })
other_client s c same ok = record {
  results_fit = rw same (ok.results_fit);
  channels_fit = ok.channels_fit;
  deliveries_fit = ok.deliveries_fit;
  calls_fit = ok.calls_fit;
}

pub with_channel-results : (m : String) (c : PollClient) → (with_channel m c).results ≡ c.results
unfolding with_channel
with_channel-results m c = ground arith

-- Channels change, and nothing else that matters.
pub with_channels :
    (s : System) (ds : List Channel)
    → Extends s.channels ds
    → All FitsChannel ds
    → Sound s
    → Sound (record s { channels = ds })
with_channels s ds ext fits ok = record {
  results_fit = extends-results s.channels ds ext s.client.results ok.results_fit;
  channels_fit = fits;
  deliveries_fit = extends-deliveries s.channels ds ext s.deliveries ok.deliveries_fit;
  calls_fit = extends-calls s.channels ds ext s.calls ok.calls_fit;
}

pub with_results :
    (s : System) (results : List (String × ℕ))
    → All (FitsResult s.channels) results
    → Sound s
    → Sound (record s { client = record s.client { results = results } })
with_results s results fits ok = record {
  results_fit = fits;
  channels_fit = ok.channels_fit;
  deliveries_fit = ok.deliveries_fit;
  calls_fit = ok.calls_fit;
}

-- A new channel belongs to the command it is made for.
pub owner_of-new :
    (cs : List Channel) (id : String)
    → owner_of (cs ++ (record { owner = id; buffer = none } ∷ [])) (length cs) ≡ some id
unfolding owner_of
owner_of-new cs id =
    ground (arith, get_elem?-append (length cs) cs (record { owner = id; buffer = none }))

pub arrives : (u t : System) → Sound u → some u ≡ some t → Sound t
arrives u t ok e = subst Sound (some-injective u t e) ok

-- The steps of Send keep every report with its command.
module _ (i : ℕ) (s t : System) (call : Call) (st : Stage) (ok : Sound s)
    (fits : FitsStage s.channels call.command.id st) where
  pub await-Sound : send_await i call st s ≡ some t → Sound t
  await-Sound e = rw (await_effect i s t call st e) (
      moved (record s { client = with_channel call.target s.client }) i call connecting
        (other_client s (with_channel call.target s.client)
          (with_channel-results call.target s.client) ok)
        tt)

  pub connect-Sound : send_connect i call st s ≡ some t → Sound t
  connect-Sound e = rw (connect_effect i s t call st e) (moved s i call connected ok tt)

  pub give_up-Sound : send_give_up i call st s ≡ some t → Sound t
  give_up-Sound e =
      rw (give_up_effect i s t call st e) (moved s i call (returned did_not_connect) ok tt)

  pub register-Sound : send_register i call st s ≡ some t → Sound t
  register-Sound e =
      let c : Channel = record { owner = call.command.id; buffer = none } in
      let ds = s.channels ++ (c ∷ []) in
      let wider =
        with_channels s ds (Extends-add s.channels c)
          (All-add FitsChannel s.channels c ok.channels_fit tt) ok in
      let mine = owner_of-new s.channels call.command.id in
      rw (register_effect i s t call st e) (
        moved _ i call (registered (length s.channels))
          (with_results (record s { channels = ds })
            (insert call.command.id (length s.channels) s.client.results)
            (All-insert (FitsResult ds) call.command.id (length s.channels) s.client.results mine
              wider.results_fit)
            wider)
          mine)

  pub enqueue-Sound : send_enqueue i call st s ≡ some t → Sound t
  enqueue-Sound e =
      let (at, now) = enqueue_effect i s t call st e in
      rw now (
        moved _ i call (enqueued (channel_of st))
          (record {
            results_fit = ok.results_fit;
            channels_fit = ok.channels_fit;
            deliveries_fit = ok.deliveries_fit;
            calls_fit = ok.calls_fit;
          })
          (subst (FitsStage s.channels call.command.id) at fits))

  pub interrupt-Sound : send_interrupt i call st s ≡ some t → Sound t
  interrupt-Sound e =
      rw (interrupt_effect i s t call st e) (moved s i call (ending interrupted) ok tt)

  pub receive-Sound : send_receive i call st s ≡ some t → Sound t
  unfolding owner_of
  receive-Sound e =
      let (c, r, at, found, full, now) = receive_effect i s t call st e in
      let emptied : Channel = record c { buffer = none } in
      let mine : owner_of s.channels (channel_of st) ≡ some call.command.id =
        subst (FitsStage s.channels call.command.id) at fits in
      let theirs : FitsChannel c =
        All-get FitsChannel s.channels (channel_of st) c ok.channels_fit found in
      let own : r.command_id ≡ c.owner = subst (FitsBuffer c.owner) full theirs in
      rw now (
        moved _ i call (ending (reported r))
          (with_channels s (set_at (channel_of st) emptied s.channels)
            (Extends-set s.channels (channel_of st) c none found)
            (All-set_at FitsChannel (channel_of st) emptied s.channels tt ok.channels_fit) ok)
          (ground (arith, own, mine, found)))

  pub finish-Sound : send_finish i call st s ≡ some t → Sound t
  finish-Sound e =
      let (at, now) = finish_effect i s t call st e in
      rw now (
        moved _ i call (returned (outcome_of st))
          (with_results s (remove call.command.id s.client.results)
            (All-remove (FitsResult s.channels) call.command.id s.client.results ok.results_fit) ok)
          (subst (FitsStage s.channels call.command.id) at fits))
