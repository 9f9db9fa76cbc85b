-- ===== src/Api/Hub/Isolated.antt =====
-- internal/domain/api/ws_hub.go and server.go: to whom the lines of an agent's log are sent.
use hatchet_workflow.Base.{
  ◌+◌, ◌-◌, ◌≤◌, ◌≡◌, refl, ap, sym, ◌∙◌, ◌⊎◌, inl, inr, String, Bool, true, false, not, List, [],
  ◌∷◌, ◌++◌, length, length-append, Memᴰ, keep-Memᴰ, subst, ◌&&◌, if◌then◌else◌, ◌==◌, leb, arith,
  eq_iff, Bool-cases, ◌↔◌, Memᴰ-keep,
}
use hatchet_workflow.Base.Text.{join, join_assoc}
use hatchet_workflow.Api.Hub.{
  WsClient, WsMessage, conflict, broadcast, is_dash, prepend, split, join_parts, take,
  extract_run_id, log_message,
}

-- A text in which no character is a dash.
unfoldable pub has_dash : String → Bool
has_dash String.[] = false
has_dash (String.◌∷◌ c s) = if is_dash (String.◌∷◌ c String.[]) then true else has_dash s

split-cons : (s : String) → (part : String) × (parts : List String) × (split s ≡ part ∷ parts)
unfolding split prepend
split-cons String.[] = (String.[], [], refl)
split-cons (String.◌∷◌ c s) =
    let (part, parts, e) = split-cons s in
    elim (Bool-cases (is_dash (String.◌∷◌ c String.[]))) [
      | inl d ↦ (String.[], split s, rw (split, d) refl)
      | inr d ↦ (join (String.◌∷◌ c String.[]) part, parts, rw (split, d, e) refl)
    ]

prepend-append :
    (c part : String) (parts rest : List String) (all : List String)
    → all ≡ part ∷ parts
    → prepend c (all ++ rest) ≡ prepend c all ++ rest
unfolding prepend
prepend-append c part parts rest all e = rw e refl

-- A dash in the middle splits a text in two.
split-dash : (a b : String) → split (join a (join "-" b)) ≡ split a ++ split b
unfolding split join is_dash
split-dash String.[] b = refl
split-dash (String.◌∷◌ c a) b = elim (Bool-cases (is_dash (String.◌∷◌ c String.[]))) [
  | inl d ↦ rw (d, split-dash a b) refl
  | inr d ↦
      let (part, parts, e) = split-cons a in
      rw (d, split-dash a b)
        (prepend-append (String.◌∷◌ c String.[]) part parts (split b) (split a) e)
]

split-dashless : (s : String) → has_dash s ≡ false → split s ≡ s ∷ []
unfolding split has_dash prepend join
split-dashless String.[] h = refl
split-dashless (String.◌∷◌ c s) h = elim (Bool-cases (is_dash (String.◌∷◌ c String.[]))) [
  | inl d ↦ ground (arith, h, d)
  | inr d ↦ rw (d, split-dashless s (ground (arith, h, d))) refl
]

join_parts-prepend :
    (c part : String) (parts : List String)
    → join_parts (prepend c (part ∷ parts)) ≡ join c (join_parts (part ∷ parts))
unfolding join_parts prepend
join_parts-prepend c part [] = refl
join_parts-prepend c part (next ∷ parts) = join_assoc c part (join "-" (join_parts (next ∷ parts)))

-- An empty part in front is a dash in front.
join_parts-empty :
    (all : List String) (part : String) (parts : List String)
    → all ≡ part ∷ parts
    → join_parts (String.[] ∷ all) ≡ join "-" (join_parts all)
unfolding join_parts join
join_parts-empty all part parts e = rw e refl

join_parts-split : (s : String) → join_parts (split s) ≡ s
unfolding split is_dash join join_parts
join_parts-split String.[] = refl
join_parts-split (String.◌∷◌ c s) =
    let (part, parts, e) = split-cons s in
    let ih = join_parts-split s in
    elim (Bool-cases (is_dash (String.◌∷◌ c String.[]))) [
      | inl d ↦
          let same : String.◌∷◌ c String.[] ≡ "-" = (eq_iff (String.◌∷◌ c String.[]) "-").0 d in
          rw (split, d)
            (join_parts-empty (split s) part parts e
              ∙ (ap (join "-") ih ∙ ap (λ x. join x s) (sym same)))
      | inr d ↦
          let inner : join_parts (part ∷ parts) ≡ s = ap join_parts (sym e) ∙ ih in
          rw (split, d, e)
            (join_parts-prepend (String.◌∷◌ c String.[]) part parts
              ∙ ap (join (String.◌∷◌ c String.[])) inner)
    ]

take-length : (xs ys : List String) → take (length xs) (xs ++ ys) ≡ xs
unfolding take
take-length [] [] = refl
take-length [] (y ∷ ys) = refl
take-length (x ∷ xs) ys = ap (◌∷◌ x) (take-length xs ys)

-- The parts of a text that ends in two texts without dashes, each after a dash.
split-machine :
    (run_id role index : String)
    → has_dash role ≡ false
    → has_dash index ≡ false
    → split (join run_id (join "-" (join role (join "-" index))))
      ≡ split run_id ++ (role ∷ index ∷ [])
split-machine run_id role index h k =
    split-dash run_id (join role (join "-" index))
    ∙ ap (λ (rest : List String). split run_id ++ rest)
        (split-dash role index ∙ rw (split-dashless role h, split-dashless index k) refl)

-- extractRunID takes the name of a machine apart that the tasks of a run put together.
pub extract_run_id-machine :
    (run_id role index : String)
    → has_dash role ≡ false
    → has_dash index ≡ false
    → extract_run_id (join run_id (join "-" (join role (join "-" index)))) ≡ run_id
unfolding extract_run_id
extract_run_id-machine run_id role index h k =
    let (part, parts, e) = split-cons run_id in
    let long : length (split run_id ++ (role ∷ index ∷ [])) ≡ length (split run_id) + 2 =
      length-append (split run_id) (role ∷ index ∷ []) in
    let some_part : 1 ≤ length (split run_id) = rw e (omega arith) in
    let enough : leb 3 (length (split run_id ++ (role ∷ index ∷ []))) ≡ true =
      ground (arith, long, some_part) in
    let count : length (split run_id ++ (role ∷ index ∷ [])) - 2 ≡ length (split run_id) =
      omega (arith, long) in
    rw
      (
        extract_run_id,
        split-machine run_id role index h k,
        enough,
        count,
        take-length (split run_id) (role ∷ index ∷ []),
      )
      (join_parts-split run_id)

-- Two texts that are not both there, or that are the same.
abbrev pub Agree : String → String → Type 0
Agree a b = (a ≡ "") ⊎ (b ≡ "") ⊎ (a ≡ b)

conflict_iff : (a b : String) → (conflict a b ≡ false) ↔ Agree a b
unfolding conflict
conflict_iff a b = (
  λ h. elim (Bool-cases (a == "")) [
    | inl e ↦ inl ((eq_iff a "").0 e)
    | inr e ↦ elim (Bool-cases (b == "")) [
      | inl e' ↦ inr (inl ((eq_iff b "").0 e'))
      | inr e' ↦ inr (inr ((eq_iff a b).0 (ground (arith, h, e, e'))))
    ]
  ],
  λ agree. elim agree [
    | inl e ↦ ground (arith, (eq_iff a "").1 e)
    | inr (inl e) ↦ ground (arith, (eq_iff b "").1 e)
    | inr (inr e) ↦ ground (arith, (eq_iff a b).1 e)
  ],
)

-- The clients of a message.
broadcast_iff :
    (msg : WsMessage) (clients : List WsClient) (c : WsClient)
    → Memᴰ c (broadcast msg clients)
      ↔ (Memᴰ c clients × Agree c.tenant_id msg.tenant_id × Agree c.filter_run_id msg.run_id)
unfolding broadcast
broadcast_iff msg clients c =
    let passes = λ (d : WsClient).
      not (conflict d.tenant_id msg.tenant_id) && not (conflict d.filter_run_id msg.run_id) in
    (
      λ h.
          let (yes_, there) = keep-Memᴰ passes clients c h in
          (
            there,
            (conflict_iff c.tenant_id msg.tenant_id).0 (ground (arith, yes_)),
            (conflict_iff c.filter_run_id msg.run_id).0 (ground (arith, yes_)),
          ),
      λ (there, tenant, run).
          let t = (conflict_iff c.tenant_id msg.tenant_id).1 tenant in
          let r = (conflict_iff c.filter_run_id msg.run_id).1 run in
          Memᴰ-keep passes clients c (ground (arith, t, r)) there,
    )

-- A line of the log of a machine, whose name is that of its run, of its role and of its number with
-- dashes between them, where role and number have none, is sent to exactly those clients of the hub
-- that have no tenant or that of the run, if the run has one, and that watch no run or this run.
pub log_message-receivers :
    (tenant_of : String → String) (run_id role index line : String) (clients : List WsClient)
    (c : WsClient)
    → has_dash role ≡ false
    → has_dash index ≡ false
    → Memᴰ c (
        broadcast
          (log_message tenant_of (join run_id (join "-" (join role (join "-" index)))) line)
          clients)
      ↔ (Memᴰ c clients × Agree c.tenant_id (tenant_of run_id) × Agree c.filter_run_id run_id)
unfolding log_message
log_message-receivers tenant_of run_id role index line clients c h k =
    let machine_id = join run_id (join "-" (join role (join "-" index))) in
    subst
      (λ r.
        Memᴰ c (broadcast (log_message tenant_of machine_id line) clients)
        ↔ (Memᴰ c clients × Agree c.tenant_id (tenant_of r) × Agree c.filter_run_id r))
      (extract_run_id-machine run_id role index h k)
      (broadcast_iff (log_message tenant_of machine_id line) clients c)
