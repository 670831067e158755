-- ===== src/Notify/Delivery.antt =====
-- What one cycle of the notifier leaves of the callback that it claims.
use subscription_bridge.Prelude.{
  ◌*◌, Bytes, bytes, Bool, true, false, none, some, ℤ, pos, ◌==◌, int_eq, nat_eq, bytes_eq,
  if◌then◌else◌, ◌≡◌, refl, arith, bytes_eqb_refl, inl, inr, Bool-cases,
}
use subscription_bridge.Protocol.Errors.{Error, Result, ok, err, of_store, not_owned}
use subscription_bridge.Protocol.Clock.{Time, Duration, minute, truncate_utc}
use subscription_bridge.Store.Models.{OutboundEvent}
use subscription_bridge.Store.Models.Equality.{delivery_eq}
use subscription_bridge.Store.Table
use subscription_bridge.Store.Table.{get-put}
use subscription_bridge.Store.Invariant.{IsWf}
use subscription_bridge.Store.World.{Memory, World, settle, in_tx, now, ◌>>=◌}
use subscription_bridge.Store.Outbound.{
  put_outbound, claim_due_outbound, complete_outbound, retry_outbound, dead_letter_outbound,
  owns_outbound, update_owned, owned_outbound, completed, retried, dead_lettered,
}
use subscription_bridge.Store.Outbound.Claim.{bump}
use subscription_bridge.Store.Outbound.Fencing.{claim_of}
use subscription_bridge.Store.Outbound.Commit.{Finish, finished}
use subscription_bridge.Hmac.{sign_callback}
use subscription_bridge.Notify.{
  Notifier, Reply, claim_next, run_once, record_outcome, retry, retry_time, status_class, between,
  deref,
}
use subscription_bridge.Notify.Verdict.{
  verdict, is_transient, verdict-complete, verdict_transient, verdict_dead, verdict_odd,
}

-- The row under `id` is `e`, and the action succeeds.
abbrev pub Leaves : Bytes → OutboundEvent → Result (Unit {0}) × World → Type 0
Leaves id e (r, w) = (r ≡ ok tt) × (Table.get w.mem.outbound id ≡ some e)

-- The row `r` is still under the claim that `e` was returned with.
abbrev pub is_held : OutboundEvent → OutboundEvent → Bool
is_held e r = elim e.claim_token [
  | none ↦ false
  | some token ↦ owns_outbound r token e.fencing_token
]

-- The answer to a commit whose claim is lost: an attempt to post again is given up without an error.
abbrev pub refusal : Finish → Result (Unit {0})
refusal (Finish.retry at class) = ok tt
refusal _ = err (of_store not_owned)

-- With the claim still held, the row `r` is finished by `f`; with the claim lost, the store stays as
-- it is in `u`.
abbrev pub Records :
    Finish → OutboundEvent → OutboundEvent → World → Result (Unit {0}) × World → Type 0
Records f e r u out = by (is_held e r)
  where
    by : Bool → Type 0
    by true = Leaves e.event_id (finished f r) out
    by false = (out.0 ≡ refusal f) × (out.1.mem ≡ u.mem)

-- The claim that `e` was returned with had a token, and the row that is there now is `r`.
record Meets (token : Bytes) (e r : OutboundEvent) (u : World) : Type 0 where
  token_set : e.claim_token ≡ some token
  row : Table.get u.mem.outbound e.event_id ≡ some r

module _ (n : Notifier) (token : Bytes) (e r : OutboundEvent) (u : World)
    (h : Meets token e r u) where
  time_now : Time
  time_now = truncate_utc (u.clock u.reads)

  retry-Records :
      (class : Bytes)
      → Records (Finish.retry (retry_time n e.attempt_count) class) e r u (retry n e class u)
  unfolding retry retry_outbound update_owned put_outbound owned_outbound in_tx settle
  retry-Records class = elim (Bool-cases (owns_outbound r token e.fencing_token)) [
    | inr lost ↦ rw (h.token_set, h.row, lost) (refl, refl)
    | inl owned ↦
        rw
          (
            h.token_set,
            h.row,
            owned,
            get-put u.mem.outbound e.event_id e.event_id
                (retried (retry_time n e.attempt_count) class r),
            bytes_eqb_refl e.event_id,
          )
          (refl, refl)
  ]

  complete-Records : Records (Finish.complete time_now) e r u (
      in_tx
        (deref e.claim_token >>= λ token.
          now >>= λ t. complete_outbound e.event_id token e.fencing_token t)
        u)
  unfolding complete_outbound update_owned put_outbound owned_outbound in_tx settle now time_now
  complete-Records = elim (Bool-cases (owns_outbound r token e.fencing_token)) [
    | inr lost ↦ rw (h.token_set, h.row, lost) (refl, refl)
    | inl owned ↦
        rw
          (
            h.token_set,
            h.row,
            owned,
            get-put u.mem.outbound e.event_id e.event_id (completed time_now r),
            bytes_eqb_refl e.event_id,
          )
          (refl, refl)
  ]

  dead_letter-Records :
      (class : Bytes)
      → Records (Finish.dead_letter time_now class) e r u (
          in_tx
            (deref e.claim_token >>= λ token.
              now >>= λ t. dead_letter_outbound e.event_id token e.fencing_token t class)
            u)
  unfolding dead_letter_outbound update_owned put_outbound owned_outbound in_tx settle now time_now
  dead_letter-Records class = elim (Bool-cases (owns_outbound r token e.fencing_token)) [
    | inr lost ↦ rw (h.token_set, h.row, lost) (refl, refl)
    | inl owned ↦
        rw
          (
            h.token_set,
            h.row,
            owned,
            get-put u.mem.outbound e.event_id e.event_id (dead_lettered time_now class r),
            bytes_eqb_refl e.event_id,
          )
          (refl, refl)
  ]

  record_outcome-Records :
      (code : ℤ)
      → Records (verdict n e time_now code) e r u (record_outcome n e (Reply.status code) u)
  unfolding record_outcome
  record_outcome-Records code = elim (Bool-cases (between (pos 200) (pos 299) code)) [
    | inl success ↦ rw (success, verdict-complete n e time_now code success) complete-Records
    | inr other ↦ elim (Bool-cases (is_transient code)) [
      | inl transient ↦
          rw (other, transient, verdict_transient n e time_now code other transient)
            (retry-Records (status_class code))
      | inr lasting ↦ elim (Bool-cases (between (pos 400) (pos 499) code)) [
        | inl refused ↦
            rw (other, lasting, refused, verdict_dead n e time_now code other lasting refused)
              (dead_letter-Records (status_class code))
        | inr odd ↦
            rw (other, lasting, odd, verdict_odd n e time_now code other lasting odd)
              (retry-Records (status_class code))
      ]
    ]
  ]

settle-ok :
    {A : Type 0} (snap : Memory) (r : Result A) (u : World) (a : A) (w : World)
    → settle snap (r, u) ≡ (ok a, w)
    → (r ≡ ok a) × (u ≡ w)
unfolding settle
settle-ok snap (ok x) u a w h = ground arith
settle-ok snap (err (Error.panic s)) u a w h = absurd (ground arith)
settle-ok snap (err _) u a w h = absurd (ground arith)

-- The time that the notifier passes to the claim, and its lease.
abbrev pub claim_time : World → Time
claim_time w = truncate_utc (w.clock w.reads)

abbrev pub claim_lease : Notifier → Duration
claim_lease n = if n.lease == 0 then 2 * minute else n.lease

module _ (n : Notifier) (w : World) (e : OutboundEvent) (w' : World) (v : IsWf w.mem)
    (claim : claim_next n w ≡ (ok e, w')) where
  claimed_due : claim_due_outbound (claim_time w) (claim_lease n) (bump w) ≡ (ok e, w')
  unfolding claim_next in_tx now
  claimed_due =
      let m = claim_due_outbound (claim_time w) (claim_lease n) (bump w) in
      let (a, b) = settle-ok w.mem m.0 m.1 e w' claim in ground arith

  claim-token : (token : Bytes) × (e.claim_token ≡ some token)
  claim-token =
      let c = claim_of (claim_time w) (claim_lease n) (bump w) e w' v claimed_due in
      (c.token, rw (← c.returned) refl)

  module _ (header : Bytes) (r : OutboundEvent) (u : World)
      (signed : sign_callback n.mac n.callback_key n.time_to_sign e.payload_body ≡ ok header)
      (row : Table.get u.mem.outbound e.event_id ≡ some r) where
    met : Meets claim-token.0 e r u
    met = record { token_set = claim-token.1; row = row }

    -- A cycle of the notifier in a well-formed store that claims a callback, can sign it, and gets an
    -- answer with a status, while other work may have changed the store, in which the callback still
    -- is. Where the callback is still under the claim, the cycle returns no error and leaves it as the
    -- verdict on the status says: a 2xx delivers it; a 4xx but 408, 425 and 429 dead-letters it with
    -- the class of the status; any other status leaves it pending, to be tried at the time chosen,
    -- with the class noted. Where the claim is lost, the cycle changes no table, and returns
    -- `not_owned`, or no error if the callback was to be tried again.
    pub run_once-Records :
        (code : ℤ)
        → n.post n.webhook_url header e.payload_body w' ≡ (Reply.status code, u)
        → Records (verdict n e (truncate_utc (u.clock u.reads)) code) e r u (run_once n w)
    unfolding run_once time_now
    run_once-Records code answered =
        rw (claim, signed, answered) (record_outcome-Records n claim-token.0 e r u met code)

    -- Such a cycle whose exchange fails on the network returns no error. Where the callback is still
    -- under the claim, it is left pending, to be tried at the time chosen, with the class `network`;
    -- where the claim is lost, no table is changed.
    pub run_once-network :
        n.post n.webhook_url header e.payload_body w' ≡ (Reply.network, u)
        → Records
            (Finish.retry (retry_time n e.attempt_count) (bytes "network"))
            e
            r
            u
            (run_once n w)
    unfolding run_once record_outcome
    run_once-network answered =
        rw (claim, signed, answered) (retry-Records n claim-token.0 e r u met (bytes "network"))
