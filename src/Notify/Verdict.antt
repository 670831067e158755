-- ===== src/Notify/Verdict.antt =====
-- The table of HTTP statuses, against the switch of RunOnce.
use subscription_bridge.Prelude.{
  Bool, true, false, ◌&&◌, ◌||◌, not, ℤ, pos, negsuc, ltb_ℤ, ◌==◌, int_eq, nat_eq, bytes_eq,
  if◌then◌else◌, ◌≡◌, arith,
}
use subscription_bridge.Protocol.Clock.{Time}
use subscription_bridge.Store.Models.{OutboundEvent}
use subscription_bridge.Store.Models.Equality.{delivery_eq}
use subscription_bridge.Store.Outbound.Commit.{Finish}
use subscription_bridge.Notify.{Notifier, retry_time, status_class, between}

-- What becomes of a callback that is answered with the status `code`, at the time `t`: delivered on
-- 2xx; dead-lettered on 4xx but for 408, 425 and 429; tried again otherwise.
abbrev pub verdict : Notifier → OutboundEvent → Time → ℤ → Finish
verdict n e t code =
    if not (ltb_ℤ code (pos 200)) && ltb_ℤ code (pos 300)
    then Finish.complete t
    else if not (ltb_ℤ code (pos 400))
        && ltb_ℤ code (pos 500)
        && not (code == pos 408)
        && not (code == pos 425)
        && not (code == pos 429)
    then Finish.dead_letter t (status_class code)
    else Finish.retry (retry_time n e.attempt_count) (status_class code)

-- The tests of the switch, and the verdict.
abbrev pub is_transient : ℤ → Bool
is_transient code =
    code == pos 408 || code == pos 425 || code == pos 429 || not (ltb_ℤ code (pos 500))

pub verdict-complete :
    (n : Notifier) (e : OutboundEvent) (t : Time) (code : ℤ)
    → between (pos 200) (pos 299) code ≡ true
    → verdict n e t code ≡ Finish.complete t
verdict-complete n e t (pos k) h = ground arith
verdict-complete n e t (negsuc k) h = ground arith

pub verdict_transient :
    (n : Notifier) (e : OutboundEvent) (t : Time) (code : ℤ)
    → between (pos 200) (pos 299) code ≡ false
    → is_transient code ≡ true
    → verdict n e t code ≡ Finish.retry (retry_time n e.attempt_count) (status_class code)
verdict_transient n e t (pos k) o h = ground arith
verdict_transient n e t (negsuc k) o h = ground arith

pub verdict_dead :
    (n : Notifier) (e : OutboundEvent) (t : Time) (code : ℤ)
    → between (pos 200) (pos 299) code ≡ false
    → is_transient code ≡ false
    → between (pos 400) (pos 499) code ≡ true
    → verdict n e t code ≡ Finish.dead_letter t (status_class code)
verdict_dead n e t (pos k) o l h = ground arith
verdict_dead n e t (negsuc k) o l h = ground arith

pub verdict_odd :
    (n : Notifier) (e : OutboundEvent) (t : Time) (code : ℤ)
    → between (pos 200) (pos 299) code ≡ false
    → is_transient code ≡ false
    → between (pos 400) (pos 499) code ≡ false
    → verdict n e t code ≡ Finish.retry (retry_time n e.attempt_count) (status_class code)
verdict_odd n e t (pos k) o l h = ground arith
verdict_odd n e t (negsuc k) o l h = ground arith
