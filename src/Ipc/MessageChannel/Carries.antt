-- ===== src/Ipc/MessageChannel/Carries.antt =====
-- The steps that do not write.
use mathlib.Core.Path.{subst}
use libnei.Common.{ℕ, ◌≡◌, sym, Bool, false, not, ◌&&◌, List, arith}
use libnei.Ipc.MessageChannel.{
  IoPoint, idle, Channel, start_reading, post_error, signal_error_locked, close, begin_read,
  on_data_received, deliver, check_read, finish_read,
}
use libnei.Ipc.MessageChannel.Writes.{side, is_issuing, Sound, carry}

-- What a step that does not write leaves alone; it may signal the error.
abbrev pub Carries : Channel → Channel → Type 0
Carries c q = (side q ≡ side c) × ((c.error_signaled && not q.error_signaled) ≡ false)

pub start_reading-Carries : (c : Channel) → Carries c (start_reading c)
unfolding start_reading
start_reading-Carries c = ground arith

pub close-Carries : (c : Channel) → Carries c (close c)
unfolding close post_error
close-Carries c = ground arith

pub begin_read-Carries :
    (next : IoPoint) (c : Channel)
    → is_issuing c.point ≡ is_issuing next
    → Carries c (begin_read next c)
unfolding begin_read
begin_read-Carries next c h = ground (arith, h)

pub on_data_received-Carries :
    (success : Bool) (bytes : List ℕ) (c : Channel)
    → is_issuing c.point ≡ false
    → Carries c (on_data_received success bytes c)
unfolding on_data_received signal_error_locked
on_data_received-Carries success bytes c h = ground (arith, h)

pub deliver-Carries :
    (messages : List (List ℕ)) (e : Bool) (c : Channel)
    → is_issuing c.point ≡ false
    → Carries c (deliver messages e c)
unfolding deliver
deliver-Carries messages e c h = ground (arith, h)

pub check_read-Carries : (c : Channel) → is_issuing c.point ≡ false → Carries c (check_read c)
unfolding check_read signal_error_locked
check_read-Carries c h = ground (arith, h)

pub finish_read-Carries : (c : Channel) → is_issuing c.point ≡ false → Carries c (finish_read c)
unfolding finish_read post_error
finish_read-Carries c h = ground (arith, h)

pub fail-Carries :
    (c : Channel) → is_issuing c.point ≡ false → Carries c (record (post_error c) { point = idle })
unfolding post_error
fail-Carries c h = ground (arith, h)

pub carried :
    (c q : Channel) (written : List ℕ) (queued : List (List ℕ))
    → Carries c q
    → Sound c.error_signaled (side c) written queued
    → Sound q.error_signaled (side q) written queued
carried c q written queued (same, later) h =
    subst (λ s. Sound q.error_signaled s written queued) (sym same)
      (carry c.error_signaled q.error_signaled (side c) written queued later h)
