-- ===== src/Runtime/Limiter.antt =====
-- The limit on emits per second: `emitLimiter.Allow` of server/internal/runtime/service.go.
use open_rtc.Base.{
  ℕ, zero, suc, ◌+◌, ◌-◌, ◌≤◌, ◌≡◌, ◌≢◌, refl, sym, subst, ◌∙◌, Bool, true, false, List, [], ◌∷◌,
  arith, if◌then◌else◌, nat_eq, ltb, leb, Bool-cases, inl, inr,
}
use open_rtc.Runtime.{EmitLimiter}

-- The count starts anew with each second.
unfoldable pub in_window : EmitLimiter → ℕ → EmitLimiter
in_window l now = if nat_eq l.window now then l else record l { window = now; used = 0 }

unfoldable pub allow : EmitLimiter → ℕ → EmitLimiter × Bool
unfolding in_window
allow l now =
    let current = in_window l now in
    if leb current.limit current.used
    then (current, false)
    else (record current { used = current.used + 1 }, true)

-- How many of the calls at these times are allowed in the second `w`.
unfoldable pub allowed_in : ℕ → EmitLimiter → List ℕ → ℕ
allowed_in w l [] = 0
allowed_in w l (t ∷ ts) =
    let rest = allowed_in w (allow l t).0 ts in
    if nat_eq t w then (if (allow l t).1 then rest + 1 else rest) else rest

-- The clock does not go back.
abbrev pub Ascending : ℕ → List ℕ → Type 0
Ascending t [] = Unit {0}
Ascending t (u ∷ us) = (t ≤ u) × Ascending u us

-- What the second `w` has left at a limiter whose window is not past it.
abbrev left : ℕ → EmitLimiter → ℕ
left w l = if nat_eq l.window w then l.limit - l.used else if ltb l.window w then l.limit else 0

allow-left :
    (w : ℕ) (l : EmitLimiter) (t : ℕ)
    → l.window ≤ t
    → (if nat_eq t w
        then (if (allow l t).1 then left w (allow l t).0 + 1 else left w (allow l t).0)
        else left w (allow l t).0)
      ≤ left w l
unfolding allow
allow-left w l t h = ground arith

window-allow : (l : EmitLimiter) (t : ℕ) → (allow l t).0.window ≡ t
unfolding allow
window-allow l t = ground arith

allowed_in-left :
    (w : ℕ) (l : EmitLimiter) (ts : List ℕ) → Ascending l.window ts → allowed_in w l ts ≤ left w l
unfolding allowed_in
allowed_in-left w l [] a = omega arith
allowed_in-left w l (t ∷ ts) a =
    let later : Ascending (allow l t).0.window ts =
      subst (λ u. Ascending u ts) (sym (window-allow l t)) a.1 in
    ground (arith, allow-left w l t a.0, allowed_in-left w (allow l t).0 ts later)

-- At most `limit` calls are allowed in any one second, whatever calls come before, as long as the clock
-- does not go back.
pub allowed_in-le-limit :
    (w : ℕ) (l : EmitLimiter) (ts : List ℕ) → Ascending l.window ts → allowed_in w l ts ≤ l.limit
allowed_in-le-limit w l ts a = ground (arith, allowed_in-left w l ts a)

-- Calls at one time.
abbrev pub same_time : ℕ → ℕ → List ℕ
same_time zero t = []
same_time (suc n) t = t ∷ same_time n t

abbrev at_most : ℕ → ℕ → ℕ
at_most n limit = if leb n limit then n else limit

allow-within :
    (l : EmitLimiter) (t : ℕ)
    → l.window ≡ t
    → allow l t
      ≡ (if leb l.limit l.used then (l, false) else (record l { used = l.used + 1 }, true))
unfolding allow
allow-within l t h = ground arith

burst_within :
    (t limit used n : ℕ)
    → allowed_in t (record { limit = limit; window = t; used = used }) (same_time n t)
      ≡ at_most n (limit - used)
unfolding allowed_in
burst_within t limit used zero = ground arith
burst_within t limit used (suc n) = elim (Bool-cases (leb limit used)) [
  | inl full ↦
      rw (allow-within (record { limit = limit; window = t; used = used }) t refl)
        (rw full (ground (arith, burst_within t limit used n)))
  | inr free ↦
      rw (allow-within (record { limit = limit; window = t; used = used }) t refl)
        (rw free (ground (arith, burst_within t limit (used + 1) n)))
]

allow-reset :
    (l : EmitLimiter) (t : ℕ)
    → l.window ≢ t
    → allow l t ≡ allow (record { limit = l.limit; window = t; used = 0 }) t
unfolding allow
allow-reset l t h = ground arith

-- Of so many calls in a second that has not begun yet as many are allowed as the limit has, and no fewer.
pub burst-allowed :
    (l : EmitLimiter) (t n : ℕ)
    → l.window ≢ t
    → allowed_in t l (same_time n t) ≡ (if leb n l.limit then n else l.limit)
unfolding allowed_in
burst-allowed l t zero h = ground arith
burst-allowed l t (suc n) h =
    rw (allow-reset l t h) (burst_within t l.limit 0 (suc n) ∙ ground arith)
