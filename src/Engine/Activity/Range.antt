-- ===== src/Engine/Activity/Range.antt =====
-- The range of the acknowledgements of a room.
use open_rtc.Base.{
  ℕ, ◌≤◌, String, ◌≡◌, ◌≢◌, refl, sym, ◌∙◌, true, ◌⊎◌, inl, inr, List, [], ◌∷◌, arith, ◌==◌, eq_iff,
  eq_refl, contains, Bool-cases,
}
use open_rtc.Dict.{Dict, keys, contains-keys}
use open_rtc.Dict.Nested.{at, has_in, get_in}
use open_rtc.Engine.{Engine}
use open_rtc.Engine.Activity.{widen, ack_range, event_ack_range_locked}
use open_rtc.Engine.Presence.{or_zero, event_ack_sequence}

-- What a range becomes: its top does not fall, and its bottom does not rise once it is there.
record Wider (p q : ℕ × ℕ) : Type 0 where
  top : p.1 ≤ q.1
  bottom_kept : p.0 ≢ 0 → q.0 ≢ 0
  bottom : p.0 ≢ 0 → q.0 ≤ p.0

-- A sequence other than 0 lies in the range.
record Holds (q : ℕ × ℕ) (n : ℕ) : Type 0 where
  started : n ≢ 0 → q.0 ≢ 0
  above : n ≢ 0 → q.0 ≤ n
  below : n ≢ 0 → n ≤ q.1

widen-Wider : (p : ℕ × ℕ) (n : ℕ) → Wider p (widen p n)
unfolding widen
widen-Wider (lo, hi) n = record {
  top = ground arith;
  bottom_kept = λ h e. ground (arith, h);
  bottom = λ h. ground (arith, h);
}

widen-Holds : (p : ℕ × ℕ) (n : ℕ) → Holds (widen p n) n
unfolding widen
widen-Holds (lo, hi) n = record {
  started = λ h e. ground (arith, h);
  above = λ h. ground (arith, h);
  below = λ h. ground (arith, h);
}

Wider-trans : (p q r : ℕ × ℕ) → Wider p q → Wider q r → Wider p r
Wider-trans p q r f g = record {
  top = omega (arith, f.top, g.top);
  bottom_kept = λ h. g.bottom_kept (f.bottom_kept h);
  bottom = λ h. omega (arith, f.bottom h, g.bottom (f.bottom_kept h));
}

Holds-Wider : (p q : ℕ × ℕ) (n : ℕ) → Wider p q → Holds p n → Holds q n
Holds-Wider p q n w h = record {
  started = λ k. w.bottom_kept (h.started k);
  above = λ k. omega (arith, h.above k, w.bottom (h.started k));
  below = λ k. omega (arith, h.below k, w.top);
}

-- Where a bound of the range comes from.
abbrev From : ℕ → ℕ → ℕ → Type 0
From bound old n = (bound ≡ old) ⊎ ((bound ≡ n) × (n ≢ 0))

widen-From : (p : ℕ × ℕ) (n : ℕ) → From (widen p n).0 p.0 n × From (widen p n).1 p.1 n
unfolding widen
widen-From (lo, hi) n = (ground arith, ground arith)

module _ (acks : Dict (Dict ℕ)) (room : String) where
  abbrev seq : String → ℕ
  seq c = or_zero (get_in acks c room)

  ack_range-Wider : (cs : List String) (p : ℕ × ℕ) → Wider p (ack_range acks room cs p)
  unfolding ack_range
  ack_range-Wider [] p = record {
    top = omega arith;
    bottom_kept = λ h. h;
    bottom = λ h. omega arith;
  }
  ack_range-Wider (c ∷ cs) p =
      Wider-trans p (widen p (seq c)) _ (widen-Wider p (seq c))
        (ack_range-Wider cs (widen p (seq c)))

  ack_range-Holds :
      (cs : List String) (p : ℕ × ℕ) (c : String)
      → contains cs c ≡ true
      → Holds (ack_range acks room cs p) (seq c)
  unfolding ack_range contains
  ack_range-Holds [] p c h = cc
  ack_range-Holds (x ∷ cs) p c h = elim (Bool-cases (x == c)) [
    | inl here ↦
        Holds-Wider (widen p (seq c)) _ (seq c)
          (rw ((eq_iff x c).0 here) (ack_range-Wider cs (widen p (seq c)))) (widen-Holds p (seq c))
    | inr later ↦ ack_range-Holds cs (widen p (seq x)) c (ground (arith, later))
  ]

  -- Some connection of the list has this sequence, which is not 0.
  abbrev pub Attained : List String → ℕ → Type 0
  Attained cs n = (c : String) × (contains cs c ≡ true) × (seq c ≡ n) × (n ≢ 0)

  Attained-cons : (x : String) (cs : List String) (n : ℕ) → Attained cs n → Attained (x ∷ cs) n
  unfolding contains
  Attained-cons x cs n (c, listed, has, nonzero) = (c, ground (arith, listed), has, nonzero)

  head-Attained :
      (x : String) (cs : List String) (n : ℕ) → n ≡ seq x → seq x ≢ 0 → Attained (x ∷ cs) n
  unfolding contains
  head-Attained x cs n e nonzero = (x, ground (arith, eq_refl x), sym e, λ z. nonzero (sym e ∙ z))

  extend :
      (x : String) (cs : List String) (bound mid old : ℕ)
      → From mid old (seq x)
      → (bound ≡ mid) ⊎ Attained cs bound
      → (bound ≡ old) ⊎ Attained (x ∷ cs) bound
  extend x cs bound mid old f (inr a) = inr (Attained-cons x cs bound a)
  extend x cs bound mid old (inl f) (inl e) = inl (e ∙ f)
  extend x cs bound mid old (inr (f, nonzero)) (inl e) =
      inr (head-Attained x cs bound (e ∙ f) nonzero)

  ack_range-Attained :
      (cs : List String) (p : ℕ × ℕ)
      → (((ack_range acks room cs p).0 ≡ p.0) ⊎ Attained cs (ack_range acks room cs p).0)
        × (((ack_range acks room cs p).1 ≡ p.1) ⊎ Attained cs (ack_range acks room cs p).1)
  unfolding ack_range
  ack_range-Attained [] p = (inl refl, inl refl)
  ack_range-Attained (x ∷ cs) p =
      let rest = ack_range-Attained cs (widen p (seq x)) in
      let from = widen-From p (seq x) in
      (extend x cs _ _ p.0 from.0 rest.0, extend x cs _ _ p.1 from.1 rest.1)

-- A member of the room that has acknowledged anything has its sequence between the ends of the
-- room's range, and the lower end is not 0.
pub ack_range_holds :
    (e : Engine) (room c : String)
    → has_in e.rooms room c ≡ true
    → event_ack_sequence e c room ≢ 0
    → let range = event_ack_range_locked e room in
      (range.0 ≢ 0)
      × (range.0 ≤ event_ack_sequence e c room)
      × (event_ack_sequence e c room ≤ range.1)
unfolding event_ack_range_locked event_ack_sequence
ack_range_holds e room c joined acked =
    let holds =
      ack_range-Holds e.event_acks room (keys (at e.rooms room)) (0, 0) c
        (contains-keys (at e.rooms room) c ∙ joined) in
    (holds.started acked, holds.above acked, holds.below acked)

-- Each end of a room's range that is not 0 is the sequence of some member.
pub ack_range_ends :
    (e : Engine) (room : String)
    → let range = event_ack_range_locked e room in
      let members = keys (at e.rooms room) in
      ((range.0 ≡ 0) ⊎ Attained e.event_acks room members range.0)
      × ((range.1 ≡ 0) ⊎ Attained e.event_acks room members range.1)
unfolding event_ack_range_locked
ack_range_ends e room = ack_range-Attained e.event_acks room (keys (at e.rooms room)) (0, 0)
