-- ===== src/Lifecycle/Ends.antt =====
-- What is left when attempts end: an attempt that stays, and an advertisement that comes too late.
use transferly.Prelude.{
  ℕ, ◌+◌, ◌≡◌, ◌≢◌, refl, ap, sym, subst, ◌∙◌, true, false, not, ◌||◌, ◌⊎◌, inl, inr, Option, none,
  some, arith, ◌==◌, if◌then◌else◌, is_some, Bool-cases,
}
use transferly.Protocol.{Role}
use transferly.Lifecycle.{
  Phase, beginning, connecting, opening, failing, serving, departing, ended, Link, Host,
  has_address, is_current, change, update, on_link, phase_of, phase_at, enter, stops, is_stopping,
  new_link, add_link, begin_attempt, announce, attach_connection, go_on_attached, connected,
  drop_current, finish_failed, ask_confirmation, establish, end_session, stop, stop_current,
  disconnect, shutdown, Step, begins, withdraws, fails_to_dial, connects, asks, fails,
  fails_to_open, opens, ends, advertises, disconnects, shuts_down, Reaches, here, later,
}
use transferly.Lifecycle.Links.{update-same, update-other, drop_current-links}

-- The current attempt has come to its end.
record IsStuck (c : ℕ) (h : Host) : Type 0 where
  held : h.current ≡ some c
  over : phase_at c h ≡ some ended

-- Another attempt than the current one changes neither.
other-IsStuck :
    (c d : ℕ) (f : Link → Link) (h : Host) (phase : Phase)
    → phase_at d h ≡ some phase
    → phase ≢ ended
    → IsStuck c h
    → (has_address d h.current ≡ false) × IsStuck c (on_link d f h)
unfolding has_address
other-IsStuck c d f h phase p on s = elim (Bool-cases (d == c)) [
  | inl this ↦
      let same : d ≡ c = ground (arith, this) in
      let e : some phase ≡ some ended = sym p ∙ ap (λ x. phase_at x h) same ∙ s.over in
      absurd (on (cc (e)))
  | inr that ↦ (
    rw (s.held, that) refl,
    record {
      held = s.held;
      over = ap phase_of (update-other d c f h.links (ground (arith, that))) ∙ s.over;
    },
  )
]

-- It stays, or the App is closed.
abbrev Remains : ℕ → Host → Type 0
Remains c h = IsStuck c h ⊎ (h.closed ≡ true)

leave-IsStuck :
    (c d : ℕ) (f : Link → Link) (h : Host) (phase : Phase)
    → phase_at d h ≡ some phase
    → phase ≢ ended
    → IsStuck c h
    → IsStuck c (on_link d f (drop_current d h))
leave-IsStuck c d f h phase p on s =
    let (other, t) = other-IsStuck c d f h phase p on s in
    let (links, closed, current) = drop_current-links d h in
    record {
      held = current ∙ ap (λ b. if b then none else h.current) other ∙ s.held;
      over = ap (λ ls. phase_of (update d f ls c)) links ∙ t.over;
    }

begin_attempt-busy :
    (role : Role) (c : ℕ) (h : Host) → h.current ≡ some c → begin_attempt role h ≡ (none, h)
unfolding begin_attempt
begin_attempt-busy role c h held =
    let busy : (h.closed || is_some h.current) ≡ true = ground (arith, held) in
    ap
      (λ b. if b then (none, h) else (
        some h.next,
        record h {
          current = some h.next;
          next = h.next + 1;
          links = add_link h.next (new_link role) h.links;
        },
      ))
      busy

stop-phase : (o : Option Link) → phase_of (change stop o) ≡ phase_of o
unfolding phase_of change
stop-phase none = refl
stop-phase (some l) = refl

stop-IsStuck : (c : ℕ) (h : Host) → IsStuck c h → IsStuck c (on_link c stop h)
stop-IsStuck c h s = record {
  held = s.held;
  over =
      ap phase_of (update-same c c stop h.links (ground arith)) ∙ stop-phase (h.links c) ∙ s.over;
}

stop_current-closed : (o : Option ℕ) (h : Host) → (stop_current o h).closed ≡ h.closed
unfolding stop_current
stop_current-closed none h = refl
stop_current-closed (some c) h = refl

pub shutdown-closed : (h : Host) → (shutdown h).closed ≡ true
unfolding shutdown
shutdown-closed h = elim (Bool-cases h.closed) [
  | inl over ↦ simp over refl
  | inr on ↦ rw on (stop_current-closed h.current (record h { closed = true; current = none }))
]

Step-IsStuck : (c : ℕ) (h g : Host) → Step h g → IsStuck c h → Remains c g
unfolding announce finish_failed end_session connected attach_connection go_on_attached
    ask_confirmation establish disconnect stop_current
Step-IsStuck c h _ (begins role) s =
    inl (subst (λ x. IsStuck c x.1) (sym (begin_attempt-busy role c h s.held)) s)
Step-IsStuck c h _ (withdraws d p) s =
    inl
      (other-IsStuck c d (enter connecting) (record h { available = false }) beginning p
        (λ e. cc (e)) (record { held = s.held; over = s.over })).1
Step-IsStuck c h _ (fails_to_dial d p) s = inl (leave-IsStuck c d _ h connecting p (λ e. cc (e)) s)
Step-IsStuck c h _ (connects d p) s =
    let (other, t) = other-IsStuck c d (enter ended) h connecting p (λ e. cc (e)) s in
    inl (rw other t)
Step-IsStuck c h _ (asks d p) s =
    let (other, t) = other-IsStuck c d (enter failing) h opening p (λ e. cc (e)) s in
    inl (rw other t)
Step-IsStuck c h _ (fails d p) s = inl (leave-IsStuck c d _ h failing p (λ e. cc (e)) s)
Step-IsStuck c h _ (fails_to_open d p) s = inl (leave-IsStuck c d _ h opening p (λ e. cc (e)) s)
Step-IsStuck c h _ (opens d p) s =
    let (other, t) = other-IsStuck c d (enter failing) h opening p (λ e. cc (e)) s in
    inl (rw other t)
Step-IsStuck c h _ (ends d p) s = inl (leave-IsStuck c d _ h serving p (λ e. cc (e)) s)
Step-IsStuck c h _ (advertises d p) s =
    inl
      (other-IsStuck c d (enter ended) (record h { available = true }) departing p (λ e. cc (e))
        (record { held = s.held; over = s.over })).1
Step-IsStuck c h _ disconnects s =
    inl (subst (λ o. IsStuck c (stop_current o h)) (sym s.held) (stop-IsStuck c h s))
Step-IsStuck c h _ shuts_down s = inr (shutdown-closed h)

begin_attempt-closed : (role : Role) (h : Host) → (begin_attempt role h).1.closed ≡ h.closed
unfolding begin_attempt
begin_attempt-closed role h = elim (Bool-cases (h.closed || is_some h.current)) [
  | inl busy ↦ rw busy refl
  | inr free ↦ rw free refl
]

connected-closed : (c : ℕ) (h : Host) → (connected c h).closed ≡ h.closed
unfolding connected attach_connection go_on_attached
connected-closed c h = elim (Bool-cases (not (is_current c h) || h.closed || is_stopping c h)) [
  | inl lost ↦ rw lost refl
  | inr fine ↦ rw fine refl
]

ask_confirmation-closed : (c : ℕ) (h : Host) → (ask_confirmation c h).closed ≡ h.closed
unfolding ask_confirmation
ask_confirmation-closed c h = elim (Bool-cases (not (is_current c h) || h.closed)) [
  | inl lost ↦ rw lost refl
  | inr fine ↦ rw fine refl
]

establish-closed : (c : ℕ) (h : Host) → (establish c h).closed ≡ h.closed
unfolding establish
establish-closed c h = elim (Bool-cases (not (is_current c h) || h.closed || is_stopping c h)) [
  | inl lost ↦ rw lost refl
  | inr fine ↦ rw fine refl
]

pub Step-closed : (h g : Host) → Step h g → h.closed ≡ true → g.closed ≡ true
unfolding announce finish_failed end_session disconnect
Step-closed h _ (begins role) e = begin_attempt-closed role h ∙ e
Step-closed h _ (withdraws c p) e = e
Step-closed h _ (fails_to_dial c p) e = (drop_current-links c h).1 ∙ e
Step-closed h _ (connects c p) e = connected-closed c h ∙ e
Step-closed h _ (asks c p) e = ask_confirmation-closed c h ∙ e
Step-closed h _ (fails c p) e = (drop_current-links c h).1 ∙ e
Step-closed h _ (fails_to_open c p) e = (drop_current-links c h).1 ∙ e
Step-closed h _ (opens c p) e = establish-closed c h ∙ e
Step-closed h _ (ends c p) e = (drop_current-links c h).1 ∙ e
Step-closed h _ (advertises c p) e = e
Step-closed h _ disconnects e = stop_current-closed h.current h ∙ e
Step-closed h _ shuts_down e = shutdown-closed h

Reaches-Remains : (c : ℕ) (h g : Host) → Reaches h g → Remains c h → Remains c g
Reaches-Remains c h _ here r = r
Reaches-Remains c h g (later i _ more step) r = elim (Reaches-Remains c h i more r) [
  | inl s ↦ Step-IsStuck c i g step s
  | inr over ↦ inr (Step-closed i g step over)
]

stops_stopped :
    (o : Option Link) (phase : Phase) → phase_of o ≡ some phase → stops (change stop o) ≡ true
unfolding phase_of change stops
stops_stopped none phase p = cc
stops_stopped (some l) phase p = refl

pub phase_entered :
    (f : Link → Link) (o : Option Link) (phase entered : Phase)
    → phase_of o ≡ some phase
    → ((l : Link) → (f l).phase ≡ entered)
    → phase_of (change f o) ≡ some entered
unfolding phase_of change
phase_entered f none phase entered p h = cc
phase_entered f (some l) phase entered p h = ap (λ x. some x) (h l)

pub connected-lost :
    (c : ℕ) (h : Host)
    → (not (is_current c h) || h.closed || is_stopping c h) ≡ true
    → connected c h ≡ on_link c (enter ended) h
unfolding connected attach_connection go_on_attached
connected-lost c h lost = rw lost refl

connected-IsStuck :
    (c : ℕ) (h : Host)
    → h.current ≡ some c
    → phase_at c h ≡ some connecting
    → IsStuck c (connected c (disconnect h))
unfolding disconnect stop_current
connected-IsStuck c h held p =
    let g = on_link c stop h in
    let this : (c == c) ≡ true = ground arith in
    let stopped : is_stopping c g ≡ true =
      ap stops (update-same c c stop h.links this) ∙ stops_stopped (h.links c) connecting p in
    let lost : (not (is_current c g) || g.closed || is_stopping c g) ≡ true =
      ground (arith, stopped) in
    let still : phase_at c g ≡ some connecting =
      ap phase_of (update-same c c stop h.links this) ∙ stop-phase (h.links c) ∙ p in
    subst (λ o. IsStuck c (connected c (stop_current o h))) (sym held)
      (subst (IsStuck c) (sym (connected-lost c g lost)) (record {
        held = held;
        over =
            ap phase_of (update-same c c (enter ended) g.links this)
            ∙ phase_entered (enter ended) (g.links c) connecting ended still (λ l. refl);
      }))

-- The current attempt is not attached to its connection yet when the user disconnects, and the connection
-- comes up all the same. Then attachConnection refuses it and the attempt is left where it is: whatever
-- happens from there on, until the App is closed that attempt is the current one and no attempt can begin.
pub connected-disconnect :
    (c : ℕ) (h : Host)
    → h.current ≡ some c
    → phase_at c h ≡ some connecting
    → (g : Host) → Reaches (connected c (disconnect h)) g
    → ((g.current ≡ some c) × ((role : Role) → (begin_attempt role g).0 ≡ none)) ⊎ (g.closed ≡ true)
connected-disconnect c h held p g more =
    elim (Reaches-Remains c (connected c (disconnect h)) g more
      (inl (connected-IsStuck c h held p))) [
        | inl s ↦ inl (s.held, λ role. ap (λ x. x.0) (begin_attempt-busy role c g s.held))
        | inr over ↦ inr over
      ]
