-- ===== src/Lifecycle/Shutdown.antt =====
-- What can still happen after a shutdown.
use transferly.Prelude.{
  ℕ, ◌+◌, ◌≡◌, ◌≢◌, refl, ap, sym, ◌∙◌, true, not, ◌||◌, Option, none, some, arith, if◌then◌else◌,
  is_some, Bool-cases, inl, inr,
}
use transferly.Protocol.{Role}
use transferly.Lifecycle.{
  connecting, failing, serving, ended, Link, Host, is_current, update, on_link, phase_of, phase_at,
  enter, is_stopping, new_link, add_link, begin_attempt, announce, connected, drop_current,
  finish_failed, ask_confirmation, establish, end_session, stop, stop_current, disconnect, shutdown,
  Step, begins, withdraws, fails_to_dial, connects, asks, fails, fails_to_open, opens, ends,
  advertises, disconnects, shuts_down, Reaches, here, later, start,
}
use transferly.Lifecycle.Links.{served_before, drop_current-links, rest_of-served}
use transferly.Lifecycle.Serving.{start-IsSound, Reaches-IsSound}
use transferly.Lifecycle.Ends.{Step-closed, shutdown-closed, connected-lost}

leave-served :
    (c d : ℕ) (f : Link → Link) (h : Host)
    → ((l : Link) → (f l).phase ≢ serving)
    → phase_at d (on_link c f (drop_current c h)) ≡ some serving
    → phase_at d h ≡ some serving
leave-served c d f h other e =
    served_before c d f h.links (λ l x. absurd (other l x))
      (ap (λ ls. phase_of (update c f ls d)) (sym (drop_current-links c h).0) ∙ e)

begin_attempt-refused :
    (role : Role) (h : Host) → h.closed ≡ true → begin_attempt role h ≡ (none, h)
unfolding begin_attempt
begin_attempt-refused role h over =
    ap
      (λ b. if b || is_some h.current then (none, h) else (
        some h.next,
        record h {
          current = some h.next;
          next = h.next + 1;
          links = add_link h.next (new_link role) h.links;
        },
      ))
      over

ask_confirmation-lost :
    (c : ℕ) (h : Host) → h.closed ≡ true → ask_confirmation c h ≡ on_link c (enter failing) h
unfolding ask_confirmation
ask_confirmation-lost c h over =
    let lost : (not (is_current c h) || h.closed) ≡ true = ground (arith, over) in rw lost refl

establish-lost : (c : ℕ) (h : Host) → h.closed ≡ true → establish c h ≡ on_link c (enter failing) h
unfolding establish
establish-lost c h over =
    let lost : (not (is_current c h) || h.closed || is_stopping c h) ≡ true =
      ground (arith, over) in
    rw lost refl

on_link-served :
    (c d : ℕ) (f : Link → Link) (h g : Host)
    → g ≡ on_link c f h
    → ((l : Link) → (f l).phase ≡ serving → l.phase ≡ serving)
    → phase_at d g ≡ some serving
    → phase_at d h ≡ some serving
on_link-served c d f h g same_host keeps e =
    served_before c d f h.links keeps (ap (λ (x : Host). phase_at d x) (sym same_host) ∙ e)

stop_current-served :
    (o : Option ℕ) (d : ℕ) (h : Host)
    → phase_at d (stop_current o h) ≡ some serving
    → phase_at d h ≡ some serving
unfolding stop_current
stop_current-served none d h e = e
stop_current-served (some c) d h e = served_before c d stop h.links (λ l x. x) e

-- Once the App is closed nothing starts to be served.
Step-served :
    (h g : Host) (d : ℕ)
    → Step h g
    → h.closed ≡ true
    → phase_at d g ≡ some serving
    → phase_at d h ≡ some serving
unfolding announce finish_failed end_session disconnect shutdown
Step-served h _ d (begins role) over e =
    ap (λ x. phase_at d x.1) (sym (begin_attempt-refused role h over)) ∙ e
Step-served h _ d (withdraws c p) over e =
    served_before c d (enter connecting) h.links (λ l x. cc (x)) e
Step-served h _ d (fails_to_dial c p) over e = leave-served c d _ h (λ l. rest_of-served c h) e
Step-served h _ d (connects c p) over e =
    on_link-served c d (enter ended) h (connected c h) (connected-lost c h (ground (arith, over)))
      (λ l x. cc (x)) e
Step-served h _ d (asks c p) over e =
    on_link-served c d (enter failing) h (ask_confirmation c h) (ask_confirmation-lost c h over)
      (λ l x. cc (x)) e
Step-served h _ d (fails c p) over e = leave-served c d _ h (λ l. rest_of-served c h) e
Step-served h _ d (fails_to_open c p) over e = leave-served c d _ h (λ l. rest_of-served c h) e
Step-served h _ d (opens c p) over e =
    on_link-served c d (enter failing) h (establish c h) (establish-lost c h over) (λ l x. cc (x)) e
Step-served h _ d (ends c p) over e = leave-served c d _ h (λ l. rest_of-served c h) e
Step-served h _ d (advertises c p) over e =
    served_before c d (enter ended) h.links (λ l x. cc (x)) e
Step-served h _ d disconnects over e = stop_current-served h.current d h e
Step-served h _ d shuts_down over e =
    ap
      (λ b.
        phase_at d
          (if b then h else stop_current h.current (record h { closed = true; current = none })))
      (sym over)
    ∙ e

Reaches-closed :
    (h g : Host) (d : ℕ)
    → Reaches h g
    → h.closed ≡ true
    → (g.closed ≡ true) × (phase_at d g ≡ some serving → phase_at d h ≡ some serving)
Reaches-closed h _ d here over = (over, λ e. e)
Reaches-closed h g d (later i _ more step) over =
    let (closed, served) = Reaches-closed h i d more over in
    (Step-closed i g step closed, λ e. served (Step-served i g d step closed e))

shutdown-served :
    (d : ℕ) (h : Host) → phase_at d (shutdown h) ≡ some serving → phase_at d h ≡ some serving
unfolding shutdown
shutdown-served d h e = elim (Bool-cases h.closed) [
  | inl over ↦
      ap
        (λ b.
          phase_at d
            (if b then h else stop_current h.current (record h { closed = true; current = none })))
        (sym over)
      ∙ e
  | inr on ↦
      stop_current-served h.current d (record h { closed = true; current = none })
        (ap
            (λ b. phase_at d (
              if b then h else stop_current h.current (record h { closed = true; current = none })))
            (sym on)
          ∙ e)
]

-- After a shutdown, and whatever the attempts that are under way still do: the App stays closed, has no
-- current attempt, begins none, and serves none that was not served before.
pub shutdown-Reaches :
    (h g : Host)
    → Reaches start h
    → Reaches (shutdown h) g
    → (g.closed ≡ true)
      × (g.current ≡ none)
      × ((role : Role) → (begin_attempt role g).0 ≡ none)
      × ((c : ℕ) → phase_at c g ≡ some serving → phase_at c h ≡ some serving)
shutdown-Reaches h g before after =
    let sound =
      Reaches-IsSound (shutdown h) g after (
        Reaches-IsSound start (shutdown h) (later h (shutdown h) before shuts_down)
          start-IsSound) in
    let closed = (Reaches-closed (shutdown h) g 0 after (shutdown-closed h)).0 in
    (
      closed,
      sound.over closed,
      λ role. ap (λ x. x.0) (begin_attempt-refused role g closed),
      λ c e. shutdown-served c h ((Reaches-closed (shutdown h) g c after (shutdown-closed h)).1 e),
    )
