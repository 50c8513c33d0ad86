-- ===== src/Lifecycle/Serving.antt =====
-- At most one attempt is served at a time, and none begins after a shutdown.
use transferly.Prelude.{
  ℕ, ◌≡◌, ◌≢◌, refl, ap, sym, ◌∙◌, Bool, true, false, not, ◌||◌, ◌⊎◌, inl, inr, Option, none, some,
  arith, ◌==◌, if◌then◌else◌, is_some, Bool-cases,
}
use transferly.Protocol.{Role}
use transferly.Lifecycle.{
  Phase, connecting, opening, failing, serving, ended, Link, Host, has_address, is_current, update,
  on_link, phase_of, phase_at, enter, is_stopping, add_link, begin_attempt, announce,
  attach_connection, go_on_attached, connected, drop_current, finish_failed, ask_confirmation,
  establish, end_session, stop, stop_current, disconnect, shutdown, Step, begins, withdraws,
  fails_to_dial, connects, asks, fails, fails_to_open, opens, ends, advertises, disconnects,
  shuts_down, Reaches, here, later, start,
}
use transferly.Lifecycle.Links.{
  served_before, not_served, drop_current-links, update-same, update-other, has_address-other,
  rest_of-served,
}

-- What is served is the current attempt, unless the App is closed, and then there is no current attempt.
pub record IsSound (h : Host) : Type 0 where
  pub owner : (c : ℕ) → phase_at c h ≡ some serving → (is_current c h ≡ true) ⊎ (h.closed ≡ true)
  pub over : h.closed ≡ true → h.current ≡ none

-- The current attempt and the shutdown stay as they are.
same_current :
    (h g : Host)
    → g.closed ≡ h.closed
    → g.current ≡ h.current
    → ((c : ℕ) → phase_at c g ≡ some serving → phase_at c h ≡ some serving)
    → IsSound h
    → IsSound g
unfolding has_address
same_current h g closed current served s = record {
  owner = λ c e. ground (arith, s.owner c (served c e));
  over = λ e. ground (arith, s.over);
}

begin_attempt-IsSound : (role : Role) (h : Host) → IsSound h → IsSound (begin_attempt role h).1
unfolding begin_attempt has_address add_link phase_of
begin_attempt-IsSound role h s = elim (Bool-cases (h.closed || is_some h.current)) [
  | inl busy ↦ rw busy s
  | inr free ↦
      rw free
        (record { owner = λ c e. ground (arith, s.owner c); over = λ e. ground (arith, s.over) })
]

on_link-IsSound :
    (c : ℕ) (f : Link → Link) (h : Host)
    → ((l : Link) → (f l).phase ≡ serving → l.phase ≡ serving)
    → IsSound h
    → IsSound (on_link c f h)
on_link-IsSound c f h keeps s =
    same_current h (on_link c f h) refl refl (λ d. served_before c d f h.links keeps) s

-- An attempt that is not served any more leaves.
leave-IsSound :
    (c : ℕ) (f : Link → Link) (h : Host)
    → ((l : Link) → (f l).phase ≢ serving)
    → IsSound h
    → IsSound (on_link c f (drop_current c h))
unfolding has_address
leave-IsSound c f h other s =
    let (links, closed, current) = drop_current-links c h in
    record {
      owner = λ d e. go d links closed current e;
      over = λ e. ground (arith, current, closed, s.over);
    }
  where
    go :
        (d : ℕ)
        → (drop_current c h).links ≡ h.links
        → (drop_current c h).closed ≡ h.closed
        → (drop_current c h).current ≡ (if is_current c h then none else h.current)
        → phase_at d (on_link c f (drop_current c h)) ≡ some serving
        → (has_address d (drop_current c h).current ≡ true) ⊎ ((drop_current c h).closed ≡ true)
    go d links closed current e =
        let e' : phase_of (update c f h.links d) ≡ some serving =
          ap (λ ls. phase_of (update c f ls d)) (sym links) ∙ e in
        elim (Bool-cases (d == c)) [
          | inl this ↦ absurd (
              not_served c f (h.links d) other
                (ap phase_of (sym (update-same c d f h.links this)) ∙ e'))
          | inr that ↦ elim (s.owner d (ap phase_of (sym (update-other c d f h.links that)) ∙ e')) [
            | inl mine ↦
                inl (ap (has_address d) current ∙ has_address-other c d h.current that mine)
            | inr over ↦ inr (closed ∙ over)
          ]
        ]

finish_failed-IsSound : (c : ℕ) (h : Host) → IsSound h → IsSound (finish_failed c h)
unfolding finish_failed
finish_failed-IsSound c h s = leave-IsSound c _ h (λ l. rest_of-served c h) s

end_session-IsSound : (c : ℕ) (h : Host) → IsSound h → IsSound (end_session c h)
unfolding end_session
end_session-IsSound c h s = leave-IsSound c _ h (λ l. rest_of-served c h) s

announce-IsSound :
    (c : ℕ) (available : Bool) (phase : Phase) (h : Host)
    → phase ≢ serving
    → IsSound h
    → IsSound (announce c available phase h)
unfolding announce
announce-IsSound c available phase h other s =
    on_link-IsSound c (enter phase) (record h { available = available }) (λ l e. absurd (other e))
      (record { owner = s.owner; over = s.over })

connected-IsSound : (c : ℕ) (h : Host) → IsSound h → IsSound (connected c h)
unfolding connected attach_connection go_on_attached
connected-IsSound c h s = elim (Bool-cases (not (is_current c h) || h.closed || is_stopping c h)) [
  | inl lost ↦ rw lost (on_link-IsSound c (enter ended) h (λ l e. cc (e)) s)
  | inr fine ↦ rw fine (
      on_link-IsSound c (enter opening) (on_link c (λ l. record l { raw = true }) h) (λ l e. cc (e))
        (on_link-IsSound c (λ l. record l { raw = true }) h (λ l e. e) s))
]

ask_confirmation-IsSound : (c : ℕ) (h : Host) → IsSound h → IsSound (ask_confirmation c h)
unfolding ask_confirmation
ask_confirmation-IsSound c h s = elim (Bool-cases (not (is_current c h) || h.closed)) [
  | inl lost ↦ rw lost (on_link-IsSound c (enter failing) h (λ l e. cc (e)) s)
  | inr fine ↦ rw fine (on_link-IsSound c (λ l. record l { waiting = true }) h (λ l e. e) s)
]

-- The current attempt may be served.
serve-IsSound :
    (c : ℕ) (f : Link → Link) (h : Host)
    → is_current c h ≡ true
    → IsSound h
    → IsSound (on_link c f h)
serve-IsSound c f h this s = record {
  owner = λ d e. elim (Bool-cases (d == c)) [
    | inl this_one ↦
        (let eq : d ≡ c = ground (arith, this_one) in
          inl (ap (λ x. has_address x h.current) eq ∙ this))
    | inr that ↦ s.owner d (ap phase_of (sym (update-other c d f h.links that)) ∙ e)
  ];
  over = s.over;
}

establish-IsSound : (c : ℕ) (h : Host) → IsSound h → IsSound (establish c h)
unfolding establish
establish-IsSound c h s = elim (Bool-cases (not (is_current c h) || h.closed || is_stopping c h)) [
  | inl lost ↦ rw lost (on_link-IsSound c (enter failing) h (λ l e. cc (e)) s)
  | inr fine ↦ rw fine (serve-IsSound c _ h (ground (arith, fine)) s)
]

stop_current-IsSound : (o : Option ℕ) (h : Host) → IsSound h → IsSound (stop_current o h)
unfolding stop_current
stop_current-IsSound none h s = s
stop_current-IsSound (some c) h s = on_link-IsSound c stop h (λ l e. e) s

shutdown-IsSound : (h : Host) → IsSound h → IsSound (shutdown h)
unfolding shutdown
shutdown-IsSound h s = elim (Bool-cases h.closed) [
  | inl over ↦ simp over s
  | inr on ↦ rw on (
      stop_current-IsSound h.current (record h { closed = true; current = none })
        (record { owner = λ c e. inr refl; over = λ e. refl }))
]

Step-IsSound : (h g : Host) → Step h g → IsSound h → IsSound g
unfolding disconnect
Step-IsSound h _ (begins role) s = begin_attempt-IsSound role h s
Step-IsSound h _ (withdraws c p) s = announce-IsSound c false connecting h (λ e. cc (e)) s
Step-IsSound h _ (fails_to_dial c p) s = finish_failed-IsSound c h s
Step-IsSound h _ (connects c p) s = connected-IsSound c h s
Step-IsSound h _ (asks c p) s = ask_confirmation-IsSound c h s
Step-IsSound h _ (fails c p) s = finish_failed-IsSound c h s
Step-IsSound h _ (fails_to_open c p) s = finish_failed-IsSound c h s
Step-IsSound h _ (opens c p) s = establish-IsSound c h s
Step-IsSound h _ (ends c p) s = end_session-IsSound c h s
Step-IsSound h _ (advertises c p) s = announce-IsSound c true ended h (λ e. cc (e)) s
Step-IsSound h _ disconnects s = stop_current-IsSound h.current h s
Step-IsSound h _ shuts_down s = shutdown-IsSound h s

pub Reaches-IsSound : (h g : Host) → Reaches h g → IsSound h → IsSound g
Reaches-IsSound h _ here s = s
Reaches-IsSound h g (later i _ r step) s = Step-IsSound i g step (Reaches-IsSound h i r s)

pub start-IsSound : IsSound start
unfolding phase_of
start-IsSound = record { owner = λ x e. cc (e); over = λ e. refl }

served_alone : (c d : ℕ) (o : Option ℕ) → has_address c o ≡ true → has_address d o ≡ true → c ≡ d
unfolding has_address
served_alone c d none p q = cc
served_alone c d (some x) p q = ground arith

-- Whatever the order in which attempts begin, connect, fail, are established, end, and are disconnected: while
-- the App is not closed at most one attempt is in serveSession, and it is the current one.
pub Reaches-serving :
    (h : Host)
    → Reaches start h
    → h.closed ≡ false
    → (c d : ℕ) → phase_at c h ≡ some serving
    → phase_at d h ≡ some serving
    → (c ≡ d) × (h.current ≡ some c)
unfolding has_address
Reaches-serving h r on c d p q =
    let s = Reaches-IsSound start h r start-IsSound in
    let mine : has_address c h.current ≡ true = ground (arith, on, s.owner c p) in
    let its : has_address d h.current ≡ true = ground (arith, on, s.owner d q) in
    (served_alone c d h.current mine its, named h.current mine)
  where
    named : (o : Option ℕ) → has_address c o ≡ true → o ≡ some c
    named none m = cc
    named (some x) m = let e : x ≡ c = ground (arith, m) in ap (λ y. some y) e
