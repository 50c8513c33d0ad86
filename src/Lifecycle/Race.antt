-- ===== src/Lifecycle/Race.antt =====
-- The end of one attempt and the beginning of the next, with their advertisements.
use transferly.Prelude.{
  ℕ, ◌+◌, ◌≡◌, ◌<◌, refl, sym, ap, subst, ◌∙◌, true, false, not, ◌&&◌, ◌||◌, none, some, arith,
  if◌then◌else◌, is_some,
}
use transferly.Protocol.{Role}
use transferly.Lifecycle.{
  beginning, connecting, serving, departing, ended, Link, Host, has_address, is_current, update,
  on_link, phase_of, phase_at, enter, new_link, add_link, begin_attempt, announce, drop_current,
  rest_of, end_session, Step, begins, withdraws, ends, advertises, Reaches, here, later,
}
use transferly.Lifecycle.Links.{update-same, update-other}
use transferly.Lifecycle.Ends.{phase_entered}

abbrev left_link : Link → Link
left_link l = record l { canceled = true; phase = departing }

abbrev ended_host : ℕ → Host → Host
ended_host c h = record h { current = none; links = update c left_link h.links }

end_session-current :
    (c : ℕ) (h : Host) → h.current ≡ some c → h.closed ≡ false → end_session c h ≡ ended_host c h
unfolding end_session drop_current rest_of has_address
end_session-current c h held on =
    let this : is_current c h ≡ true = ground (arith, held) in
    let leaving : (is_current c h && not h.closed) ≡ true = ground (arith, this, on) in
    ap
      (λ b.
        on_link c (λ l. record l { canceled = true; phase = if b then departing else ended })
          (drop_current c h))
      leaving
    ∙ ap (λ b. on_link c left_link (if b then record h { current = none } else h)) this

abbrev begun_host : Role → Host → Host
begun_host role h = record h {
  current = some h.next;
  next = h.next + 1;
  links = add_link h.next (new_link role) h.links;
}

begin_attempt-free :
    (role : Role) (h : Host)
    → h.current ≡ none
    → h.closed ≡ false
    → begin_attempt role h ≡ (some h.next, begun_host role h)
unfolding begin_attempt
begin_attempt-free role h idle on =
    let free : (h.closed || is_some h.current) ≡ false = ground (arith, idle, on) in
    ap (λ b. if b then (none, h) else (some h.next, begun_host role h)) free

-- From a host whose current attempt is served there is an order of the steps in which a host is reached that
-- is advertised as available while it has a current attempt: the first attempt ends, the next one begins and
-- withdraws the advertisement, and the first then advertises again, which was left to do at its end. The next
-- attempt is current and connecting there, and the first one has ended.
pub announce-end_session :
    (role : Role) (c : ℕ) (h : Host)
    → h.current ≡ some c
    → h.closed ≡ false
    → phase_at c h ≡ some serving
    → c < h.next
    → (g : Host) × Reaches h g
      × (g
          ≡ announce c true ended
              (announce h.next false connecting (begin_attempt role (end_session c h)).1))
      × (g.available ≡ true)
      × (g.current ≡ some h.next)
      × (phase_at h.next g ≡ some connecting)
      × (phase_at c g ≡ some ended)
unfolding announce
announce-end_session role c h held on p old =
    let n = h.next in
    let h1 = ended_host c h in
    let h2 = begun_host role h1 in
    let h3 = announce n false connecting h2 in
    let h4 = announce c true ended h3 in
    let begun : phase_at n h2 ≡ some beginning = unfold add_link phase_of in ground arith in
    let left : phase_at c h1 ≡ some departing =
      ap phase_of (update-same c c left_link h.links (ground arith))
      ∙ phase_entered left_link (h.links c) serving departing p (λ l. refl) in
    let links : h2.links c ≡ h1.links c = unfold add_link in ground arith in
    let kept : phase_at c h3 ≡ some departing =
      ap phase_of (update-other n c (enter connecting) h2.links (ground arith))
      ∙ ap phase_of links
      ∙ left in
    (
      h4,
      later h3 h4
          (later h2 h3
            (later h1 h2
              (later h h1 here (subst (Step h) (end_session-current c h held on) (ends c p)))
              (subst (λ x. Step h1 x.1) (begin_attempt-free role h1 refl on) (begins role)))
            (withdraws n begun))
          (advertises c kept),
      ap (λ x. announce c true ended (announce n false connecting x))
          (ap (λ x. x.1) (sym (begin_attempt-free role h1 refl on))
            ∙ ap (λ x. (begin_attempt role x).1) (sym (end_session-current c h held on))),
      refl,
      refl,
      ap phase_of (update-other c n (enter ended) h3.links (ground arith))
          ∙ ap phase_of (update-same n n (enter connecting) h2.links (ground arith))
          ∙ phase_entered (enter connecting) (h2.links n) beginning connecting begun (λ l. refl),
      ap phase_of (update-same c c (enter ended) h3.links (ground arith))
          ∙ phase_entered (enter ended) (h3.links c) departing ended kept (λ l. refl),
    )
