-- ===== src/Discovery/Availability.antt =====
-- This Peer's own advertisement.
use transferly.Prelude.{
  ℕ, ◌≡◌, Bool, true, false, not, ◌||◌, List, [], ◌∷◌, Option, none, some, arith, Option-cases,
  Bool-cases, inl, inr, ◌∙◌,
}
use transferly.Discovery.{Manager, set_available, withdraw, advertise, without, same_bool, report}

-- The one registration that is not closed, if any.
abbrev pub listed : Option ℕ → List ℕ
listed none = []
listed (some r) = r ∷ []

-- The advertisement is what the manager's fields say: at most one is live, and only while available.
pub record IsAdvertised (m : Manager) : Type 0 where
  pub only_own : m.live ≡ listed m.registration
  pub while_available : m.available ≡ false → m.registration ≡ none

withdraw-nothing :
    (m : Manager)
    → m.live ≡ listed m.registration
    → ((withdraw m).live ≡ []) × ((withdraw m).registration ≡ none)
unfolding withdraw without
withdraw-nothing m h = elim (Option-cases m.registration) [
  | inl nothing ↦ ground (arith, h, nothing)
  | inr (r, one) ↦ ground (arith, h, one)
]

nothing-IsAdvertised : (m : Manager) → m.live ≡ [] → m.registration ≡ none → IsAdvertised m
nothing-IsAdvertised m l r = record { only_own = ground (arith, l, r); while_available = λ _. r }

advertise-IsAdvertised :
    (advertised done_after : Bool) (m : Manager)
    → m.live ≡ []
    → m.registration ≡ none
    → m.available ≡ true
    → IsAdvertised (advertise advertised done_after m)
unfolding advertise report
advertise-IsAdvertised advertised done_after m l r a = record {
  only_own = ground (arith, l, r, a);
  while_available = λ h. ground (arith, l, r, a, h);
}

withdraw-available : (m : Manager) → (withdraw m).available ≡ m.available
unfolding withdraw
withdraw-available m = ground arith

-- SetAvailable never leaves a second advertisement behind, and none when it is told that this Peer is not
-- available: whatever Advertise answers and whenever the context is done, every registration that
-- is not the current one is closed.
pub set_available-IsAdvertised :
    (available done advertised done_after : Bool) (m : Manager)
    → IsAdvertised m
    → IsAdvertised (set_available available done advertised done_after m)
unfolding set_available
set_available-IsAdvertised available done advertised done_after m a =
    let told = record m { available = available } in
    let w = withdraw-nothing told a.only_own in
    elim (Bool-cases (not m.started || same_bool m.available available)) [
      | inl skipped ↦ rw (skipped, set_available) a
      | inr goes_on ↦
          rw (goes_on, set_available)
            (elim (Bool-cases (not available || done)) [
              | inl over ↦ rw (over, set_available) (nothing-IsAdvertised (withdraw told) w.0 w.1)
              | inr open_for ↦
                  rw (open_for, set_available)
                    (advertise-IsAdvertised advertised done_after (withdraw told) w.0 w.1
                      (withdraw-available told ∙ ground arith))
            ])
    ]
