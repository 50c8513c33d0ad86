-- ===== src/Discovery/Table.antt =====
-- The table of Available Peers.
use transferly.Prelude.{
  ◌≡◌, ◌≢◌, ◌≤◌, true, false, not, ◌||◌, List, [], ◌∷◌, none, some, is_some, ◌==◌, ltb, arith,
  Bytes, same, same_iff, any, length, lookup, insert, delete, lookup-insert, length-drop,
  Option-cases, Bool-cases, inl, inr, subst, ap, ◌∙◌, lookup-delete,
}
use transferly.Text.Utf8.{runes}
use transferly.Discovery.{
  Peer, Event, Manager, apply, lose, found, changed, report, consume, accepted_peer, endpoint,
  is_unspecified, is_multicast, is_control, port_in_range, to4, safe_computer_name, is_known,
}

-- A Peer that may be shown and connected to.
pub record IsAvailable (self : List Bytes) (p : Peer) : Type 0 where
  pub four_bytes : length p.ipv4 ≡ 4
  pub specified : is_unspecified p.ipv4 ≡ false
  pub unicast : is_multicast p.ipv4 ≡ false
  pub reachable : port_in_range p.port ≡ true
  pub named : (length p.computer_name ≢ 0) × (length p.computer_name ≤ 200)
  pub printable : any is_control (runes p.computer_name) ≡ false
  pub other : any (same (endpoint p)) self ≡ false

to4-length : (ip ipv4 : Bytes) → to4 ip ≡ some ipv4 → length ipv4 ≡ 4
unfolding to4
to4-length ip ipv4 h = ground (arith, length-drop 12 ip)

safe_computer_name-safe :
    (candidate name : Bytes)
    → safe_computer_name candidate ≡ some name
    → (length name ≢ 0) × (length name ≤ 200) × (any is_control (runes name) ≡ false)
unfolding safe_computer_name
safe_computer_name-safe candidate name h = ground arith

accepted_peer-IsAvailable :
    (self : List Bytes) (p q : Peer)
    → accepted_peer p ≡ some q
    → any (same (endpoint q)) self ≡ false
    → IsAvailable self q
unfolding accepted_peer
accepted_peer-IsAvailable self p q h o = elim (Option-cases (to4 p.ipv4)) [
  | inl unusable ↦ cc (rw (unusable, accepted_peer) at h)
  | inr (ipv4, usable) ↦
      let h1 = rw (usable, accepted_peer) at h in
      elim (Option-cases (safe_computer_name p.computer_name)) [
        | inl unsafe ↦ cc (rw unsafe at h1)
        | inr (name, safe) ↦
            let h2 = rw safe at h1 in
            let clean = safe_computer_name-safe p.computer_name name safe in
            let wide = to4-length p.ipv4 ipv4 usable in
            elim (Bool-cases
              (is_unspecified ipv4 || is_multicast ipv4 || not (port_in_range p.port))) [
                | inl bad ↦ cc (rw bad at h2)
                | inr good ↦
                    let r : record { computer_name = name; ipv4 = ipv4; port = p.port } ≡ q =
                      cc (rw good at h2) in
                    subst (IsAvailable self) r (record {
                      four_bytes = wide;
                      specified = ground arith;
                      unicast = ground arith;
                      reachable = ground arith;
                      named = (clean.0, clean.1);
                      printable = clean.2;
                      other = ap (λ x. any (same (endpoint x)) self) r ∙ o;
                    })
              ]
      ]
]

-- Every Peer of the table may be shown and connected to, and none is this one.
pub record IsTable (m : Manager) : Type 0 where
  pub at : (id : Bytes) (p : Peer) → lookup id m.peers ≡ some p → IsAvailable m.self p

insert-IsTable :
    (m : Manager) (id : Bytes) (p : Peer)
    → IsTable m
    → IsAvailable m.self p
    → IsTable (record m { peers = insert id p m.peers })
insert-IsTable m id p t a = record {
  at = λ j q h. elim (Bool-cases (same id j)) [
    | inl this ↦
        let e : p ≡ q = cc (h, lookup-insert id j p m.peers, this) in subst (IsAvailable m.self) e a
    | inr another ↦ t.at j q (cc (h, lookup-insert id j p m.peers, another))
  ];
}

changed-IsTable : (m : Manager) → IsTable m → IsTable (changed m)
unfolding changed
changed-IsTable m t = record { at = t.at }

lose-IsTable : (id : Bytes) (m : Manager) → IsTable m → IsTable (lose id m)
unfolding lose
lose-IsTable id m t =
    let left : IsTable (record m { peers = delete id m.peers }) = record {
      at = λ j q h. t.at j q (ground (arith, lookup-delete id j m.peers, h));
    } in
    elim (Bool-cases (is_some (lookup id m.peers))) [
      | inl there ↦ rw (there, lose) (changed-IsTable _ left)
      | inr absent ↦ rw (absent, lose) left
    ]

found-IsTable :
    (id : Bytes) (p : Peer) (m : Manager) → IsTable m → IsTable (found id (accepted_peer p) m)
unfolding found
found-IsTable id p m t = elim (Option-cases (accepted_peer p)) [
  | inl refused ↦ rw (refused, found) t
  | inr (q, taken) ↦
      rw (taken, found)
        (elim (Bool-cases (any (same (endpoint q)) m.self)) [
          | inl own ↦ rw (own, found) t
          | inr other ↦
              let added =
                insert-IsTable m id q t (accepted_peer-IsAvailable m.self p q taken other) in
              rw (other, found)
                (elim (Bool-cases (is_known q (lookup id m.peers))) [
                  | inl known ↦ rw (known, found) added
                  | inr new ↦ rw (new, found) (changed-IsTable _ added)
                ])
        ])
]

-- apply keeps the table of Available Peers fit to show and to connect to, whatever an event carries: each
-- entry has a unicast IPv4 address and a port from 1 to 65535, a name of 1 to 200 bytes without
-- control characters, and an endpoint that is not one of this Peer's own.
apply-IsTable : (e : Event) (m : Manager) → IsTable m → IsTable (apply e m)
unfolding apply
apply-IsTable e m t = elim (Bool-cases (length e.id == 0)) [
  | inl unnamed ↦ rw (unnamed, apply) t
  | inr named ↦
      rw (named, apply)
        (elim (Bool-cases e.lost) [
          | inl lost ↦ rw (lost, apply) (lose-IsTable e.id m t)
          | inr here ↦ rw (here, apply) (found-IsTable e.id e.peer m t)
        ])
]

-- An event changes the entry of its own instance only, and an event with an identifier that says
-- its instance is lost removes that entry.
pub apply-others :
    (e : Event) (m : Manager) (id : Bytes)
    → (id ≢ e.id → lookup id (apply e m).peers ≡ lookup id m.peers)
      × (length e.id ≢ 0 → e.lost ≡ true → lookup e.id (apply e m).peers ≡ none)
unfolding apply lose found changed
apply-others e m id = (
  λ other. elim (Option-cases (accepted_peer e.peer)) [
    | inl refused ↦ ground (arith, refused, lookup-delete e.id id m.peers, same_iff e.id id)
    | inr (q, taken) ↦ ground (
      arith,
      taken,
      lookup-delete e.id id m.peers,
      same_iff e.id id,
      lookup-insert e.id id q m.peers,
    )
  ],
  λ named lost. ground (arith, lookup-delete e.id e.id m.peers, same_iff e.id e.id),
)

report-IsTable : (m : Manager) → IsTable m → IsTable (report m)
unfolding report
report-IsTable m t = elim (Bool-cases (ltb m.errors 8)) [
  | inl room ↦ rw (room, report) (record { at = t.at })
  | inr full ↦ rw (full, report) t
]

-- Over every sequence of events, failures among them, the table stays fit to show.
pub consume-IsTable : (events : List Event) (m : Manager) → IsTable m → IsTable (consume events m)
unfolding consume
consume-IsTable [] m t = t
consume-IsTable (e ∷ events) m t = consume-IsTable events _ (elim (Bool-cases (is_some e.err)) [
  | inl failed ↦ rw failed (report-IsTable m t)
  | inr fine ↦ rw fine (apply-IsTable e m t)
])
