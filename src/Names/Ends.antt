-- ===== src/Names/Ends.antt =====
-- The search for a free name ends.
use transferly.Prelude.{
  ℕ, zero, suc, ◌-◌, ◌≡◌, ◌≢◌, ◌≤◌, ◌<◌, refl, ap, sym, ◌∙◌, true, ◌⊎◌, inl, inr, List, [], ◌∷◌,
  ◌++◌, map, Bytes, codes, same, same_iff, arith, if◌then◌else◌, length, length-append, length-take,
  any, Dict, insert, Result, ok, fail, ◌>>=◌, reject_if, Bool-cases,
}
use transferly.Text.FilePath.{FilePath, join_path}
use transferly.Safety.{
  PathError, BeneathError, validate_manifest_path, validate_windows_component, ensure_path_beneath,
  contains,
}
use transferly.Session.Code.{decimal, value_of, decimal-value}
use transferly.Names.{
  NameError, separator, endless, extension, stem, candidate, checked, below, find_name,
  resolve_final_name, resolve_roots, resolve_incoming_paths,
}

cancel_front : (k s t : Bytes) → k ++ s ≡ k ++ t → s ≡ t
cancel_front [] s t e = e
cancel_front (c ∷ k) s t e = cancel_front k s t (cc (e))

cancel_end : (s t k : Bytes) → s ++ k ≡ t ++ k → s ≡ t
cancel_end [] [] k e = refl
cancel_end [] (b ∷ t) k e = let size = ap length e ∙ length-append (b ∷ t) k in absurd (omega arith)
cancel_end (a ∷ s) [] k e =
    let size = sym (length-append (a ∷ s) k) ∙ ap length e in absurd (omega arith)
cancel_end (a ∷ s) (b ∷ t) k e =
    let heads : a ≡ b = cc (e) in
    let tails : s ++ k ≡ t ++ k = cc (e) in let rest = cancel_end s t k tails in cc (heads, rest)

decimal-injective : (m n : ℕ) → decimal (suc m) m ≡ decimal (suc n) n → m ≡ n
decimal-injective m n e =
    sym (decimal-value (suc m) m (omega arith))
    ∙ ap (value_of 0) e
    ∙ decimal-value (suc n) n (omega arith)

numbered-longer : (name : Bytes) (n : ℕ) → name ≢ candidate name (suc n)
unfolding candidate stem
numbered-longer name n e =
    let s = stem name in
    let x = extension name in
    let d = decimal (suc (suc n)) (suc n) in
    let cut = length-take (length name - length x) name in
    let whole = ap length e in
    let l₁ = length-append (s ++ codes " (" ++ d ++ codes ")") x in
    let l₂ = length-append (s ++ codes " (" ++ d) (codes ")") in
    let l₃ = length-append (s ++ codes " (") d in
    let l₄ = length-append s (codes " (") in
    let l₅ : length (codes " (") ≡ 2 = refl in ground (arith, cut, whole, l₁, l₂, l₃, l₄, l₅)

candidate-injective : (name : Bytes) (m n : ℕ) → candidate name m ≡ candidate name n → m ≡ n
unfolding candidate
candidate-injective name zero zero e = refl
candidate-injective name zero (suc n) e = absurd (numbered-longer name n e)
candidate-injective name (suc m) zero e = absurd (numbered-longer name m (sym e))
candidate-injective name (suc m) (suc n) e =
    let d = decimal (suc (suc m)) (suc m) in
    let f = decimal (suc (suc n)) (suc n) in
    let s = stem name ++ codes " (" in
    let closed : s ++ d ++ codes ")" ≡ s ++ f ++ codes ")" =
      cancel_end (s ++ d ++ codes ")") (s ++ f ++ codes ")") (extension name) e in
    let same_digits : d ≡ f =
      cancel_front s d f (cancel_end (s ++ d) (s ++ f) (codes ")") closed) in
    decimal-injective (suc m) (suc n) same_digits

-- The names but one.
without : Bytes → List Bytes → List Bytes
without k [] = []
without k (x ∷ xs) = let rest = without k xs in if same k x then rest else x ∷ rest

length-without : (k : Bytes) (xs : List Bytes) → length (without k xs) ≤ length xs
unfolding without
length-without k [] = omega arith
length-without k (x ∷ xs) = ground (arith, length-without k xs)

without-shorter :
    (k : Bytes) (xs : List Bytes) → any (same k) xs ≡ true → length (without k xs) < length xs
unfolding without
without-shorter k [] h = cc
without-shorter k (x ∷ xs) h = ground (arith, without-shorter k xs, length-without k xs)

any-without :
    (k j : Bytes) (xs : List Bytes)
    → k ≢ j
    → any (same j) xs ≡ true
    → any (same j) (without k xs) ≡ true
unfolding without
any-without k j [] other h = cc
any-without k j (x ∷ xs) other h =
    ground (arith, any-without k j xs other, same_iff k x, same_iff j x)

bind-endless :
    {A B : Type 0} (r : Result NameError A) (next : A → Result NameError B)
    → (r >>= next) ≡ fail endless
    → (r ≡ fail endless) ⊎ ((x : A) × (next x ≡ fail endless))
bind-endless (ok x) next h = inr (x, h)
bind-endless (fail e) next h =
    inl (let same_error : e ≡ endless = cc (h) in ap (λ y. fail y) same_error)

checked-endless : (r : Result PathError (Unit {0})) → checked r ≢ fail endless
unfolding checked
checked-endless (ok u) h = cc
checked-endless (fail e) h = cc

below-endless : (r : Result BeneathError (Unit {0})) → below r ≢ fail endless
unfolding below
below-endless (ok u) h = cc
below-endless (fail e) h = cc

-- Folding tells the candidates of a name apart.
pub record KeepsApart (key : Bytes → Bytes) : Type 0 where
  pub candidates :
      (name : Bytes) (m n : ℕ)
      → key (candidate name m) ≡ key (candidate name n)
      → candidate name m ≡ candidate name n

module _ (key : Bytes → Bytes) (keeps : KeepsApart key) (destination : FilePath) where
  find_name-endless :
      (fuel suffix : ℕ) (name : Bytes) (reserved rest : List Bytes)
      → ((n : ℕ)
          → suffix ≤ n
          → any (same (key (candidate name n))) reserved ≡ true
          → any (same (key (candidate name n))) rest ≡ true)
      → length rest < fuel
      → find_name key destination fuel suffix name reserved ≢ fail endless
  unfolding find_name
  find_name-endless zero suffix name reserved rest covers enough h = omega arith
  find_name-endless (suc fuel) suffix name reserved rest covers enough h =
      let k = key (candidate name suffix) in
      elim (bind-endless (checked (validate_windows_component (candidate name suffix))) _ h) [
        | inl bad ↦ checked-endless _ bad
        | inr (_, h₁) ↦
            elim (bind-endless
              (below
                (ensure_path_beneath destination (join_path destination (candidate name suffix))))
              _ h₁) [
                | inl bad ↦ below-endless _ bad
                | inr (_, h₂) ↦ elim (Bool-cases (any (same k) reserved)) [
                  | inr free ↦
                      (let e : ok (candidate name suffix) ≡ fail endless =
                          ap
                            (λ b.
                              if b
                              then find_name key destination fuel (suc suffix) name reserved
                              else ok (candidate name suffix))
                            (sym free)
                          ∙ h₂ in
                        cc (e))
                  | inl taken ↦
                      let later =
                        ap
                          (λ b.
                            if b
                            then find_name key destination fuel (suc suffix) name reserved
                            else ok (candidate name suffix))
                          (sym taken)
                        ∙ h₂ in
                      let shorter = without-shorter k rest (covers suffix (omega arith) taken) in
                      find_name-endless fuel (suc suffix) name reserved (without k rest)
                        (λ n past there.
                          any-without k (key (candidate name n)) rest
                            (λ e.
                              let x =
                                candidate-injective name suffix n
                                  (keeps.candidates name suffix n e) in
                              omega arith)
                            (covers n (omega arith) there))
                        (omega arith) later
                ]
              ]
      ]

  resolve_final_name-endless :
      (name : Bytes) (reserved : List Bytes)
      → resolve_final_name key destination name reserved ≢ fail endless
  unfolding resolve_final_name
  resolve_final_name-endless name reserved h =
      elim (bind-endless (checked (validate_manifest_path name)) _ h) [
        | inl bad ↦ checked-endless _ bad
        | inr (_, h₁) ↦ elim (bind-endless (reject_if (contains name b'/') separator) _ h₁) [
          | inl bad ↦ elim (Bool-cases (contains name b'/')) [
            | inl slash ↦
                (let e : fail separator ≡ fail endless =
                    ap (λ b. reject_if b separator) (sym slash) ∙ bad in
                  cc (e))
            | inr plain ↦
                (let e : ok tt ≡ fail endless = ap (λ b. reject_if b separator) (sym plain) ∙ bad in
                  cc (e))
          ]
          | inr (_, h₂) ↦
              find_name-endless (suc (length reserved)) 0 name reserved reserved
                (λ n p there. there) (omega arith) h₂
        ]
      ]

  resolve_roots-endless :
      (roots reserved : List Bytes) (paths : Dict FilePath)
      → resolve_roots key destination roots reserved paths ≢ fail endless
  unfolding resolve_roots
  resolve_roots-endless [] reserved paths h = cc
  resolve_roots-endless (root ∷ roots) reserved paths h =
      elim (bind-endless (resolve_final_name key destination root reserved) _ h) [
        | inl bad ↦ resolve_final_name-endless root reserved bad
        | inr (name, h₁) ↦
            resolve_roots-endless roots (key name ∷ reserved)
              (insert (key root) (join_path destination name) paths) h₁
      ]

  -- Folding tells the numbered candidates of a name apart. Then the search for a free name ends for every
  -- root, however many names are taken: resolveIncomingPaths never runs out of the rounds it is given.
  pub resolve_incoming_paths-endless :
      (roots standing : List Bytes)
      → resolve_incoming_paths key destination roots standing ≢ fail endless
  unfolding resolve_incoming_paths
  resolve_incoming_paths-endless roots standing h =
      elim (bind-endless (resolve_roots key destination roots (map key standing) []) _ h) [
        | inl bad ↦ resolve_roots-endless roots (map key standing) [] bad
        | inr (_, h₁) ↦ cc (h₁)
      ]
